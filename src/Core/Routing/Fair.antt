-- ===== src/Core/Routing/Fair.antt =====
-- What the handlers of tom-notifier-core/src/routing.rs have to announce to other programs, and what
-- the services leave them to announce.
use Prim.Native.String.{String}
use tom_notifier.Base.{ap, ℕ, ◌≡◌, refl, false, List, [], ◌∷◌, map, Option, none, some, Result}
use tom_notifier.Auth.{User}
use tom_notifier.Core.Types.{
  InputNotification, Pagination, NotificationFilters, Repository, Error, RepositoryError,
  InsertedNotification, StoredNotification, OutputNotification, notification_not_exist, database,
}
use tom_notifier.Core.Producer.{External, Produced, send_new, send_updated, send_deleted}
use tom_notifier.Core.Service.{
  Left, output, validate_save_notification, validate_invalidate_at_not_passed, saved, confirmed,
  announce, save_notification, find_delivered_notifications, find_delivered_notification,
  update_notification_invalidate_at,
}
use tom_notifier.Core.Routing.{
  Request, post_notifications_undelivered, get_notifications_undelivered,
  put_notifications_undelivered_invalidate_at, get_notifications_delivered,
  get_notification_delivered, delete_notification_delivered, put_notification_delivered_seen, Body,
  empty, notification_id, notification, notifications,
}

module _ {Db : Type 0} (x : External) (r : Repository Db) (now created_at : ℕ) (user : User)
    (db : Db) where
  -- What a request that succeeds has to announce, given the body of its answer.
  abbrev pub Announces : Request → Body → List Produced → Type 0
  Announces (post_notifications_undelivered n) body produced =
      (s : InsertedNotification) × (body ≡ notification_id (x.to_hex s.id))
      × (produced
          ≡ send_new x s.user_ids s.id s.created_at s.producer_id false s.content_type s.content
            ∷ [])
      × ((r.insert n.user_ids created_at n.invalidate_at user.id n.producer_notification_id
            n.content_type n.content db).1
          ≡ Result.ok s)
  Announces (delete_notification_delivered id) body produced =
      (produced ≡ send_deleted x user.id id now ∷ []) × ((r.delete id user.id db).1 ≡ Result.ok tt)
  Announces (put_notification_delivered_seen id seen) body produced =
      (produced ≡ send_updated x user.id id seen now ∷ [])
      × ((r.update_confirmation_seen id user.id seen db).1 ≡ Result.ok tt)
  Announces (put_notifications_undelivered_invalidate_at id invalidate_at) body produced =
      (produced ≡ []) × ((r.update_invalidate_at id user.id invalidate_at db).1 ≡ Result.ok tt)
  Announces _ body produced = produced ≡ []

module _ {Db : Type 0} (x : External) (r : Repository Db) (now created_at : ℕ) (user : User)
    (db : Db) (request : Request) where
  -- A result and the messages that belong to it.
  abbrev pub Fair : {A : Type 0} → (A → Body) → List Produced → Result A Error → Type 0
  Fair body produced (Result.ok a) = Announces x r now created_at user db request (body a) produced
  Fair body produced (Result.err e) = produced ≡ []

module _ {Db : Type 0} (x : External) (r : Repository Db) (now created_at : ℕ) (user : User)
    (db : Db) where
  saved-Fair :
      (n : InputNotification) (inserted : Db × Result InsertedNotification RepositoryError)
      → (r.insert n.user_ids created_at n.invalidate_at user.id n.producer_notification_id
          n.content_type n.content db)
        ≡ inserted
      → let l = saved x r inserted in
        Fair x r now created_at user db
          (post_notifications_undelivered n)
          notification_id
          l.produced
          l.result
  unfolding saved
  saved-Fair n (db', Result.err e) h = refl
  saved-Fair n (db', Result.ok s) h = (s, refl, refl, ap (λ p. p.1) h)

  pub save-Fair :
      (max_content_len : ℕ) (n : InputNotification)
      → let l = save_notification x r max_content_len now created_at user.id n db in
        Fair x r now created_at user db
          (post_notifications_undelivered n)
          notification_id
          l.produced
          l.result
  unfolding save_notification
  save-Fair max_content_len n = at (validate_save_notification max_content_len now n)
    where
      inserted : Db × Result InsertedNotification RepositoryError
      inserted =
          r.insert n.user_ids created_at n.invalidate_at user.id n.producer_notification_id
            n.content_type n.content db

      at :
          (valid : Result (Unit {0}) Error)
          → let l : Left Db String = elim valid [
            | Result.err e ↦ record { db = db; produced = []; result = Result.err e }
            | Result.ok _ ↦ saved x r inserted
          ] in
            Fair x r now created_at user db
              (post_notifications_undelivered n)
              notification_id
              l.produced
              l.result
      at (Result.err e) = refl
      at (Result.ok _) = saved-Fair n inserted refl

  pub confirmed-Fair :
      (found : Result (List StoredNotification) RepositoryError) (db' : Db)
      → let l = confirmed x r user.id found db' in
        Fair x r now created_at user db get_notifications_undelivered notifications l.produced
          l.result
  unfolding confirmed
  confirmed-Fair (Result.err e) db' = refl
  confirmed-Fair (Result.ok []) db' = refl
  confirmed-Fair (Result.ok (n ∷ found)) db' =
      at (r.insert_many_confirmations (map (λ m. m.id) (n ∷ found)) user.id db')
    where
      at :
          (inserted : Db × Result (Unit {0}) RepositoryError)
          → let l : Left Db (List OutputNotification) = elim inserted.1 [
            | Result.err e ↦ record {
              db = inserted.0;
              produced = [];
              result = Result.err (database e);
            }
            | Result.ok _ ↦ record {
              db = inserted.0;
              produced = [];
              result = Result.ok (map (output x) (n ∷ found));
            }
          ] in
            Fair x r now created_at user db get_notifications_undelivered notifications l.produced
              l.result
      at (db'', Result.err e) = refl
      at (db'', Result.ok _) = refl

  pub announce-Fair :
      (request : Request) (update : Db × Result (Unit {0}) RepositoryError)
      (messages : List Produced)
      → (update.1 ≡ Result.ok tt → Announces x r now created_at user db request empty messages)
      → let l = announce x r update messages in
        Fair x r now created_at user db request (λ _. empty) l.produced l.result
  announce-Fair request (db', Result.err e) messages h = refl
  announce-Fair request (db', Result.ok _) messages h = h refl

  pub invalidate-Fair :
      (id : ℕ) (invalidate_at : Option ℕ)
      → let l = update_notification_invalidate_at x r now id user.id invalidate_at db in
        Fair x r now created_at user db
          (put_notifications_undelivered_invalidate_at id invalidate_at)
          (λ _. empty)
          l.produced
          l.result
  unfolding update_notification_invalidate_at
  invalidate-Fair id invalidate_at = at (validate_invalidate_at_not_passed now invalidate_at)
    where
      at :
          (valid : Result (Unit {0}) Error)
          → let l : Left Db (Unit {0}) = elim valid [
            | Result.err e ↦ record { db = db; produced = []; result = Result.err e }
            | Result.ok _ ↦ announce x r (r.update_invalidate_at id user.id invalidate_at db) []
          ] in
            Fair x r now created_at user db
              (put_notifications_undelivered_invalidate_at id invalidate_at)
              (λ _. empty)
              l.produced
              l.result
      at (Result.err e) = refl
      at (Result.ok _) =
          announce-Fair (put_notifications_undelivered_invalidate_at id invalidate_at)
            (r.update_invalidate_at id user.id invalidate_at db) [] (λ stored. (refl, stored))

  pub delivered-Fair :
      (pagination : Pagination) (filters : NotificationFilters)
      → let l = find_delivered_notifications x r user.id pagination filters db in
        Fair x r now created_at user db
          (get_notifications_delivered pagination filters)
          notifications
          l.produced
          l.result
  unfolding find_delivered_notifications
  delivered-Fair pagination filters = at (r.find_many_delivered user.id pagination filters db)
    where
      at :
          (found : Result (List StoredNotification) RepositoryError)
          → let l : Left Db (List OutputNotification) = elim found [
            | Result.err e ↦ record { db = db; produced = []; result = Result.err (database e) }
            | Result.ok found' ↦ record {
              db = db;
              produced = [];
              result = Result.ok (map (output x) found');
            }
          ] in
            Fair x r now created_at user db
              (get_notifications_delivered pagination filters)
              notifications
              l.produced
              l.result
      at (Result.err e) = refl
      at (Result.ok found') = refl

  pub one-Fair :
      (id : ℕ)
      → let l = find_delivered_notification x r id user.id db in
        Fair x r now created_at user db
          (get_notification_delivered id)
          notification
          l.produced
          l.result
  unfolding find_delivered_notification
  one-Fair id = at (r.find_delivered id user.id db)
    where
      at :
          (found : Result (Option StoredNotification) RepositoryError)
          → let l : Left Db OutputNotification = elim found [
            | Result.err e ↦ record { db = db; produced = []; result = Result.err (database e) }
            | Result.ok none ↦ record {
              db = db;
              produced = [];
              result = Result.err notification_not_exist;
            }
            | Result.ok (some n) ↦ record {
              db = db;
              produced = [];
              result = Result.ok (output x n);
            }
          ] in
            Fair x r now created_at user db
              (get_notification_delivered id)
              notification
              l.produced
              l.result
      at (Result.err e) = refl
      at (Result.ok none) = refl
      at (Result.ok (some n)) = refl
