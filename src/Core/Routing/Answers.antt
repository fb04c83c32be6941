-- ===== src/Core/Routing/Answers.antt =====
-- What the handlers of tom-notifier-core/src/routing.rs announce to other programs, and what they
-- answer.
use tom_notifier.Base.{ℕ, ◌≤◌, ◌<◌, ◌≡◌, ◌⊎◌, refl, inl, inr, List, [], ◌∷◌, arith, Result}
use tom_notifier.Auth.{User, MissingRoleError, require_all_roles}
use tom_notifier.Core.Types.{
  Repository, into_response, Error, notification_not_exist, validation, notification_already_saved,
  validation_notification_too_large, auth, database,
}
use tom_notifier.Core.Producer.{External, Produced, send_updated, send_deleted}
use tom_notifier.Core.Service.{
  find_undelivered_notifications, delete_notification, update_notification_seen,
}
use tom_notifier.Core.Routing.{
  Request, post_notifications_undelivered, get_notifications_undelivered,
  put_notifications_undelivered_invalidate_at, get_notifications_delivered,
  get_notification_delivered, delete_notification_delivered, put_notification_delivered_seen,
  Response, Body, empty, notification_id, notification, notifications, produce_notifications,
  answer, for_producers, handle,
}
use tom_notifier.Core.Routing.Fair.{
  Announces, Fair, save-Fair, confirmed-Fair, announce-Fair, invalidate-Fair, delivered-Fair,
  one-Fair,
}

error-status : (e : Error) → 400 ≤ into_response e
unfolding into_response
error-status notification_not_exist = omega arith
error-status (validation text) = omega arith
error-status (validation_notification_too_large size max_size) = omega arith
error-status notification_already_saved = omega arith
error-status (auth e) = omega arith
error-status (database e) = omega arith

module _ {Db : Type 0} (x : External) (r : Repository Db) (now created_at : ℕ) (user : User)
    (db : Db) (request : Request) where
  -- A request that fails announces nothing; one that succeeds announces what it has to.
  abbrev pub Answered : Response Db → Type 0
  Answered a =
      ((400 ≤ a.status) × (a.produced ≡ []))
      ⊎ ((a.status < 300) × Announces x r now created_at user db request a.body a.produced)

  answer-Answered :
      {A : Type 0} (db' : Db) (produced : List Produced) (status : ℕ) (body : A → Body)
      (result : Result A Error)
      → status < 300
      → Fair x r now created_at user db request body produced result
      → Answered (answer db' produced status body result)
  answer-Answered db' produced status body (Result.ok a) h fair = inr (h, fair)
  answer-Answered db' produced status body (Result.err e) h fair = inl (error-status e, fair)

  for_producers-Answered :
      (response : Response Db) → Answered response → Answered (for_producers user db response)
  for_producers-Answered response h = at (require_all_roles user (produce_notifications ∷ []))
    where
      at :
          (checked : Result (Unit {0}) MissingRoleError)
          → Answered (elim checked [
            | Result.ok _ ↦ response
            | Result.err e ↦ record {
              db = db;
              produced = [];
              status = into_response (auth e);
              body = empty;
            }
          ])
      at (Result.ok _) = h
      at (Result.err e) = inl (error-status (auth e), refl)

module _ {Db : Type 0} (x : External) (r : Repository Db) (now created_at : ℕ) (user : User)
    (db : Db) where
  -- Every request is answered in one of two ways: with an error status, and then no other program is
  -- told anything; or with a success status, and then the repository has made the change that was
  -- asked for, and exactly this change is announced: a new notification as the repository stored it,
  -- to the users stored with it and under the id in the answer, the deletion or the new value of seen
  -- to the user, and nothing for the requests that only read or that move the end of validity.
  pub handle-Answered :
      (max_content_len : ℕ) (meanwhile : Db → Db) (request : Request)
      → Answered x r now created_at user db request
          (handle x r max_content_len now created_at meanwhile request user db)
  unfolding handle delete_notification update_notification_seen find_undelivered_notifications
  handle-Answered max_content_len meanwhile (post_notifications_undelivered n) =
      let request = post_notifications_undelivered n in
      for_producers-Answered x r now created_at user db request _ (
        answer-Answered x r now created_at user db request _ _ 200 notification_id _ (omega arith)
          (save-Fair x r now created_at user db max_content_len n))
  handle-Answered max_content_len meanwhile get_notifications_undelivered =
      answer-Answered x r now created_at user db get_notifications_undelivered _ _ 200 notifications
        _ (omega arith)
        (confirmed-Fair x r now created_at user db (r.find_many_undelivered user.id db)
          (meanwhile db))
  handle-Answered max_content_len meanwhile
        (put_notifications_undelivered_invalidate_at id invalidate_at) =
      let request = put_notifications_undelivered_invalidate_at id invalidate_at in
      for_producers-Answered x r now created_at user db request _ (
        answer-Answered x r now created_at user db request _ _ 204 (λ _. empty) _ (omega arith)
          (invalidate-Fair x r now created_at user db id invalidate_at))
  handle-Answered max_content_len meanwhile (get_notifications_delivered pagination filters) =
      answer-Answered x r now created_at user db (get_notifications_delivered pagination filters) _
        _ 200 notifications _ (omega arith)
        (delivered-Fair x r now created_at user db pagination filters)
  handle-Answered max_content_len meanwhile (get_notification_delivered id) =
      answer-Answered x r now created_at user db (get_notification_delivered id) _ _ 200
        notification _ (omega arith) (one-Fair x r now created_at user db id)
  handle-Answered max_content_len meanwhile (delete_notification_delivered id) =
      answer-Answered x r now created_at user db (delete_notification_delivered id) _ _ 204
        (λ _. empty) _ (omega arith)
        (announce-Fair x r now created_at user db (delete_notification_delivered id)
          (r.delete id user.id db) (send_deleted x user.id id now ∷ [])
          (λ deleted. (refl, deleted)))
  handle-Answered max_content_len meanwhile (put_notification_delivered_seen id seen) =
      answer-Answered x r now created_at user db (put_notification_delivered_seen id seen) _ _ 204
        (λ _. empty) _ (omega arith)
        (announce-Fair x r now created_at user db (put_notification_delivered_seen id seen)
          (r.update_confirmation_seen id user.id seen db) (send_updated x user.id id seen now ∷ [])
          (λ stored. (refl, stored)))
