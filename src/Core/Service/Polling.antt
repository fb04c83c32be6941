-- ===== src/Core/Service/Polling.antt =====
-- Long polling, and what later polls hand out.
use mathlib.Core.Path.{subst}
use tom_notifier.Base.{ℕ, ◌≡◌, ◌≢◌, refl, List, [], ◌∷◌, map, Result, All, All-imp}
use tom_notifier.Core.Types.{
  RepositoryError, database, StoredNotification, OutputNotification, Repository,
}
use tom_notifier.Core.Producer.{External}
use tom_notifier.Core.Service.{Left, confirmed, find_undelivered_notifications, output}

-- What the documentation of `NotificationsRepository` promises of delivered notifications: each id
-- that is confirmed for a user counts as delivered to him, and what is delivered is not found among
-- the undelivered.
pub record Confirms {Db : Type 0} (r : Repository Db) (IsDelivered : ℕ → ℕ → Db → Type 0)
    : Type 0 where
  pub confirmed_are :
      (ids : List ℕ) (user_id : ℕ) (db : Db)
      → (r.insert_many_confirmations ids user_id db).1 ≡ Result.ok tt
      → All (λ id. IsDelivered id user_id (r.insert_many_confirmations ids user_id db).0) ids
  pub delivered_are_not_found :
      (id user_id : ℕ) (db : Db) (found : List StoredNotification)
      → IsDelivered id user_id db
      → r.find_many_undelivered user_id db ≡ Result.ok found
      → All (λ n. n.id ≢ id) found

module _ {Db : Type 0} (x : External) (r : Repository Db) (IsDelivered : ℕ → ℕ → Db → Type 0) where
  -- A successful answer holds what was found, and all of it counts as delivered.
  confirmed-IsDelivered :
      (law : Confirms r IsDelivered) (user_id : ℕ) (found : List StoredNotification) (db : Db)
      (answer : List OutputNotification)
      → let l = confirmed x r user_id (Result.ok found) db in
        l.result ≡ Result.ok answer
        → (answer ≡ map (output x) found)
          × All (λ id. IsDelivered id user_id l.db) (map (λ n. n.id) found)
  unfolding confirmed
  confirmed-IsDelivered law user_id [] db answer h = (cc, tt)
  confirmed-IsDelivered law user_id (n ∷ found) db answer h =
      at (r.insert_many_confirmations (map (λ m. m.id) (n ∷ found)) user_id db)
        (law.confirmed_are (map (λ m. m.id) (n ∷ found)) user_id db) h
    where
      Promise : Db × Result (Unit {0}) RepositoryError → Type 0
      Promise inserted =
          inserted.1 ≡ Result.ok tt
          → All (λ id. IsDelivered id user_id inserted.0) (map (λ m. m.id) (n ∷ found))

      at :
          (inserted : Db × Result (Unit {0}) RepositoryError)
          → Promise inserted
          → let l : Left Db (List OutputNotification) = elim inserted.1 [
            | Result.err e ↦ record {
              db = inserted.0;
              produced = [];
              result = Result.err (database e);
            }
            | Result.ok _ ↦ record {
              db = inserted.0;
              produced = [];
              result = Result.ok (map (output x) (n ∷ found));
            }
          ] in
            l.result ≡ Result.ok answer
            → (answer ≡ map (output x) (n ∷ found))
              × All (λ id. IsDelivered id user_id l.db) (map (λ n. n.id) (n ∷ found))
      at (db', Result.err e) promise h' = cc
      at (db', Result.ok _) promise h' = (cc, promise refl)

  -- What a poll has handed out is not handed out by a poll that begins after it has ended: whatever
  -- others do to the database between the two calls of the first poll, what it found is in its answer
  -- if it succeeds, and a poll of the same user that begins later finds none of it; provided that the
  -- repository keeps its promises on delivered notifications, and that nothing between the two polls
  -- takes them back. Two polls that overlap may hand out the same.
  pub polled_once :
      (law : Confirms r IsDelivered) (user_id : ℕ) (db : Db) (found later : List StoredNotification)
      (answer : List OutputNotification) (during meanwhile : Db → Db)
      (keeps : (id : ℕ) (d : Db) → IsDelivered id user_id d → IsDelivered id user_id (meanwhile d))
      → r.find_many_undelivered user_id db ≡ Result.ok found
      → let l = find_undelivered_notifications x r during user_id db in
        l.result ≡ Result.ok answer
        → r.find_many_undelivered user_id (meanwhile l.db) ≡ Result.ok later
        → (answer ≡ map (output x) found)
          × All (λ id. All (λ m. m.id ≢ id) later) (map (λ n. n.id) found)
  unfolding find_undelivered_notifications
  polled_once law user_id db found later answer during meanwhile keeps e h k =
      let after = confirmed x r user_id (Result.ok found) (during db) in
      let (same, delivered) =
        confirmed-IsDelivered law user_id found (during db) answer
          (subst (λ q. (confirmed x r user_id q (during db)).result ≡ Result.ok answer) e h) in
      let found_later : r.find_many_undelivered user_id (meanwhile after.db) ≡ Result.ok later =
        subst
          (λ q.
            r.find_many_undelivered user_id (meanwhile (confirmed x r user_id q (during db)).db)
            ≡ Result.ok later)
          e k in
      (
        same,
        All-imp (λ id. IsDelivered id user_id after.db) (λ id. All (λ m. m.id ≢ id) later)
            (λ id. λ d.
              law.delivered_are_not_found id user_id (meanwhile after.db) later
                (keeps id after.db d) found_later)
            (map (λ n. n.id) found) delivered,
      )
