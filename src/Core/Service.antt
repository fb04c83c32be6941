-- ===== src/Core/Service.antt =====
-- tom-notifier-core/src/service/notifications_service/notifications_service_impl.rs, over the
-- interface of the repository. Each operation leaves the database, the messages for the producer,
-- and a result; `now` is the clock, and `created_at` its second reading.
pub mod Polling
use Prim.Native.String.{String}
use tom_notifier.Base.{
  ℕ, ◌+◌, Bool, true, false, List, [], ◌∷◌, map, Option, none, some, if◌then◌else◌, ltb, leb,
  length, is_empty, Result, map_err,
}
use tom_notifier.Core.Types.{
  InputNotification, Pagination, NotificationFilters, InsertedNotification, StoredNotification,
  OutputNotification, RepositoryError, insert_unique_violation, no_document_updated, Error,
  notification_not_exist, validation, notification_already_saved, validation_notification_too_large,
  database, Repository,
}
use tom_notifier.Core.Producer.{External, Produced, send_new, send_updated, send_deleted}

-- What an operation leaves.
pub record Left (Db A : Type 0) : Type 0 where
  pub db : Db
  pub produced : List Produced
  pub result : Result A Error

unfoldable pub validate_invalidate_at_not_passed : ℕ → Option ℕ → Result (Unit {0}) Error
validate_invalidate_at_not_passed now none = Result.ok tt
validate_invalidate_at_not_passed now (some invalidate_at) =
    if leb invalidate_at now
    then Result.err (validation "invalidate_at already passed")
    else Result.ok tt

unfoldable pub validate_content_not_too_long : ℕ → List ℕ → Result (Unit {0}) Error
validate_content_not_too_long max_content_len content =
    if ltb max_content_len (length content)
    then Result.err (validation_notification_too_large (length content) max_content_len)
    else Result.ok tt

unfoldable pub validate_save_notification : ℕ → ℕ → InputNotification → Result (Unit {0}) Error
unfolding validate_invalidate_at_not_passed validate_content_not_too_long
validate_save_notification max_content_len now notification =
    elim (validate_invalidate_at_not_passed now notification.invalidate_at) [
      | Result.err e ↦ Result.err e
      | Result.ok _ ↦ validate_content_not_too_long max_content_len notification.content
    ]

-- The two ways in which errors of the repository are passed on.
abbrev pub saving : RepositoryError → Error
saving insert_unique_violation = notification_already_saved
saving e = database e

abbrev pub updating : RepositoryError → Error
updating no_document_updated = notification_not_exist
updating e = database e

-- `output::Notification::from`.
unfoldable pub output : External → StoredNotification → OutputNotification
output x value = record {
  id = x.to_hex value.id;
  created_at = value.created_at;
  created_by = value.producer_id;
  seen = value.seen;
  content_type = value.content_type;
  content = value.content;
}

module _ {Db : Type 0} (x : External) (r : Repository Db) where
  -- The rest of `save_notification` after the validation.
  unfoldable pub saved : Db × Result InsertedNotification RepositoryError → Left Db String
  unfolding send_new
  saved (db, Result.err e) = record { db = db; produced = []; result = Result.err (saving e) }
  saved (db, Result.ok n) = record {
    db = db;
    produced =
        send_new x n.user_ids n.id n.created_at n.producer_id false n.content_type n.content ∷ [];
    result = Result.ok (x.to_hex n.id);
  }

  unfoldable pub save_notification : ℕ → ℕ → ℕ → ℕ → InputNotification → Db → Left Db String
  unfolding validate_save_notification saved
  save_notification max_content_len now created_at producer_id n db =
      elim (validate_save_notification max_content_len now n) [
        | Result.err e ↦ record { db = db; produced = []; result = Result.err e }
        | Result.ok _ ↦ saved (
            r.insert n.user_ids created_at n.invalidate_at producer_id n.producer_notification_id
              n.content_type n.content db)
      ]

  -- The rest of `find_undelivered_notifications` after the repository was asked.
  unfoldable pub confirmed :
      ℕ → Result (List StoredNotification) RepositoryError → Db → Left Db (List OutputNotification)
  unfolding output
  confirmed user_id (Result.err e) db = record {
    db = db;
    produced = [];
    result = Result.err (database e);
  }
  confirmed user_id (Result.ok []) db = record { db = db; produced = []; result = Result.ok [] }
  confirmed user_id (Result.ok (n ∷ notifications)) db =
      let inserted = r.insert_many_confirmations (map (λ m. m.id) (n ∷ notifications)) user_id db in
      elim inserted.1 [
        | Result.err e ↦ record { db = inserted.0; produced = []; result = Result.err (database e) }
        | Result.ok _ ↦ record {
          db = inserted.0;
          produced = [];
          result = Result.ok (map (output x) (n ∷ notifications));
        }
      ]

  -- `meanwhile` is what others do to the database between the two calls of the repository.
  unfoldable pub find_undelivered_notifications :
      (Db → Db) → ℕ → Db → Left Db (List OutputNotification)
  unfolding confirmed
  find_undelivered_notifications meanwhile user_id db =
      confirmed user_id (r.find_many_undelivered user_id db) (meanwhile db)

  unfoldable pub find_delivered_notifications :
      ℕ → Pagination → NotificationFilters → Db → Left Db (List OutputNotification)
  unfolding output
  find_delivered_notifications user_id pagination filters db =
      elim (r.find_many_delivered user_id pagination filters db) [
        | Result.err e ↦ record { db = db; produced = []; result = Result.err (database e) }
        | Result.ok notifications ↦ record {
          db = db;
          produced = [];
          result = Result.ok (map (output x) notifications);
        }
      ]

  unfoldable pub find_delivered_notification : ℕ → ℕ → Db → Left Db OutputNotification
  unfolding output
  find_delivered_notification id user_id db = elim (r.find_delivered id user_id db) [
    | Result.err e ↦ record { db = db; produced = []; result = Result.err (database e) }
    | Result.ok none ↦ record { db = db; produced = []; result = Result.err notification_not_exist }
    | Result.ok (some n) ↦ record { db = db; produced = []; result = Result.ok (output x n) }
  ]

  -- An update of the repository, and the message for its success.
  abbrev pub announce : Db × Result (Unit {0}) RepositoryError → List Produced → Left Db (Unit {0})
  announce (db, Result.err e) messages = record {
    db = db;
    produced = [];
    result = Result.err (updating e);
  }
  announce (db, Result.ok _) messages = record {
    db = db;
    produced = messages;
    result = Result.ok tt;
  }

  unfoldable pub delete_notification : ℕ → ℕ → ℕ → Db → Left Db (Unit {0})
  unfolding send_deleted
  delete_notification now id user_id db =
      announce (r.delete id user_id db) (send_deleted x user_id id now ∷ [])

  unfoldable pub update_notification_invalidate_at : ℕ → ℕ → ℕ → Option ℕ → Db → Left Db (Unit {0})
  unfolding validate_invalidate_at_not_passed
  update_notification_invalidate_at now id producer_id invalidate_at db =
      elim (validate_invalidate_at_not_passed now invalidate_at) [
        | Result.err e ↦ record { db = db; produced = []; result = Result.err e }
        | Result.ok _ ↦ announce (r.update_invalidate_at id producer_id invalidate_at db) []
      ]

  unfoldable pub update_notification_seen : ℕ → ℕ → ℕ → Bool → Db → Left Db (Unit {0})
  unfolding send_updated
  update_notification_seen now id user_id seen db =
      announce (r.update_confirmation_seen id user_id seen db)
        (send_updated x user_id id seen now ∷ [])
