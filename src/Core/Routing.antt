-- ===== src/Core/Routing.antt =====
-- The handlers of tom-notifier-core/src/routing.rs, for a user whom the authorization let pass. The
-- framework has read the path, the query and the body.
pub mod Answers
pub mod Fair
pub mod Roles
use Prim.Native.String.{String}
use tom_notifier.Base.{ℕ, Bool, List, [], ◌∷◌, Option, none, some, Result}
use tom_notifier.Auth.{User, require_all_roles}
use tom_notifier.Core.Types.{
  InputNotification, Pagination, NotificationFilters, OutputNotification, Error, auth,
  into_response, Repository,
}
use tom_notifier.Core.Producer.{External, Produced}
use tom_notifier.Core.Service.{
  Left, save_notification, find_undelivered_notifications, find_delivered_notifications,
  find_delivered_notification, delete_notification, update_notification_invalidate_at,
  update_notification_seen,
}

-- auth/role.rs: `Role::ProduceNotifications`.
abbrev pub produce_notifications : String
produce_notifications = "tom_notifier_produce_notifications"

pub data Request : Type 0 where
  post_notifications_undelivered : InputNotification → Request
  get_notifications_undelivered : Request
  put_notifications_undelivered_invalidate_at : ℕ → Option ℕ → Request
  get_notifications_delivered : Pagination → NotificationFilters → Request
  get_notification_delivered : ℕ → Request
  delete_notification_delivered : ℕ → Request
  put_notification_delivered_seen : ℕ → Bool → Request

pub data Body : Type 0 where
  empty : Body
  notification_id : String → Body
  notification : OutputNotification → Body
  notifications : List OutputNotification → Body

pub record Response (Db : Type 0) : Type 0 where
  pub db : Db
  pub produced : List Produced
  pub status : ℕ
  pub body : Body

module _ {Db : Type 0} where
  -- A handler's answer from what the service left: its own status, or that of the error.
  abbrev pub answer :
      {A : Type 0} → Db → List Produced → ℕ → (A → Body) → Result A Error → Response Db
  answer db produced status body (Result.ok a) = record {
    db = db;
    produced = produced;
    status = status;
    body = body a;
  }
  answer db produced status body (Result.err e) = record {
    db = db;
    produced = produced;
    status = into_response e;
    body = empty;
  }

  abbrev pub respond : {A : Type 0} → ℕ → (A → Body) → Left Db A → Response Db
  respond status body l = answer l.db l.produced status body l.result

  -- The check of roles at the start of a handler.
  abbrev pub for_producers : User → Db → Response Db → Response Db
  for_producers user db response = elim (require_all_roles user (produce_notifications ∷ [])) [
    | Result.ok _ ↦ response
    | Result.err e ↦ record {
      db = db;
      produced = [];
      status = into_response (auth e);
      body = empty;
    }
  ]

module _ {Db : Type 0} (x : External) (r : Repository Db) (max_content_len now created_at : ℕ)
    (meanwhile : Db → Db) where
  -- `meanwhile` is what others do to the database while one request asks for its notifications.
  unfoldable pub handle : Request → User → Db → Response Db
  unfolding require_all_roles into_response save_notification find_undelivered_notifications
      find_delivered_notifications find_delivered_notification delete_notification
      update_notification_invalidate_at update_notification_seen
  handle (post_notifications_undelivered n) user db = for_producers user db (
      respond 200 notification_id
        (save_notification x r max_content_len now created_at user.id n db))
  handle get_notifications_undelivered user db =
      respond 200 notifications (find_undelivered_notifications x r meanwhile user.id db)
  handle (put_notifications_undelivered_invalidate_at id invalidate_at) user db =
      for_producers user db (
        respond 204 (λ _. empty)
          (update_notification_invalidate_at x r now id user.id invalidate_at db))
  handle (get_notifications_delivered pagination filters) user db =
      respond 200 notifications (find_delivered_notifications x r user.id pagination filters db)
  handle (get_notification_delivered id) user db =
      respond 200 notification (find_delivered_notification x r id user.id db)
  handle (delete_notification_delivered id) user db =
      respond 204 (λ _. empty) (delete_notification x r now id user.id db)
  handle (put_notification_delivered_seen id seen) user db =
      respond 204 (λ _. empty) (update_notification_seen x r now id user.id seen db)
