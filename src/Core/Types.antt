-- ===== src/Core/Types.antt =====
-- The data of tom-notifier-core: dto/, error.rs, repository/dto, repository/error.rs, and the
-- interface of repository/notifications_repository.rs. Times are numbers in the order of time.
use Prim.Native.String.{String}
use tom_notifier.Base.{ℕ, Bool, List, Option, Result}
use tom_notifier.Auth.{MissingRoleError}

-- `input::Notification`; an `i64` is a number that stands for its bits.
pub record InputNotification : Type 0 where
  pub invalidate_at : Option ℕ
  pub user_ids : List ℕ
  pub producer_notification_id : ℕ
  pub content_type : String
  pub content : List ℕ

pub record Pagination : Type 0 where
  pub page_idx : ℕ
  pub page_size : ℕ

pub record NotificationFilters : Type 0 where
  pub seen : Option Bool

-- `repository::InsertedNotification`.
pub record InsertedNotification : Type 0 where
  pub id : ℕ
  pub created_at : ℕ
  pub invalidate_at : Option ℕ
  pub user_ids : List ℕ
  pub producer_id : ℕ
  pub producer_notification_id : ℕ
  pub content_type : String
  pub content : List ℕ

-- `repository::Notification`.
pub record StoredNotification : Type 0 where
  pub id : ℕ
  pub created_at : ℕ
  pub producer_id : ℕ
  pub seen : Bool
  pub content_type : String
  pub content : List ℕ

-- `output::Notification`.
pub record OutputNotification : Type 0 where
  pub id : String
  pub created_at : ℕ
  pub created_by : ℕ
  pub seen : Bool
  pub content_type : String
  pub content : List ℕ

-- `repository::Error`; `mongo` is any error of the database.
pub data RepositoryError : Type 0 where
  insert_unique_violation no_document_updated mongo : RepositoryError

pub data Error : Type 0 where
  notification_not_exist : Error
  validation : String → Error
  notification_already_saved : Error
  validation_notification_too_large : ℕ → ℕ → Error
  auth : MissingRoleError → Error
  database : RepositoryError → Error

-- `IntoResponse` of `Error`: the status code.
unfoldable pub into_response : Error → ℕ
into_response notification_not_exist = 404
into_response (validation text) = 422
into_response (validation_notification_too_large size max_size) = 413
into_response notification_already_saved = 409
into_response (auth e) = 403
into_response (database e) = 500

-- The operations of `NotificationsRepository` on the database's states.
pub record Repository (Db : Type 0) : Type 0 where
  pub insert :
      List ℕ
      → ℕ
      → Option ℕ
      → ℕ
      → ℕ
      → String
      → List ℕ
      → Db
      → Db × Result InsertedNotification RepositoryError
  pub update_invalidate_at : ℕ → ℕ → Option ℕ → Db → Db × Result (Unit {0}) RepositoryError
  pub insert_confirmation : ℕ → ℕ → Db → Db × Result (Unit {0}) RepositoryError
  pub insert_many_confirmations : List ℕ → ℕ → Db → Db × Result (Unit {0}) RepositoryError
  pub update_confirmation_seen : ℕ → ℕ → Bool → Db → Db × Result (Unit {0}) RepositoryError
  pub delete : ℕ → ℕ → Db → Db × Result (Unit {0}) RepositoryError
  pub find_delivered : ℕ → ℕ → Db → Result (Option StoredNotification) RepositoryError
  pub find_many_delivered :
      ℕ → Pagination → NotificationFilters → Db → Result (List StoredNotification) RepositoryError
  pub find_many_undelivered : ℕ → Db → Result (List StoredNotification) RepositoryError
