-- ===== src/Core/Repository/Documents.antt =====
-- The documents, filters and updates of notifications_repository_impl.rs, and entity/. A filter is
-- the list of the conditions that its `doc!` has.
use Prim.Native.String.{String}
use tom_notifier.Base.{ℕ, Bool, List, Option, Result}
use tom_notifier.Mongo.{DriverError, InsertedId}

-- An element of `confirmations`.
pub record Confirmation : Type 0 where
  pub user_id : ℕ
  pub notification_delivered_at : ℕ
  pub notification_seen : Bool
  pub notification_deleted : Bool

pub data ElementCondition : Type 0 where
  user_id : ℕ → ElementCondition
  notification_deleted notification_seen : Bool → ElementCondition

pub data Condition : Type 0 where
  id : ℕ → Condition
  id_in : List ℕ → Condition
  producer_id user_ids user_ids_size : ℕ → Condition
  invalidate_at_null : Condition
  invalidate_at_gt : ℕ → Condition
  and or : Condition → Condition → Condition
  elem_match not_elem_match : List ElementCondition → Condition

pub data Update : Type 0 where
  set_invalidate_at : Option ℕ → Update
  push_confirmation : Confirmation → Update
  set_matched_seen set_matched_deleted : Bool → Update

pub record UpdateResult : Type 0 where
  pub matched_count : ℕ
  pub modified_count : ℕ

-- With `confirmations.$`, or without the confirmations.
pub data Projection : Type 0 where
  with_matched_confirmation without_confirmations : Projection

-- `created_at`: 1 or -1.
pub data Sort : Type 0 where
  ascending descending : Sort

pub record NotificationInsertEntity : Type 0 where
  pub created_at : ℕ
  pub invalidate_at : Option ℕ
  pub user_ids : List ℕ
  pub producer_id : ℕ
  pub producer_notification_id : ℕ
  pub content_type : String
  pub content : List ℕ
  pub confirmations : List Confirmation

pub record NotificationConfirmationFindEntity : Type 0 where
  pub notification_seen : Bool

pub record NotificationFindEntity : Type 0 where
  pub id : ℕ
  pub created_at : ℕ
  pub producer_id : ℕ
  pub content_type : String
  pub content : List ℕ
  pub confirmations : List NotificationConfirmationFindEntity

-- The calls of the driver on the collection of notifications. `find` takes what to skip and the
-- limit, where there are. `datetime` is `DateTime::from`, which keeps of a time what the database
-- keeps.
pub record Collection (Db : Type 0) : Type 0 where
  pub datetime : ℕ → ℕ
  pub insert_one : NotificationInsertEntity → Db → Db × Result InsertedId DriverError
  pub update_one : List Condition → Update → Db → Db × Result UpdateResult DriverError
  pub update_many : List Condition → Update → Db → Db × Result UpdateResult DriverError
  pub find_one :
      List Condition → Projection → Db → Result (Option NotificationFindEntity) DriverError
  pub find :
      List Condition
      → Projection
      → Sort
      → Option (ℕ × ℕ)
      → Db
      → Result (List NotificationFindEntity) DriverError
