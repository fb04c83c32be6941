-- ===== src/Protobuf.antt =====
-- The messages of shared/protobuf that the programs exchange.
use Prim.Native.String.{String}
use tom_notifier.Base.{ℕ, Bool, List, Option}

pub data NetworkStatus : Type 0 where
  ok error : NetworkStatus

-- `NotificationStatusProtobuf`.
pub data NotificationStatus : Type 0 where
  new updated deleted : NotificationStatus

-- `NotificationProtobuf`, with `status` as its accessor reads it, and `timestamp` in seconds and
-- nanoseconds, both as unsigned numbers.
pub record Notification : Type 0 where
  pub id : String
  pub status : NotificationStatus
  pub timestamp : Option (ℕ × ℕ)
  pub created_by : Option String
  pub seen : Option Bool
  pub content_type : Option String
  pub content : Option (List ℕ)

-- `WebSocketNotificationProtobuf`, with the message's id before it is written as text.
pub record WebSocketNotification : Type 0 where
  pub message_id : ℕ
  pub message_timestamp : ℕ
  pub network_status : NetworkStatus
  pub notification : Option Notification

-- `RabbitmqNotificationProtobuf`.
pub record RabbitmqNotification : Type 0 where
  pub user_ids : List String
  pub notification : Option Notification

-- `RabbitmqConfirmationProtobuf`.
pub record RabbitmqConfirmation : Type 0 where
  pub user_id : String
  pub id : String
