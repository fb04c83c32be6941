-- ===== src/Delivery/Consume.antt =====
-- tom-notifier-ws-delivery/src/service/notifications_consumer_service/notifications_consumer_service.rs:
-- the callbacks for deliveries and for changes of the consumer's status; and the conversion in
-- notifications_deduplication_service/dto/notification_status_update.rs.
pub mod Once
pub mod Follow
use Prim.Native.String.{String}
use tom_notifier.Base.{ℕ, ◌≡◌, Bool, true, false, List, [], ◌∷◌, Option, none, some}
use tom_notifier.Rabbitmq.Consumer.Machine.{Status, consuming, recovering}
use tom_notifier.Rabbitmq.Consumer.Delivery.{Consumed, err}
use tom_notifier.Protobuf.{NetworkStatus, Notification, RabbitmqNotification, WebSocketNotification}
use tom_notifier.Delivery.Dedup.{LastUpdates, NotificationStatusUpdate, Deduplicated, deduplicate}
use tom_notifier.Delivery.Websocket.Service.{
  Service, Fresh, send, store_network_status, broadcast_network_status,
}

-- The two services that the callbacks share.
pub record Services : Type 0 where
  pub last_updates : LastUpdates
  pub websockets : Service

-- A chain of fallible steps: every failure of the decoding is a nack without requeue.
infixl 1 ◌>>=◌
abbrev pub ◌>>=◌ : {A B : Type 0} → Option A → (A → Option B) → Option B
none >>= f = none
some a >>= f = f a

-- What the callbacks use of other libraries: the protobuf decoder and encoder, `Uuid::from_str`,
-- `ObjectId::parse_str`, and two functions of `OffsetDateTime`, whose values are numbers in the order
-- of time.
pub record External : Type 0 where
  pub decode : List ℕ → Option RabbitmqNotification
  pub encode : WebSocketNotification → List ℕ
  pub from_str : String → Option ℕ
  pub parse_str : String → Option ℕ
  pub from_unix_timestamp : ℕ → Option ℕ
  pub replace_nanosecond : ℕ → ℕ → Option ℕ

-- A delivery that is understood.
pub record Delivery : Type 0 where
  pub user_ids : List ℕ
  pub notification : Notification
  pub update : NotificationStatusUpdate

module _ (x : External) where
  unfoldable pub try_from : Notification → Option NotificationStatusUpdate
  try_from value = x.parse_str value.id >>= λ id. value.timestamp >>= λ timestamp.
      x.from_unix_timestamp timestamp.0 >>= λ datetime.
      x.replace_nanosecond datetime timestamp.1 >>= λ datetime'.
      some (record { id = id; timestamp = datetime' })

  -- The loop over the ids of users.
  unfoldable pub parse_user_ids : List String → Option (List ℕ)
  parse_user_ids [] = some []
  parse_user_ids (uuid_str ∷ rest) =
      x.from_str uuid_str >>= λ uuid. parse_user_ids rest >>= λ uuids. some (uuid ∷ uuids)

  -- `execute` up to the deduplication; `none`: an error that is not to be requeued.
  unfoldable pub read_delivery : List ℕ → Option Delivery
  unfolding try_from parse_user_ids
  read_delivery content = x.decode content >>= λ message. message.notification >>= λ notification.
      parse_user_ids message.user_ids >>= λ user_ids. try_from notification >>= λ update.
      some (record { user_ids = user_ids; notification = notification; update = update })

  -- The match of `execute` on the result of the deduplication, which never fails otherwise.
  unfoldable pub after_deduplicate :
      Fresh → Delivery → LastUpdates × Deduplicated → Service → Services × Consumed
  after_deduplicate fresh d (last_updates, Deduplicated.ok) websockets = (
    record {
      last_updates = last_updates;
      websockets = send x.encode fresh d.user_ids d.notification websockets;
    },
    Consumed.ok,
  )
  after_deduplicate fresh d (last_updates, Deduplicated.duplicate) websockets =
      (record { last_updates = last_updates; websockets = websockets }, Consumed.ok)

  -- `DeliveryCallback::execute`.
  unfoldable pub execute : Fresh → List ℕ → Services → Services × Consumed
  unfolding read_delivery after_deduplicate
  execute fresh content s = elim (read_delivery content) [
    | none ↦ (s, err (record { requeue = false }))
    | some d ↦ after_deduplicate fresh d (deduplicate d.update s.last_updates) s.websockets
  ]

-- `StatusCallback::execute`: which status it sends, and the call.
unfoldable pub network_status : Status → NetworkStatus
network_status consuming = NetworkStatus.ok
network_status recovering = NetworkStatus.error

unfoldable pub execute_status : External → Fresh → Status → Service → Service
unfolding network_status
execute_status x fresh status s =
    broadcast_network_status x.encode fresh (network_status status)
      (store_network_status (network_status status) s)
