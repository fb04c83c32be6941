-- ===== src/Delivery/Websocket/Service.antt =====
-- tom-notifier-ws-delivery/src/service/websockets_service/websockets_service_impl.rs. The sender of a
-- user's channel is the list of its receivers; a receiver's inbox holds all that was sent to it since
-- it subscribed.
pub mod System
pub mod Receivers
pub mod Registry
pub mod Status
pub mod Tended
pub mod Cleanup
pub mod Told
pub mod Unordered
use Prim.Native.String.{String}
use tom_notifier.Base.{
  ℕ, ◌==◌, Bool, true, false, not, List, [], ◌∷◌, ◌++◌, map, filter, Option, none, some,
  if◌then◌else◌, lookup, insert, remove, is_empty, length,
}
use tom_notifier.Delivery.Websocket.Callback
use tom_notifier.Delivery.Websocket.Types.{WebSocketMessage}
use tom_notifier.Protobuf.{NetworkStatus, NotificationStatus, Notification, WebSocketNotification}

pub record Receiver : Type 0 where
  pub connection : ℕ
  pub inbox : List WebSocketMessage

abbrev pub Connections : Type 0
Connections = List (ℕ × List Receiver)

-- `detached`: the receivers of the channels whose sender `close_connections` dropped.
pub record Service : Type 0 where
  pub network_status_ok : Bool
  pub users_connections : Connections
  pub detached : List Receiver

-- What `create_message` takes from outside: the clock, a new id, and the place of a new flag.
pub record Fresh : Type 0 where
  pub now : ℕ
  pub message_id : ℕ
  pub flag : ℕ

-- `WebSocketsServiceImpl::new`.
unfoldable pub new : Service
new = record { network_status_ok = true; users_connections = []; detached = [] }

abbrev pub receive : WebSocketMessage → Receiver → Receiver
receive message r = record r { inbox = r.inbox ++ message ∷ [] }

-- `broadcast::Sender::send`: an error if there is no receiver.
unfoldable pub send_to : WebSocketMessage → List Receiver → Option (List Receiver)
send_to message [] = none
send_to message (r ∷ receivers) = some (map (receive message) (r ∷ receivers))

-- `let _ = tx.send(message)`.
unfoldable pub queue_message : WebSocketMessage → List Receiver → List Receiver
unfolding send_to
queue_message message receivers = elim (send_to message receivers) [
  | none ↦ receivers
  | some sent ↦ sent
]

unfoldable pub send_multicast : List ℕ → WebSocketMessage → Connections → Connections
unfolding queue_message
send_multicast [] message connections = connections
send_multicast (user_id ∷ user_ids) message connections =
    send_multicast user_ids message (elim (lookup user_id connections) [
      | none ↦ connections
      | some receivers ↦ insert user_id (queue_message message receivers) connections
    ])

unfoldable pub send_broadcast : WebSocketMessage → Connections → Connections
unfolding queue_message
send_broadcast message connections = map (λ e. (e.0, queue_message message e.1)) connections

-- The callback of a message: only for a new notification.
unfoldable pub delivered_callback : ℕ → Option Notification → Option Callback.ConfirmationCallback
unfolding Callback.new
delivered_callback flag none = none
delivered_callback flag (some n) = at n.status
  where
    at : NotificationStatus → Option Callback.ConfirmationCallback
    at NotificationStatus.new = some (Callback.new flag n.id)
    at NotificationStatus.updated = none
    at NotificationStatus.deleted = none

-- The first half of `update_network_status`, which stores the flag.
unfoldable pub store_network_status : NetworkStatus → Service → Service
store_network_status NetworkStatus.ok s = record s { network_status_ok = true }
store_network_status NetworkStatus.error s = record s { network_status_ok = false }

-- The receivers of a channel with a new one: of the user's channel, or of one that is created.
abbrev pub subscribe : ℕ → Option (List Receiver) → List Receiver
subscribe connection none = record { connection = connection; inbox = [] } ∷ []
subscribe connection (some others) = others ++ record { connection = connection; inbox = [] } ∷ []

-- While the network status is not well, a message that says so is sent.
unfoldable pub inform : Bool → WebSocketMessage → List Receiver → Option (List Receiver)
unfolding send_to
inform true message receivers = some receivers
inform false message receivers = send_to message receivers

-- `encode` is `WebSocketNotificationProtobuf::encode_to_vec`.
module _ (encode : WebSocketNotification → List ℕ) where
  unfoldable pub create_message : Fresh → NetworkStatus → Option Notification → WebSocketMessage
  unfolding delivered_callback
  create_message fresh network_status notification = record {
    message_id = fresh.message_id;
    payload = encode (record {
      message_id = fresh.message_id;
      message_timestamp = fresh.now;
      network_status = network_status;
      notification = notification;
    });
    delivered_callback = delivered_callback fresh.flag notification;
  }

  -- `handle_client` while it holds the lock, for a new connection; `none`: `unwrap_unchecked` meets
  -- the error of a channel without receivers.
  unfoldable pub register : Fresh → ℕ → ℕ → Service → Option Service
  unfolding create_message inform
  register fresh user_id connection s =
      let receivers = subscribe connection (lookup user_id s.users_connections) in
      let message = create_message fresh NetworkStatus.error none in
      elim (inform s.network_status_ok message receivers) [
        | none ↦ none
        | some informed ↦
            some (record s { users_connections = insert user_id informed s.users_connections })
      ]

  unfoldable pub send : Fresh → List ℕ → Notification → Service → Service
  unfolding create_message send_multicast send_broadcast
  send fresh user_ids notification s =
      let message = create_message fresh NetworkStatus.ok (some notification) in
      if is_empty user_ids
      then record s { users_connections = send_broadcast message s.users_connections }
      else record s { users_connections = send_multicast user_ids message s.users_connections }

  -- The second half of `update_network_status`, which takes the lock.
  unfoldable pub broadcast_network_status : Fresh → NetworkStatus → Service → Service
  unfolding create_message send_broadcast
  broadcast_network_status fresh status s = record s {
    users_connections = send_broadcast (create_message fresh status none) s.users_connections;
  }

-- The receivers without that of one connection, which is dropped.
abbrev pub drop : ℕ → List Receiver → List Receiver
drop connection = filter (λ r. not (r.connection == connection))

-- When `run` ends, it drops the connection's receiver.
unfoldable pub drop_receiver : ℕ → ℕ → Service → Service
drop_receiver user_id connection s = record s {
  users_connections = elim (lookup user_id s.users_connections) [
    | none ↦ s.users_connections
    | some receivers ↦ insert user_id (drop connection receivers) s.users_connections
  ];
  detached = drop connection s.detached;
}

-- The end of the task that `handle_client` spawns: without receivers the user is removed.
unfoldable pub finish : ℕ → Service → Service
finish user_id s = elim (lookup user_id s.users_connections) [
  | none ↦ s
  | some receivers ↦
      if length receivers == 0
      then record s { users_connections = remove user_id s.users_connections }
      else s
]

unfoldable pub close_connections : ℕ → Service → Service
close_connections user_id s = elim (lookup user_id s.users_connections) [
  | none ↦ s
  | some receivers ↦ record s {
    users_connections = remove user_id s.users_connections;
    detached = s.detached ++ receivers;
  }
]
