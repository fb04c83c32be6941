-- ===== src/Tests/Serve.antt =====
-- Runs of the model of the websockets service.
use mathlib.Core.Quot.{Quot}
use tom_notifier.Delivery.Websocket.Service.Unordered.{
  NamesEach, broadcast, multicast, broadcast-multicast,
}
use tom_notifier.Base.{
  arith, ℕ, zero, suc, ◌≡◌, refl, Bool, true, false, List, [], ◌∷◌, Option, none, some, is_some,
  lookup,
}
use tom_notifier.Protobuf.{NetworkStatus, NotificationStatus, Notification, WebSocketNotification}
use tom_notifier.Delivery.Websocket.Types.{WebSocketMessage}
use tom_notifier.Delivery.Websocket.Service.{
  Service, Connections, Fresh, new, register, send, create_message,
}
use tom_notifier.Delivery.Websocket.Service.Registry.{queued, send-lookup}
use tom_notifier.Delivery.Websocket.Service.System.{
  System, registered, run_ended, status_stored, status_broadcast, start, act, Reach, here, next,
}
use tom_notifier.Delivery.Websocket.Service.{drop_receiver}
use tom_notifier.Delivery.Websocket.Service.Tended.{is_ending}
use tom_notifier.Delivery.Websocket.Service.Cleanup.{empty_users_are_ending}
use tom_notifier.Delivery.Websocket.Service.Status.{Settled, Reach-Settled}

abbrev fresh : Fresh
fresh = record { now = 100; message_id = 30; flag = 4 }

abbrev notification : Notification
notification = record {
  id = "n";
  status = NotificationStatus.new;
  timestamp = some (90, 5);
  created_by = some "p";
  seen = some false;
  content_type = some "text";
  content = some (1 ∷ 2 ∷ []);
}

-- An encoder that keeps the status, and whether there is a notification; and its reader.
abbrev status_code : NetworkStatus → ℕ
status_code NetworkStatus.ok = 0
status_code NetworkStatus.error = 1

abbrev presence_code : Option Notification → ℕ
presence_code none = 0
presence_code (some n) = 1

abbrev encode : WebSocketNotification → List ℕ
encode m = status_code m.network_status ∷ presence_code m.notification ∷ []

abbrev code_status : ℕ → NetworkStatus
code_status zero = NetworkStatus.ok
code_status (suc n) = NetworkStatus.error

abbrev code_presence : ℕ → Bool
code_presence zero = false
code_presence (suc n) = true

abbrev read : List ℕ → Option (NetworkStatus × Bool)
read (s ∷ p ∷ []) = some (code_status s, code_presence p)
read _ = none

read-encode :
    (m : WebSocketNotification) → read (encode m) ≡ some (m.network_status, is_some m.notification)
read-encode m = at m.network_status m.notification
  where
    at :
        (s : NetworkStatus) (n : Option Notification)
        → read (status_code s ∷ presence_code n ∷ []) ≡ some (s, is_some n)
    at NetworkStatus.ok none = refl
    at NetworkStatus.ok (some n) = refl
    at NetworkStatus.error none = refl
    at NetworkStatus.error (some n) = refl

-- A user with one connection, while the network is down.
abbrev service : Service
service = record {
  network_status_ok = false;
  users_connections = (1, record { connection = 9; inbox = [] } ∷ []) ∷ [];
  detached = [];
}

send-lookup_example :
    lookup 1 (send encode fresh (1 ∷ 2 ∷ 1 ∷ []) notification service).users_connections
    ≡ queued 2
        (create_message encode fresh NetworkStatus.ok (some notification))
        (lookup 1 service.users_connections)
send-lookup_example = send-lookup encode fresh (1 ∷ 2 ∷ 1 ∷ []) notification 1 service

-- The network fails, and a user connects between the flag and the message: he is told twice.
abbrev error_message : WebSocketMessage
error_message = record { message_id = 30; payload = 1 ∷ 0 ∷ []; delivered_callback = none }

abbrev told_twice : System
told_twice = record {
  service = record {
    network_status_ok = false;
    users_connections =
        (1, record { connection = 9; inbox = error_message ∷ error_message ∷ [] } ∷ []) ∷ [];
    detached = [];
  };
  ending = [];
  updating = none;
}

fails : Reach encode start told_twice
unfolding act new register send
fails =
    next (status_broadcast fresh)
      (next (registered fresh 1 9) (next (status_stored NetworkStatus.error) here refl) refl) refl

Reach-Settled_example : Settled read told_twice
Reach-Settled_example = Reach-Settled encode read read-encode fails

-- The only connection of the user 1 has ended, and its task has not.
abbrev left : System
left = record {
  service = record { network_status_ok = true; users_connections = (1, []) ∷ []; detached = [] };
  ending = 1 ∷ [];
  updating = none;
}

leaves : Reach encode start left
unfolding act new register drop_receiver
leaves = next (run_ended 1 9) (next (registered fresh 1 9) here refl) refl

empty_users_are_ending_example : is_ending 1 (1 ∷ []) ≡ true
empty_users_are_ending_example = empty_users_are_ending encode 1 leaves refl

-- Two users, listed in the other order.
abbrev two_users : Connections
two_users = (7, record { connection = 1; inbox = [] } ∷ []) ∷ (8, []) ∷ []

two_users-NamesEach : NamesEach (8 ∷ 7 ∷ []) two_users
two_users-NamesEach user_id = ground arith

abbrev told : WebSocketMessage
told = record { message_id = 30; payload = 1 ∷ []; delivered_callback = none }

broadcast-multicast_example :
    broadcast told (Quot.mk two_users) ≡ multicast (8 ∷ 7 ∷ []) told (Quot.mk two_users)
broadcast-multicast_example = broadcast-multicast told (8 ∷ 7 ∷ []) two_users two_users-NamesEach
