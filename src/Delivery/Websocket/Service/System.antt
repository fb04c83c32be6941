-- ===== src/Delivery/Websocket/Service/System.antt =====
-- The websockets service among the tasks that use it. The service's lock makes each of these actions
-- one step; `update_network_status` is two, between which other tasks act. Status changes come one
-- after another, since the consumer awaits its status callback.
use tom_notifier.Base.{ℕ, ◌==◌, List, [], ◌∷◌, Option, none, some, if◌then◌else◌, ◌≡◌}
use tom_notifier.Protobuf.{NetworkStatus, Notification, WebSocketNotification}
use tom_notifier.Delivery.Websocket.Service.{
  Service, Fresh, new, register, send, store_network_status, broadcast_network_status,
  drop_receiver, finish, close_connections,
}

pub data Action : Type 0 where
  registered : Fresh → ℕ → ℕ → Action
  sent : Fresh → List ℕ → Notification → Action
  status_stored : NetworkStatus → Action
  status_broadcast : Fresh → Action
  run_ended : ℕ → ℕ → Action
  task_ended : ℕ → Action
  connections_closed : ℕ → Action

-- `ending`: the users of the connections that have ended and whose tasks have not. `updating`: the
-- status that is stored and not yet sent.
pub record System : Type 0 where
  pub service : Service
  pub ending : List ℕ
  pub updating : Option NetworkStatus

abbrev pub start : System
start = record { service = new; ending = []; updating = none }

-- A list without the first occurrence of a number; `none`: it does not occur.
abbrev pub without_one : ℕ → List ℕ → Option (List ℕ)
without_one n [] = none
without_one n (m ∷ ms) =
    if m == n
    then some ms
    else elim (without_one n ms) [ none ↦ none | some rest ↦ some (m ∷ rest) ]

module _ (encode : WebSocketNotification → List ℕ) where
  -- `none`: the action cannot happen now.
  unfoldable pub act : Action → System → Option System
  unfolding register send store_network_status broadcast_network_status drop_receiver finish
      close_connections
  act (registered fresh user_id connection) y =
      elim (register encode fresh user_id connection y.service) [
        | none ↦ none
        | some service ↦ some (record y { service = service })
      ]
  act (sent fresh user_ids notification) y =
      some (record y { service = send encode fresh user_ids notification y.service })
  act (status_stored status) y = elim y.updating [
    | some earlier ↦ none
    | none ↦
        some (record y { service = store_network_status status y.service; updating = some status })
  ]
  act (status_broadcast fresh) y = elim y.updating [
    | none ↦ none
    | some status ↦ some (record y {
      service = broadcast_network_status encode fresh status y.service;
      updating = none;
    })
  ]
  act (run_ended user_id connection) y = some (record y {
    service = drop_receiver user_id connection y.service;
    ending = user_id ∷ y.ending;
  })
  act (task_ended user_id) y = elim (without_one user_id y.ending) [
    | none ↦ none
    | some ending ↦ some (record y { service = finish user_id y.service; ending = ending })
  ]
  act (connections_closed user_id) y =
      some (record y { service = close_connections user_id y.service })

  pub data Reach (y : System) : System → Type 0 where
    here : Reach y y
    next : {z w : System} (action : Action) → Reach y z → act action z ≡ some w → Reach y w
