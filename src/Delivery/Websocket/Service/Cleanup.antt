-- ===== src/Delivery/Websocket/Service/Cleanup.antt =====
-- Users without connections do not stay in the registry of websockets_service.
use mathlib.Core.Path.{subst}
use tom_notifier.Base.{
  ℕ, ◌==◌, ◌≡◌, refl, inl, inr, true, List, [], Option, none, some, if◌then◌else◌, lookup, is_empty,
  count, Option-cases,
}
use tom_notifier.Protobuf.{NetworkStatus, Notification, WebSocketNotification}
use tom_notifier.Delivery.Websocket.Service.{
  new, Service, Fresh, subscribe, create_message, send, store_network_status,
  broadcast_network_status,
}
use tom_notifier.Delivery.Websocket.Service.Registry.{
  informed, register_lem, send-lookup, send_broadcast-lookup,
}
use tom_notifier.Delivery.Websocket.Service.System.{
  System, Action, registered, sent, status_stored, status_broadcast, run_ended, task_ended,
  connections_closed, start, without_one, act, Reach, here, next,
}
use tom_notifier.Delivery.Websocket.Service.Tended.{
  is_ending, EmptyIf, IsTended, queued-EmptyIf, informed-EmptyIf, insert-IsTended, finish-IsTended,
  drop_receiver-IsTended, close-IsTended,
}

module _ (encode : WebSocketNotification → List ℕ) where
  abbrev TendedAfter : Option System → Type 0
  TendedAfter none = Unit {0}
  TendedAfter (some y) = IsTended y.service.users_connections y.ending

  broadcast-IsTended :
      (fresh : Fresh) (status : NetworkStatus) (ending : List ℕ) (s : Service)
      → IsTended s.users_connections ending
      → IsTended (broadcast_network_status encode fresh status s).users_connections ending
  unfolding broadcast_network_status
  broadcast-IsTended fresh status ending s tended j =
      let message = create_message encode fresh status none in
      rw (send_broadcast-lookup message j s.users_connections)
        (queued-EmptyIf (is_ending j ending) 1 message (lookup j s.users_connections) (tended j))

  send-IsTended :
      (fresh : Fresh) (user_ids : List ℕ) (notification : Notification) (ending : List ℕ)
      (s : Service)
      → IsTended s.users_connections ending
      → IsTended (send encode fresh user_ids notification s).users_connections ending
  send-IsTended fresh user_ids notification ending s tended j =
      rw (send-lookup encode fresh user_ids notification j s) (
        queued-EmptyIf (is_ending j ending)
          (if is_empty user_ids then 1 else count (λ u. u == j) user_ids)
          (create_message encode fresh NetworkStatus.ok (some notification))
          (lookup j s.users_connections) (tended j))

  store-connections :
      (status : NetworkStatus) (s : Service)
      → (store_network_status status s).users_connections ≡ s.users_connections
  unfolding store_network_status
  store-connections NetworkStatus.ok s = refl
  store-connections NetworkStatus.error s = refl

  act-IsTended :
      (action : Action) (y : System)
      → IsTended y.service.users_connections y.ending
      → TendedAfter (act encode action y)
  unfolding act
  act-IsTended (registered fresh user_id connection) y h =
      let found = lookup user_id y.service.users_connections in
      let message = create_message encode fresh NetworkStatus.error none in
      rw (register_lem encode fresh user_id connection y.service, TendedAfter)
        (insert-IsTended user_id
          (informed y.service.network_status_ok message (subscribe connection found))
          y.service.users_connections y.ending
          (informed-EmptyIf (is_ending user_id y.ending) y.service.network_status_ok message
            connection found)
          h)
  act-IsTended (sent fresh user_ids notification) y h =
      send-IsTended fresh user_ids notification y.ending y.service h
  act-IsTended (status_stored status) y h = elim (Option-cases y.updating) [
    | inl e ↦ rw (e, TendedAfter) (rw (store-connections status y.service) h)
    | inr (earlier, e) ↦ rw (e, TendedAfter) tt
  ]
  act-IsTended (status_broadcast fresh) y h = elim (Option-cases y.updating) [
    | inl e ↦ rw (e, TendedAfter) tt
    | inr (status, e) ↦ rw (e, TendedAfter) (broadcast-IsTended fresh status y.ending y.service h)
  ]
  act-IsTended (run_ended user_id connection) y h =
      drop_receiver-IsTended user_id connection y.ending y.service h
  act-IsTended (task_ended user_id) y h = elim (Option-cases (without_one user_id y.ending)) [
    | inl e ↦ rw (e, TendedAfter) tt
    | inr (rest, e) ↦ rw (e, TendedAfter) (finish-IsTended user_id y.ending rest y.service e h)
  ]
  act-IsTended (connections_closed user_id) y h = close-IsTended user_id y.ending y.service h

  Reach-IsTended :
      {y : System} → Reach encode start y → IsTended y.service.users_connections y.ending
  unfolding new
  Reach-IsTended here j = tt
  Reach-IsTended (next action reach e) j =
      subst TendedAfter e (act-IsTended action _ (Reach-IsTended reach)) j

  -- However registrations, notifications, ends of connections and changes of the network status
  -- interleave: for a user who stands in the registry without any connection, the task of one of his
  -- connections has not ended yet.
  pub empty_users_are_ending :
      {y : System} (user_id : ℕ)
      → Reach encode start y
      → lookup user_id y.service.users_connections ≡ some []
      → is_ending user_id y.ending ≡ true
  empty_users_are_ending {y} user_id reach e =
      subst (EmptyIf (is_ending user_id y.ending)) e (Reach-IsTended reach user_id)
