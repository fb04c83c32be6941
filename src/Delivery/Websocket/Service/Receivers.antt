-- ===== src/Delivery/Websocket/Service/Receivers.antt =====
-- Predicates on every receiver of a map of connections.
use tom_notifier.Base.{
  ℕ, ◌==◌, inl, inr, List, [], ◌∷◌, map, Option, none, some, lookup, insert, remove, All,
  Bool-cases,
}
use tom_notifier.Delivery.Websocket.Types.{WebSocketMessage}
use tom_notifier.Delivery.Websocket.Service.{
  Receiver, Connections, receive, send_to, queue_message, send_multicast, send_broadcast, drop,
}

module _ (P : Receiver → Type 0) where
  abbrev pub AllReceivers : Connections → Type 0
  AllReceivers connections = All (λ e. All P e.1) connections

  pub insert-AllReceivers :
      (user_id : ℕ) (receivers : List Receiver) (connections : Connections)
      → All P receivers
      → AllReceivers connections
      → AllReceivers (insert user_id receivers connections)
  insert-AllReceivers user_id receivers [] h k = (h, tt)
  insert-AllReceivers user_id receivers ((u, rs) ∷ connections) h k =
      elim (Bool-cases (u == user_id)) [
        | inl e ↦ rw e (h, k.1)
        | inr e ↦ rw e (k.0, insert-AllReceivers user_id receivers connections h k.1)
      ]

  pub remove-AllReceivers :
      (user_id : ℕ) (connections : Connections)
      → AllReceivers connections
      → AllReceivers (remove user_id connections)
  remove-AllReceivers user_id [] k = tt
  remove-AllReceivers user_id ((u, rs) ∷ connections) k = elim (Bool-cases (u == user_id)) [
    | inl e ↦ rw e (remove-AllReceivers user_id connections k.1)
    | inr e ↦ rw e (k.0, remove-AllReceivers user_id connections k.1)
  ]

  -- What holds of every receiver holds of those of one user.
  abbrev pub Found : Option (List Receiver) → Type 0
  Found none = Unit {0}
  Found (some receivers) = All P receivers

  pub lookup-AllReceivers :
      (user_id : ℕ) (connections : Connections)
      → AllReceivers connections
      → Found (lookup user_id connections)
  lookup-AllReceivers user_id [] k = tt
  lookup-AllReceivers user_id ((u, rs) ∷ connections) k = elim (Bool-cases (u == user_id)) [
    | inl e ↦ rw e k.0
    | inr e ↦ rw e (lookup-AllReceivers user_id connections k.1)
  ]

  pub drop-All :
      (connection : ℕ) (receivers : List Receiver)
      → All P receivers
      → All P (drop connection receivers)
  drop-All connection [] h = tt
  drop-All connection (r ∷ receivers) h = elim (Bool-cases (r.connection == connection)) [
    | inl e ↦ rw e (drop-All connection receivers h.1)
    | inr e ↦ rw e (h.0, drop-All connection receivers h.1)
  ]

module _ (P Q : Receiver → Type 0) (message : WebSocketMessage)
    (push : (r : Receiver) → P r → Q (receive message r)) where
  pub receive-All :
      (receivers : List Receiver) → All P receivers → All Q (map (receive message) receivers)
  receive-All [] h = tt
  receive-All (r ∷ receivers) h = (push r h.0, receive-All receivers h.1)

  pub queue_message-All :
      (receivers : List Receiver) → All P receivers → All Q (queue_message message receivers)
  unfolding queue_message send_to
  queue_message-All [] h = tt
  queue_message-All (r ∷ receivers) h = receive-All (r ∷ receivers) h

  pub send_broadcast-AllReceivers :
      (connections : Connections)
      → AllReceivers P connections
      → AllReceivers Q (send_broadcast message connections)
  unfolding send_broadcast
  send_broadcast-AllReceivers [] k = tt
  send_broadcast-AllReceivers ((u, rs) ∷ connections) k =
      (queue_message-All rs k.0, send_broadcast-AllReceivers connections k.1)

module _ (P : Receiver → Type 0) (message : WebSocketMessage)
    (push : (r : Receiver) → P r → P (receive message r)) where
  pub send_multicast-AllReceivers :
      (user_ids : List ℕ) (connections : Connections)
      → AllReceivers P connections
      → AllReceivers P (send_multicast user_ids message connections)
  unfolding send_multicast
  send_multicast-AllReceivers [] connections k = k
  send_multicast-AllReceivers (user_id ∷ user_ids) connections k =
      send_multicast-AllReceivers user_ids _
        (at (lookup user_id connections) (lookup-AllReceivers P user_id connections k))
    where
      at :
          (found : Option (List Receiver))
          → Found P found
          → AllReceivers P (elim found [
            | none ↦ connections
            | some receivers ↦ insert user_id (queue_message message receivers) connections
          ])
      at none h = k
      at (some receivers) h =
          insert-AllReceivers P user_id (queue_message message receivers) connections
            (queue_message-All P P message push receivers h) k
