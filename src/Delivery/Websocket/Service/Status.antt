-- ===== src/Delivery/Websocket/Service/Status.antt =====
-- What the status messages tell the users, while registrations, notifications, ends of connections
-- and changes of the network status interleave.
use mathlib.Core.Path.{subst}
use tom_notifier.Base.{
  ℕ, ◌==◌, ◌≡◌, ◌∙◌, inl, inr, refl, Bool, true, false, List, [], ◌∷◌, Option, none, some, is_some,
  is_empty, length, insert, lookup, All, All-append, arith, Bool-cases, Option-cases,
}
use tom_notifier.Protobuf.{NetworkStatus, Notification, WebSocketNotification}
use tom_notifier.Delivery.Websocket.Service.{
  new, Service, Receiver, Fresh, subscribe, receive, create_message, send, store_network_status,
  broadcast_network_status, drop, drop_receiver, finish, close_connections,
}
use tom_notifier.Delivery.Websocket.Service.Registry.{informed, register_lem}
use tom_notifier.Delivery.Websocket.Service.System.{
  System, Action, registered, sent, status_stored, status_broadcast, run_ended, task_ended,
  connections_closed, start, without_one, act, Reach, here, next,
}
use tom_notifier.Delivery.Websocket.Service.Receivers.{
  AllReceivers, insert-AllReceivers, remove-AllReceivers, lookup-AllReceivers, drop-All,
  receive-All, send_broadcast-AllReceivers, send_multicast-AllReceivers, Found,
}
use tom_notifier.Delivery.Websocket.Service.Told.{is_ok, Knows, told-status, told-notification}

module _ (read : List ℕ → Option (NetworkStatus × Bool)) where
  -- Between a change of the flag and its message nothing is claimed of the users.
  abbrev SettledWith : Option NetworkStatus → Service → Type 0
  SettledWith none s = AllReceivers (Knows read s.network_status_ok) s.users_connections
  SettledWith (some status) s = s.network_status_ok ≡ is_ok status

  abbrev pub Settled : System → Type 0
  Settled y = SettledWith y.updating y.service

  abbrev SettledAfter : Option System → Type 0
  SettledAfter none = Unit {0}
  SettledAfter (some y) = Settled y

module _ (encode : WebSocketNotification → List ℕ) (read : List ℕ → Option (NetworkStatus × Bool))
    (read-encode : (m : WebSocketNotification)
      → read (encode m) ≡ some (m.network_status, is_some m.notification)) where
  told-created :
      (fresh : Fresh) (status : NetworkStatus) (r : Receiver)
      → Knows read (is_ok status) (receive (create_message encode fresh status none) r)
  unfolding create_message
  told-created fresh status r = told-status read _ status true r.inbox (read-encode _)

  told-sent :
      (fresh : Fresh) (notification : Notification) (flag : Bool) (r : Receiver)
      → Knows read flag r
      → Knows read flag
          (receive (create_message encode fresh NetworkStatus.ok (some notification)) r)
  unfolding create_message
  told-sent fresh notification flag r h =
      told-notification read _ NetworkStatus.ok true r.inbox (read-encode _) ∙ h

  Everyone : (receivers : List Receiver) → All (λ r. Unit {0}) receivers
  Everyone [] = tt
  Everyone (r ∷ receivers) = (tt, Everyone receivers)

  everyone : (connections : List (ℕ × List Receiver)) → AllReceivers (λ r. Unit {0}) connections
  everyone [] = tt
  everyone ((u, rs) ∷ connections) = (Everyone rs, everyone connections)

  broadcast-Settled :
      (fresh : Fresh) (status : NetworkStatus) (s : Service)
      → s.network_status_ok ≡ is_ok status
      → SettledWith read none (broadcast_network_status encode fresh status s)
  unfolding broadcast_network_status
  broadcast-Settled fresh status s e = rw e (
      send_broadcast-AllReceivers (λ r. Unit {0}) (Knows read (is_ok status))
        (create_message encode fresh status none) (λ r. λ h. told-created fresh status r)
        s.users_connections (everyone s.users_connections))

  send-Settled :
      (fresh : Fresh) (user_ids : List ℕ) (notification : Notification) (u : Option NetworkStatus)
      (s : Service)
      → SettledWith read u s
      → SettledWith read u (send encode fresh user_ids notification s)
  unfolding send
  send-Settled fresh user_ids notification (some status) s h = ground arith
  send-Settled fresh user_ids notification none s h =
      let P = Knows read s.network_status_ok in
      let m = create_message encode fresh NetworkStatus.ok (some notification) in
      elim (Bool-cases (is_empty user_ids)) [
        | inl e ↦ rw e (
            send_broadcast-AllReceivers P P m (told-sent fresh notification s.network_status_ok)
              s.users_connections h)
        | inr e ↦ rw e (
            send_multicast-AllReceivers P m (told-sent fresh notification s.network_status_ok)
              user_ids s.users_connections h)
      ]

  subscribe-Knows :
      (connection : ℕ) (found : Option (List Receiver))
      → Found (Knows read true) found
      → All (Knows read true) (subscribe connection found)
  subscribe-Knows connection none h = (refl, tt)
  subscribe-Knows connection (some others) h = All-append (Knows read true) others _ h (refl, tt)

  informed-Knows :
      (fresh : Fresh) (flag : Bool) (connection : ℕ) (found : Option (List Receiver))
      → Found (Knows read flag) found
      → All (Knows read flag) (
          informed flag
            (create_message encode fresh NetworkStatus.error none)
            (subscribe connection found))
  informed-Knows fresh true connection found h = subscribe-Knows connection found h
  informed-Knows fresh false connection found h =
      receive-All (λ r. Unit {0}) (Knows read false)
        (create_message encode fresh NetworkStatus.error none)
        (λ r. λ h. told-created fresh NetworkStatus.error r) (subscribe connection found)
        (Everyone (subscribe connection found))

  register-Settled :
      (fresh : Fresh) (user_id connection : ℕ) (u : Option NetworkStatus) (s : Service)
      → SettledWith read u s
      → SettledWith read u (record s {
        users_connections =
            insert user_id
              (informed s.network_status_ok
                (create_message encode fresh NetworkStatus.error none)
                (subscribe connection (lookup user_id s.users_connections)))
              s.users_connections;
      })
  register-Settled fresh user_id connection (some status) s h = h
  register-Settled fresh user_id connection none s h =
      let P = Knows read s.network_status_ok in
      insert-AllReceivers P user_id _ s.users_connections
        (informed-Knows fresh s.network_status_ok connection (lookup user_id s.users_connections)
          (lookup-AllReceivers P user_id s.users_connections h))
        h

  drop_receiver-Settled :
      (user_id connection : ℕ) (u : Option NetworkStatus) (s : Service)
      → SettledWith read u s
      → SettledWith read u (drop_receiver user_id connection s)
  unfolding drop_receiver
  drop_receiver-Settled user_id connection (some status) s h = h
  drop_receiver-Settled user_id connection none s h =
      at (lookup user_id s.users_connections)
        (lookup-AllReceivers (Knows read s.network_status_ok) user_id s.users_connections h)
    where
      at :
          (found : Option (List Receiver))
          → Found (Knows read s.network_status_ok) found
          → AllReceivers (Knows read s.network_status_ok) (elim found [
            | none ↦ s.users_connections
            | some receivers ↦ insert user_id (drop connection receivers) s.users_connections
          ])
      at none k = h
      at (some receivers) k =
          insert-AllReceivers (Knows read s.network_status_ok) user_id (drop connection receivers)
            s.users_connections (drop-All (Knows read s.network_status_ok) connection receivers k) h

  finish-Settled :
      (user_id : ℕ) (u : Option NetworkStatus) (s : Service)
      → SettledWith read u s
      → SettledWith read u (finish user_id s)
  unfolding finish
  finish-Settled user_id (some status) s h = ground (arith, finish)
  finish-Settled user_id none s h = elim (Option-cases (lookup user_id s.users_connections)) [
    | inl e ↦ rw (e, finish) h
    | inr (receivers, e) ↦ elim (Bool-cases (length receivers == 0)) [
      | inl f ↦
          rw (e, finish)
            (rw f
              (remove-AllReceivers (Knows read s.network_status_ok) user_id s.users_connections h))
      | inr f ↦ rw (e, finish) (rw f h)
    ]
  ]

  close-Settled :
      (user_id : ℕ) (u : Option NetworkStatus) (s : Service)
      → SettledWith read u s
      → SettledWith read u (close_connections user_id s)
  unfolding close_connections
  close-Settled user_id (some status) s h = ground (arith, close_connections)
  close-Settled user_id none s h = elim (Option-cases (lookup user_id s.users_connections)) [
    | inl e ↦ rw (e, close_connections) h
    | inr (receivers, e) ↦
        rw (e, close_connections)
          (remove-AllReceivers (Knows read s.network_status_ok) user_id s.users_connections h)
  ]

  store_lem :
      (status : NetworkStatus) (s : Service)
      → (store_network_status status s).network_status_ok ≡ is_ok status
  unfolding store_network_status
  store_lem NetworkStatus.ok s = refl
  store_lem NetworkStatus.error s = refl

  act-Settled :
      (action : Action) (y : System) → Settled read y → SettledAfter read (act encode action y)
  unfolding act
  act-Settled (registered fresh user_id connection) y h =
      rw (register_lem encode fresh user_id connection y.service, SettledAfter)
        (register-Settled fresh user_id connection y.updating y.service h)
  act-Settled (sent fresh user_ids notification) y h =
      send-Settled fresh user_ids notification y.updating y.service h
  act-Settled (status_stored status) y h = elim (Option-cases y.updating) [
    | inl e ↦ rw (e, SettledAfter) (store_lem status y.service)
    | inr (earlier, e) ↦ rw (e, SettledAfter) tt
  ]
  act-Settled (status_broadcast fresh) y h = elim (Option-cases y.updating) [
    | inl e ↦ rw (e, SettledAfter) tt
    | inr (status, e) ↦
        rw (e, SettledAfter)
          (broadcast-Settled fresh status y.service (subst (λ u. SettledWith read u y.service) e h))
  ]
  act-Settled (run_ended user_id connection) y h =
      drop_receiver-Settled user_id connection y.updating y.service h
  act-Settled (task_ended user_id) y h = elim (Option-cases (without_one user_id y.ending)) [
    | inl e ↦ rw (e, SettledAfter) tt
    | inr (rest, e) ↦ rw (e, SettledAfter) (finish-Settled user_id y.updating y.service h)
  ]
  act-Settled (connections_closed user_id) y h = close-Settled user_id y.updating y.service h

  -- However registrations, notifications, ends of connections and changes of the network status
  -- interleave: whenever no change is under way, the last status that was sent alone to each
  -- connected user is the present one, or none was sent and all is well; provided that a reader of
  -- an encoded message sees its status and whether it has a notification.
  pub Reach-Settled : {y : System} → Reach encode start y → Settled read y
  unfolding new
  Reach-Settled here = tt
  Reach-Settled (next action reach e) =
      subst (SettledAfter read) e (act-Settled action _ (Reach-Settled reach))
