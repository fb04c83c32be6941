-- ===== src/Delivery/Websocket/Service/Registry.antt =====
-- Who receives what: registrations, multicasts and broadcasts.
use mathlib.Core.List.{append-nil, append_assoc}
use tom_notifier.Base.{
  ℕ, zero, suc, ◌==◌, ◌≡◌, ◌∙◌, ◌+◌, sym, ap, ==_iff, refl, inl, inr, Bool, true, false, List, [],
  ◌∷◌, ◌++◌, map, Option, none, some, if◌then◌else◌, lookup, insert, lookup-insert, is_empty, count,
  arith, Bool-cases,
}
use tom_notifier.Delivery.Websocket.Types.{WebSocketMessage}
use tom_notifier.Protobuf.{NetworkStatus, Notification, WebSocketNotification}
use tom_notifier.Delivery.Websocket.Service.{
  Service, Receiver, Connections, Fresh, receive, send_to, queue_message, send_multicast,
  send_broadcast, subscribe, inform, create_message, register, send,
}

-- The user's receivers after a registration: while the network is down each is told so.
abbrev pub informed : Bool → WebSocketMessage → List Receiver → List Receiver
informed true message receivers = receivers
informed false message receivers = map (receive message) receivers

inform_lem :
    (ok : Bool) (message : WebSocketMessage) (connection : ℕ) (found : Option (List Receiver))
    → inform ok message (subscribe connection found)
      ≡ some (informed ok message (subscribe connection found))
unfolding inform send_to
inform_lem true message connection found = refl
inform_lem false message connection none = refl
inform_lem false message connection (some []) = refl
inform_lem false message connection (some (r ∷ others)) = refl

-- A registration never meets a channel without receivers, so its unchecked unwrap is safe: it adds
-- the new receiver behind the user's others, and while the network status is not well each of them
-- gets a message that says so; nothing else changes.
pub register_lem :
    (encode : WebSocketNotification → List ℕ) (fresh : Fresh) (user_id connection : ℕ) (s : Service)
    → register encode fresh user_id connection s
      ≡ some (record s {
        users_connections =
            insert user_id
              (informed s.network_status_ok
                (create_message encode fresh NetworkStatus.error none)
                (subscribe connection (lookup user_id s.users_connections)))
              s.users_connections;
      })
unfolding register
register_lem encode fresh user_id connection s =
    rw
      (
        inform_lem s.network_status_ok (create_message encode fresh NetworkStatus.error none)
            connection (lookup user_id s.users_connections),
        register,
      )
      refl

-- A user's receivers once `queue_message` was called for them a number of times.
abbrev times : ℕ → WebSocketMessage → Option (List Receiver) → Option (List Receiver)
times n message none = none
times zero message (some receivers) = some receivers
times (suc n) message (some receivers) = times n message (some (queue_message message receivers))

send_broadcast-times :
    (message : WebSocketMessage) (user_id : ℕ) (connections : Connections)
    → lookup user_id (send_broadcast message connections)
      ≡ times 1 message (lookup user_id connections)
unfolding send_broadcast
send_broadcast-times message user_id [] = refl
send_broadcast-times message user_id ((u, rs) ∷ connections) = elim (Bool-cases (u == user_id)) [
  | inl e ↦ rw e refl
  | inr e ↦ rw e (send_broadcast-times message user_id connections)
]

-- One round of a multicast.
abbrev addressed : WebSocketMessage → ℕ → Connections → Option (List Receiver) → Connections
addressed message user_id connections none = connections
addressed message user_id connections (some receivers) =
    insert user_id (queue_message message receivers) connections

times-zero :
    (message : WebSocketMessage) (found : Option (List Receiver)) → times 0 message found ≡ found
times-zero message none = refl
times-zero message (some receivers) = refl

lookup_same :
    (u user_id : ℕ) (connections : Connections) (found : Option (List Receiver))
    → u == user_id ≡ true
    → lookup u connections ≡ found
    → lookup user_id connections ≡ found
lookup_same u user_id connections found same e =
    sym (ap (λ k. lookup k connections) ((==_iff u user_id).0 same)) ∙ e

addressed-lookup :
    (message : WebSocketMessage) (u user_id : ℕ) (found : Option (List Receiver))
    (connections : Connections)
    → lookup u connections ≡ found
    → lookup user_id (addressed message u connections found)
      ≡ times (if u == user_id then 1 else 0) message (lookup user_id connections)
addressed-lookup message u user_id none connections e = elim (Bool-cases (u == user_id)) [
  | inl same ↦ rw (same, lookup_same u user_id connections none same e) refl
  | inr other ↦ rw other (sym (times-zero message (lookup user_id connections)))
]
addressed-lookup message u user_id (some receivers) connections e =
    lookup-insert u user_id (queue_message message receivers) connections
    ∙ elim (Bool-cases (u == user_id)) [
      | inl same ↦ rw (same, lookup_same u user_id connections (some receivers) same e) refl
      | inr other ↦ rw other (sym (times-zero message (lookup user_id connections)))
    ]

times-suc :
    (n : ℕ) (message : WebSocketMessage) (found : Option (List Receiver))
    → times n message (times 1 message found) ≡ times (suc n) message found
times-suc n message none = refl
times-suc n message (some receivers) = refl

one_more : (n : ℕ) → suc n ≡ 1 + n
one_more n = omega arith

no_more : (n : ℕ) → n ≡ 0 + n
no_more n = omega arith

times-times :
    (n : ℕ) (again : Bool) (message : WebSocketMessage) (found : Option (List Receiver))
    → times n message (times (if again then 1 else 0) message found)
      ≡ times ((if again then 1 else 0) + n) message found
times-times n true message found =
    times-suc n message found ∙ ap (λ k. times k message found) (one_more n)
times-times n false message found =
    ap (times n message) (times-zero message found) ∙ ap (λ k. times k message found) (no_more n)

send_multicast-times :
    (message : WebSocketMessage) (user_id : ℕ) (user_ids : List ℕ) (connections : Connections)
    → lookup user_id (send_multicast user_ids message connections)
      ≡ times (count (λ u. u == user_id) user_ids) message (lookup user_id connections)
unfolding send_multicast
send_multicast-times message user_id [] connections =
    sym (times-zero message (lookup user_id connections))
send_multicast-times message user_id (u ∷ user_ids) connections =
    let n = count (λ u. u == user_id) user_ids in
    let found = lookup u connections in
    send_multicast-times message user_id user_ids (addressed message u connections found)
    ∙ ap (times n message) (addressed-lookup message u user_id found connections refl)
    ∙ times-times n (u == user_id) message (lookup user_id connections)

-- A number of copies of a message behind what is in an inbox.
abbrev pub copies_of : ℕ → WebSocketMessage → List WebSocketMessage
copies_of zero message = []
copies_of (suc n) message = message ∷ copies_of n message

abbrev pub deliver : ℕ → WebSocketMessage → Receiver → Receiver
deliver n message r = record { connection = r.connection; inbox = r.inbox ++ copies_of n message }

-- A user's receivers, each with a number of copies of a message more in its inbox.
abbrev pub queued : ℕ → WebSocketMessage → Option (List Receiver) → Option (List Receiver)
queued n message none = none
queued n message (some receivers) = some (map (deliver n message) receivers)

deliver-zero :
    (message : WebSocketMessage) (receivers : List Receiver)
    → map (deliver 0 message) receivers ≡ receivers
deliver-zero message [] = refl
deliver-zero message (r ∷ receivers) = rw (append-nil r.inbox, deliver-zero message receivers) refl

deliver-suc :
    (n : ℕ) (message : WebSocketMessage) (receivers : List Receiver)
    → map (deliver n message) (map (receive message) receivers)
      ≡ map (deliver (suc n) message) receivers
deliver-suc n message [] = refl
deliver-suc n message (r ∷ receivers) =
    rw (append_assoc r.inbox (message ∷ []) (copies_of n message), deliver-suc n message receivers)
      refl

queue_message-receive :
    (message : WebSocketMessage) (receivers : List Receiver)
    → queue_message message receivers ≡ map (receive message) receivers
unfolding queue_message send_to
queue_message-receive message [] = refl
queue_message-receive message (r ∷ receivers) = refl

times-queued :
    (n : ℕ) (message : WebSocketMessage) (found : Option (List Receiver))
    → times n message found ≡ queued n message found
times-queued n message none = refl
times-queued zero message (some receivers) = ap some (sym (deliver-zero message receivers))
times-queued (suc n) message (some receivers) =
    times-queued n message (some (queue_message message receivers))
    ∙ ap (λ rs. some (map (deliver n message) rs)) (queue_message-receive message receivers)
    ∙ ap some (deliver-suc n message receivers)

pub send_broadcast-lookup :
    (message : WebSocketMessage) (user_id : ℕ) (connections : Connections)
    → lookup user_id (send_broadcast message connections)
      ≡ queued 1 message (lookup user_id connections)
send_broadcast-lookup message user_id connections =
    send_broadcast-times message user_id connections
    ∙ times-queued 1 message (lookup user_id connections)

pub send_multicast-lookup :
    (message : WebSocketMessage) (user_id : ℕ) (user_ids : List ℕ) (connections : Connections)
    → lookup user_id (send_multicast user_ids message connections)
      ≡ queued (count (λ u. u == user_id) user_ids) message (lookup user_id connections)
send_multicast-lookup message user_id user_ids connections =
    send_multicast-times message user_id user_ids connections
    ∙ times-queued (count (λ u. u == user_id) user_ids) message (lookup user_id connections)

-- A notification is put behind what is in the inbox of each connection of a user, once when it is
-- addressed to nobody, and else as often as the user is among the addressees; nobody else gets
-- anything.
pub send-lookup :
    (encode : WebSocketNotification → List ℕ) (fresh : Fresh) (user_ids : List ℕ)
    (notification : Notification) (user_id : ℕ) (s : Service)
    → lookup user_id (send encode fresh user_ids notification s).users_connections
      ≡ queued
          (if is_empty user_ids then 1 else count (λ u. u == user_id) user_ids)
          (create_message encode fresh NetworkStatus.ok (some notification))
          (lookup user_id s.users_connections)
unfolding send
send-lookup encode fresh user_ids notification user_id s =
    let message = create_message encode fresh NetworkStatus.ok (some notification) in
    elim (Bool-cases (is_empty user_ids)) [
      | inl e ↦ rw e (send_broadcast-lookup message user_id s.users_connections)
      | inr e ↦ rw e (send_multicast-lookup message user_id user_ids s.users_connections)
    ]
