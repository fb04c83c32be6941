-- ===== src/Delivery/Websocket/Service/Unordered.antt =====
-- The map of connections without the order of its entries, in which `send_broadcast` of
-- websockets_service_impl.rs walks it.
use mathlib.Core.Quot
use mathlib.Core.Quot.{Quot, Quot-set}
use tom_notifier.Base.{
  ℕ, ◌==◌, ◌≡◌, ◌∙◌, sym, ap, refl, List, Option, none, some, is_some, if◌then◌else◌, lookup, count,
}
use tom_notifier.Delivery.Websocket.Types.{WebSocketMessage}
use tom_notifier.Delivery.Websocket.Service.{Connections, Receiver, send_multicast, send_broadcast}
use tom_notifier.Delivery.Websocket.Service.Registry.{
  queued, send_broadcast-lookup, send_multicast-lookup,
}

-- Two tables with the same entry for each user.
abbrev pub SameEntries : Connections → Connections → Type 0
SameEntries m m' = (user_id : ℕ) → lookup user_id m ≡ lookup user_id m'

-- The `HashMap` of connections.
abbrev pub UsersConnections : Type 0
UsersConnections = Quot SameEntries

pub send_broadcast-SameEntries :
    (message : WebSocketMessage) (m m' : Connections)
    → SameEntries m m'
    → SameEntries (send_broadcast message m) (send_broadcast message m')
send_broadcast-SameEntries message m m' same user_id =
    send_broadcast-lookup message user_id m
    ∙ ap (queued 1 message) (same user_id)
    ∙ sym (send_broadcast-lookup message user_id m')

pub send_multicast-SameEntries :
    (user_ids : List ℕ) (message : WebSocketMessage) (m m' : Connections)
    → SameEntries m m'
    → SameEntries (send_multicast user_ids message m) (send_multicast user_ids message m')
send_multicast-SameEntries user_ids message m m' same user_id =
    send_multicast-lookup message user_id user_ids m
    ∙ ap (queued (count (λ u. u == user_id) user_ids) message) (same user_id)
    ∙ sym (send_multicast-lookup message user_id user_ids m')

-- Both operations, which do not depend on the order.
unfoldable pub broadcast : WebSocketMessage → UsersConnections → UsersConnections
broadcast message =
    Quot.lift Quot-set (λ m. Quot.mk (send_broadcast message m))
      (λ m m' same. Quot.sound (send_broadcast-SameEntries message m m' same))

unfoldable pub multicast : List ℕ → WebSocketMessage → UsersConnections → UsersConnections
multicast user_ids message =
    Quot.lift Quot-set (λ m. Quot.mk (send_multicast user_ids message m))
      (λ m m' same. Quot.sound (send_multicast-SameEntries user_ids message m m' same))

-- Each connected user is named once, and nobody else.
abbrev pub NamesEach : List ℕ → Connections → Type 0
NamesEach user_ids m =
    (user_id : ℕ)
    → count (λ u. u == user_id) user_ids ≡ (if is_some (lookup user_id m) then 1 else 0)

queued_each :
    (message : WebSocketMessage) (found : Option (List Receiver))
    → queued (if is_some found then 1 else 0) message found ≡ queued 1 message found
queued_each message none = refl
queued_each message (some receivers) = refl

-- On the map of connections, whatever the order of its entries, a broadcast does what a multicast does
-- to the connected users, listed each once in any order.
pub broadcast-multicast :
    (message : WebSocketMessage) (user_ids : List ℕ) (m : Connections)
    → NamesEach user_ids m
    → broadcast message (Quot.mk m) ≡ multicast user_ids message (Quot.mk m)
unfolding broadcast multicast
broadcast-multicast message user_ids m each = Quot.sound same
  where
    same : SameEntries (send_broadcast message m) (send_multicast user_ids message m)
    same user_id =
        send_broadcast-lookup message user_id m
        ∙ sym (queued_each message (lookup user_id m))
        ∙ ap (λ n. queued n message (lookup user_id m)) (sym (each user_id))
        ∙ sym (send_multicast-lookup message user_id user_ids m)

-- A multicast does not depend on the order in which its users are listed.
pub multicast_any_order :
    (message : WebSocketMessage) (user_ids others : List ℕ) (connections : UsersConnections)
    → ((user_id : ℕ) → count (λ u. u == user_id) user_ids ≡ count (λ u. u == user_id) others)
    → multicast user_ids message connections ≡ multicast others message connections
unfolding multicast
multicast_any_order message user_ids others connections same = ordered connections
  where
    entries :
        (m : Connections)
        → SameEntries (send_multicast user_ids message m) (send_multicast others message m)
    entries m user_id =
        send_multicast-lookup message user_id user_ids m
        ∙ ap (λ n. queued n message (lookup user_id m)) (same user_id)
        ∙ sym (send_multicast-lookup message user_id others m)

    ordered : (c : UsersConnections) → multicast user_ids message c ≡ multicast others message c
    ordered = Quot.ind (λ c. Quot-set _ _) (λ m. Quot.sound (entries m))
