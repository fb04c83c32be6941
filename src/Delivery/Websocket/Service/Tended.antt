-- ===== src/Delivery/Websocket/Service/Tended.antt =====
-- A registry of websockets_service in which each user without connections is about to be removed.
use mathlib.Core.Path.{subst}
use tom_notifier.Base.{
  ℕ, ◌==◌, ◌≡◌, refl, sym, inl, inr, Bool, true, false, List, [], ◌∷◌, Option, none, some, lookup,
  insert, remove, lookup-insert, lookup-remove, any, length, arith, ==_iff, ==-refl, Bool-cases,
  Option-cases,
}
use tom_notifier.Delivery.Websocket.Types.{WebSocketMessage}
use tom_notifier.Delivery.Websocket.Service.{
  Service, Receiver, Connections, subscribe, drop, drop_receiver, finish, close_connections,
}
use tom_notifier.Delivery.Websocket.Service.Registry.{informed, queued}
use tom_notifier.Delivery.Websocket.Service.System.{without_one}

abbrev pub is_ending : ℕ → List ℕ → Bool
is_ending user_id ending = any (λ u. u == user_id) ending

-- A user is in the registry without a receiver only if it is told so by `b`.
abbrev pub EmptyIf : Bool → Option (List Receiver) → Type 0
EmptyIf b none = Unit {0}
EmptyIf b (some []) = b ≡ true
EmptyIf b (some (r ∷ receivers)) = Unit {0}

abbrev pub IsTended : Connections → List ℕ → Type 0
IsTended connections ending =
    (user_id : ℕ) → EmptyIf (is_ending user_id ending) (lookup user_id connections)

EmptyIf-true : (found : Option (List Receiver)) → EmptyIf true found
EmptyIf-true none = tt
EmptyIf-true (some []) = refl
EmptyIf-true (some (r ∷ receivers)) = tt

EmptyIf-mono :
    (b c : Bool) (found : Option (List Receiver))
    → (b ≡ true → c ≡ true)
    → EmptyIf b found
    → EmptyIf c found
EmptyIf-mono b c none h k = tt
EmptyIf-mono b c (some []) h k = h k
EmptyIf-mono b c (some (r ∷ receivers)) h k = tt

pub queued-EmptyIf :
    (b : Bool) (n : ℕ) (message : WebSocketMessage) (found : Option (List Receiver))
    → EmptyIf b found
    → EmptyIf b (queued n message found)
queued-EmptyIf b n message none h = tt
queued-EmptyIf b n message (some []) h = h
queued-EmptyIf b n message (some (r ∷ receivers)) h = tt

pub informed-EmptyIf :
    (b ok : Bool) (message : WebSocketMessage) (connection : ℕ) (found : Option (List Receiver))
    → EmptyIf b (some (informed ok message (subscribe connection found)))
informed-EmptyIf b true message connection none = tt
informed-EmptyIf b true message connection (some []) = tt
informed-EmptyIf b true message connection (some (r ∷ others)) = tt
informed-EmptyIf b false message connection none = tt
informed-EmptyIf b false message connection (some []) = tt
informed-EmptyIf b false message connection (some (r ∷ others)) = tt

-- The entry of one user, changed.
pub insert-IsTended :
    (user_id : ℕ) (receivers : List Receiver) (connections : Connections) (ending : List ℕ)
    → EmptyIf (is_ending user_id ending) (some receivers)
    → IsTended connections ending
    → IsTended (insert user_id receivers connections) ending
insert-IsTended user_id receivers connections ending h tended j =
    subst (EmptyIf (is_ending j ending)) (sym (lookup-insert user_id j receivers connections))
      (elim (Bool-cases (user_id == j)) [
        | inl same ↦ rw same (
            subst (λ k. EmptyIf (is_ending k ending) (some receivers)) ((==_iff user_id j).0 same)
              h)
        | inr other ↦ rw other (tended j)
      ])

remove-IsTended :
    (user_id : ℕ) (connections : Connections) (ending : List ℕ)
    → IsTended connections ending
    → IsTended (remove user_id connections) ending
remove-IsTended user_id connections ending tended j =
    subst (EmptyIf (is_ending j ending)) (sym (lookup-remove user_id j connections))
      (elim (Bool-cases (user_id == j)) [ inl same ↦ rw same tt | inr other ↦ rw other (tended j) ])

ending-more :
    (user_id j : ℕ) (ending : List ℕ)
    → is_ending j ending ≡ true
    → is_ending j (user_id ∷ ending) ≡ true
ending-more user_id j ending h = elim (Bool-cases (user_id == j)) [
  | inl e ↦ rw e refl
  | inr e ↦ rw e h
]

more-IsTended :
    (user_id : ℕ) (connections : Connections) (ending : List ℕ)
    → IsTended connections ending
    → IsTended connections (user_id ∷ ending)
more-IsTended user_id connections ending tended j =
    EmptyIf-mono (is_ending j ending) (is_ending j (user_id ∷ ending)) (lookup j connections)
      (ending-more user_id j ending) (tended j)

-- The other users' tasks stay.
without_one-ending :
    (user_id j : ℕ) (ending rest : List ℕ)
    → without_one user_id ending ≡ some rest
    → (user_id == j) ≡ false
    → is_ending j ending ≡ true
    → is_ending j rest ≡ true
without_one-ending user_id j [] rest e other h = cc
without_one-ending user_id j (m ∷ ms) rest e other h = elim (Bool-cases (m == user_id)) [
  | inl hit ↦ ground arith
  | inr miss ↦ elim (Option-cases (without_one user_id ms)) [
    | inl f ↦ ground arith
    | inr (r, f) ↦ ground (arith, without_one-ending user_id j ms r f other)
  ]
]

finish-other :
    (user_id j : ℕ) (s : Service)
    → (user_id == j) ≡ false
    → lookup j (finish user_id s).users_connections ≡ lookup j s.users_connections
unfolding finish
finish-other user_id j s other = elim (Option-cases (lookup user_id s.users_connections)) [
  | inl e ↦ rw (e, finish) refl
  | inr (receivers, e) ↦ elim (Bool-cases (length receivers == 0)) [
    | inl f ↦
        rw (e, finish) (rw f (rw (lookup-remove user_id j s.users_connections) (rw other refl)))
    | inr f ↦ rw (e, finish) (rw f refl)
  ]
]

nonempty :
    (b : Bool) (receivers : List Receiver)
    → (length receivers == 0) ≡ false
    → EmptyIf b (some receivers)
nonempty b [] h = cc
nonempty b (r ∷ receivers) h = tt

finish-same :
    (user_id : ℕ) (b : Bool) (s : Service)
    → EmptyIf b (lookup user_id (finish user_id s).users_connections)
unfolding finish
finish-same user_id b s = elim (Option-cases (lookup user_id s.users_connections)) [
  | inl e ↦ rw (e, finish) (rw e tt)
  | inr (receivers, e) ↦ elim (Bool-cases (length receivers == 0)) [
    | inl f ↦
        rw (e, finish)
          (rw f (rw (lookup-remove user_id user_id s.users_connections) (rw (==-refl user_id) tt)))
    | inr f ↦ rw (e, finish) (rw f (rw e (nonempty b receivers f)))
  ]
]

pub finish-IsTended :
    (user_id : ℕ) (ending rest : List ℕ) (s : Service)
    → without_one user_id ending ≡ some rest
    → IsTended s.users_connections ending
    → IsTended (finish user_id s).users_connections rest
finish-IsTended user_id ending rest s e tended j = elim (Bool-cases (user_id == j)) [
  | inl same ↦
      subst (λ k. EmptyIf (is_ending j rest) (lookup k (finish user_id s).users_connections))
        ((==_iff user_id j).0 same) (finish-same user_id (is_ending j rest) s)
  | inr other ↦ rw (finish-other user_id j s other) (
      EmptyIf-mono (is_ending j ending) (is_ending j rest) (lookup j s.users_connections)
        (without_one-ending user_id j ending rest e other) (tended j))
]

pub drop_receiver-IsTended :
    (user_id connection : ℕ) (ending : List ℕ) (s : Service)
    → IsTended s.users_connections ending
    → IsTended (drop_receiver user_id connection s).users_connections (user_id ∷ ending)
unfolding drop_receiver
drop_receiver-IsTended user_id connection ending s tended = at (lookup user_id s.users_connections)
  where
    more : IsTended s.users_connections (user_id ∷ ending)
    more = more-IsTended user_id s.users_connections ending tended

    at :
        (found : Option (List Receiver))
        → IsTended
            (elim found [
              | none ↦ s.users_connections
              | some receivers ↦ insert user_id (drop connection receivers) s.users_connections
            ])
            (user_id ∷ ending)
    at none = more
    at (some receivers) =
        insert-IsTended user_id (drop connection receivers) s.users_connections (user_id ∷ ending)
          (rw (==-refl user_id) (EmptyIf-true (some (drop connection receivers)))) more

pub close-IsTended :
    (user_id : ℕ) (ending : List ℕ) (s : Service)
    → IsTended s.users_connections ending
    → IsTended (close_connections user_id s).users_connections ending
unfolding close_connections
close-IsTended user_id ending s tended = elim (Option-cases (lookup user_id s.users_connections)) [
  | inl e ↦ rw (e, close_connections) tended
  | inr (receivers, e) ↦
      rw (e, close_connections) (remove-IsTended user_id s.users_connections ending tended)
]
