-- ===== src/Delivery/Websocket/Connection/Queue.antt =====
-- The queue of unconfirmed messages of websocket_connection.rs: the order in which its messages are
-- due again, and what a push or a removal keeps of it.
use mathlib.Core.Path.{subst}
use tom_notifier.Base.{
  ℕ, zero, suc, ◌≤◌, inl, inr, List, [], ◌∷◌, ◌++◌, Option, none, some, remove_at, All, arith,
  Option-cases,
}
use tom_notifier.Delivery.Websocket.Types.{UnconfirmedMessage}

-- The times at which messages are due again do not fall along the queue, from `lo` to `hi`.
abbrev pub IsOrdered : ℕ → ℕ → List UnconfirmedMessage → Type 0
IsOrdered lo hi [] = lo ≤ hi
IsOrdered lo hi (q ∷ queue) = (lo ≤ q.retry_at) × IsOrdered q.retry_at hi queue

abbrev pub Within : ℕ → UnconfirmedMessage → Type 0
Within max q = q.retries_remaining ≤ max

pub IsOrdered-weaken :
    (lo' lo hi hi' : ℕ) (queue : List UnconfirmedMessage)
    → lo' ≤ lo
    → hi ≤ hi'
    → IsOrdered lo hi queue
    → IsOrdered lo' hi' queue
IsOrdered-weaken lo' lo hi hi' [] h k s = omega arith
IsOrdered-weaken lo' lo hi hi' (q ∷ queue) h k s =
    (omega arith, IsOrdered-weaken q.retry_at q.retry_at hi hi' queue (omega arith) k s.1)

pub push_back-IsOrdered :
    (lo hi : ℕ) (queue : List UnconfirmedMessage) (q : UnconfirmedMessage)
    → hi ≤ q.retry_at
    → IsOrdered lo hi queue
    → IsOrdered lo q.retry_at (queue ++ q ∷ [])
push_back-IsOrdered lo hi [] q h s = (omega arith, omega arith)
push_back-IsOrdered lo hi (x ∷ queue) q h s = (s.0, push_back-IsOrdered x.retry_at hi queue q h s.1)

-- A predicate on what a removal leaves of the queue.
abbrev pub Leaves :
    (List UnconfirmedMessage → Type 0)
    → Option (UnconfirmedMessage × List UnconfirmedMessage)
    → Type 0
Leaves P none = Unit {0}
Leaves P (some (q, rest)) = P rest

pub remove_at-IsOrdered :
    (i lo hi : ℕ) (queue : List UnconfirmedMessage)
    → IsOrdered lo hi queue
    → Leaves (IsOrdered lo hi) (remove_at i queue)
remove_at-IsOrdered i lo hi [] s = tt
remove_at-IsOrdered zero lo hi (x ∷ queue) s =
    IsOrdered-weaken lo x.retry_at hi hi queue s.0 (omega arith) s.1
remove_at-IsOrdered (suc i) lo hi (x ∷ queue) s =
    let rest = remove_at-IsOrdered i x.retry_at hi queue s.1 in
    elim (Option-cases (remove_at i queue)) [
      | inl e ↦ rw e tt
      | inr ((q, r), e) ↦ rw e (s.0, subst (Leaves (IsOrdered x.retry_at hi)) e rest)
    ]

pub remove_at-All :
    (max i : ℕ) (queue : List UnconfirmedMessage)
    → All (Within max) queue
    → Leaves (All (Within max)) (remove_at i queue)
remove_at-All max i [] s = tt
remove_at-All max zero (x ∷ queue) s = s.1
remove_at-All max (suc i) (x ∷ queue) s =
    let rest = remove_at-All max i queue s.1 in
    elim (Option-cases (remove_at i queue)) [
      | inl e ↦ rw e tt
      | inr ((q, r), e) ↦ rw e (s.0, subst (Leaves (All (Within max))) e rest)
    ]
