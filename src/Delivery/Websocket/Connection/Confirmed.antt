-- ===== src/Delivery/Websocket/Connection/Confirmed.antt =====
-- What a confirmation does to the queue of unconfirmed messages.
use tom_notifier.Base.{
  ℕ, suc, ◌+◌, ◌≡◌, refl, ap, inl, inr, ◌⊎◌, List, [], ◌∷◌, Option, none, some, if◌then◌else◌, ◌==◌,
  position, remove_at, arith, Bool-cases,
}
use tom_notifier.Delivery.Websocket.Callback.{Flags}
use tom_notifier.Delivery.Websocket.Types.{UnconfirmedMessage, Connection}
use tom_notifier.Delivery.Websocket.Connection.{finish, defer_ping, run_callback, confirm}

-- The queue without the first message that has an id, and that message.
abbrev pub first_with : ℕ → List UnconfirmedMessage → Option UnconfirmedMessage
first_with id [] = none
first_with id (q ∷ queue) = if q.message.message_id == id then some q else first_with id queue

abbrev pub without : ℕ → List UnconfirmedMessage → List UnconfirmedMessage
without id [] = []
without id (q ∷ queue) = if q.message.message_id == id then queue else q ∷ without id queue

abbrev Search : ℕ → ℕ → List UnconfirmedMessage → Type 0
Search id i queue =
    ((position (λ q. q.message.message_id == id) i queue ≡ none)
      × (first_with id queue ≡ none)
      × (without id queue ≡ queue))
    ⊎ ((j : ℕ) × (q : UnconfirmedMessage) × (rest : List UnconfirmedMessage) × (position
            (λ x. x.message.message_id == id) i queue
          ≡ some (i + j))
        × (remove_at j queue ≡ some (q, rest))
        × (first_with id queue ≡ some q)
        × (without id queue ≡ rest))

Search-queue : (id i : ℕ) (queue : List UnconfirmedMessage) → Search id i queue
Search-queue id i [] = inl (refl, refl, refl)
Search-queue id i (x ∷ queue) = elim (Bool-cases (x.message.message_id == id)) [
  | inl hit ↦ inr (0, x, queue, rw hit (ap some (omega arith)), refl, rw hit refl, rw hit refl)
  | inr miss ↦ elim (Search-queue id (suc i) queue) [
    | inl (p, f, w) ↦ inl (rw miss p, rw miss f, rw (miss, w) refl)
    | inr (j, q, rest, p, r, f, w) ↦ inr (
      suc j,
      q,
      x ∷ rest,
      rw (miss, p) (ap some (omega arith)),
      rw r refl,
      rw miss f,
      rw (miss, w) refl,
    )
  ]
]

-- A confirmation of an id takes the first message with that id from the queue, defers the ping, and
-- runs that message's callback; if no message has the id, it changes nothing.
pub confirm_lem :
    (now id : ℕ) (c : Connection) (flags : Flags)
    → confirm now id c flags ≡ elim (first_with id c.unconfirmed_messages) [
      | none ↦ finish c flags [] none
      | some q ↦
          run_callback q.message.delivered_callback
            (record (defer_ping now c) { unconfirmed_messages = without id c.unconfirmed_messages })
            flags
    ]
unfolding confirm
confirm_lem now id c flags = elim (Search-queue id 0 c.unconfirmed_messages) [
  | inl (p, f, w) ↦ rw (p, f, confirm) refl
  | inr (j, q, rest, p, r, f, w) ↦ ground arith
]
