-- ===== src/Rabbitmq/Producer/Machine/Coherent.antt =====
-- What holds between any two events of the producer's state machine.
use Prim.Native.String.{String}
use tom_notifier.Base.{
  ℕ, ◌+◌, ◌%◌, ◌≤◌, ◌<◌, ◌^◌, ◌≡◌, refl, inl, inr, Bool, true, false, not, ◌&&◌, List, [], ◌∷◌,
  ◌++◌, Option, none, some, is_some, arith, Bool-cases, Option-cases,
}
use tom_notifier.Rabbitmq.Retry.{retry}
use tom_notifier.Rabbitmq.Producer.Defs.{Message, PublisherConfirm, process_confirm}
use tom_notifier.Rabbitmq.Producer.Confirm.{IsSortedAbove, covers, kept, process_confirm-covers}
use tom_notifier.Rabbitmq.Producer.Types.{
  State, StateMachine, OkLocals, Effect, flow_tx_send, register_callback, Event, ok_entered,
  connection_changed, flow_changed, blocked_changed, confirm_received, message_received,
  connections_seen, confirms_drained, channel_awaited, restore_awaited, Progress, unpolled, polled,
  Outcome, pending, panicked, done, Position, between, in_ok, Running, new,
}
use tom_notifier.Rabbitmq.Producer.States.{
  waiting_for_connection_state, recreate, after_recreate, recreating_channel_state,
  restoring_producer_state,
}
use tom_notifier.Rabbitmq.Producer.Machine.{
  ok_message, ok_round, leave, at_state, dispatch, step_at, step,
}

-- The counts in the queue rise strictly, above `lo` and up to `hi`.
abbrev pub IsSortedWithin {ℓ} : {A : Type ℓ} → ℕ → ℕ → List (ℕ × A) → Type 0
IsSortedWithin lo hi [] = lo ≤ hi
IsSortedWithin lo hi (e ∷ queue) = (lo < e.0) × IsSortedWithin e.0 hi queue

module _ {P : Type 0} where
  pub IsSortedWithin-above :
      (lo hi : ℕ) (queue : List (ℕ × Message P))
      → IsSortedWithin lo hi queue
      → IsSortedAbove lo queue
  IsSortedWithin-above lo hi [] s = tt
  IsSortedWithin-above lo hi (e ∷ queue) s = (s.0, IsSortedWithin-above e.0 hi queue s.1)

  IsSortedWithin-weaken :
      (lo' lo hi : ℕ) (queue : List (ℕ × Message P))
      → lo' ≤ lo
      → IsSortedWithin lo hi queue
      → IsSortedWithin lo' hi queue
  IsSortedWithin-weaken lo' lo hi [] h s = omega arith
  IsSortedWithin-weaken lo' lo hi (e ∷ queue) h s = (omega arith, s.1)

  push_back-IsSortedWithin :
      (lo hi : ℕ) (queue : List (ℕ × Message P)) (m : Message P)
      → IsSortedWithin lo hi queue
      → IsSortedWithin lo (hi + 1) (queue ++ (hi + 1, m) ∷ [])
  push_back-IsSortedWithin lo hi [] m s = omega arith
  push_back-IsSortedWithin lo hi (e ∷ queue) m s =
      (s.0, push_back-IsSortedWithin e.0 hi queue m s.1)

  kept-IsSortedWithin :
      (test : ℕ → Bool) (lo hi : ℕ) (queue : List (ℕ × Message P))
      → IsSortedWithin lo hi queue
      → IsSortedWithin lo hi (kept test queue)
  kept-IsSortedWithin test lo hi [] s = s
  kept-IsSortedWithin test lo hi (e ∷ queue) s = elim (Bool-cases (test e.0)) [
    | inl out ↦ rw out (
        IsSortedWithin-weaken lo e.0 hi (kept test queue) (omega arith)
          (kept-IsSortedWithin test e.0 hi queue s.1))
    | inr stay ↦ rw stay (s.0, kept-IsSortedWithin test e.0 hi queue s.1)
  ]

  pub process_confirm-IsSortedWithin :
      (confirm : PublisherConfirm) (lo hi : ℕ) (queue : List (ℕ × Message P))
      → IsSortedWithin lo hi queue
      → IsSortedWithin lo hi (process_confirm confirm queue).0
  process_confirm-IsSortedWithin confirm lo hi queue s =
      rw (process_confirm-covers confirm lo queue (IsSortedWithin-above lo hi queue s))
        (kept-IsSortedWithin (covers confirm) lo hi queue s)

-- The count of messages of one `ok_state` fits in its 64 bits.
abbrev pub Fits : Position → Type 0
Fits between = Unit {0}
Fits (in_ok l) = l.message_count + 1 < 2 ^ 64

module _ {P C Ch : Type 0} where
  -- By state: a connection is held outside `WaitingForConnection`; the queue is empty while the
  -- channel and the exchange are restored, and when `ok_state` begins.
  abbrev pub CoherentAt : State → StateMachine P C Ch → Type 0
  CoherentAt State.ok s = (is_some s.connection ≡ true) × (s.unconfirmed_messages ≡ [])
  CoherentAt State.waiting_for_connection s = (hi : ℕ) × IsSortedWithin 0 hi s.unconfirmed_messages
  CoherentAt State.processing_pending_confirmations s =
      (is_some s.connection ≡ true) × ((hi : ℕ) × IsSortedWithin 0 hi s.unconfirmed_messages)
  CoherentAt State.recreating_channel s =
      (is_some s.connection ≡ true) × (s.unconfirmed_messages ≡ [])
  CoherentAt State.restoring_producer s =
      (is_some s.connection ≡ true) × (s.unconfirmed_messages ≡ [])

  -- Inside `ok_state` the counts in the queue rise strictly up to the last one given.
  abbrev pub Coherent : Position → StateMachine P C Ch → Type 0
  Coherent between s = CoherentAt s.state s
  Coherent (in_ok l) s =
      (is_some s.connection ≡ true) × IsSortedWithin 0 l.message_count s.unconfirmed_messages

  abbrev pub IsCoherent : Running P C Ch → Type 0
  IsCoherent r = Coherent r.position r.machine

  abbrev pub CoherentAfter : Outcome (Running P C Ch × List (Effect P Ch)) → Type 0
  CoherentAfter pending = Unit {0}
  CoherentAfter panicked = ⊥
  CoherentAfter (done r) = IsCoherent r.0

  ok_message-Coherent :
      (m : Message P) (published : Bool) (l : OkLocals) (s : StateMachine P C Ch)
      → Coherent (in_ok l) s
      → l.message_count + 1 < 2 ^ 64
      → IsCoherent (ok_message m published l s).0
  unfolding ok_message
  ok_message-Coherent m true l s h fits =
      let e : (l.message_count + 1) % 2 ^ 64 ≡ l.message_count + 1 = omega arith in
      rw e (h.0, push_back-IsSortedWithin 0 l.message_count s.unconfirmed_messages m h.1)
  ok_message-Coherent m false l s h fits = (h.0, (l.message_count, h.1))

  ok_round-Coherent :
      (l : OkLocals) (event : Event P C Ch) (s : StateMachine P C Ch)
      → Coherent (in_ok l) s
      → l.message_count + 1 < 2 ^ 64
      → CoherentAfter (ok_round l event s)
  unfolding ok_round
  ok_round-Coherent l connection_changed s h fits = (l.message_count, h.1)
  ok_round-Coherent l (flow_changed flow) s h fits = h
  ok_round-Coherent l (blocked_changed b) s h fits = h
  ok_round-Coherent l (confirm_received confirm) s h fits =
      (h.0, process_confirm-IsSortedWithin confirm 0 l.message_count s.unconfirmed_messages h.1)
  ok_round-Coherent l (message_received m published) s h fits =
      elim (Bool-cases (not l.blocked && l.flow)) [
        | inl open' ↦ rw open' (ok_message-Coherent m published l s h fits)
        | inr shut ↦ rw shut tt
      ]
  ok_round-Coherent l _ s h fits = tt

  waiting-Coherent :
      (seen : List (Option C)) (s : StateMachine P C Ch)
      → CoherentAt State.waiting_for_connection s
      → CoherentAfter (leave (waiting_for_connection_state seen s) (λ t. (at_state t, [])))
  unfolding waiting_for_connection_state
  waiting-Coherent [] s h = tt
  waiting-Coherent (some c ∷ seen) s h = (refl, h)
  waiting-Coherent (none ∷ seen) s h = waiting-Coherent seen (record s { connection = none }) h

  after_recreate-Coherent :
      (changed : Bool) (s : StateMachine P C Ch) (r : Ch × List (Effect P Ch) × Bool)
      → CoherentAt State.recreating_channel s
      → CoherentAfter (leave (after_recreate changed s (done r)) (λ t. (at_state t.0, t.1)))
  unfolding after_recreate
  after_recreate-Coherent true s (channel, effects, finished) h = (0, rw h.1 (omega arith))
  after_recreate-Coherent false s (channel, effects, true) h = h
  after_recreate-Coherent false s (channel, effects, false) h = tt

  -- The block unwraps a connection that is there.
  recreate-done :
      (progress : Progress Ch) (connection : Option C) (channel : Ch)
      → is_some connection ≡ true
      → (r : Ch × List (Effect P Ch) × Bool) × (recreate progress connection channel ≡ done r)
  unfolding recreate
  recreate-done unpolled connection channel h = ((channel, [], false), refl)
  recreate-done (polled opens registers) none channel h = cc
  recreate-done (polled opens registers) (some c) channel h = elim (Option-cases (retry opens)) [
    | inl e ↦ ((channel, [], false), rw (e, recreate))
    | inr (opened, e) ↦ elim (Option-cases (retry registers)) [
      | inl f ↦
          ((opened, flow_tx_send true ∷ register_callback opened ∷ [], false), rw (e, f, recreate))
      | inr (t, f) ↦
          ((opened, flow_tx_send true ∷ register_callback opened ∷ [], true), rw (e, f, recreate))
    ]
  ]

  recreating-Coherent :
      (changed : Bool) (progress : Progress Ch) (s : StateMachine P C Ch)
      → CoherentAt State.recreating_channel s
      → CoherentAfter
          (leave (recreating_channel_state changed progress s) (λ r. (at_state r.0, r.1)))
  unfolding recreating_channel_state
  recreating-Coherent changed progress s h =
      let (r, e) = recreate-done progress s.connection s.channel h.0 in
      rw (e, recreating_channel_state) (after_recreate-Coherent changed s r h)

  restoring-Coherent :
      (changed declared selected : Bool) (s : StateMachine P C Ch)
      → CoherentAt State.restoring_producer s
      → IsCoherent (at_state (restoring_producer_state changed declared selected s).0)
  unfolding restoring_producer_state
  restoring-Coherent true declared selected s h = (0, rw h.1 (omega arith))
  restoring-Coherent false true true s h = h
  restoring-Coherent false true false s h = h
  restoring-Coherent false false selected s h = h

  dispatch-Coherent :
      (state : State) (event : Event P C Ch) (s : StateMachine P C Ch)
      → CoherentAt state s
      → CoherentAfter (dispatch state event s)
  unfolding dispatch
  dispatch-Coherent State.ok (ok_entered flow b) s h = (h.0, rw h.1 (omega arith))
  dispatch-Coherent State.waiting_for_connection (connections_seen seen) s h =
      waiting-Coherent seen s h
  dispatch-Coherent State.processing_pending_confirmations (confirms_drained confirms) s h =
      (h.0, refl)
  dispatch-Coherent State.recreating_channel (channel_awaited changed progress) s h =
      recreating-Coherent changed progress s h
  dispatch-Coherent State.restoring_producer (restore_awaited changed declared selected) s h =
      restoring-Coherent changed declared selected s h
  dispatch-Coherent _ _ s h = tt

  -- From a coherent state, within 2^64 messages of one `ok_state`, no event makes an `unwrap` fail,
  -- and every event leads to a coherent state again.
  pub step-IsCoherent :
      (event : Event P C Ch) (r : Running P C Ch)
      → IsCoherent r
      → Fits r.position
      → CoherentAfter (step event r)
  unfolding step
  step-IsCoherent event r h fits = at r.position h fits
    where
      at :
          (p : Position) → Coherent p r.machine → Fits p → CoherentAfter (step_at p event r.machine)
      at between h' fits' = dispatch-Coherent r.machine.state event r.machine h'
      at (in_ok l) h' fits' = ok_round-Coherent l event r.machine h' fits'

-- The state machine starts coherent.
pub new-IsCoherent :
    (P : Type 0) {C Ch : Type 0} (connection : C) (channel : Ch) (exchange : String)
    → IsCoherent {P = P} (at_state (new connection channel exchange))
unfolding new
new-IsCoherent P connection channel exchange = (refl, refl)
