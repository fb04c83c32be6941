-- ===== src/Rabbitmq/Producer/Machine/Recovery.antt =====
-- After every failure the producer can work again.
use mathlib.Core.List.{append-nil}
use Prim.Native.String.{String}
use mathlib.Core.Path.{subst}
use tom_notifier.Base.{
  ℕ, ◌+◌, ◌<◌, ◌^◌, ◌≡◌, ◌∙◌, refl, true, false, List, [], ◌∷◌, Option, none, some,
}
use tom_notifier.Rabbitmq.Retry.{retry}
use tom_notifier.Rabbitmq.Producer.Defs.{Message}
use tom_notifier.Rabbitmq.Producer.Confirm.{messages}
use tom_notifier.Rabbitmq.Producer.Types.{
  State, StateMachine, OkLocals, connection_changed, connections_seen, confirms_drained,
  channel_awaited, restore_awaited, polled, Position, between, in_ok, Running, sends,
}
use tom_notifier.Rabbitmq.Producer.Machine.{at_state, step}
use tom_notifier.Rabbitmq.Producer.Machine.Amounts.{sent, sent-sends}
use tom_notifier.Rabbitmq.Producer.Machine.Coherent.{CoherentAt, Coherent, IsCoherent, Fits}
use tom_notifier.Rabbitmq.Producer.Machine.Runs.{Run, here, next}

module _ {P C Ch : Type 0} where
  -- A run that takes and acknowledges nothing and ends in the state `Ok`, with an empty queue, once
  -- it has scheduled the queue's messages again.
  abbrev pub Recovers : Running P C Ch → Type 0
  Recovers r =
      (u : Running P C Ch) × Run r [] (messages r.machine.unconfirmed_messages) [] u
      × (u.position ≡ between)
      × (u.machine.state ≡ State.ok)
      × (u.machine.unconfirmed_messages ≡ [])

module _ {P C Ch : Type 0} (exchange : String) (c : C) (opened : Ch) where
  abbrev machine : Option C → Ch → List (ℕ × Message P) → State → StateMachine P C Ch
  machine connection channel queue state = record {
    connection = connection;
    channel = channel;
    exchange = exchange;
    unconfirmed_messages = queue;
    state = state;
  }

  from_restoring :
      (connection : Option C) (channel : Ch)
      → Recovers (at_state (machine connection channel [] State.restoring_producer))
  unfolding step
  from_restoring connection channel = (
    at_state (machine connection channel [] State.ok),
    next (restore_awaited false true true) _ _ _ _ [] [] [] tt refl (here _),
    refl,
    refl,
    refl,
  )

  from_recreating :
      (k : C) (channel : Ch)
      → Recovers (at_state (machine (some k) channel [] State.recreating_channel))
  unfolding step retry
  from_recreating k channel =
      let r = from_restoring (some k) opened in
      (
        r.0,
        next (channel_awaited false (polled (some opened ∷ []) (some tt ∷ []))) _ _ _ _ [] [] [] tt
            refl r.1,
        r.2,
        r.3,
        r.4,
      )

  from_processing :
      (k : C) (channel : Ch) (queue : List (ℕ × Message P))
      → Recovers (at_state (machine (some k) channel queue State.processing_pending_confirmations))
  unfolding step
  from_processing k channel queue =
      let r = from_recreating k channel in
      (
        r.0,
        subst (λ scheduled. Run start [] scheduled [] r.0)
            (append-nil (sent (sends {Ch = Ch} (messages queue))) ∙ sent-sends Ch (messages queue))
            (next (confirms_drained []) start _ r.0 (sends (messages queue)) [] [] [] tt refl r.1),
        r.2,
        r.3,
        r.4,
      )
    where
      start : Running P C Ch
      start = at_state (machine (some k) channel queue State.processing_pending_confirmations)

  from_waiting :
      (connection : Option C) (channel : Ch) (queue : List (ℕ × Message P))
      → Recovers (at_state (machine connection channel queue State.waiting_for_connection))
  unfolding step
  from_waiting connection channel queue =
      let r = from_processing c channel queue in
      (r.0, next (connections_seen (some c ∷ [])) _ _ _ _ [] _ [] tt refl r.1, r.2, r.3, r.4)

  from_state :
      (state : State) (connection : Option C) (channel : Ch) (queue : List (ℕ × Message P))
      → CoherentAt state (machine connection channel queue state)
      → Recovers (at_state (machine connection channel queue state))
  from_state State.ok connection channel [] h = (_, here _, refl, refl, refl)
  from_state State.waiting_for_connection connection channel queue h =
      from_waiting connection channel queue
  from_state State.processing_pending_confirmations (some k) channel queue h =
      from_processing k channel queue
  from_state State.processing_pending_confirmations none channel queue h = cc
  from_state State.recreating_channel (some k) channel [] h = from_recreating k channel
  from_state State.recreating_channel none channel queue h = cc
  from_state State.restoring_producer connection channel [] h = from_restoring connection channel
  from_state _ connection channel (e ∷ queue) h = cc

  from_ok :
      (l : OkLocals) (connection : Option C) (channel : Ch) (queue : List (ℕ × Message P))
      (state : State)
      → l.message_count + 1 < 2 ^ 64
      → Recovers (record { machine = machine connection channel queue state; position = in_ok l })
  unfolding step
  from_ok l connection channel queue state fits =
      let r = from_waiting connection channel queue in
      (r.0, next connection_changed _ _ _ [] [] _ [] fits refl r.1, r.2, r.3, r.4)

-- From every coherent state the machine can come back to `Ok` with an empty queue, if the broker
-- gives a connection `c` and a channel `opened`; on the way it schedules every message of the queue
-- again, in order, and gives up none.
pub recovers :
    {P C Ch : Type 0} (c : C) (opened : Ch) (r : Running P C Ch)
    → IsCoherent r
    → Fits r.position
    → Recovers r
recovers {P} {C} {Ch} c opened r h fits = at r.position h fits
  where
    open r.machine use {connection, channel, exchange, unconfirmed_messages, state}

    at :
        (p : Position)
        → Coherent p r.machine
        → Fits p
        → Recovers (record { machine = r.machine; position = p })
    at between h' fits' =
        from_state exchange c opened state connection channel unconfirmed_messages h'
    at (in_ok l) h' fits' =
        from_ok exchange c opened l connection channel unconfirmed_messages state fits'
