-- ===== src/Rabbitmq/Producer/Machine/Conservation.antt =====
-- No message is lost or made up: what the state machine takes from the channel of messages is in
-- the queue, acknowledged, or sent to the channel again.
use tom_notifier.Base.{
  ℕ, ◌+◌, ◌%◌, ◌^◌, ◌≡◌, inl, inr, Bool, true, false, not, ◌&&◌, List, [], ◌∷◌, Option, none, some,
  arith, Bool-cases, count, count-append,
}
use tom_notifier.Rabbitmq.Producer.Defs.{Message, PublisherConfirm, process_confirm}
use tom_notifier.Rabbitmq.Producer.Confirm.{covers, taken, messages}
use tom_notifier.Rabbitmq.Producer.Types.{
  State, StateMachine, OkLocals, Effect, Event, ok_entered, connection_changed, flow_changed,
  blocked_changed, confirm_received, message_received, connections_seen, confirms_drained,
  channel_awaited, restore_awaited, Progress, Outcome, pending, panicked, done, Position, between,
  in_ok, Running, sends,
}
use tom_notifier.Rabbitmq.Producer.States.{
  waiting_for_connection_state, processing_pending_confirmations_state, recreate, after_recreate,
  recreating_channel_state, restoring_producer_state, drain,
}
use tom_notifier.Rabbitmq.Producer.Machine.{
  ok_message, ok_round, leave, at_state, dispatch, step_at, step,
}
use tom_notifier.Rabbitmq.Producer.Machine.Amounts.{
  acknowledged, drained, amount, amount-append, process_confirm-amount, drain-amount, sent,
  sent-sends, sent-sends-append, SendsNothing, recreate-SendsNothing,
}
use tom_notifier.Rabbitmq.Producer.Machine.Coherent.{
  IsSortedWithin-above, CoherentAt, Coherent, IsCoherent,
}

module _ {P C Ch : Type 0} where
  -- The message that an event takes from the channel, and the messages that it acknowledges.
  abbrev pub received : Event P C Ch → List (Message P)
  received (message_received m published) = m ∷ []
  received _ = []

  abbrev pub acknowledges : Event P C Ch → List (ℕ × Message P) → List (Message P)
  acknowledges (confirm_received confirm) queue =
      acknowledged confirm.variant (taken (covers confirm) queue)
  acknowledges (confirms_drained confirms) queue = drained confirms queue
  acknowledges _ queue = []

  module _ (test : Message P → Bool) where
    abbrev pub Balance :
        Event P C Ch → List (ℕ × Message P) → Running P C Ch × List (Effect P Ch) → Type 0
    Balance event queue r =
        amount test queue + count test (received event)
        ≡ amount test r.0.machine.unconfirmed_messages
          + count test (sent r.1)
          + count test (acknowledges event queue)

    abbrev pub BalanceAfter :
        Event P C Ch → List (ℕ × Message P) → Outcome (Running P C Ch × List (Effect P Ch)) → Type 0
    BalanceAfter event queue (done r) = Balance event queue r
    BalanceAfter event queue _ = Unit {0}

    ok_message-Balance :
        (m : Message P) (published : Bool) (l : OkLocals) (s : StateMachine P C Ch)
        → Balance (message_received m published) s.unconfirmed_messages (ok_message m published l s)
    unfolding ok_message
    ok_message-Balance m true l s = omega (
      arith,
      amount-append test s.unconfirmed_messages (((l.message_count + 1) % 2 ^ 64, m) ∷ []),
    )
    ok_message-Balance m false l s = omega arith

    ok_round-Balance :
        (l : OkLocals) (event : Event P C Ch) (s : StateMachine P C Ch)
        → Coherent (in_ok l) s
        → BalanceAfter event s.unconfirmed_messages (ok_round l event s)
    unfolding ok_round
    ok_round-Balance l connection_changed s h = omega arith
    ok_round-Balance l (flow_changed flow) s h = omega arith
    ok_round-Balance l (blocked_changed b) s h = omega arith
    ok_round-Balance l (confirm_received confirm) s h =
        let queue = s.unconfirmed_messages in
        rw (sent-sends Ch (process_confirm confirm queue).1) (
          omega (
            arith,
            process_confirm-amount test confirm 0 queue
                (IsSortedWithin-above 0 l.message_count queue h.1),
          ))
    ok_round-Balance l (message_received m published) s h =
        elim (Bool-cases (not l.blocked && l.flow)) [
          | inl open' ↦ rw open' (ok_message-Balance m published l s)
          | inr shut ↦ rw shut tt
        ]
    ok_round-Balance l _ s h = tt

    waiting-Balance :
        (all seen : List (Option C)) (s : StateMachine P C Ch)
        → BalanceAfter
            (connections_seen all)
            s.unconfirmed_messages
            (leave (waiting_for_connection_state seen s) (λ t. (at_state t, [])))
    unfolding waiting_for_connection_state
    waiting-Balance all [] s = tt
    waiting-Balance all (some c ∷ seen) s = omega arith
    waiting-Balance all (none ∷ seen) s = waiting-Balance all seen (record s { connection = none })

    processing-Balance :
        (confirms : List PublisherConfirm) (s : StateMachine P C Ch)
        → CoherentAt State.processing_pending_confirmations s
        → let r = processing_pending_confirmations_state confirms s in
          Balance (confirms_drained confirms) s.unconfirmed_messages (at_state r.0, r.1)
    unfolding processing_pending_confirmations_state
    processing-Balance confirms s h =
        let r = drain confirms s.unconfirmed_messages in
        rw (sent-sends-append Ch r.1 (sends (messages r.0)), sent-sends Ch (messages r.0))
          (omega (
            arith,
            drain-amount test confirms h.1.0 s.unconfirmed_messages h.1.1,
            count-append test r.1 (messages r.0),
          ))

    after_recreate-Balance :
        (changed : Bool) (progress : Progress Ch) (s : StateMachine P C Ch)
        (o : Outcome (Ch × List (Effect P Ch) × Bool))
        → SendsNothing P Ch o
        → BalanceAfter
            (channel_awaited changed progress)
            s.unconfirmed_messages
            (leave (after_recreate changed s o) (λ r. (at_state r.0, r.1)))
    unfolding after_recreate
    after_recreate-Balance changed progress s pending h = tt
    after_recreate-Balance changed progress s panicked h = tt
    after_recreate-Balance true progress s (done r) h = rw h (omega arith)
    after_recreate-Balance false progress s (done (channel, effects, true)) h = rw h (omega arith)
    after_recreate-Balance false progress s (done (channel, effects, false)) h = tt

    recreating-Balance :
        (changed : Bool) (progress : Progress Ch) (s : StateMachine P C Ch)
        → BalanceAfter
            (channel_awaited changed progress)
            s.unconfirmed_messages
            (leave (recreating_channel_state changed progress s) (λ r. (at_state r.0, r.1)))
    unfolding recreating_channel_state
    recreating-Balance changed progress s =
        after_recreate-Balance changed progress s (recreate progress s.connection s.channel)
          (recreate-SendsNothing P Ch progress s.connection s.channel)

    restoring-Balance :
        (changed declared selected : Bool) (s : StateMachine P C Ch)
        → let r = restoring_producer_state changed declared selected s in
          Balance
            (restore_awaited changed declared selected)
            s.unconfirmed_messages
            (at_state r.0, r.1)
    unfolding restoring_producer_state
    restoring-Balance true declared selected s = omega arith
    restoring-Balance false true true s = omega arith
    restoring-Balance false true false s = omega arith
    restoring-Balance false false selected s = omega arith

    dispatch-Balance :
        (state : State) (event : Event P C Ch) (s : StateMachine P C Ch)
        → CoherentAt state s
        → BalanceAfter event s.unconfirmed_messages (dispatch state event s)
    unfolding dispatch
    dispatch-Balance State.ok (ok_entered flow b) s h = omega arith
    dispatch-Balance State.waiting_for_connection (connections_seen seen) s h =
        waiting-Balance seen seen s
    dispatch-Balance State.processing_pending_confirmations (confirms_drained confirms) s h =
        processing-Balance confirms s h
    dispatch-Balance State.recreating_channel (channel_awaited changed progress) s h =
        recreating-Balance changed progress s
    dispatch-Balance State.restoring_producer (restore_awaited changed declared selected) s h =
        restoring-Balance changed declared selected s
    dispatch-Balance _ _ s h = tt

    -- In a coherent state, for each test on messages, as many messages that pass it are in the queue
    -- before an event or taken by it from the channel, as are in the queue after it, sent to the
    -- channel again by it, or acknowledged by its acks.
    pub step-Balance :
        (event : Event P C Ch) (r : Running P C Ch)
        → IsCoherent r
        → BalanceAfter event r.machine.unconfirmed_messages (step event r)
    unfolding step
    step-Balance event r h = at r.position h
      where
        at :
            (p : Position)
            → Coherent p r.machine
            → BalanceAfter event r.machine.unconfirmed_messages (step_at p event r.machine)
        at between h' = dispatch-Balance r.machine.state event r.machine h'
        at (in_ok l) h' = ok_round-Balance l event r.machine h'
