-- ===== src/Rabbitmq/Producer/States.antt =====
-- The methods of shared/rabbitmq_client/src/producer/state_machine.rs for the states that restore
-- the producer.
use tom_notifier.Base.{
  Bool, true, false, List, [], ◌∷◌, ◌++◌, map, Option, none, some, ℕ, if◌then◌else◌,
}
use tom_notifier.Rabbitmq.Retry.{retry}
use tom_notifier.Rabbitmq.Producer.Defs.{Message, PublisherConfirm, process_confirm}
use tom_notifier.Rabbitmq.Producer.Types.{
  State, StateMachine, Effect, channel_close, register_callback, exchange_declare, confirm_select,
  flow_tx_send, Progress, unpolled, polled, Outcome, pending, panicked, done, sends,
}

module _ {P : Type 0} where
  -- The first loop of `processing_pending_confirmations_state`, over the confirms that are left.
  unfoldable pub drain :
      List PublisherConfirm → List (ℕ × Message P) → List (ℕ × Message P) × List (Message P)
  drain [] queue = (queue, [])
  drain (confirm ∷ confirms) queue =
      let r = process_confirm confirm queue in
      let rest = drain confirms r.0 in (rest.0, r.1 ++ rest.1)

module _ {P Ch : Type 0} where
  -- The block that recreates the channel, as far as it got: the channel, the effects, and whether
  -- it is finished. It unwraps the connection first.
  unfoldable pub recreate :
      {C : Type 0} → Progress Ch → Option C → Ch → Outcome (Ch × List (Effect P Ch) × Bool)
  recreate unpolled connection channel = done (channel, [], false)
  recreate (polled opens registers) none channel = panicked
  recreate (polled opens registers) (some c) channel = elim (retry opens) [
    | none ↦ done (channel, [], false)
    | some opened ↦ elim (retry registers) [
      | none ↦ done (opened, flow_tx_send true ∷ register_callback opened ∷ [], false)
      | some _ ↦ done (opened, flow_tx_send true ∷ register_callback opened ∷ [], true)
    ]
  ]

  -- `declared` and `selected` are the results of the two calls.
  unfoldable pub try_restore_producer : Ch → Bool → Bool → Bool × List (Effect P Ch)
  try_restore_producer channel declared selected =
      if declared
      then (selected, exchange_declare channel ∷ confirm_select channel ∷ [])
      else (false, exchange_declare channel ∷ [])

module _ {P C Ch : Type 0} where
  -- The loop of `waiting_for_connection_state` over the values that it reads.
  unfoldable pub waiting_for_connection_state :
      List (Option C) → StateMachine P C Ch → Outcome (StateMachine P C Ch)
  waiting_for_connection_state [] s = pending
  waiting_for_connection_state (some c ∷ seen) s =
      done (record s { connection = some c; state = State.processing_pending_confirmations })
  waiting_for_connection_state (none ∷ seen) s =
      waiting_for_connection_state seen (record s { connection = none })

  -- Then every message that is still unconfirmed is scheduled again, in order.
  unfoldable pub processing_pending_confirmations_state :
      List PublisherConfirm → StateMachine P C Ch → StateMachine P C Ch × List (Effect P Ch)
  unfolding drain
  processing_pending_confirmations_state confirms s =
      let r = drain confirms s.unconfirmed_messages in
      (
        record s { unconfirmed_messages = []; state = State.recreating_channel },
        sends r.1 ++ sends (map (λ e. e.1) r.0),
      )

  -- How the `select!` of `recreating_channel_state` ends. `changed`: the connection changed before
  -- the block finished.
  unfoldable pub after_recreate :
      Bool
      → StateMachine P C Ch
      → Outcome (Ch × List (Effect P Ch) × Bool)
      → Outcome (StateMachine P C Ch × List (Effect P Ch))
  after_recreate changed s pending = pending
  after_recreate changed s panicked = panicked
  after_recreate changed s (done (channel, effects, finished)) =
      if changed
      then done (
        record s { channel = channel; state = State.waiting_for_connection },
        channel_close s.channel ∷ effects,
      )
      else if finished
      then done (
        record s { channel = channel; state = State.restoring_producer },
        channel_close s.channel ∷ effects,
      )
      else pending

  unfoldable pub recreating_channel_state :
      Bool → Progress Ch → StateMachine P C Ch → Outcome (StateMachine P C Ch × List (Effect P Ch))
  unfolding recreate after_recreate
  recreating_channel_state changed progress s =
      after_recreate changed s (recreate progress s.connection s.channel)

  unfoldable pub restoring_producer_state :
      Bool → Bool → Bool → StateMachine P C Ch → StateMachine P C Ch × List (Effect P Ch)
  unfolding try_restore_producer
  restoring_producer_state changed declared selected s =
      let r = try_restore_producer s.channel declared selected in
      if changed
      then (record s { state = State.waiting_for_connection }, [])
      else if r.0
      then (record s { state = State.ok }, r.1)
      else (record s { state = State.recreating_channel }, r.1)
