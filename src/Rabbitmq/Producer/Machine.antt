-- ===== src/Rabbitmq/Producer/Machine.antt =====
-- shared/rabbitmq_client/src/producer/state_machine.rs: `ok_state` and the loop of `run`. One event
-- is one outcome of an await: a branch that `select!` takes, or the results that an awaited loop
-- has seen.
pub mod Coherent
pub mod Amounts
pub mod Conservation
pub mod Runs
pub mod Recovery
use tom_notifier.Base.{
  ℕ, ◌+◌, ◌%◌, ◌^◌, Bool, true, false, not, ◌&&◌, List, [], ◌∷◌, ◌++◌, Option, none, some,
  if◌then◌else◌,
}
use tom_notifier.Rabbitmq.Producer.Defs.{Message, PublisherConfirm, process_confirm}
use tom_notifier.Rabbitmq.Producer.Types.{
  State, BasicPublishArguments, StateMachine, OkLocals, Effect, messages_tx_send, basic_publish,
  Event, ok_entered, connection_changed, flow_changed, blocked_changed, confirm_received,
  message_received, connections_seen, confirms_drained, channel_awaited, restore_awaited, Outcome,
  pending, panicked, done, Position, between, in_ok, Running, sends,
}
use tom_notifier.Rabbitmq.Producer.States.{
  waiting_for_connection_state, processing_pending_confirmations_state, recreating_channel_state,
  restoring_producer_state,
}

module _ {P C Ch : Type 0} where
  -- The start of `ok_state`, which reads the two flags.
  unfoldable pub ok_enter : Bool → Bool → StateMachine P C Ch → Running P C Ch × List (Effect P Ch)
  ok_enter flow blocked s = (
    record {
      machine = s;
      position = in_ok (record { flow = flow; blocked = blocked; message_count = 0 });
    },
    [],
  )

  -- The branch of `ok_state` for a message; `published` is the result of `basic_publish`. A failed
  -- publish puts the message back and leaves the loop.
  unfoldable pub ok_message :
      Message P → Bool → OkLocals → StateMachine P C Ch → Running P C Ch × List (Effect P Ch)
  ok_message message published l s =
      let message_count = (l.message_count + 1) % 2 ^ 64 in
      let args : BasicPublishArguments = record {
        exchange = s.exchange;
        routing_key = message.routing_key;
        mandatory = false;
        immediate = false;
      } in
      if published
      then (
        record {
          machine = record s {
            unconfirmed_messages = s.unconfirmed_messages ++ (message_count, message) ∷ [];
          };
          position = in_ok (record l { message_count = message_count });
        },
        basic_publish s.channel args message ∷ [],
      )
      else (
        record {
          machine = record s { state = State.processing_pending_confirmations };
          position = between;
        },
        basic_publish s.channel args message ∷ messages_tx_send message ∷ [],
      )

  -- One round of the loop of `ok_state`: the branch that `select!` takes.
  unfoldable pub ok_round :
      OkLocals → Event P C Ch → StateMachine P C Ch → Outcome (Running P C Ch × List (Effect P Ch))
  unfolding ok_message
  ok_round l connection_changed s = done (
    record { machine = record s { state = State.waiting_for_connection }; position = between },
    [],
  )
  ok_round l (flow_changed flow) s =
      done (record { machine = s; position = in_ok (record l { flow = flow }) }, [])
  ok_round l (blocked_changed blocked) s =
      done (record { machine = s; position = in_ok (record l { blocked = blocked }) }, [])
  ok_round l (confirm_received confirm) s =
      let r = process_confirm confirm s.unconfirmed_messages in
      done (
        record { machine = record s { unconfirmed_messages = r.0 }; position = in_ok l },
        sends r.1,
      )
  ok_round l (message_received message published) s =
      if not l.blocked && l.flow then done (ok_message message published l s) else pending
  ok_round l _ s = pending

  abbrev pub leave {ℓ} :
      {A : Type ℓ}
      → Outcome A
      → (A → Running P C Ch × List (Effect P Ch))
      → Outcome (Running P C Ch × List (Effect P Ch))
  leave pending f = pending
  leave panicked f = panicked
  leave (done a) f = done (f a)

  abbrev pub at_state : StateMachine P C Ch → Running P C Ch
  at_state s = record { machine = s; position = between }

  -- The match of `run` on the state.
  unfoldable pub dispatch :
      State → Event P C Ch → StateMachine P C Ch → Outcome (Running P C Ch × List (Effect P Ch))
  unfolding ok_enter waiting_for_connection_state processing_pending_confirmations_state
      recreating_channel_state restoring_producer_state
  dispatch State.ok (ok_entered flow blocked) s = done (ok_enter flow blocked s)
  dispatch State.waiting_for_connection (connections_seen seen) s =
      leave (waiting_for_connection_state seen s) (λ t. (at_state t, []))
  dispatch State.processing_pending_confirmations (confirms_drained confirms) s =
      let r = processing_pending_confirmations_state confirms s in done (at_state r.0, r.1)
  dispatch State.recreating_channel (channel_awaited changed progress) s =
      leave (recreating_channel_state changed progress s) (λ r. (at_state r.0, r.1))
  dispatch State.restoring_producer (restore_awaited changed declared selected) s =
      let r = restoring_producer_state changed declared selected s in done (at_state r.0, r.1)
  dispatch _ _ s = pending

  unfoldable pub step_at :
      Position → Event P C Ch → StateMachine P C Ch → Outcome (Running P C Ch × List (Effect P Ch))
  unfolding dispatch ok_round
  step_at between event s = dispatch s.state event s
  step_at (in_ok l) event s = ok_round l event s

  -- The loop of `run`, one event at a time.
  unfoldable pub step :
      Event P C Ch → Running P C Ch → Outcome (Running P C Ch × List (Effect P Ch))
  unfolding step_at
  step event r = step_at r.position event r.machine
