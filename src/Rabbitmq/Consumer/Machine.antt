-- ===== src/Rabbitmq/Consumer/Machine.antt =====
-- shared/rabbitmq_client/src/consumer/state_machine.rs. One event is one outcome of an await; what
-- the code calls is a list of effects, in order.
use tom_notifier.Base.{
  ℕ, ◌+◌, Bool, true, false, List, [], ◌∷◌, ◌++◌, Option, none, some, if◌then◌else◌,
}
use tom_notifier.Rabbitmq.Retry.{retry}
use tom_notifier.Rabbitmq.Await.{Outcome, pending, panicked, done, Progress, unpolled, polled}

pub data State : Type 0 where
  ok waiting_for_connection recreating_channel restoring_consumer : State

-- `RabbitmqConsumerStatus`.
pub data Status : Type 0 where
  consuming recovering : Status

-- The fields that the methods assign, and the bindings of the queue. `C`, `Ch`, `B` and `N` are
-- connections, channels, bindings and the notifiers for a cancelled consumer.
pub record StateMachine (C Ch B N : Type 0) : Type 0 where
  pub connection : Option C
  pub channel : Ch
  pub queue_bind_args : List B
  pub consumer_cancelled : N
  pub state : State

pub data Effect (Ch B N : Type 0) : Type 0 where
  status_callback : Status → Effect Ch B N
  channel_close exchange_declare queue_declare basic_consume : Ch → Effect Ch B N
  queue_bind : Ch → B → Effect Ch B N
  register_callback : Ch → N → Effect Ch B N

-- The results of the calls of `try_restore_consumer`; `bound i` is that of the call for binding `i`.
pub record Restored : Type 0 where
  pub declared : Bool
  pub queued : Bool
  pub bound : ℕ → Bool
  pub consumed : Bool

pub data Event (C Ch N : Type 0) : Type 0 where
  ok_entered connection_changed consumer_cancelled : Event C Ch N
  connections_seen : List (Option C) → Event C Ch N
  channel_awaited : Bool → N → Progress Ch → Event C Ch N
  restore_awaited : Bool → Restored → Event C Ch N

-- `in_ok`: inside the `select!` of `ok_state`.
pub data Position : Type 0 where
  between in_ok : Position

pub record Running (C Ch B N : Type 0) : Type 0 where
  pub machine : StateMachine C Ch B N
  pub position : Position

module _ {Ch B N : Type 0} where
  -- The loop over the bindings: it stops at the first error. The effects come in order.
  unfoldable pub bind_all : Ch → (ℕ → Bool) → ℕ → List B → Bool × List (Effect Ch B N)
  bind_all channel bound i [] = (true, [])
  bind_all channel bound i (args ∷ rest) =
      let r = bind_all channel bound (i + 1) rest in
      if bound i
      then (r.0, queue_bind channel args ∷ r.1)
      else (false, queue_bind channel args ∷ [])

  unfoldable pub try_restore_consumer : Ch → List B → Restored → Bool × List (Effect Ch B N)
  unfolding bind_all
  try_restore_consumer channel queue_bind_args results =
      let binds = bind_all channel results.bound 0 queue_bind_args in
      if results.declared
      then (if results.queued
          then (if binds.0
              then (
                results.consumed,
                exchange_declare channel
                    ∷ queue_declare channel
                    ∷ (binds.1 ++ basic_consume channel ∷ []),
              )
              else (false, exchange_declare channel ∷ queue_declare channel ∷ binds.1))
          else (false, exchange_declare channel ∷ queue_declare channel ∷ []))
      else (false, exchange_declare channel ∷ [])

  -- The block that recreates the channel, as far as it got: the channel, the notifier, the effects,
  -- and whether it is finished. `fresh` is the notifier that it creates.
  unfoldable pub recreate :
      {C : Type 0}
      → Progress Ch
      → Option C
      → Ch
      → N
      → N
      → Outcome (Ch × N × List (Effect Ch B N) × Bool)
  recreate unpolled connection channel notifier fresh = done (channel, notifier, [], false)
  recreate (polled opens registers) none channel notifier fresh = panicked
  recreate (polled opens registers) (some c) channel notifier fresh = elim (retry opens) [
    | none ↦ done (channel, notifier, [], false)
    | some opened ↦ elim (retry registers) [
      | none ↦ done (opened, fresh, register_callback opened fresh ∷ [], false)
      | some _ ↦ done (opened, fresh, register_callback opened fresh ∷ [], true)
    ]
  ]

module _ {C Ch B N : Type 0} where
  -- `StateMachine::new`.
  unfoldable pub new : C → Ch → List B → N → StateMachine C Ch B N
  new connection channel queue_bind_args notifier = record {
    connection = some connection;
    channel = channel;
    queue_bind_args = queue_bind_args;
    consumer_cancelled = notifier;
    state = State.ok;
  }

  abbrev pub at_state : StateMachine C Ch B N → Running C Ch B N
  at_state s = record { machine = s; position = between }

  -- `ok_state` up to its `select!`.
  unfoldable pub ok_enter : StateMachine C Ch B N → Running C Ch B N × List (Effect Ch B N)
  ok_enter s = (record { machine = s; position = in_ok }, status_callback consuming ∷ [])

  -- The `select!` of `ok_state`, and what follows it.
  unfoldable pub ok_leave :
      Event C Ch N → StateMachine C Ch B N → Outcome (Running C Ch B N × List (Effect Ch B N))
  ok_leave connection_changed s = done (
    at_state (record s { state = State.waiting_for_connection }),
    status_callback recovering ∷ [],
  )
  ok_leave consumer_cancelled s =
      done
        (at_state (record s { state = State.restoring_consumer }), status_callback recovering ∷ [])
  ok_leave _ s = pending

  unfoldable pub waiting_for_connection_state :
      List (Option C) → StateMachine C Ch B N → Outcome (StateMachine C Ch B N)
  waiting_for_connection_state [] s = pending
  waiting_for_connection_state (some c ∷ seen) s =
      done (record s { connection = some c; state = State.recreating_channel })
  waiting_for_connection_state (none ∷ seen) s =
      waiting_for_connection_state seen (record s { connection = none })

  unfoldable pub after_recreate :
      Bool
      → StateMachine C Ch B N
      → Outcome (Ch × N × List (Effect Ch B N) × Bool)
      → Outcome (StateMachine C Ch B N × List (Effect Ch B N))
  after_recreate changed s pending = pending
  after_recreate changed s panicked = panicked
  after_recreate changed s (done (channel, notifier, effects, finished)) =
      let t = record s { channel = channel; consumer_cancelled = notifier } in
      let calls = channel_close s.channel ∷ effects in
      if changed
      then done (record t { state = State.waiting_for_connection }, calls)
      else if finished
      then done (record t { state = State.restoring_consumer }, calls)
      else pending

  unfoldable pub recreating_channel_state :
      Bool
      → N
      → Progress Ch
      → StateMachine C Ch B N
      → Outcome (StateMachine C Ch B N × List (Effect Ch B N))
  unfolding recreate after_recreate
  recreating_channel_state changed fresh progress s =
      after_recreate changed s (recreate progress s.connection s.channel s.consumer_cancelled fresh)

  unfoldable pub restoring_consumer_state :
      Bool → Restored → StateMachine C Ch B N → StateMachine C Ch B N × List (Effect Ch B N)
  unfolding try_restore_consumer
  restoring_consumer_state changed results s =
      let r = try_restore_consumer s.channel s.queue_bind_args results in
      if changed
      then (record s { state = State.waiting_for_connection }, [])
      else if r.0
      then (record s { state = State.ok }, r.1)
      else (record s { state = State.recreating_channel }, r.1)

  abbrev pub leave {ℓ} :
      {A : Type ℓ}
      → Outcome A
      → (A → Running C Ch B N × List (Effect Ch B N))
      → Outcome (Running C Ch B N × List (Effect Ch B N))
  leave pending f = pending
  leave panicked f = panicked
  leave (done a) f = done (f a)

  -- The match of `run` on the state.
  unfoldable pub dispatch :
      State
      → Event C Ch N
      → StateMachine C Ch B N
      → Outcome (Running C Ch B N × List (Effect Ch B N))
  unfolding ok_enter waiting_for_connection_state recreating_channel_state restoring_consumer_state
  dispatch State.ok ok_entered s = done (ok_enter s)
  dispatch State.waiting_for_connection (connections_seen seen) s =
      leave (waiting_for_connection_state seen s) (λ t. (at_state t, []))
  dispatch State.recreating_channel (channel_awaited changed fresh progress) s =
      leave (recreating_channel_state changed fresh progress s) (λ r. (at_state r.0, r.1))
  dispatch State.restoring_consumer (restore_awaited changed results) s =
      let r = restoring_consumer_state changed results s in done (at_state r.0, r.1)
  dispatch _ _ s = pending

  unfoldable pub step_at :
      Position
      → Event C Ch N
      → StateMachine C Ch B N
      → Outcome (Running C Ch B N × List (Effect Ch B N))
  unfolding dispatch ok_leave
  step_at between event s = dispatch s.state event s
  step_at in_ok event s = ok_leave event s

  -- The loop of `run`, one event at a time.
  unfoldable pub step :
      Event C Ch N → Running C Ch B N → Outcome (Running C Ch B N × List (Effect Ch B N))
  unfolding step_at
  step event r = step_at r.position event r.machine
