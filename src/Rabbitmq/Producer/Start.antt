-- ===== src/Rabbitmq/Producer/Start.antt =====
-- shared/rabbitmq_client/src/producer/rabbitmq_producer.rs: `RabbitmqProducer::new`, up to the spawn
-- of its task.
use Prim.Native.String.{String}
use tom_notifier.Base.{
  ◌≡◌, refl, Bool, true, false, List, [], ◌∷◌, Option, none, some, if◌then◌else◌,
}
use tom_notifier.Rabbitmq.Producer.Types.{
  State, StateMachine, Effect, register_callback, exchange_declare, confirm_select, new,
}
use tom_notifier.Rabbitmq.Producer.States.{restoring_producer_state}
use tom_notifier.Rabbitmq.Producer.Machine.{at_state}
use tom_notifier.Rabbitmq.Producer.Machine.Coherent.{IsCoherent, new-IsCoherent}

module _ {P C Ch : Type 0} where
  -- The machine that the task runs, or `none` for an error; and the calls. The arguments are the
  -- connection that is held now and the results of the calls, in order.
  unfoldable pub start :
      Option C
      → Option Ch
      → Bool
      → Bool
      → Bool
      → String
      → Option (StateMachine P C Ch) × List (Effect P Ch)
  start none opened registered declared selected exchange = (none, [])
  start (some connection) none registered declared selected exchange = (none, [])
  start (some connection) (some channel) false declared selected exchange =
      (none, register_callback channel ∷ [])
  start (some connection) (some channel) true false selected exchange =
      (none, register_callback channel ∷ exchange_declare channel ∷ [])
  start (some connection) (some channel) true true selected exchange = (
    if selected then some (new connection channel exchange) else none,
    register_callback channel ∷ exchange_declare channel ∷ confirm_select channel ∷ [],
  )

  -- What `new` would return if the method for `RestoringProducer` had made its last calls.
  abbrev pub ReturnsAs :
      Ch
      → Option (StateMachine P C Ch) × List (Effect P Ch)
      → StateMachine P C Ch × List (Effect P Ch)
      → Type 0
  ReturnsAs channel (some s, calls) r =
      IsCoherent (at_state s) × (r.0 ≡ s) × (calls ≡ register_callback channel ∷ r.1)
  ReturnsAs channel (none, calls) r =
      (r.0.state ≡ State.recreating_channel) × (calls ≡ register_callback channel ∷ r.1)

module _ (P : Type 0) {C Ch : Type 0} where
  -- Once the channel is open and its callback is registered, a new producer makes the calls that
  -- the state `RestoringProducer` makes on that channel: where they succeed the task starts with
  -- the coherent machine that the state would leave, and where one fails, and the state would turn
  -- to `RecreatingChannel`, there is an error.
  pub start-restores :
      (connection : C) (channel : Ch) (declared selected : Bool) (exchange : String)
      → ReturnsAs channel
          (start {P = P} (some connection) (some channel) true declared selected exchange)
          (restoring_producer_state false declared selected
            (record (new connection channel exchange) { state = State.restoring_producer }))
  unfolding start restoring_producer_state new
  start-restores connection channel false selected exchange = (refl, refl)
  start-restores connection channel true false exchange = (refl, refl)
  start-restores connection channel true true exchange =
      (new-IsCoherent P connection channel exchange, refl, refl)
