-- ===== src/Rabbitmq/Producer/Types.antt =====
-- The data of shared/rabbitmq_client/src/producer/state_machine.rs: its states and fields, the
-- outcomes of its awaits as events, and what it hands to the channels and to the AMQP library as
-- effects.
use Prim.Native.String.{String}
use tom_notifier.Base.{ℕ, Bool, List, [], map, Option, some}
pub use tom_notifier.Rabbitmq.Await.{Outcome, pending, panicked, done, Progress, unpolled, polled}
use tom_notifier.Rabbitmq.Producer.Defs.{Message, PublisherConfirm}

pub data State : Type 0 where
  ok waiting_for_connection processing_pending_confirmations recreating_channel : State
  restoring_producer : State

pub record BasicPublishArguments : Type 0 where
  pub exchange : String
  pub routing_key : String
  pub mandatory : Bool
  pub immediate : Bool

-- The fields of `StateMachine` that its methods assign, and the exchange's name. `C` and `Ch` are
-- the connections and channels of the AMQP library.
pub record StateMachine (P C Ch : Type 0) : Type 0 where
  pub connection : Option C
  pub channel : Ch
  pub exchange : String
  pub unconfirmed_messages : List (ℕ × Message P)
  pub state : State

-- The locals of `ok_state`.
pub record OkLocals : Type 0 where
  pub flow : Bool
  pub blocked : Bool
  pub message_count : ℕ

pub data Effect (P Ch : Type 0) : Type 0 where
  messages_tx_send : Message P → Effect P Ch
  basic_publish : Ch → BasicPublishArguments → Message P → Effect P Ch
  channel_close register_callback exchange_declare confirm_select : Ch → Effect P Ch
  flow_tx_send : Bool → Effect P Ch

pub data Event (P C Ch : Type 0) : Type 0 where
  ok_entered : Bool → Bool → Event P C Ch
  connection_changed : Event P C Ch
  flow_changed blocked_changed : Bool → Event P C Ch
  confirm_received : PublisherConfirm → Event P C Ch
  message_received : Message P → Bool → Event P C Ch
  connections_seen : List (Option C) → Event P C Ch
  confirms_drained : List PublisherConfirm → Event P C Ch
  channel_awaited : Bool → Progress Ch → Event P C Ch
  restore_awaited : Bool → Bool → Bool → Event P C Ch

-- `between`: the loop of `run` is about to match on the state. `in_ok`: inside the loop of
-- `ok_state`.
pub data Position : Type 0 where
  between : Position
  in_ok : OkLocals → Position

pub record Running (P C Ch : Type 0) : Type 0 where
  pub machine : StateMachine P C Ch
  pub position : Position

module _ {P Ch : Type 0} where
  abbrev pub sends : List (Message P) → List (Effect P Ch)
  sends = map messages_tx_send

module _ {P C Ch : Type 0} where
  -- `StateMachine::new`.
  unfoldable pub new : C → Ch → String → StateMachine P C Ch
  new connection channel exchange = record {
    connection = some connection;
    channel = channel;
    exchange = exchange;
    unconfirmed_messages = [];
    state = State.ok;
  }
