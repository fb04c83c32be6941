-- ===== src/Rabbitmq/Arguments.antt =====
-- The arguments that the programs' services hand to the clients of shared/rabbitmq_client, with the
-- fields of the AMQP library's records that they set; the builders start from its documented
-- defaults. The AMQP rule by which a direct exchange finds the queues of a message.
use Prim.Native.String.{String}
use text.Mathlib.Text.{◌==◌ as ◌===◌}
use tom_notifier.Base.{Bool, false, ◌&&◌, List, [], ◌∷◌, if◌then◌else◌}

pub data ExchangeType : Type 0 where
  direct fanout topic headers : ExchangeType

pub record ExchangeDeclareArguments : Type 0 where
  pub exchange : String
  pub exchange_type : ExchangeType
  pub durable : Bool

pub record QueueDeclareArguments : Type 0 where
  pub queue : String
  pub durable : Bool
  pub exclusive : Bool
  pub auto_delete : Bool

pub record QueueBindArguments : Type 0 where
  pub queue : String
  pub exchange : String
  pub routing_key : String

pub record BasicConsumeArguments : Type 0 where
  pub queue : String
  pub no_ack : Bool
  pub exclusive : Bool

-- What `RabbitmqConsumer::new` is given.
pub record ConsumerArguments : Type 0 where
  pub exchange_declare_args : ExchangeDeclareArguments
  pub queue_declare_args : QueueDeclareArguments
  pub queue_bind_args : List QueueBindArguments
  pub basic_consume_args : BasicConsumeArguments

abbrev pub of_type : String → ExchangeType → ExchangeDeclareArguments
of_type exchange exchange_type = record {
  exchange = exchange;
  exchange_type = exchange_type;
  durable = false;
}

-- The bindings of a direct exchange that a message with a routing key matches, as their queues.
abbrev pub queues_of : String → String → List QueueBindArguments → List String
queues_of exchange routing_key [] = []
queues_of exchange routing_key (b ∷ bindings) =
    if (b.exchange === exchange) && (b.routing_key === routing_key)
    then b.queue ∷ queues_of exchange routing_key bindings
    else queues_of exchange routing_key bindings
