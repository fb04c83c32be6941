-- ===== src/Core/Setup.antt =====
-- What the services of tom-notifier-core hand to the RabbitMQ clients: `new` and `send` of
-- notifications_producer_service_impl.rs, and `new` of confirmations_consumer_service.rs.
use Prim.Native.String.{String}
use tom_notifier.Base.{ℕ, true, false, List, [], ◌∷◌}
use tom_notifier.Protobuf.{RabbitmqNotification}
use tom_notifier.Rabbitmq.Arguments.{direct, ExchangeDeclareArguments, ConsumerArguments, of_type}
use tom_notifier.Rabbitmq.Producer.Defs as Producer
use tom_notifier.Rabbitmq.Producer.Defs.{Message}
use tom_notifier.Core.Producer.{Produced}

-- `NotificationsProducerServiceImpl::new`.
unfoldable pub producer_arguments : String → ExchangeDeclareArguments
producer_arguments exchange_name = of_type exchange_name direct

-- `ConfirmationsConsumerServiceConfig`.
pub record ConfirmationsConsumerServiceConfig : Type 0 where
  pub exchange : String
  pub queue : String

-- `ConfirmationsConsumerService::new`.
unfoldable pub consumer_arguments : ConfirmationsConsumerServiceConfig → ConsumerArguments
consumer_arguments config = record {
  exchange_declare_args = record (of_type config.exchange direct) { durable = true };
  queue_declare_args = record {
    queue = config.queue;
    durable = true;
    exclusive = false;
    auto_delete = false;
  };
  queue_bind_args =
      record { queue = config.queue; exchange = config.exchange; routing_key = "" } ∷ [];
  basic_consume_args = record { queue = config.queue; no_ack = false; exclusive = false };
}

-- `persistent` is `BasicProperties::default().with_persistence(true)`, and `encode` the encoder of
-- protobuf.
module _ {P : Type 0} (persistent : P) (encode : RabbitmqNotification → List ℕ) where
  -- The end of each `send_...`, and `send`.
  unfoldable pub send : Produced → Message P
  unfolding Producer.send
  send produced = Producer.send produced.routing_key persistent (encode produced.message)
