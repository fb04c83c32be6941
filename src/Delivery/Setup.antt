-- ===== src/Delivery/Setup.antt =====
-- What the services of tom-notifier-ws-delivery hand to the RabbitMQ clients: `new` of
-- notifications_consumer_service.rs, and `new` and `send` of confirmations_service_impl.rs.
use Prim.Native.String.{String, ◌++◌ as ◌+++◌}
use tom_notifier.Base.{ℕ, true, false, List, [], ◌∷◌}
use tom_notifier.Protobuf.{RabbitmqConfirmation}
use tom_notifier.Rabbitmq.Arguments.{
  direct, ExchangeDeclareArguments, QueueBindArguments, ConsumerArguments, of_type,
}
use tom_notifier.Rabbitmq.Producer.Defs as Producer
use tom_notifier.Rabbitmq.Producer.Defs.{Message}
use tom_notifier.Delivery.Websocket.Callback.{Confirmation}

pub record NotificationsConsumerServiceConfig : Type 0 where
  pub exchange : String
  pub queue : String

abbrev pub bind : String → String → String → QueueBindArguments
bind queue exchange routing_key = record {
  queue = queue;
  exchange = exchange;
  routing_key = routing_key;
}

-- `NotificationsConsumerService::new`; `uuid` is the text of the new uuid.
unfoldable pub consumer_arguments : NotificationsConsumerServiceConfig → String → ConsumerArguments
consumer_arguments config uuid =
    let queue = config.queue +++ ("_" +++ uuid) in
    record {
      exchange_declare_args = of_type config.exchange direct;
      queue_declare_args = record {
        queue = queue;
        durable = false;
        exclusive = true;
        auto_delete = true;
      };
      queue_bind_args =
          bind queue config.exchange "NEW"
          ∷ bind queue config.exchange "UPDATED"
          ∷ bind queue config.exchange "DELETED"
          ∷ [];
      basic_consume_args = record { queue = queue; no_ack = false; exclusive = true };
    }

-- `ConfirmationsServiceImpl::new`.
unfoldable pub producer_arguments : String → ExchangeDeclareArguments
producer_arguments exchange = record (of_type exchange direct) { durable = true }

-- `persistent` is `BasicProperties::default().with_persistence(true)`, `to_string` writes a `Uuid`,
-- and `encode` is the encoder of protobuf.
module _ {P : Type 0} (persistent : P) (to_string : ℕ → String)
    (encode : RabbitmqConfirmation → List ℕ) where
  -- `ConfirmationsServiceImpl::send`.
  unfoldable pub send : Confirmation → Message P
  unfolding Producer.send
  send confirmation =
      Producer.send "" persistent
        (encode (record { user_id = to_string confirmation.user_id; id = confirmation.id }))
