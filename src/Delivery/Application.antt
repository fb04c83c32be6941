-- ===== src/Delivery/Application.antt =====
-- The start of tom-notifier-ws-delivery: application/application_state.rs, and the middleware of
-- application/application_middleware.rs. Of the parts they keep what each is
-- configured with, and the counts of handles.
pub mod Closing
use Prim.Native.String.{String}
use mathlib.Core.Path.{subst}
use tom_notifier.Base.{ℕ, ◌≡◌, refl, Result, ◌>>=◌, >>=-elim, ok-injective}
use tom_notifier.Auth.Layer as Layer
use tom_notifier.Auth.Layer.{JwtAuthLayer}
use tom_notifier.Rabbitmq.Arguments.{ExchangeDeclareArguments, ConsumerArguments}
use tom_notifier.Rabbitmq.Shared.{clone, open_client}
use tom_notifier.Delivery.Setup.{producer_arguments, consumer_arguments}
use tom_notifier.Delivery.Websocket.Types.{Config as WebSocketsServiceConfig}
use tom_notifier.Delivery.Env.{ApplicationEnv}

-- The handles of the connection, and of the Arcs of the confirmations service, the websockets service
-- and the deduplication service.

pub record Handles : Type 0 where
  pub connection : ℕ
  pub confirmations : ℕ
  pub websockets : ℕ
  pub deduplication : ℕ

-- `ApplicationState` and `ApplicationStateToClose`.
pub record State : Type 0 where
  pub db_name : String
  pub ticket_lifespan : ℕ
  pub retry_interval : ℕ
  pub confirmations : ExchangeDeclareArguments
  pub websockets : WebSocketsServiceConfig
  pub notification_lifespan : ℕ
  pub garbage_collector_interval : ℕ
  pub consumer : ConsumerArguments
  pub handles : Handles

-- How the calls end with which the parts are created, in their order, and the text of the uuid in
-- the name of the queue. `database` is the reading of the options of the client and the client's
-- creation.
pub record Starts (E : Type 0) : Type 0 where
  pub database : String → Result (Unit {0}) E
  pub tickets_repository : Result (Unit {0}) E
  pub open_connection_args : String → Result (Unit {0}) E
  pub rabbitmq_connection : Result (Unit {0}) E
  pub confirmations_service : Result (Unit {0}) E
  pub uuid : String
  pub notifications_consumer : Result (Unit {0}) E

-- The services, one after the other: the websockets service has a clone of the confirmations service,
-- and the consumer's two callbacks have clones of the websockets service, of which one has the
-- deduplication service too.
unfoldable pub created : Handles
unfolding open_client
created =
    let connected : Handles = record {
      connection = 1;
      confirmations = 0;
      websockets = 0;
      deduplication = 0;
    } in
    let confirming = record connected {
      connection = open_client connected.connection;
      confirmations = 1;
    } in
    let serving = record confirming {
      confirmations = clone confirming.confirmations;
      websockets = 1;
    } in
    let deduplicating = record serving { deduplication = 1 } in
    record deduplicating {
      connection = open_client deduplicating.connection;
      websockets = clone (clone deduplicating.websockets);
      deduplication = clone deduplicating.deduplication;
    }

-- `create_middleware`, without the layer that traces.
unfoldable pub create_middleware : {Address K : Type 0} → ApplicationEnv Address K → JwtAuthLayer K
unfolding Layer.new
create_middleware env = Layer.new env.jwt_key env.jwt_algorithms

module _ {Address K E : Type 0} (starts : Starts E) where
  unfoldable pub create_state : ApplicationEnv Address K → Result State E
  create_state env = do
    database_ok ← starts.database env.db_connection_string
    tickets_repository ← starts.tickets_repository
    open_connection_args ← starts.open_connection_args env.rabbitmq_connection_string
    rabbitmq_connection_ok ← starts.rabbitmq_connection
    confirmations_service_ok ← starts.confirmations_service
    notifications_consumer_ok ← starts.notifications_consumer
    Result.ok (record {
      db_name = env.db_name;
      ticket_lifespan = env.websocket_ticket_lifespan;
      retry_interval = env.rabbitmq_retry_interval;
      confirmations = producer_arguments env.rabbitmq_confirmations_exchange_name;
      websockets = record {
        ping_interval = env.websocket_ping_interval;
        retry_max_count = env.websocket_retry_max_count;
        retry_interval = env.websocket_retry_interval;
        connection_buffer_size = env.websocket_connection_buffer_size;
      };
      notification_lifespan = env.rabbitmq_deduplication_notification_lifespan;
      garbage_collector_interval = env.rabbitmq_deduplication_garbage_collector_interval;
      consumer =
          consumer_arguments
            (record {
              exchange = env.rabbitmq_notifications_exchange_name;
              queue = env.rabbitmq_notifications_queue_name;
            })
            starts.uuid;
      handles = created;
    })

  -- The RabbitMQ clients of a state are those of the environment.
  abbrev pub ClientsOf : ApplicationEnv Address K → State → Type 0
  ClientsOf env state =
      (state.confirmations ≡ producer_arguments env.rabbitmq_confirmations_exchange_name)
      × (state.consumer
          ≡ consumer_arguments
              (record {
                exchange = env.rabbitmq_notifications_exchange_name;
                queue = env.rabbitmq_notifications_queue_name;
              })
              starts.uuid)
      × (state.handles ≡ created)

  pub create_state-ClientsOf :
      (env : ApplicationEnv Address K) (state : State)
      → create_state env ≡ Result.ok state
      → ClientsOf env state
  unfolding create_state
  create_state-ClientsOf env state h0 =
      >>=-elim (starts.database env.db_connection_string) _ h0 λ a. λ ha. λ h1.
        >>=-elim starts.tickets_repository _ h1 λ b. λ hb. λ h2.
          >>=-elim (starts.open_connection_args env.rabbitmq_connection_string) _ h2 λ c. λ hc.
            λ h3. >>=-elim starts.rabbitmq_connection _ h3 λ d. λ hd. λ h4.
              >>=-elim starts.confirmations_service _ h4 λ e. λ he. λ h5.
                >>=-elim starts.notifications_consumer _ h5
                  λ f. λ hf. λ h6. subst (ClientsOf env) (ok-injective h6) (refl, refl, refl)
