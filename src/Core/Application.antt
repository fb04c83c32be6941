-- ===== src/Core/Application.antt =====
-- The start and the end of tom-notifier-core: application/application_state.rs, the order of main.rs,
-- and `close` of application/application_shutdown.rs. Of the parts they keep what each is configured
-- with, and the counts of handles.
use Prim.Native.String.{String}
use mathlib.Core.Path.{subst}
use tom_notifier.Base.{
  ℕ, ◌+◌, ◌==◌, ◌≡◌, refl, Bool, List, [], ◌∷◌, arith, Result, ◌>>=◌, >>=-elim, ok-injective,
  if◌then◌else◌,
}
use tom_notifier.Rabbitmq.Arguments.{ExchangeDeclareArguments, ConsumerArguments}
use tom_notifier.Rabbitmq.Shared.{
  clone, drop, try_unwrap, ConnectionClosed, close_connection, open_client, close_client,
}
use tom_notifier.Core.Setup.{producer_arguments, consumer_arguments}
use tom_notifier.Core.Env.{ApplicationEnv}

-- The handles of the connection, and of the Arc of the notifications producer.
pub record Handles : Type 0 where
  pub connection : ℕ
  pub producer : ℕ

-- `ApplicationState` and `ApplicationStateToClose`.
pub record State : Type 0 where
  pub db_name : String
  pub retry_interval : ℕ
  pub producer : ExchangeDeclareArguments
  pub consumer : ConsumerArguments
  pub max_content_len : ℕ
  pub handles : Handles

-- How the calls end with which the parts are created, in their order. `database` is the reading of
-- the options of the client and the client's creation.
pub record Starts (E : Type 0) : Type 0 where
  pub database : String → Result (Unit {0}) E
  pub notifications_repository : Result (Unit {0}) E
  pub open_connection_args : String → Result (Unit {0}) E
  pub rabbitmq_connection : Result (Unit {0}) E
  pub notifications_producer : Result (Unit {0}) E
  pub confirmations_consumer : Result (Unit {0}) E

pub data Closed : Type 0 where
  notifications_producer : Bool → Closed
  confirmations_consumer : Closed
  rabbitmq_connection : ConnectionClosed → Closed
  database : Closed

-- The connection, the producer, the consumer, and the notifications service with a clone of the
-- producer.
unfoldable pub created : Handles
unfolding open_client
created =
    let connected : Handles = record { connection = 1; producer = 0 } in
    let produced = record connected {
      connection = open_client connected.connection;
      producer = 1;
    } in
    let consumed = record produced { connection = open_client produced.connection } in
    record consumed { producer = clone consumed.producer }

module _ {Address K E : Type 0} (starts : Starts E) where
  unfoldable pub create_state : ApplicationEnv Address K → Result State E
  create_state env = do
    database_ok ← starts.database env.db_connection_string
    notifications_repository ← starts.notifications_repository
    open_connection_args ← starts.open_connection_args env.rabbitmq_connection_string
    rabbitmq_connection_ok ← starts.rabbitmq_connection
    notifications_producer_ok ← starts.notifications_producer
    confirmations_consumer_ok ← starts.confirmations_consumer
    Result.ok (record {
      db_name = env.db_name;
      retry_interval = env.rabbitmq_retry_interval;
      producer = producer_arguments env.rabbitmq_notifications_exchange_name;
      consumer = consumer_arguments (record {
        exchange = env.rabbitmq_confirmations_exchange_name;
        queue = env.rabbitmq_confirmations_queue_name;
      });
      max_content_len = env.max_notification_content_len;
      handles = created;
    })

  -- The RabbitMQ clients of a state are those of the environment.
  abbrev pub ClientsOf : ApplicationEnv Address K → State → Type 0
  ClientsOf env state =
      (state.producer ≡ producer_arguments env.rabbitmq_notifications_exchange_name)
      × (state.consumer
          ≡ consumer_arguments (record {
            exchange = env.rabbitmq_confirmations_exchange_name;
            queue = env.rabbitmq_confirmations_queue_name;
          }))
      × (state.handles ≡ created)

  pub create_state-ClientsOf :
      (env : ApplicationEnv Address K) (state : State)
      → create_state env ≡ Result.ok state
      → ClientsOf env state
  unfolding create_state
  create_state-ClientsOf env state h0 =
      >>=-elim (starts.database env.db_connection_string) _ h0 λ a. λ ha. λ h1.
        >>=-elim starts.notifications_repository _ h1 λ b. λ hb. λ h2.
          >>=-elim (starts.open_connection_args env.rabbitmq_connection_string) _ h2 λ c. λ hc.
            λ h3. >>=-elim starts.rabbitmq_connection _ h3 λ d. λ hd. λ h4.
              >>=-elim starts.notifications_producer _ h4 λ e. λ he. λ h5.
                >>=-elim starts.confirmations_consumer _ h5
                  λ f. λ hf. λ h6. subst (ClientsOf env) (ok-injective h6) (refl, refl, refl)

-- When `axum::serve` has ended, the application's state is dropped, and with it the notifications
-- service; `held` clones of it are still held by unfinished requests.
unfoldable pub served : ℕ → Handles → Handles
served held h = record h { producer = drop h.producer + held }

-- `close`.
unfoldable pub close : Handles → List Closed
unfolding close_client close_connection
close h =
    let unwrapped = try_unwrap h.producer in
    let connection = if unwrapped then close_client h.connection else h.connection in
    Closed.notifications_producer unwrapped
    ∷ Closed.confirmations_consumer
    ∷ Closed.rabbitmq_connection (close_connection (close_client connection))
    ∷ Closed.database
    ∷ []

-- `main` after the server has started.
unfoldable pub shut_down : ℕ → State → List Closed
unfolding served close
shut_down held state = close (served held state.handles)

created_shut_down :
    (held : ℕ)
    → close (served held created)
      ≡ Closed.notifications_producer (held == 0)
        ∷ Closed.confirmations_consumer
        ∷ Closed.rabbitmq_connection
            (if held == 0 then ConnectionClosed.closed else ConnectionClosed.forbidden)
        ∷ Closed.database
        ∷ []
unfolding shut_down created
created_shut_down held = ground arith

-- A program that has started closes its parts in an order in which each is free: when no request is
-- left, the producer, the consumer, the connection and the database are all closed; while a request
-- still holds the notifications service, neither the producer nor the connection is, but the others
-- are.
pub shut_down-create_state :
    {Address K E : Type 0} (starts : Starts E) (env : ApplicationEnv Address K) (state : State)
    (held : ℕ)
    → create_state starts env ≡ Result.ok state
    → shut_down held state
      ≡ Closed.notifications_producer (held == 0)
        ∷ Closed.confirmations_consumer
        ∷ Closed.rabbitmq_connection
            (if held == 0 then ConnectionClosed.closed else ConnectionClosed.forbidden)
        ∷ Closed.database
        ∷ []
unfolding shut_down
shut_down-create_state starts env state held h =
    let (producer, consumer, handles) = create_state-ClientsOf starts env state h in
    rw handles (created_shut_down held)
