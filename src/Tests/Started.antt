-- ===== src/Tests/Started.antt =====
-- The start and the end of both programs, at two environments.
use Prim.Native.String.{String}
use text.Mathlib.Text.{◌==◌}
use tom_notifier.Base.{◌≡◌, refl, [], ◌∷◌, Option, none, some, Result, if◌then◌else◌}
use tom_notifier.Auth.Util.{hs256, hs384, Keys}
use tom_notifier.Env.{Externals}
use tom_notifier.Core.Setup as CoreSetup
use tom_notifier.Core.Env as CoreEnv
use tom_notifier.Core.Application as Core
use tom_notifier.Delivery.Setup as DeliverySetup
use tom_notifier.Delivery.Env as DeliveryEnv
use tom_notifier.Delivery.Env.Reads as DeliveryReads
use tom_notifier.Delivery.Application.Closing as Closing
use tom_notifier.Delivery.Application as Delivery
use tom_notifier.Exchange.Started.{Connected, started-Connected}

-- A token library that knows two algorithms, and takes a key's text for the key.
abbrev pub keys : Keys String
keys = record {
  from_str =
      λ name. if name == "HS256" then some hs256 else if name == "HS384" then some hs384 else none;
  from_secret = λ text. text;
  from_ec_pem = λ text. none;
  from_rsa_pem = λ text. none;
}

abbrev with_var : (String → Option String) → Externals Unit String
with_var var = record { var = var; parse_address = λ text. some tt; keys = keys }

abbrev core_var : String → Option String
core_var name =
    if name == "TOM_NOTIFIER_CORE_LOG_DIRECTORY"
    then some "log"
    else if name == "TOM_NOTIFIER_CORE_LOG_FILENAME"
    then some "log"
    else if name == "TOM_NOTIFIER_CORE_BIND_ADDRESS"
    then some "127.0.0.1:80"
    else if name == "TOM_NOTIFIER_CORE_DB_CONNECTION_STRING"
    then some "db"
    else if name == "TOM_NOTIFIER_CORE_DB_NAME"
    then some "db"
    else if name == "TOM_NOTIFIER_CORE_MAX_NOTIFICATION_CONTENT_LEN"
    then some "1000"
    else if name == "TOM_NOTIFIER_CORE_MAX_HTTP_CONTENT_LEN"
    then some "1000"
    else if name == "TOM_NOTIFIER_CORE_JWT_ALGORITHMS"
    then some "HS256,HS384"
    else if name == "TOM_NOTIFIER_CORE_JWT_KEY"
    then some "secret"
    else if name == "TOM_NOTIFIER_CORE_RABBITMQ_CONNECTION_STRING"
    then some "rabbitmq"
    else if name == "TOM_NOTIFIER_CORE_RABBITMQ_NOTIFICATIONS_EXCHANGE_NAME"
    then some "notifications"
    else if name == "TOM_NOTIFIER_CORE_RABBITMQ_CONFIRMATIONS_EXCHANGE_NAME"
    then some "confirmations"
    else if name == "TOM_NOTIFIER_CORE_RABBITMQ_CONFIRMATIONS_QUEUE_NAME"
    then some "core"
    else if name == "TOM_NOTIFIER_CORE_RABBITMQ_RETRY_INTERVAL"
    then some "+30"
    else none

abbrev delivery_var : String → Option String
delivery_var name =
    if name == "TOM_NOTIFIER_WS_DELIVERY_LOG_DIRECTORY"
    then some "log"
    else if name == "TOM_NOTIFIER_WS_DELIVERY_LOG_FILENAME"
    then some "log"
    else if name == "TOM_NOTIFIER_WS_DELIVERY_BIND_ADDRESS"
    then some "127.0.0.1:80"
    else if name == "TOM_NOTIFIER_WS_DELIVERY_DB_CONNECTION_STRING"
    then some "db"
    else if name == "TOM_NOTIFIER_WS_DELIVERY_DB_NAME"
    then some "db"
    else if name == "TOM_NOTIFIER_WS_DELIVERY_WEBSOCKET_TICKET_LIFESPAN"
    then some "+30"
    else if name == "TOM_NOTIFIER_WS_DELIVERY_WEBSOCKET_PING_INTERVAL"
    then some "+30"
    else if name == "TOM_NOTIFIER_WS_DELIVERY_WEBSOCKET_RETRY_MAX_COUNT"
    then some "4"
    else if name == "TOM_NOTIFIER_WS_DELIVERY_WEBSOCKET_RETRY_INTERVAL"
    then some "+30"
    else if name == "TOM_NOTIFIER_WS_DELIVERY_WEBSOCKET_CONNECTION_BUFFER_SIZE"
    then some "4"
    else if name == "TOM_NOTIFIER_WS_DELIVERY_JWT_ALGORITHMS"
    then some "HS256,HS384"
    else if name == "TOM_NOTIFIER_WS_DELIVERY_JWT_KEY"
    then some "secret"
    else if name == "TOM_NOTIFIER_WS_DELIVERY_RABBITMQ_CONNECTION_STRING"
    then some "rabbitmq"
    else if name == "TOM_NOTIFIER_WS_DELIVERY_RABBITMQ_NOTIFICATIONS_EXCHANGE_NAME"
    then some "notifications"
    else if name == "TOM_NOTIFIER_WS_DELIVERY_RABBITMQ_NOTIFICATIONS_QUEUE_NAME"
    then some "ws"
    else if name == "TOM_NOTIFIER_WS_DELIVERY_RABBITMQ_CONFIRMATIONS_EXCHANGE_NAME"
    then some "confirmations"
    else if name == "TOM_NOTIFIER_WS_DELIVERY_RABBITMQ_RETRY_INTERVAL"
    then some "+30"
    else if name == "TOM_NOTIFIER_WS_DELIVERY_RABBITMQ_DEDUPLICATION_NOTIFICATION_LIFESPAN"
    then some "+30"
    else if name == "TOM_NOTIFIER_WS_DELIVERY_RABBITMQ_DEDUPLICATION_GARBAGE_COLLECTOR_INTERVAL"
    then some "+30"
    else none

abbrev pub core_env : CoreEnv.ApplicationEnv Unit String
core_env = record {
  log_directory = "log";
  log_filename = "log";
  bind_address = tt;
  db_connection_string = "db";
  db_name = "db";
  max_notification_content_len = 1000;
  max_http_content_len = 1000;
  jwt_algorithms = hs256 ∷ hs384 ∷ [];
  jwt_key = "secret";
  rabbitmq_connection_string = "rabbitmq";
  rabbitmq_notifications_exchange_name = "notifications";
  rabbitmq_confirmations_exchange_name = "confirmations";
  rabbitmq_confirmations_queue_name = "core";
  rabbitmq_retry_interval = 30;
}

abbrev delivery_env : DeliveryEnv.ApplicationEnv Unit String
delivery_env = record {
  log_directory = "log";
  log_filename = "log";
  bind_address = tt;
  db_connection_string = "db";
  db_name = "db";
  websocket_ticket_lifespan = 30;
  websocket_ping_interval = 30;
  websocket_retry_max_count = 4;
  websocket_retry_interval = 30;
  websocket_connection_buffer_size = 4;
  jwt_algorithms = hs256 ∷ hs384 ∷ [];
  jwt_key = "secret";
  rabbitmq_connection_string = "rabbitmq";
  rabbitmq_notifications_exchange_name = "notifications";
  rabbitmq_notifications_queue_name = "ws";
  rabbitmq_confirmations_exchange_name = "confirmations";
  rabbitmq_retry_interval = 30;
  rabbitmq_deduplication_notification_lifespan = 30;
  rabbitmq_deduplication_garbage_collector_interval = 30;
}

abbrev core_starts : Core.Starts String
core_starts = record {
  database = λ text. Result.ok tt;
  notifications_repository = Result.ok tt;
  open_connection_args = λ text. Result.ok tt;
  rabbitmq_connection = Result.ok tt;
  notifications_producer = Result.ok tt;
  confirmations_consumer = Result.ok tt;
}

abbrev delivery_starts : Delivery.Starts String
delivery_starts = record {
  database = λ text. Result.ok tt;
  tickets_repository = Result.ok tt;
  open_connection_args = λ text. Result.ok tt;
  rabbitmq_connection = Result.ok tt;
  confirmations_service = Result.ok tt;
  uuid = "1";
  notifications_consumer = Result.ok tt;
}

abbrev core_state : Core.State
core_state = record {
  db_name = "db";
  retry_interval = 30;
  producer = CoreSetup.producer_arguments "notifications";
  consumer = CoreSetup.consumer_arguments (record { exchange = "confirmations"; queue = "core" });
  max_content_len = 1000;
  handles = Core.created;
}

abbrev delivery_state : Delivery.State
delivery_state = record {
  db_name = "db";
  ticket_lifespan = 30;
  retry_interval = 30;
  confirmations = DeliverySetup.producer_arguments "confirmations";
  websockets = record {
    ping_interval = 30;
    retry_max_count = 4;
    retry_interval = 30;
    connection_buffer_size = 4;
  };
  notification_lifespan = 30;
  garbage_collector_interval = 30;
  consumer =
      DeliverySetup.consumer_arguments (record { exchange = "notifications"; queue = "ws" }) "1";
  handles = Delivery.created;
}

core_parsed : CoreEnv.parse (with_var core_var) ≡ Result.ok core_env
unfolding CoreEnv.parse
core_parsed = refl

delivery_parsed : DeliveryEnv.parse (with_var delivery_var) ≡ Result.ok delivery_env
unfolding DeliveryEnv.parse
delivery_parsed = refl

core_created : Core.create_state core_starts core_env ≡ Result.ok core_state
unfolding Core.create_state
core_created = refl

delivery_created : Delivery.create_state delivery_starts delivery_env ≡ Result.ok delivery_state
unfolding Delivery.create_state
delivery_created = refl

parse-Reads_example : DeliveryReads.Reads (with_var delivery_var) delivery_env
parse-Reads_example = DeliveryReads.parse-Reads (with_var delivery_var) delivery_parsed

started-Connected_example : Connected core_state delivery_state
started-Connected_example =
    started-Connected (with_var core_var) (with_var delivery_var) core_starts delivery_starts
      core_state delivery_state
      (record { env = core_env; parsed = core_parsed; created = core_created })
      (record { env = delivery_env; parsed = delivery_parsed; created = delivery_created }) refl
      refl

-- A websocket still holds a message.
shut_down-closed_by_example :
    Closing.shut_down
      (record { requests = 0; deliveries = 0; consumers = 0; messages = 1 })
      delivery_state
    ≡ Closing.closed_by (record { requests = 0; deliveries = 0; consumers = 0; messages = 1 })
shut_down-closed_by_example =
    Closing.shut_down-closed_by delivery_starts delivery_env delivery_state
      (record { requests = 0; deliveries = 0; consumers = 0; messages = 1 }) delivery_created
