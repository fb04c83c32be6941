-- ===== src/Delivery/Env.antt =====
-- `ApplicationEnv` of tom-notifier-ws-delivery/src/application/application_env.rs. A duration is a number of
-- seconds.
pub mod Reads
use Prim.Native.String.{String}
use tom_notifier.Base.{ℕ, List, Result, ◌>>=◌}
use tom_notifier.Auth.Util.{Algorithm}
use tom_notifier.Env.{Error, Externals, env_var, env_number, env_address, env_algorithms, env_key}

pub record ApplicationEnv (Address K : Type 0) : Type 0 where
  pub log_directory : String
  pub log_filename : String
  pub bind_address : Address
  pub db_connection_string : String
  pub db_name : String
  pub websocket_ticket_lifespan : ℕ
  pub websocket_ping_interval : ℕ
  pub websocket_retry_max_count : ℕ
  pub websocket_retry_interval : ℕ
  pub websocket_connection_buffer_size : ℕ
  pub jwt_algorithms : List Algorithm
  pub jwt_key : K
  pub rabbitmq_connection_string : String
  pub rabbitmq_notifications_exchange_name : String
  pub rabbitmq_notifications_queue_name : String
  pub rabbitmq_confirmations_exchange_name : String
  pub rabbitmq_retry_interval : ℕ
  pub rabbitmq_deduplication_notification_lifespan : ℕ
  pub rabbitmq_deduplication_garbage_collector_interval : ℕ

module _ {Address K : Type 0} (x : Externals Address K) where
  unfoldable pub parse : Result (ApplicationEnv Address K) Error
  unfolding env_var env_number env_address env_algorithms env_key
  parse = do
    log_directory ← env_var x "TOM_NOTIFIER_WS_DELIVERY_LOG_DIRECTORY"
    log_filename ← env_var x "TOM_NOTIFIER_WS_DELIVERY_LOG_FILENAME"
    bind_address ← env_address x "TOM_NOTIFIER_WS_DELIVERY_BIND_ADDRESS"
    db_connection_string ← env_var x "TOM_NOTIFIER_WS_DELIVERY_DB_CONNECTION_STRING"
    db_name ← env_var x "TOM_NOTIFIER_WS_DELIVERY_DB_NAME"
    websocket_ticket_lifespan ← env_number x 64 "TOM_NOTIFIER_WS_DELIVERY_WEBSOCKET_TICKET_LIFESPAN"
    websocket_ping_interval ← env_number x 64 "TOM_NOTIFIER_WS_DELIVERY_WEBSOCKET_PING_INTERVAL"
    websocket_retry_max_count ← env_number x 8 "TOM_NOTIFIER_WS_DELIVERY_WEBSOCKET_RETRY_MAX_COUNT"
    websocket_retry_interval ← env_number x 64 "TOM_NOTIFIER_WS_DELIVERY_WEBSOCKET_RETRY_INTERVAL"
    websocket_connection_buffer_size ←
        env_number x 8 "TOM_NOTIFIER_WS_DELIVERY_WEBSOCKET_CONNECTION_BUFFER_SIZE"
    jwt_algorithms ← env_algorithms x "TOM_NOTIFIER_WS_DELIVERY_JWT_ALGORITHMS"
    jwt_key ← env_key x jwt_algorithms "TOM_NOTIFIER_WS_DELIVERY_JWT_KEY"
    rabbitmq_connection_string ← env_var x "TOM_NOTIFIER_WS_DELIVERY_RABBITMQ_CONNECTION_STRING"
    rabbitmq_notifications_exchange_name ←
        env_var x "TOM_NOTIFIER_WS_DELIVERY_RABBITMQ_NOTIFICATIONS_EXCHANGE_NAME"
    rabbitmq_notifications_queue_name ←
        env_var x "TOM_NOTIFIER_WS_DELIVERY_RABBITMQ_NOTIFICATIONS_QUEUE_NAME"
    rabbitmq_confirmations_exchange_name ←
        env_var x "TOM_NOTIFIER_WS_DELIVERY_RABBITMQ_CONFIRMATIONS_EXCHANGE_NAME"
    rabbitmq_retry_interval ← env_number x 64 "TOM_NOTIFIER_WS_DELIVERY_RABBITMQ_RETRY_INTERVAL"
    rabbitmq_deduplication_notification_lifespan ←
        env_number x 64 "TOM_NOTIFIER_WS_DELIVERY_RABBITMQ_DEDUPLICATION_NOTIFICATION_LIFESPAN"
    rabbitmq_deduplication_garbage_collector_interval ←
        env_number x 64 "TOM_NOTIFIER_WS_DELIVERY_RABBITMQ_DEDUPLICATION_GARBAGE_COLLECTOR_INTERVAL"
    Result.ok (record {
      log_directory = log_directory;
      log_filename = log_filename;
      bind_address = bind_address;
      db_connection_string = db_connection_string;
      db_name = db_name;
      websocket_ticket_lifespan = websocket_ticket_lifespan;
      websocket_ping_interval = websocket_ping_interval;
      websocket_retry_max_count = websocket_retry_max_count;
      websocket_retry_interval = websocket_retry_interval;
      websocket_connection_buffer_size = websocket_connection_buffer_size;
      jwt_algorithms = jwt_algorithms;
      jwt_key = jwt_key;
      rabbitmq_connection_string = rabbitmq_connection_string;
      rabbitmq_notifications_exchange_name = rabbitmq_notifications_exchange_name;
      rabbitmq_notifications_queue_name = rabbitmq_notifications_queue_name;
      rabbitmq_confirmations_exchange_name = rabbitmq_confirmations_exchange_name;
      rabbitmq_retry_interval = rabbitmq_retry_interval;
      rabbitmq_deduplication_notification_lifespan = rabbitmq_deduplication_notification_lifespan;
      rabbitmq_deduplication_garbage_collector_interval =
          rabbitmq_deduplication_garbage_collector_interval;
    })
