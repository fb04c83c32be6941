-- ===== src/Core/Env.antt =====
-- `ApplicationEnv` of tom-notifier-core/src/application/application_env.rs. A duration is a number of
-- seconds.
use Prim.Native.String.{String}
use mathlib.Core.Path.{subst}
use tom_notifier.Base.{◌≡◌, ℕ, List, Result, ◌>>=◌, >>=-elim, ok-injective}
use tom_notifier.Auth.Util.{Algorithm}
use tom_notifier.Env.{
  Error, Externals, env_var, env_number, env_address, env_algorithms, env_key, HasText, HasNumber,
  HasAddress, HasAlgorithms, HasKey, env_var-HasText, env_number-HasNumber, env_address-HasAddress,
  env_algorithms-HasAlgorithms, env_key-HasKey,
}

pub record ApplicationEnv (Address K : Type 0) : Type 0 where
  pub log_directory : String
  pub log_filename : String
  pub bind_address : Address
  pub db_connection_string : String
  pub db_name : String
  pub max_notification_content_len : ℕ
  pub max_http_content_len : ℕ
  pub jwt_algorithms : List Algorithm
  pub jwt_key : K
  pub rabbitmq_connection_string : String
  pub rabbitmq_notifications_exchange_name : String
  pub rabbitmq_confirmations_exchange_name : String
  pub rabbitmq_confirmations_queue_name : String
  pub rabbitmq_retry_interval : ℕ

module _ {Address K : Type 0} (x : Externals Address K) where
  unfoldable pub parse : Result (ApplicationEnv Address K) Error
  unfolding env_var env_number env_address env_algorithms env_key
  parse = do
    log_directory ← env_var x "TOM_NOTIFIER_CORE_LOG_DIRECTORY"
    log_filename ← env_var x "TOM_NOTIFIER_CORE_LOG_FILENAME"
    bind_address ← env_address x "TOM_NOTIFIER_CORE_BIND_ADDRESS"
    db_connection_string ← env_var x "TOM_NOTIFIER_CORE_DB_CONNECTION_STRING"
    db_name ← env_var x "TOM_NOTIFIER_CORE_DB_NAME"
    max_notification_content_len ← env_number x 64 "TOM_NOTIFIER_CORE_MAX_NOTIFICATION_CONTENT_LEN"
    max_http_content_len ← env_number x 64 "TOM_NOTIFIER_CORE_MAX_HTTP_CONTENT_LEN"
    jwt_algorithms ← env_algorithms x "TOM_NOTIFIER_CORE_JWT_ALGORITHMS"
    jwt_key ← env_key x jwt_algorithms "TOM_NOTIFIER_CORE_JWT_KEY"
    rabbitmq_connection_string ← env_var x "TOM_NOTIFIER_CORE_RABBITMQ_CONNECTION_STRING"
    rabbitmq_notifications_exchange_name ←
        env_var x "TOM_NOTIFIER_CORE_RABBITMQ_NOTIFICATIONS_EXCHANGE_NAME"
    rabbitmq_confirmations_exchange_name ←
        env_var x "TOM_NOTIFIER_CORE_RABBITMQ_CONFIRMATIONS_EXCHANGE_NAME"
    rabbitmq_confirmations_queue_name ←
        env_var x "TOM_NOTIFIER_CORE_RABBITMQ_CONFIRMATIONS_QUEUE_NAME"
    rabbitmq_retry_interval ← env_number x 64 "TOM_NOTIFIER_CORE_RABBITMQ_RETRY_INTERVAL"
    Result.ok (record {
      log_directory = log_directory;
      log_filename = log_filename;
      bind_address = bind_address;
      db_connection_string = db_connection_string;
      db_name = db_name;
      max_notification_content_len = max_notification_content_len;
      max_http_content_len = max_http_content_len;
      jwt_algorithms = jwt_algorithms;
      jwt_key = jwt_key;
      rabbitmq_connection_string = rabbitmq_connection_string;
      rabbitmq_notifications_exchange_name = rabbitmq_notifications_exchange_name;
      rabbitmq_confirmations_exchange_name = rabbitmq_confirmations_exchange_name;
      rabbitmq_confirmations_queue_name = rabbitmq_confirmations_queue_name;
      rabbitmq_retry_interval = rabbitmq_retry_interval;
    })

  -- Each setting comes from its own variable.
  abbrev pub Reads : ApplicationEnv Address K → Type 0
  Reads e =
      HasText x "TOM_NOTIFIER_CORE_LOG_DIRECTORY" e.log_directory
      × HasText x "TOM_NOTIFIER_CORE_LOG_FILENAME" e.log_filename
      × HasAddress x "TOM_NOTIFIER_CORE_BIND_ADDRESS" e.bind_address
      × HasText x "TOM_NOTIFIER_CORE_DB_CONNECTION_STRING" e.db_connection_string
      × HasText x "TOM_NOTIFIER_CORE_DB_NAME" e.db_name
      × HasNumber x 64 "TOM_NOTIFIER_CORE_MAX_NOTIFICATION_CONTENT_LEN"
          e.max_notification_content_len
      × HasNumber x 64 "TOM_NOTIFIER_CORE_MAX_HTTP_CONTENT_LEN" e.max_http_content_len
      × HasAlgorithms x "TOM_NOTIFIER_CORE_JWT_ALGORITHMS" e.jwt_algorithms
      × HasKey x e.jwt_algorithms "TOM_NOTIFIER_CORE_JWT_KEY" e.jwt_key
      × HasText x "TOM_NOTIFIER_CORE_RABBITMQ_CONNECTION_STRING" e.rabbitmq_connection_string
      × HasText x "TOM_NOTIFIER_CORE_RABBITMQ_NOTIFICATIONS_EXCHANGE_NAME"
          e.rabbitmq_notifications_exchange_name
      × HasText x "TOM_NOTIFIER_CORE_RABBITMQ_CONFIRMATIONS_EXCHANGE_NAME"
          e.rabbitmq_confirmations_exchange_name
      × HasText x "TOM_NOTIFIER_CORE_RABBITMQ_CONFIRMATIONS_QUEUE_NAME"
          e.rabbitmq_confirmations_queue_name
      × HasNumber x 64 "TOM_NOTIFIER_CORE_RABBITMQ_RETRY_INTERVAL" e.rabbitmq_retry_interval

  -- When the environment is accepted, each variable is set, each setting is the text of its own
  -- variable or the number, the address or the list of algorithms that this text stands for, and the
  -- key is made of its text for the first of the algorithms.
  pub parse-Reads : {e : ApplicationEnv Address K} → parse ≡ Result.ok e → Reads e
  unfolding parse
  parse-Reads h0 = >>=-elim (env_var x "TOM_NOTIFIER_CORE_LOG_DIRECTORY") _ h0 λ log_directory.
      λ is_log_directory. λ h1.
        >>=-elim (env_var x "TOM_NOTIFIER_CORE_LOG_FILENAME") _ h1 λ log_filename.
          λ is_log_filename. λ h2.
            >>=-elim (env_address x "TOM_NOTIFIER_CORE_BIND_ADDRESS") _ h2 λ bind_address.
              λ is_bind_address. λ h3.
                >>=-elim (env_var x "TOM_NOTIFIER_CORE_DB_CONNECTION_STRING") _ h3
                  λ db_connection_string. λ is_db_connection_string. λ h4.
                    >>=-elim (env_var x "TOM_NOTIFIER_CORE_DB_NAME") _ h4 λ db_name. λ is_db_name.
                      λ h5.
                        >>=-elim (env_number x 64 "TOM_NOTIFIER_CORE_MAX_NOTIFICATION_CONTENT_LEN")
                          _ h5
                          λ max_notification_content_len. λ is_max_notification_content_len. λ h6.
                            >>=-elim (env_number x 64 "TOM_NOTIFIER_CORE_MAX_HTTP_CONTENT_LEN") _ h6
                              λ max_http_content_len. λ is_max_http_content_len. λ h7.
                                >>=-elim (env_algorithms x "TOM_NOTIFIER_CORE_JWT_ALGORITHMS") _ h7
                                  λ jwt_algorithms. λ is_jwt_algorithms. λ h8.
                                    >>=-elim (env_key x jwt_algorithms "TOM_NOTIFIER_CORE_JWT_KEY")
                                      _ h8
                                      λ jwt_key. λ is_jwt_key. λ h9.
                                        >>=-elim
                                          (env_var x "TOM_NOTIFIER_CORE_RABBITMQ_CONNECTION_STRING")
                                          _ h9
                                          λ rabbitmq_connection_string.
                                            λ is_rabbitmq_connection_string. λ h10.
                                              >>=-elim
                                                (env_var x
                                                  "TOM_NOTIFIER_CORE_RABBITMQ_NOTIFICATIONS_EXCHANGE_NAME")
                                                _ h10
                                                λ rabbitmq_notifications_exchange_name.
                                                  λ is_rabbitmq_notifications_exchange_name. λ h11.
                                                    >>=-elim
                                                      (env_var x
                                                        "TOM_NOTIFIER_CORE_RABBITMQ_CONFIRMATIONS_EXCHANGE_NAME")
                                                      _ h11
                                                      λ rabbitmq_confirmations_exchange_name.
                                                        λ is_rabbitmq_confirmations_exchange_name.
                                                          λ h12.
                                                            >>=-elim
                                                            (env_var x
                                                            "TOM_NOTIFIER_CORE_RABBITMQ_CONFIRMATIONS_QUEUE_NAME")
                                                            _ h12
                                                            λ rabbitmq_confirmations_queue_name.
                                                            λ is_rabbitmq_confirmations_queue_name.
                                                            λ h13.
                                                            >>=-elim
                                                            (env_number x 64
                                                            "TOM_NOTIFIER_CORE_RABBITMQ_RETRY_INTERVAL")
                                                            _ h13
                                                            λ rabbitmq_retry_interval.
                                                            λ is_rabbitmq_retry_interval. λ h14.
                                                            subst Reads (ok-injective h14) (
                                                            env_var-HasText x _ is_log_directory,
                                                            env_var-HasText x _ is_log_filename,
                                                            env_address-HasAddress x _
                                                            is_bind_address,
                                                            env_var-HasText x _
                                                            is_db_connection_string,
                                                            env_var-HasText x _ is_db_name,
                                                            env_number-HasNumber x 64 _
                                                            is_max_notification_content_len,
                                                            env_number-HasNumber x 64 _
                                                            is_max_http_content_len,
                                                            env_algorithms-HasAlgorithms x _
                                                            is_jwt_algorithms,
                                                            env_key-HasKey x _ _ is_jwt_key,
                                                            env_var-HasText x _
                                                            is_rabbitmq_connection_string,
                                                            env_var-HasText x _
                                                            is_rabbitmq_notifications_exchange_name,
                                                            env_var-HasText x _
                                                            is_rabbitmq_confirmations_exchange_name,
                                                            env_var-HasText x _
                                                            is_rabbitmq_confirmations_queue_name,
                                                            env_number-HasNumber x 64 _
                                                            is_rabbitmq_retry_interval,
                                                            )
