-- ===== src/Delivery/Env/Reads.antt =====
-- From which variables the settings of tom-notifier-ws-delivery come.
use mathlib.Core.Path.{subst}
use tom_notifier.Base.{◌≡◌, Result, >>=-elim, ok-injective}
use tom_notifier.Env.{
  Externals, env_var, env_number, env_address, env_algorithms, env_key, HasText, HasNumber,
  HasAddress, HasAlgorithms, HasKey, env_var-HasText, env_number-HasNumber, env_address-HasAddress,
  env_algorithms-HasAlgorithms, env_key-HasKey,
}
use tom_notifier.Delivery.Env.{ApplicationEnv, parse}

module _ {Address K : Type 0} (x : Externals Address K) where
  -- Each setting comes from its own variable.
  abbrev pub Reads : ApplicationEnv Address K → Type 0
  Reads e =
      HasText x "TOM_NOTIFIER_WS_DELIVERY_LOG_DIRECTORY" e.log_directory
      × HasText x "TOM_NOTIFIER_WS_DELIVERY_LOG_FILENAME" e.log_filename
      × HasAddress x "TOM_NOTIFIER_WS_DELIVERY_BIND_ADDRESS" e.bind_address
      × HasText x "TOM_NOTIFIER_WS_DELIVERY_DB_CONNECTION_STRING" e.db_connection_string
      × HasText x "TOM_NOTIFIER_WS_DELIVERY_DB_NAME" e.db_name
      × HasNumber x 64 "TOM_NOTIFIER_WS_DELIVERY_WEBSOCKET_TICKET_LIFESPAN"
          e.websocket_ticket_lifespan
      × HasNumber x 64 "TOM_NOTIFIER_WS_DELIVERY_WEBSOCKET_PING_INTERVAL" e.websocket_ping_interval
      × HasNumber x 8 "TOM_NOTIFIER_WS_DELIVERY_WEBSOCKET_RETRY_MAX_COUNT"
          e.websocket_retry_max_count
      × HasNumber x 64 "TOM_NOTIFIER_WS_DELIVERY_WEBSOCKET_RETRY_INTERVAL"
          e.websocket_retry_interval
      × HasNumber x 8 "TOM_NOTIFIER_WS_DELIVERY_WEBSOCKET_CONNECTION_BUFFER_SIZE"
          e.websocket_connection_buffer_size
      × HasAlgorithms x "TOM_NOTIFIER_WS_DELIVERY_JWT_ALGORITHMS" e.jwt_algorithms
      × HasKey x e.jwt_algorithms "TOM_NOTIFIER_WS_DELIVERY_JWT_KEY" e.jwt_key
      × HasText x "TOM_NOTIFIER_WS_DELIVERY_RABBITMQ_CONNECTION_STRING" e.rabbitmq_connection_string
      × HasText x "TOM_NOTIFIER_WS_DELIVERY_RABBITMQ_NOTIFICATIONS_EXCHANGE_NAME"
          e.rabbitmq_notifications_exchange_name
      × HasText x "TOM_NOTIFIER_WS_DELIVERY_RABBITMQ_NOTIFICATIONS_QUEUE_NAME"
          e.rabbitmq_notifications_queue_name
      × HasText x "TOM_NOTIFIER_WS_DELIVERY_RABBITMQ_CONFIRMATIONS_EXCHANGE_NAME"
          e.rabbitmq_confirmations_exchange_name
      × HasNumber x 64 "TOM_NOTIFIER_WS_DELIVERY_RABBITMQ_RETRY_INTERVAL" e.rabbitmq_retry_interval
      × HasNumber x 64 "TOM_NOTIFIER_WS_DELIVERY_RABBITMQ_DEDUPLICATION_NOTIFICATION_LIFESPAN"
          e.rabbitmq_deduplication_notification_lifespan
      × HasNumber x 64 "TOM_NOTIFIER_WS_DELIVERY_RABBITMQ_DEDUPLICATION_GARBAGE_COLLECTOR_INTERVAL"
          e.rabbitmq_deduplication_garbage_collector_interval

  -- When the environment is accepted, each variable is set, each setting is the text of its own
  -- variable or the number, the address or the list of algorithms that this text stands for, and the
  -- key is made of its text for the first of the algorithms.
  pub parse-Reads : {e : ApplicationEnv Address K} → parse x ≡ Result.ok e → Reads e
  unfolding parse
  parse-Reads h0 =
      >>=-elim (env_var x "TOM_NOTIFIER_WS_DELIVERY_LOG_DIRECTORY") _ h0 λ log_directory.
        λ is_log_directory. λ h1.
          >>=-elim (env_var x "TOM_NOTIFIER_WS_DELIVERY_LOG_FILENAME") _ h1 λ log_filename.
            λ is_log_filename. λ h2.
              >>=-elim (env_address x "TOM_NOTIFIER_WS_DELIVERY_BIND_ADDRESS") _ h2 λ bind_address.
                λ is_bind_address. λ h3.
                  >>=-elim (env_var x "TOM_NOTIFIER_WS_DELIVERY_DB_CONNECTION_STRING") _ h3
                    λ db_connection_string. λ is_db_connection_string. λ h4.
                      >>=-elim (env_var x "TOM_NOTIFIER_WS_DELIVERY_DB_NAME") _ h4 λ db_name.
                        λ is_db_name. λ h5.
                          >>=-elim
                            (env_number x 64 "TOM_NOTIFIER_WS_DELIVERY_WEBSOCKET_TICKET_LIFESPAN") _
                            h5
                            λ websocket_ticket_lifespan. λ is_websocket_ticket_lifespan. λ h6.
                              >>=-elim
                                (env_number x 64 "TOM_NOTIFIER_WS_DELIVERY_WEBSOCKET_PING_INTERVAL")
                                _ h6
                                λ websocket_ping_interval. λ is_websocket_ping_interval. λ h7.
                                  >>=-elim
                                    (env_number x 8
                                      "TOM_NOTIFIER_WS_DELIVERY_WEBSOCKET_RETRY_MAX_COUNT")
                                    _ h7
                                    λ websocket_retry_max_count. λ is_websocket_retry_max_count.
                                      λ h8.
                                        >>=-elim
                                          (env_number x 64
                                            "TOM_NOTIFIER_WS_DELIVERY_WEBSOCKET_RETRY_INTERVAL")
                                          _ h8
                                          λ websocket_retry_interval. λ is_websocket_retry_interval.
                                            λ h9.
                                              >>=-elim
                                                (env_number x 8
                                                  "TOM_NOTIFIER_WS_DELIVERY_WEBSOCKET_CONNECTION_BUFFER_SIZE")
                                                _ h9
                                                λ websocket_connection_buffer_size.
                                                  λ is_websocket_connection_buffer_size. λ h10.
                                                    >>=-elim
                                                      (env_algorithms x
                                                        "TOM_NOTIFIER_WS_DELIVERY_JWT_ALGORITHMS")
                                                      _ h10
                                                      λ jwt_algorithms. λ is_jwt_algorithms. λ h11.
                                                        >>=-elim
                                                          (env_key x jwt_algorithms
                                                            "TOM_NOTIFIER_WS_DELIVERY_JWT_KEY")
                                                          _ h11
                                                          λ jwt_key. λ is_jwt_key. λ h12.
                                                            >>=-elim
                                                            (env_var x
                                                            "TOM_NOTIFIER_WS_DELIVERY_RABBITMQ_CONNECTION_STRING")
                                                            _ h12
                                                            λ rabbitmq_connection_string.
                                                            λ is_rabbitmq_connection_string. λ h13.
                                                            >>=-elim
                                                            (env_var x
                                                            "TOM_NOTIFIER_WS_DELIVERY_RABBITMQ_NOTIFICATIONS_EXCHANGE_NAME")
                                                            _ h13
                                                            λ rabbitmq_notifications_exchange_name.
                                                            λ is_rabbitmq_notifications_exchange_name.
                                                            λ h14.
                                                            >>=-elim
                                                            (env_var x
                                                            "TOM_NOTIFIER_WS_DELIVERY_RABBITMQ_NOTIFICATIONS_QUEUE_NAME")
                                                            _ h14
                                                            λ rabbitmq_notifications_queue_name.
                                                            λ is_rabbitmq_notifications_queue_name.
                                                            λ h15.
                                                            >>=-elim
                                                            (env_var x
                                                            "TOM_NOTIFIER_WS_DELIVERY_RABBITMQ_CONFIRMATIONS_EXCHANGE_NAME")
                                                            _ h15
                                                            λ rabbitmq_confirmations_exchange_name.
                                                            λ is_rabbitmq_confirmations_exchange_name.
                                                            λ h16.
                                                            >>=-elim
                                                            (env_number x 64
                                                            "TOM_NOTIFIER_WS_DELIVERY_RABBITMQ_RETRY_INTERVAL")
                                                            _ h16
                                                            λ rabbitmq_retry_interval.
                                                            λ is_rabbitmq_retry_interval. λ h17.
                                                            >>=-elim
                                                            (env_number x 64
                                                            "TOM_NOTIFIER_WS_DELIVERY_RABBITMQ_DEDUPLICATION_NOTIFICATION_LIFESPAN")
                                                            _ h17
                                                            λ rabbitmq_deduplication_notification_lifespan.
                                                            λ is_rabbitmq_deduplication_notification_lifespan.
                                                            λ h18.
                                                            >>=-elim
                                                            (env_number x 64
                                                            "TOM_NOTIFIER_WS_DELIVERY_RABBITMQ_DEDUPLICATION_GARBAGE_COLLECTOR_INTERVAL")
                                                            _ h18
                                                            λ rabbitmq_deduplication_garbage_collector_interval.
                                                            λ is_rabbitmq_deduplication_garbage_collector_interval.
                                                            λ h19. subst Reads (ok-injective h19) (
                                                            env_var-HasText x _ is_log_directory,
                                                            env_var-HasText x _ is_log_filename,
                                                            env_address-HasAddress x _
                                                            is_bind_address,
                                                            env_var-HasText x _
                                                            is_db_connection_string,
                                                            env_var-HasText x _ is_db_name,
                                                            env_number-HasNumber x 64 _
                                                            is_websocket_ticket_lifespan,
                                                            env_number-HasNumber x 64 _
                                                            is_websocket_ping_interval,
                                                            env_number-HasNumber x 8 _
                                                            is_websocket_retry_max_count,
                                                            env_number-HasNumber x 64 _
                                                            is_websocket_retry_interval,
                                                            env_number-HasNumber x 8 _
                                                            is_websocket_connection_buffer_size,
                                                            env_algorithms-HasAlgorithms x _
                                                            is_jwt_algorithms,
                                                            env_key-HasKey x _ _ is_jwt_key,
                                                            env_var-HasText x _
                                                            is_rabbitmq_connection_string,
                                                            env_var-HasText x _
                                                            is_rabbitmq_notifications_exchange_name,
                                                            env_var-HasText x _
                                                            is_rabbitmq_notifications_queue_name,
                                                            env_var-HasText x _
                                                            is_rabbitmq_confirmations_exchange_name,
                                                            env_number-HasNumber x 64 _
                                                            is_rabbitmq_retry_interval,
                                                            env_number-HasNumber x 64 _
                                                            is_rabbitmq_deduplication_notification_lifespan,
                                                            env_number-HasNumber x 64 _
                                                            is_rabbitmq_deduplication_garbage_collector_interval,
                                                            )
