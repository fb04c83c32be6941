-- ===== src/Rabbitmq/Shared.antt =====
-- The shared handles of the clients: `RabbitmqConnection` is an `Arc`, of which each client's task
-- holds a clone until it ends. The `close` methods of rabbitmq_connection.rs, rabbitmq_producer.rs and
-- rabbitmq_consumer.rs.
use tom_notifier.Base.{ℕ, ◌+◌, ◌-◌, ◌==◌, Bool, if◌then◌else◌}

-- Strong counts of an `Arc`.
abbrev pub clone : ℕ → ℕ
clone count = count + 1

abbrev pub drop : ℕ → ℕ
drop count = count - 1

-- `Arc::try_unwrap` succeeds for the last handle, and drops the handle in any case.
abbrev pub try_unwrap : ℕ → Bool
try_unwrap count = count == 1

-- What became of the connection: its task was stopped, or it was only logged that clones exist.
pub data ConnectionClosed : Type 0 where
  closed forbidden : ConnectionClosed

-- `RabbitmqConnection::close`, by the count of handles.
unfoldable pub close_connection : ℕ → ConnectionClosed
close_connection connection =
    if try_unwrap connection then ConnectionClosed.closed else ConnectionClosed.forbidden

-- `RabbitmqProducer::new` and `RabbitmqConsumer::new` take a clone, which their task holds; `close`
-- waits for the end of the task, and so drops it. Both on the count of the connection's handles.
unfoldable pub open_client : ℕ → ℕ
open_client connection = clone connection

unfoldable pub close_client : ℕ → ℕ
close_client connection = drop connection
