-- ===== src/Rabbitmq.antt =====
-- The crate shared/rabbitmq_client: a connection, a producer and a consumer that restore
-- themselves after failures.
pub mod Arguments
pub mod Retry
pub mod Await
pub mod Connection
pub mod Producer
pub mod Consumer
pub mod Shared
pub mod Callbacks
