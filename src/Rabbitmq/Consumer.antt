-- ===== src/Rabbitmq/Consumer.antt =====
-- shared/rabbitmq_client/src/consumer: the consumer's state machine, and its answers to deliveries.
pub mod Start
pub mod Machine
pub mod Status
pub mod Delivery
