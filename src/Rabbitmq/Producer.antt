-- ===== src/Rabbitmq/Producer.antt =====
-- shared/rabbitmq_client/src/producer: the producer, its confirms and its state machine.
pub mod Start
pub mod Defs
pub mod Confirm
pub mod Types
pub mod States
pub mod Machine
