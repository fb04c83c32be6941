-- ===== src/Delivery.antt =====
-- The program tom-notifier-ws-delivery: it takes notifications from the broker, drops duplicates,
-- and delivers them to the websockets of connected users.
pub mod Setup
pub mod Env
pub mod Application
pub mod Dedup
pub mod Websocket
pub mod Consume
pub mod Tickets
pub mod Routing
pub mod Web
