-- ===== src/Core.antt =====
-- The program tom-notifier-core: it stores notifications, serves them over HTTP, and tells the
-- program tom-notifier-ws-delivery what changed.
pub mod Setup
pub mod Types
pub mod Content
pub mod Repository
pub mod Producer
pub mod Service
pub mod Routing
pub mod Confirm
pub mod Application
pub mod Web
pub mod Env
