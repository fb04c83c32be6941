-- ===== src/Tests.antt =====
-- Runs of the models on concrete inputs.
pub mod Reconnect
pub mod Publish
pub mod Consume
pub mod Connect
pub mod Serve
pub mod Deliver
pub mod Enter
pub mod Authorize
pub mod Notify
pub mod Store
pub mod Unary
pub mod Travel
pub mod Started
mod Web
mod Visit
mod Index
mod Issue
