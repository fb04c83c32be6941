-- ===== src/Delivery/Websocket.antt =====
-- tom-notifier-ws-delivery/src/service/websockets_service: the connections to users.
pub mod Callback
pub mod Bytes
pub mod Types
pub mod Connection
pub mod Service
