-- ===== src/Delivery/Websocket/Types.antt =====
-- The data of tom-notifier-ws-delivery/src/service/websockets_service: dto/, error.rs and the fields
-- of websocket_connection.rs.
use Prim.Native.String.{String}
use tom_notifier.Base.{ℕ, Bool, List, Option}
use tom_notifier.Delivery.Websocket.Callback.{ConfirmationCallback, Confirmation, Flags}

-- `WebSocketsServiceConfig`; times are in the unit of the clock.
pub record Config : Type 0 where
  pub ping_interval : ℕ
  pub retry_max_count : ℕ
  pub retry_interval : ℕ
  pub connection_buffer_size : ℕ

-- A `Uuid` is a number.
pub record WebSocketMessage : Type 0 where
  pub message_id : ℕ
  pub payload : List ℕ
  pub delivered_callback : Option ConfirmationCallback

pub record UnconfirmedMessage : Type 0 where
  pub retry_at : ℕ
  pub retries_remaining : ℕ
  pub message : WebSocketMessage

pub record Connection : Type 0 where
  pub config : Config
  pub user_id : ℕ
  pub unconfirmed_messages : List UnconfirmedMessage
  pub ping_time : ℕ
  pub ping_message : ℕ
  pub pings_sent : ℕ

-- The fixed part of each error's text.
pub data Error : Type 0 where
  close anyhow : String → Error

-- `axum::extract::ws::Message`.
pub data Message : Type 0 where
  binary ping pong : List ℕ → Message
  text close : Message

-- What the stream from the user yields: a message, an error, or its end.
pub data Incoming : Type 0 where
  arrived : Message → Incoming
  failed ended : Incoming

-- What `messages_rx.recv()` yields.
pub data Received : Type 0 where
  received : WebSocketMessage → Received
  lagged : ℕ → Received
  closed : Received

-- What a handler leaves behind: the connection, the callbacks' flags, the messages sent to the user
-- and the confirmations sent to the core, in order, and `none` for `Ok(())` or the error.
pub record Handled : Type 0 where
  pub connection : Connection
  pub flags : Flags
  pub sent : List Message
  pub confirmations : List Confirmation
  pub error : Option Error

-- A branch of the `select!` in `try_run`, with the time at which it runs and, where it sends to the
-- user, the result of sending.
pub data Event : Type 0 where
  ping_due : ℕ → Bool → Event
  incoming : ℕ → Incoming → Event
  broadcast : ℕ → Received → Bool → Event
  retry_due : ℕ → Bool → Event
