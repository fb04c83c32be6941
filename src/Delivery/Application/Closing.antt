-- ===== src/Delivery/Application/Closing.antt =====
-- The end of tom-notifier-ws-delivery: the order of main.rs, and `close` of
-- application/application_shutdown.rs, by the counts of handles.
use tom_notifier.Base.{ℕ, ◌+◌, ◌==◌, ◌≡◌, Bool, List, [], ◌∷◌, arith, Result, if◌then◌else◌, ◌&&◌}
use tom_notifier.Rabbitmq.Shared.{
  drop, try_unwrap, ConnectionClosed, close_connection, close_client,
}
use tom_notifier.Delivery.Env.{ApplicationEnv}
use tom_notifier.Delivery.Application.{
  Handles, State, Starts, created, create_state, create_state-ClientsOf,
}

-- Who still holds parts when the server has ended: requests hold the websockets service, deliveries
-- the delivery callback, which holds the websockets service and the deduplication service, and
-- messages with a callback of their own, which websockets hold, the confirmations service. The AMQP
-- library owns the consumer that it was given, which holds the delivery callback too; `consumers` is
-- 1 until the library has dropped it, for which nothing here waits.
pub record Held : Type 0 where
  pub requests : ℕ
  pub deliveries : ℕ
  pub consumers : ℕ
  pub messages : ℕ

pub data Closed : Type 0 where
  notifications_consumer : Closed
  deduplication_service : Bool → Closed
  confirmations_service : Bool → Closed
  rabbitmq_connection : ConnectionClosed → Closed
  database : Closed

-- The last handle of the websockets service drops the service, with its handle of the confirmations
-- service.
unfoldable pub release_websockets : ℕ → Handles → Handles
release_websockets websockets h =
    if websockets == 0
    then record h { websockets = websockets; confirmations = drop h.confirmations }
    else record h { websockets = websockets }

-- When `axum::serve` has ended, the application's state is dropped; what is still held is counted.
unfoldable pub served : Held → Handles → Handles
served held h = record h {
  websockets = drop h.websockets + held.requests;
  confirmations = h.confirmations + held.messages;
}

-- The end of the consumer's task drops its connection, the status callback and, unless deliveries or
-- the AMQP library hold it, the delivery callback.
unfoldable pub close_consumer : ℕ → Handles → Handles
unfolding close_client release_websockets
close_consumer callbacks h =
    let closed = record h { connection = close_client h.connection } in
    if callbacks == 0
    then release_websockets (drop (drop h.websockets))
        (record closed { deduplication = drop h.deduplication })
    else release_websockets (drop h.websockets) closed

-- `close`.
unfoldable pub close : Held → Handles → List Closed
unfolding close_consumer close_client close_connection
close held h =
    let consumed = close_consumer (held.deliveries + held.consumers) h in
    let deduplicated = try_unwrap consumed.deduplication in
    let confirmed = try_unwrap consumed.confirmations in
    let connection = if confirmed then close_client consumed.connection else consumed.connection in
    Closed.notifications_consumer
    ∷ Closed.deduplication_service deduplicated
    ∷ Closed.confirmations_service confirmed
    ∷ Closed.rabbitmq_connection (close_connection connection)
    ∷ Closed.database
    ∷ []

-- `main` after the server has started.
unfoldable pub shut_down : Held → State → List Closed
unfolding served close
shut_down held state = close held (served held state.handles)

-- What is closed, by what is held.
abbrev pub closed_by : Held → List Closed
closed_by held =
    let released = (held.deliveries == 0) && (held.consumers == 0) in
    let free = (held.requests == 0) && (released && (held.messages == 0)) in
    Closed.notifications_consumer
    ∷ Closed.deduplication_service released
    ∷ Closed.confirmations_service free
    ∷ Closed.rabbitmq_connection
        (if free then ConnectionClosed.closed else ConnectionClosed.forbidden)
    ∷ Closed.database
    ∷ []

created_shut_down : (held : Held) → close held (served held created) ≡ closed_by held
unfolding shut_down created
created_shut_down held = ground arith

-- A program that has started closes its consumer, its deduplication, its confirmations service, its
-- connection and its database in this order. The deduplication is closed exactly if no delivery is
-- still processed and the AMQP library has dropped the consumer; the confirmations service and the connection are closed exactly if besides no request
-- is left and no websocket holds a message that could still be confirmed. The others are always.
pub shut_down-closed_by :
    {Address K E : Type 0} (starts : Starts E) (env : ApplicationEnv Address K) (state : State)
    (held : Held)
    → create_state starts env ≡ Result.ok state
    → shut_down held state ≡ closed_by held
unfolding shut_down
shut_down-closed_by starts env state held h =
    let (confirmations, consumer, handles) = create_state-ClientsOf starts env state h in
    rw handles (created_shut_down held)
