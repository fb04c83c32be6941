-- ===== src/Lib.antt =====
-- A model of tom-notifier: two programs and the crates that they share. tom-notifier-core stores
-- notifications for users and announces every change through RabbitMQ; tom-notifier-ws-delivery
-- consumes the announcements, drops duplicates and sends the rest to the websockets of connected
-- users, whose confirmations go back to the core.
--
-- Which file is about which code:
--   Base: the library's names, and lists, maps, tests and results that all files share.
--   Rabbitmq (shared/rabbitmq_client/src): Retry (retry.rs); Connection (connection/state_machine.rs,
--     connection_callback.rs); Producer/Defs (messages, confirms, process_confirm), Producer/Types and
--     Producer/States (the states that restore a producer), Producer/Machine (ok_state and run), each
--     from producer/state_machine.rs; Consumer/Machine (consumer/state_machine.rs), Consumer/Delivery
--     (async_consumer.rs, its tasks in Consumer/Delivery/Tasks); Producer/Start and Consumer/Start
--     (rabbitmq_producer.rs and rabbitmq_consumer.rs, the start of each); Connection/Start
--     (rabbitmq_connection.rs); Callbacks (what the AMQP library calls, channel_callback.rs and
--     connection_callback.rs); Shared (the counts
--     of handles by which connections and clients are closed).
--   Auth (shared/jwt_auth/src): the Authorization header and the check of roles; Auth/Layer
--     (middleware: the layer, its service and its future), Auth/Util (util.rs: algorithms and key),
--     Auth/Issue (test.rs: tokens for the tests of the programs).
--   Http: what both programs use of the web framework's requests and routes.
--   Env: the reading of variables that application/application_env.rs of both programs shares.
--   Protobuf (shared/protobuf): the messages.
--   Core (tom-notifier-core/src): Types (dto, errors, the repository's interface), Content (the bytes
--     of notifications in JSON), Producer
--     (notifications_producer_service), Service (notifications_service), Confirm
--     (confirmations_consumer_service), Routing (routing.rs), Repository
--     (repository/notifications_repository_impl.rs), Setup (the `new` of the two RabbitMQ services),
--     Env, Application and Web (application: the environment, the state and its end, and the layers
--     around the routes).
--   Mongo: what the database's driver returns, and the creation of indexes (Mongo/Indexes; `new` of the
--     repositories is in Core/Repository/Indexes and Delivery/Tickets/Indexes).
--   Delivery (tom-notifier-ws-delivery/src): Dedup (notifications_deduplication_service), Consume
--     (notifications_consumer_service), Websocket/Connection, Websocket/Callback and
--     Websocket/Service (websockets_service; Unordered is its map without order), Tickets
--     (tickets_service; tickets_repository in Tickets/Mongo, its promises in Tickets/Used), Routing
--     (routing.rs), Setup (the `new` of the RabbitMQ services, and confirmations_service), Env,
--     Application and Web (application: the environment, the state and its end, and the layer around
--     the routes; Web/Opened is the call of handle_client).
--   Exchange: both programs together: what the core announces, as ws-delivery reads it; the way of a
--     notification (Announcements) and of its confirmation (Confirmations); the exchanges and queues
--     (Topology), and both programs started from their environments (Started).
--   Tests: the theorems at concrete inputs.
--
-- How the code is modelled. A struct is a record, and a method is a function on it. A task that
-- awaits is a function of an event, which is the outcome of the await; `select!` is the event for the
-- branch that is taken, so a theorem over all sequences of events holds for every order in which
-- branches become ready. Calls of other libraries are effects in a list where only their order
-- matters, and parameters where their results matter; the hypotheses on such parameters state what
-- their documentation says. The lock of the websockets service and the mutex of the deduplication
-- make each operation one step, except for update_network_status, which is two. Between two awaits
-- of a request others may do anything to the database, which is a function `meanwhile`. Loops over
-- lists are recursion on the list; no function needs fuel. Machine integers wrap: the count of
-- messages at 2^64, the number of a ping at 2^32 and the unanswered pings at 2^8. Times, ids of
-- documents and uuids are numbers; what the database does not keep of a time is left to its driver.
--
-- Not modelled: logs and tracing; signals, sockets and the server around the handlers; the
-- reading of the path, query and body, which are parameters. How tasks are woken and
-- stopped is left to the runtime, and how long a call of a library takes to the sequences of events.
pub mod Base
pub mod Mongo
pub mod Rabbitmq
pub mod Delivery
pub mod Tests
pub mod Auth
pub mod Env
pub mod Http
pub mod Protobuf
pub mod Core
pub mod Exchange
