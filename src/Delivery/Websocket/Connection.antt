-- ===== src/Delivery/Websocket/Connection.antt =====
-- tom-notifier-ws-delivery/src/service/websockets_service/websocket_connection.rs: one handler for
-- each branch of the `select!`, and the loop. Sending that fails sends nothing.
pub mod Loop
pub mod Queue
pub mod Valid
pub mod Heartbeat
pub mod Confirmed
pub mod Resend
pub mod Silence
pub mod Run
use Prim.Native.String.{String}
use tom_notifier.Base.{
  ℕ, ◌+◌, ◌-◌, ◌%◌, ◌^◌, Bool, true, false, List, [], ◌∷◌, ◌++◌, Option, none, some, if◌then◌else◌,
  ltb, leb, ◌==◌, position, remove_at,
}
use tom_notifier.Delivery.Websocket.Callback.{ConfirmationCallback, Confirmation, Flags, execute}
use tom_notifier.Delivery.Websocket.Bytes.{to_be_bytes, from_be_bytes}
use tom_notifier.Delivery.Websocket.Types.{
  Config, WebSocketMessage, UnconfirmedMessage, Connection, Error, anyhow, Message, binary,
  Incoming, arrived, failed, ended, Received, received, lagged, closed, Handled, Event, ping_due,
  incoming, broadcast, retry_due,
}

-- `WebSocketConnection::new` at the time `now`.
unfoldable pub new : Config → ℕ → ℕ → Connection
new config user_id now = record {
  config = config;
  user_id = user_id;
  unconfirmed_messages = [];
  ping_time = now + config.ping_interval;
  ping_message = 0;
  pings_sent = 0;
}

-- A handler that ends with `Ok(())` or an error, having sent some messages.
abbrev pub finish : Connection → Flags → List Message → Option Error → Handled
finish c flags sent error = record {
  connection = c;
  flags = flags;
  sent = sent;
  confirmations = [];
  error = error;
}

-- The number that the next ping carries: a new one for the first ping of a heartbeat.
abbrev pub next_ping : Connection → ℕ
next_ping c = if c.pings_sent == 0 then (c.ping_message + 1) % 2 ^ 32 else c.ping_message

unfoldable pub process_ping : ℕ → Bool → Connection → Flags → Handled
process_ping now sent_ok c flags =
    let n = next_ping c in
    let sent = record c {
      ping_message = n;
      pings_sent = (c.pings_sent + 1) % 2 ^ 8;
      ping_time = now + c.config.ping_interval;
    } in
    if ltb 1 c.pings_sent
    then finish c flags [] (some (anyhow "user unresponsive"))
    else if sent_ok
    then finish sent flags (Message.ping (to_be_bytes n) ∷ []) none
    else finish (record c { ping_message = n }) flags [] (some (anyhow "failed to send ping"))

-- A pong or a confirmation defers the next ping.
abbrev pub defer_ping : ℕ → Connection → Connection
defer_ping now c = record c { ping_time = now + c.config.ping_interval; pings_sent = 0 }

unfoldable pub process_incomming_pong_message : ℕ → List ℕ → Connection → Flags → Handled
process_incomming_pong_message now payload c flags = elim (from_be_bytes payload) [
  | none ↦ finish c flags [] (some (anyhow "pong payload length invalid"))
  | some pong_message ↦
      if c.pings_sent == 0
      then finish c flags [] none
      else if pong_message == c.ping_message
      then finish (defer_ping now c) flags [] none
      else finish c flags [] none
]

-- The callback of a confirmed message, if it has one.
unfoldable pub run_callback : Option ConfirmationCallback → Connection → Flags → Handled
run_callback none c flags = finish c flags [] none
run_callback (some callback) c flags =
    let (flags', confirmations) = execute callback c.user_id flags in
    record {
      connection = c;
      flags = flags';
      sent = [];
      confirmations = confirmations;
      error = none;
    }

-- A confirmation of the message with an id, once the payload is decoded.
unfoldable pub confirm : ℕ → ℕ → Connection → Flags → Handled
unfolding run_callback
confirm now message_id c flags =
    elim (position (λ q. q.message.message_id == message_id) 0 c.unconfirmed_messages) [
      | none ↦ finish c flags [] none
      | some idx ↦ elim (remove_at idx c.unconfirmed_messages) [
        | none ↦ finish c flags [] none
        | some (queued, rest) ↦
            run_callback queued.message.delivered_callback
              (record (defer_ping now c) { unconfirmed_messages = rest }) flags
      ]
    ]

-- `decode` is `WebSocketConfirmationProtobuf::decode`, down to the field `message_id`, and `from_str`
-- is `Uuid::from_str`.
module _ (decode : List ℕ → Option String) (from_str : String → Option ℕ) where
  unfoldable pub process_incomming_binary_message : ℕ → List ℕ → Connection → Flags → Handled
  unfolding confirm
  process_incomming_binary_message now payload c flags = elim (decode payload) [
    | none ↦ finish c flags [] (some (anyhow "failed to decode confirmation"))
    | some message_id_str ↦ elim (from_str message_id_str) [
      | none ↦ finish c flags [] (some (anyhow "failed to decode confirmation: invalid message_id"))
      | some message_id ↦ confirm now message_id c flags
    ]
  ]

  unfoldable pub process_incomming_message : ℕ → Incoming → Connection → Flags → Handled
  unfolding process_incomming_binary_message process_incomming_pong_message
  process_incomming_message now (arrived (binary payload)) c flags =
      process_incomming_binary_message now payload c flags
  process_incomming_message now (arrived Message.text) c flags =
      finish c flags [] (some (anyhow "received text message"))
  process_incomming_message now (arrived (Message.ping payload)) c flags = finish c flags [] none
  process_incomming_message now (arrived (Message.pong payload)) c flags =
      process_incomming_pong_message now payload c flags
  process_incomming_message now (arrived Message.close) c flags =
      finish c flags [] (some (Error.close "received close message"))
  process_incomming_message now failed c flags =
      finish c flags [] (some (anyhow "failed to read incomming message"))
  process_incomming_message now ended c flags =
      finish c flags [] (some (anyhow "incomming messages stream closed"))

unfoldable pub process_message : ℕ → Received → Bool → Connection → Flags → Handled
process_message now (lagged count) sent_ok c flags =
    finish c flags [] (some (anyhow "connection lagged"))
process_message now closed sent_ok c flags =
    finish c flags [] (some (Error.close "connection forcefully closed"))
process_message now (received message) sent_ok c flags =
    let unconfirmed : UnconfirmedMessage = record {
      retry_at = now + c.config.retry_interval;
      retries_remaining = c.config.retry_max_count;
      message = message;
    } in
    if sent_ok
    then finish (record c { unconfirmed_messages = c.unconfirmed_messages ++ unconfirmed ∷ [] })
        flags (binary message.payload ∷ []) none
    else finish c flags [] (some (anyhow "sending message failed"))

-- `c` is the connection after `pop_front`.
unfoldable pub process_unconfirmed_message :
    ℕ → UnconfirmedMessage → Bool → Connection → Flags → Handled
process_unconfirmed_message now unconfirmed sent_ok c flags =
    let again = record unconfirmed {
      retry_at = now + c.config.retry_interval;
      retries_remaining = unconfirmed.retries_remaining - 1;
    } in
    if unconfirmed.retries_remaining == 0
    then finish c flags [] (some (anyhow "user unresponsive: message not confirmed in time"))
    else if sent_ok
    then finish (record c { unconfirmed_messages = c.unconfirmed_messages ++ again ∷ [] }) flags
        (binary unconfirmed.message.payload ∷ []) none
    else finish c flags [] (some (anyhow "failed to resend message"))

-- The branch for resending: disabled while the queue is empty, and asleep until the front is due.
unfoldable pub retry : ℕ → Bool → List UnconfirmedMessage → Connection → Flags → Option Handled
unfolding process_unconfirmed_message
retry now sent_ok [] c flags = none
retry now sent_ok (queued ∷ rest) c flags =
    if leb queued.retry_at now
    then some (
        process_unconfirmed_message now queued sent_ok (record c { unconfirmed_messages = rest })
          flags)
    else none

-- What a round left, followed by what the rest of the loop left.
abbrev pub after_round : Handled → Handled → Handled
after_round h rest = record rest {
  sent = h.sent ++ rest.sent;
  confirmations = h.confirmations ++ rest.confirmations;
}

module _ (decode : List ℕ → Option String) (from_str : String → Option ℕ) where
  -- One round of the loop of `try_run`. `none`: the branch is not ready at that time.
  unfoldable pub round : Event → Connection → Flags → Option Handled
  unfolding process_ping process_incomming_message process_message retry
  round (ping_due now sent_ok) c flags =
      if leb c.ping_time now then some (process_ping now sent_ok c flags) else none
  round (incoming now message) c flags =
      some (process_incomming_message decode from_str now message c flags)
  round (broadcast now message sent_ok) c flags = some (process_message now message sent_ok c flags)
  round (retry_due now sent_ok) c flags = retry now sent_ok c.unconfirmed_messages c flags

  -- The loop of `try_run` over the branches that become ready, in order: it ends with the first
  -- error. A branch that is not ready is not taken.
  unfoldable pub try_run : List Event → Connection → Flags → Handled
  try_run [] c flags = finish c flags [] none
  try_run (event ∷ events) c flags = elim (round event c flags) [
    | none ↦ try_run events c flags
    | some h ↦ elim h.error [
      | some e ↦ h
      | none ↦ after_round h (try_run events h.connection h.flags)
    ]
  ]
