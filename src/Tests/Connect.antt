-- ===== src/Tests/Connect.antt =====
-- Runs of the model of a connection of the websocket service.
use Prim.Native.String.{String}
use tom_notifier.Base.{
  ℕ, zero, ◌≡◌, ◌+◌, ◌≤◌, refl, true, List, [], ◌∷◌, ◌++◌, map, ◌==◌, Bool, false, Option, none,
  some, arith,
}
use tom_notifier.Delivery.Websocket.Callback.{
  ConfirmationCallback, execute_all, only_first_user_is_confirmed,
}
use tom_notifier.Delivery.Websocket.Types.{
  WebSocketMessage, UnconfirmedMessage, Connection, Message, arrived, received, Event, ping_due,
  incoming, broadcast, retry_due, binary,
}
use tom_notifier.Delivery.Websocket.Connection.{
  finish, process_ping, process_incomming_pong_message, round, try_run,
}
use tom_notifier.Delivery.Websocket.Connection.Run.{
  run, send, SinkCall, unanswered_pings_close_socket,
}
use tom_notifier.Delivery.Websocket.Connection.Silence.{aside, due, early, enough}
use tom_notifier.Delivery.Websocket.Connection.Valid.{IsValid, ValidAfter, round-IsValid}
use tom_notifier.Delivery.Websocket.Connection.Heartbeat.{pong_answers_ping}
use tom_notifier.Delivery.Websocket.Connection.Resend.{remaining, binaries, try_run-Spends}

abbrev callback : ConfirmationCallback
callback = record { was_called = 5; id = "n" }

only_first_user_is_confirmed_example :
    (execute_all callback (1 ∷ 2 ∷ []) (4 ∷ [])).1 ≡ record { user_id = 1; id = "n" } ∷ []
only_first_user_is_confirmed_example =
    only_first_user_is_confirmed callback 1 (2 ∷ []) (4 ∷ []) refl

abbrev message : ℕ → WebSocketMessage
message id = record { message_id = id; payload = id ∷ []; delivered_callback = some callback }

abbrev unconfirmed : ℕ → ℕ → UnconfirmedMessage
unconfirmed id retry_at = record {
  retry_at = retry_at;
  retries_remaining = 1;
  message = message id;
}

-- A connection with two unconfirmed messages, at the time 100.
abbrev connection : Connection
connection = record {
  config = record {
    ping_interval = 50;
    retry_max_count = 2;
    retry_interval = 20;
    connection_buffer_size = 8;
  };
  user_id = 1;
  unconfirmed_messages = unconfirmed 10 105 ∷ unconfirmed 11 118 ∷ [];
  ping_time = 140;
  ping_message = 6;
  pings_sent = 0;
}

connection-IsValid : IsValid 100 connection
connection-IsValid = record {
  pinged = omega arith;
  numbered = omega arith;
  budget = (omega arith, (omega arith, tt));
  ordered = (omega arith, (omega arith, omega arith));
}

-- A decoder for payloads that hold one number.
abbrev decode : List ℕ → Option String
decode (zero ∷ []) = some "ten"
decode _ = none

abbrev from_str : String → Option ℕ
from_str text = some 10

round-IsValid_example : ValidAfter 107 (round decode from_str (retry_due 107 true) connection [])
round-IsValid_example =
    round-IsValid decode from_str 100 (retry_due 107 true) connection [] (omega arith)
      connection-IsValid

pong_answers_ping_example :
    let h = process_ping 140 true connection [] in
    (payload : List ℕ) × (h.sent ≡ Message.ping payload ∷ [])
    × (h.error ≡ none)
    × (process_incomming_pong_message 150 payload h.connection []
        ≡ finish
            (record h.connection {
              ping_time = 150 + connection.config.ping_interval;
              pings_sent = 0;
            })
            []
            []
            none)
pong_answers_ping_example =
    pong_answers_ping 100 140 150 connection [] connection-IsValid (omega arith)

-- A new message, a retry, and a confirmation.
abbrev events : List Event
events =
    broadcast 101 (received (message 12)) true
    ∷ retry_due 106 true
    ∷ incoming 107 (arrived (binary (0 ∷ [])))
    ∷ []

abbrev holds : ℕ → List ℕ → Bool
holds n (x ∷ []) = x == n
holds n _ = false

try_run-Spends_example :
    let h = try_run decode from_str events connection [] in
    binaries (holds 12) h.sent + remaining (holds 12) h.connection.unconfirmed_messages ≤ 0 + 3
try_run-Spends_example = try_run-Spends (holds 12) decode from_str events connection []

-- Between the pings a message comes, is sent again, and the user pings.
abbrev silence : List Event
silence =
    broadcast 101 (received (message 12)) true
    ∷ ping_due 140 true
    ∷ incoming 150 (arrived (Message.ping []))
    ∷ ping_due 160 true
    ∷ ping_due 190 true
    ∷ retry_due 200 true
    ∷ ping_due 250 true
    ∷ []

unanswered_pings_close_socket_example :
    run decode from_str silence connection []
    ≡ some (map send (try_run decode from_str silence connection []).sent ++ SinkCall.close ∷ [])
unanswered_pings_close_socket_example =
    unanswered_pings_close_socket decode from_str connection [] refl refl (omega arith) refl (
      aside refl (
        due (omega arith) (
          aside refl
            (early (omega arith) (due (omega arith) (aside refl (due (omega arith) enough)))))))
