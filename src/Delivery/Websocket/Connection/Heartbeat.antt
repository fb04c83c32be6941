-- ===== src/Delivery/Websocket/Connection/Heartbeat.antt =====
-- Pings and pongs of a connection.
use Prim.Native.String.{String}
use tom_notifier.Base.{
  ℕ, ◌+◌, ◌%◌, ◌^◌, ◌≤◌, ◌<◌, ◌≡◌, refl, true, List, [], ◌∷◌, Option, none, some, arith,
}
use tom_notifier.Delivery.Websocket.Callback.{Flags}
use tom_notifier.Delivery.Websocket.Bytes.{to_be_bytes, from_be_bytes-to_be_bytes}
use tom_notifier.Delivery.Websocket.Types.{Connection, Message, Event, ping_due, anyhow}
use tom_notifier.Delivery.Websocket.Connection.{
  finish, next_ping, process_ping, process_incomming_pong_message, round, try_run,
}
use tom_notifier.Delivery.Websocket.Connection.Loop.{try_run_next, try_run_stop}
use tom_notifier.Delivery.Websocket.Connection.Valid.{IsValid}

-- The connection after a ping was sent.
abbrev pub pinged : ℕ → Connection → Connection
pinged now c = record c {
  ping_message = next_ping c;
  pings_sent = c.pings_sent + 1;
  ping_time = now + c.config.ping_interval;
}

process_ping-pinged :
    (now : ℕ) (c : Connection) (flags : Flags)
    → c.pings_sent ≤ 1
    → process_ping now true c flags
      ≡ finish (pinged now c) flags (Message.ping (to_be_bytes (next_ping c)) ∷ []) none
unfolding process_ping
process_ping-pinged now c flags h = ground arith

next_ping-lt : (c : Connection) → c.ping_message < 2 ^ 32 → next_ping c < 2 ^ 32
next_ping-lt c h = ground arith

-- On a valid connection with at most one unanswered ping, a ping that is due is sent with some
-- payload; and a pong that brings the payload back ends the heartbeat: no ping is unanswered, and
-- the next one is due an interval after the pong.
pub pong_answers_ping :
    (at now later : ℕ) (c : Connection) (flags : Flags)
    → IsValid at c
    → c.pings_sent ≤ 1
    → let h = process_ping now true c flags in
      (payload : List ℕ) × (h.sent ≡ Message.ping payload ∷ [])
      × (h.error ≡ none)
      × (process_incomming_pong_message later payload h.connection flags
          ≡ finish
              (record h.connection { ping_time = later + c.config.ping_interval; pings_sent = 0 })
              flags
              []
              none)
unfolding process_incomming_pong_message
pong_answers_ping at now later c flags v few =
    rw (process_ping-pinged now c flags few) (to_be_bytes (next_ping c), refl, refl, answered)
  where
    answered :
        process_incomming_pong_message later (to_be_bytes (next_ping c)) (pinged now c) flags
        ≡ finish
            (record (pinged now c) { ping_time = later + c.config.ping_interval; pings_sent = 0 })
            flags
            []
            none
    answered = ground (arith, from_be_bytes-to_be_bytes (next_ping c), next_ping-lt c v.numbered)

module _ (decode : List ℕ → Option String) (from_str : String → Option ℕ) where
  ping_round :
      (now : ℕ) (c : Connection) (flags : Flags)
      → c.ping_time ≤ now
      → c.pings_sent ≤ 1
      → round decode from_str (ping_due now true) c flags
        ≡ some (finish (pinged now c) flags (Message.ping (to_be_bytes (next_ping c)) ∷ []) none)
  unfolding round
  ping_round now c flags due few = ground (arith, process_ping-pinged now c flags)

  last_round :
      (now : ℕ) (c : Connection) (flags : Flags)
      → c.ping_time ≤ now
      → c.pings_sent ≡ 2
      → round decode from_str (ping_due now true) c flags
        ≡ some (finish c flags [] (some (anyhow "user unresponsive")))
  unfolding round process_ping
  last_round now c flags due sent = ground arith

  -- A user who answers nothing is pinged twice, with the same number, and is taken for unresponsive
  -- when the third ping is due: the loop ends with that error.
  pub silent_user_is_closed :
      (t u v : ℕ) (c : Connection) (flags : Flags) (events : List Event)
      → c.pings_sent ≡ 0
      → c.ping_time ≤ t
      → t + c.config.ping_interval ≤ u
      → u + c.config.ping_interval ≤ v
      → let payload = to_be_bytes ((c.ping_message + 1) % 2 ^ 32) in
        let h =
          try_run decode from_str
            (ping_due t true ∷ ping_due u true ∷ ping_due v true ∷ events)
            c
            flags in
        (h.sent ≡ Message.ping payload ∷ Message.ping payload ∷ [])
        × (h.error ≡ some (anyhow "user unresponsive"))
  silent_user_is_closed t u v c flags events none_sent due due' due'' =
      let n = next_ping c in
      let c' = pinged t c in
      let c'' = pinged u c' in
      let first =
        try_run_next decode from_str (ping_due t true) (ping_due u true ∷ ping_due v true ∷ events)
          c flags _ (ping_round t c flags due (omega arith)) refl in
      let second =
        try_run_next decode from_str (ping_due u true) (ping_due v true ∷ events) c' flags _
          (ping_round u c' flags due' (omega arith)) refl in
      let third =
        try_run_stop decode from_str (ping_due v true) events c'' flags _ _
          (last_round v c'' flags due'' (omega arith)) refl in
      let number : n ≡ (c.ping_message + 1) % 2 ^ 32 = ground arith in
      let same : next_ping c' ≡ n = ground arith in
      rw (first, second, third) (ground (arith, number, same), refl)
