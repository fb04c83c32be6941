-- ===== src/Delivery/Websocket/Connection/Silence.antt =====
-- The end of the loop when the user answers nothing, whatever else happens.
use Prim.Native.String.{String}
use mathlib.Core.Path.{subst}
use tom_notifier.Base.{
  ℕ, suc, ◌+◌, ◌≤◌, ◌<◌, ◌≡◌, ◌≢◌, ◌∙◌, ap, refl, inl, inr, Bool, true, false, List, [], ◌∷◌,
  Option, none, some, leb, arith, Bool-cases, Option-cases,
}
use tom_notifier.Delivery.Websocket.Callback.{Flags}
use tom_notifier.Delivery.Websocket.Types.{
  UnconfirmedMessage, Connection, Message, Incoming, arrived, Received, received, lagged, closed,
  Handled, Event, ping_due, incoming, broadcast, retry_due,
}
use tom_notifier.Delivery.Websocket.Connection.{
  process_ping, process_message, process_incomming_message, process_unconfirmed_message, retry,
  round, try_run,
}
use tom_notifier.Delivery.Websocket.Connection.Loop.{try_run_next, try_run_stop}

-- A branch with which the user does not answer a ping: messages for the user, resending them, and
-- pings of the user's own.
abbrev pub is_quiet : Event → Bool
is_quiet (broadcast now message sent_ok) = true
is_quiet (retry_due now sent_ok) = true
is_quiet (incoming now (arrived (Message.ping payload))) = true
is_quiet _ = false

-- Branches that become ready for a silent user, among which a ping is due `n` times: the first not
-- before `time`, and each later one not before the interval has passed.
pub data Silent (interval : ℕ) : ℕ → ℕ → List Event → Type 0 where
  enough : {time : ℕ} {events : List Event} → Silent interval 0 time events
  due :
      {n time now : ℕ} {sent_ok : Bool} {events : List Event}
      → time ≤ now
      → Silent interval n (now + interval) events
      → Silent interval (suc n) time (ping_due now sent_ok ∷ events)
  early :
      {n time now : ℕ} {sent_ok : Bool} {events : List Event}
      → now < time
      → Silent interval n time events
      → Silent interval n time (ping_due now sent_ok ∷ events)
  aside :
      {n time : ℕ} {event : Event} {events : List Event}
      → is_quiet event ≡ true
      → Silent interval n time events
      → Silent interval n time (event ∷ events)

-- A handler that leaves the heartbeat as it is.
pub record Leaves (c : Connection) (h : Handled) : Type 0 where
  pub same_config : h.connection.config ≡ c.config
  pub same_time : h.connection.ping_time ≡ c.ping_time
  pub same_sent : h.connection.pings_sent ≡ c.pings_sent

abbrev LeavesAfter : Connection → Option Handled → Type 0
LeavesAfter c none = Unit {0}
LeavesAfter c (some h) = Leaves c h

message-Leaves :
    (now : ℕ) (message : Received) (sent_ok : Bool) (c : Connection) (flags : Flags)
    → Leaves c (process_message now message sent_ok c flags)
unfolding process_message
message-Leaves now (lagged count) sent_ok c flags = record {
  same_config = refl;
  same_time = refl;
  same_sent = refl;
}
message-Leaves now closed sent_ok c flags = record {
  same_config = refl;
  same_time = refl;
  same_sent = refl;
}
message-Leaves now (received m) true c flags = record {
  same_config = refl;
  same_time = refl;
  same_sent = refl;
}
message-Leaves now (received m) false c flags = record {
  same_config = refl;
  same_time = refl;
  same_sent = refl;
}

unconfirmed-Leaves :
    (now : ℕ) (q : UnconfirmedMessage) (sent_ok : Bool) (c : Connection) (flags : Flags)
    → Leaves c (process_unconfirmed_message now q sent_ok c flags)
unfolding process_unconfirmed_message
unconfirmed-Leaves now q sent_ok c flags = record {
  same_config = ground arith;
  same_time = ground arith;
  same_sent = ground arith;
}

retry-Leaves :
    (now : ℕ) (sent_ok : Bool) (queue : List UnconfirmedMessage) (c : Connection) (flags : Flags)
    → LeavesAfter c (retry now sent_ok queue c flags)
unfolding retry
retry-Leaves now sent_ok [] c flags = tt
retry-Leaves now sent_ok (q ∷ rest) c flags = elim (Bool-cases (leb q.retry_at now)) [
  | inl ready ↦ rw ready (as_before (unconfirmed-Leaves now q sent_ok _ flags))
  | inr asleep ↦ rw asleep tt
]
  where
    as_before : {h : Handled} → Leaves (record c { unconfirmed_messages = rest }) h → Leaves c h
    as_before l = record {
      same_config = l.same_config;
      same_time = l.same_time;
      same_sent = l.same_sent;
    }

-- A ping without an error: there was at most one before it, and it counts.
ping-counts :
    (now : ℕ) (sent_ok : Bool) (c : Connection) (flags : Flags)
    → let h = process_ping now sent_ok c flags in
      h.error ≡ none
      → (c.pings_sent ≤ 1)
        × (h.connection.config ≡ c.config)
        × (h.connection.ping_time ≡ now + c.config.ping_interval)
        × (h.connection.pings_sent ≡ c.pings_sent + 1)
unfolding process_ping
ping-counts now sent_ok c flags e = ground arith

module _ (decode : List ℕ → Option String) (from_str : String → Option ℕ) where
  abbrev Stops : List Event → Connection → Flags → Type 0
  Stops events c flags = (try_run decode from_str events c flags).error ≢ none

  -- The loop ends if the round does, or else what is left of it.
  next-Stops :
      (event : Event) (events : List Event) (c : Connection) (flags : Flags) (h : Handled)
      → round decode from_str event c flags ≡ some h
      → (h.error ≡ none → Stops events h.connection h.flags)
      → Stops (event ∷ events) c flags
  next-Stops event events c flags h ready rest = elim (Option-cases h.error) [
    | inl going ↦ rw (try_run_next decode from_str event events c flags h ready going) (rest going)
    | inr (e, stopped) ↦
        rw (try_run_stop decode from_str event events c flags h e ready stopped) (λ none. cc)
  ]

  asleep-Stops :
      (event : Event) (events : List Event) (c : Connection) (flags : Flags)
      → round decode from_str event c flags ≡ none
      → Stops events c flags
      → Stops (event ∷ events) c flags
  unfolding try_run
  asleep-Stops event events c flags asleep rest = rw (asleep, try_run) rest

  quiet-Leaves :
      (event : Event) (c : Connection) (flags : Flags)
      → is_quiet event ≡ true
      → LeavesAfter c (round decode from_str event c flags)
  unfolding round process_incomming_message
  quiet-Leaves (broadcast now message sent_ok) c flags q =
      message-Leaves now message sent_ok c flags
  quiet-Leaves (retry_due now sent_ok) c flags q =
      retry-Leaves now sent_ok c.unconfirmed_messages c flags
  quiet-Leaves (incoming now (arrived (Message.ping payload))) c flags q = record {
    same_config = refl;
    same_time = refl;
    same_sent = refl;
  }
  quiet-Leaves (incoming now (arrived (Message.binary payload))) c flags q = cc
  quiet-Leaves (incoming now (arrived (Message.pong payload))) c flags q = cc
  quiet-Leaves (incoming now (arrived Message.text)) c flags q = cc
  quiet-Leaves (incoming now (arrived Message.close)) c flags q = cc
  quiet-Leaves (incoming now Incoming.failed) c flags q = cc
  quiet-Leaves (incoming now Incoming.ended) c flags q = cc
  quiet-Leaves (ping_due now sent_ok) c flags q = cc

  -- A silent user is disconnected: whatever messages come for the user and however often they are sent
  -- again, the loop ends by the time when so many pings were due that with those that are unanswered
  -- they are three.
  pub unanswered_pings_end_loop :
      {interval n time : ℕ} {events : List Event} (c : Connection) (flags : Flags)
      → c.config.ping_interval ≡ interval
      → c.ping_time ≡ time
      → c.pings_sent ≤ 2
      → n + c.pings_sent ≡ 3
      → Silent interval n time events
      → (try_run decode from_str events c flags).error ≢ none
  unfolding round
  unanswered_pings_end_loop c flags same_interval same_time few three enough = λ e. omega arith
  unanswered_pings_end_loop c flags same_interval same_time few three
        (due {now = now} {sent_ok = sent_ok} {events = events} le silent) =
      next-Stops (ping_due now sent_ok) events c flags (process_ping now sent_ok c flags)
        (ground arith)
        λ going.
          let (once, config, next_time, sent) = ping-counts now sent_ok c flags going in
          unanswered_pings_end_loop _ _ (ap (λ k. k.ping_interval) config ∙ same_interval)
            (next_time ∙ ap (λ i. now + i) same_interval) (omega (arith, sent))
            (omega (arith, sent)) silent
  unanswered_pings_end_loop c flags same_interval same_time few three
        (early {now = now} {sent_ok = sent_ok} {events = events} lt silent) =
      asleep-Stops (ping_due now sent_ok) events c flags (ground arith)
        (unanswered_pings_end_loop c flags same_interval same_time few three silent)
  unanswered_pings_end_loop c flags same_interval same_time few three
        (aside {event = event} {events = events} quiet silent) =
      elim (Option-cases (round decode from_str event c flags)) [
        | inl asleep ↦
            asleep-Stops event events c flags asleep
              (unanswered_pings_end_loop c flags same_interval same_time few three silent)
        | inr (h, ready) ↦
            let l = subst (LeavesAfter c) ready (quiet-Leaves event c flags quiet) in
            next-Stops event events c flags h ready λ going.
              unanswered_pings_end_loop h.connection h.flags
                (ap (λ k. k.ping_interval) l.same_config ∙ same_interval) (l.same_time ∙ same_time)
                (omega (arith, l.same_sent)) (omega (arith, l.same_sent)) silent
      ]
