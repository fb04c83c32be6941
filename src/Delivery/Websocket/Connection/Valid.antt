-- ===== src/Delivery/Websocket/Connection/Valid.antt =====
-- What holds of a connection between any two rounds of its loop.
use Prim.Native.String.{String}
use mathlib.Core.Path.{subst}
use tom_notifier.Base.{
  ℕ, ◌+◌, ◌^◌, ◌≤◌, ◌<◌, ◌≡◌, refl, inl, inr, Bool, true, false, List, [], ◌∷◌, ◌++◌, Option, none,
  some, leb, ◌==◌, position, remove_at, All, All-append, arith, Bool-cases, Option-cases,
}
use tom_notifier.Delivery.Websocket.Callback.{ConfirmationCallback, Flags}
use tom_notifier.Delivery.Websocket.Types.{
  Config, UnconfirmedMessage, Connection, Message, binary, Incoming, arrived, Received, received,
  lagged, closed, Handled, Event, ping_due, incoming, broadcast, retry_due,
}
use tom_notifier.Delivery.Websocket.Connection.{
  new, process_ping, process_incomming_pong_message, run_callback, confirm,
  process_incomming_binary_message, process_incomming_message, process_message,
  process_unconfirmed_message, retry, round,
}
use tom_notifier.Delivery.Websocket.Connection.Queue.{
  IsOrdered, Within, IsOrdered-weaken, push_back-IsOrdered, Leaves, remove_at-IsOrdered,
  remove_at-All,
}

-- After a round at the time `at`.
pub record IsValid (at : ℕ) (c : Connection) : Type 0 where
  pub pinged : c.pings_sent ≤ 2
  pub numbered : c.ping_message < 2 ^ 32
  pub budget : All (Within c.config.retry_max_count) c.unconfirmed_messages
  pub ordered : IsOrdered 0 (at + c.config.retry_interval) c.unconfirmed_messages

-- Whatever a handler did, if its branch was ready.
abbrev pub ValidAfter : ℕ → Option Handled → Type 0
ValidAfter now none = Unit {0}
ValidAfter now (some h) = IsValid now h.connection

module _ (at now : ℕ) (later : at ≤ now) (flags : Flags) where
  IsValid-later : (c : Connection) → IsValid at c → IsValid now c
  IsValid-later c v = record {
    pinged = v.pinged;
    numbered = v.numbered;
    budget = v.budget;
    ordered =
        IsOrdered-weaken 0 0 (at + c.config.retry_interval) (now + c.config.retry_interval)
          c.unconfirmed_messages (omega arith) (omega arith) v.ordered;
  }

  process_ping-IsValid :
      (sent_ok : Bool) (c : Connection)
      → IsValid at c
      → IsValid now (process_ping now sent_ok c flags).connection
  unfolding process_ping
  process_ping-IsValid sent_ok c v = let w = IsValid-later c v in ground arith

  pong-IsValid :
      (payload : List ℕ) (c : Connection)
      → IsValid at c
      → IsValid now (process_incomming_pong_message now payload c flags).connection
  unfolding process_incomming_pong_message
  pong-IsValid payload c v = let w = IsValid-later c v in ground arith

  run_callback-connection :
      (callback : Option ConfirmationCallback) (c : Connection)
      → (run_callback callback c flags).connection ≡ c
  unfolding run_callback
  run_callback-connection none c = refl
  run_callback-connection (some callback) c = refl

  confirm-IsValid :
      (message_id : ℕ) (c : Connection)
      → IsValid at c
      → IsValid now (confirm now message_id c flags).connection
  unfolding confirm
  confirm-IsValid message_id c v =
      let w = IsValid-later c v in
      let same = λ (q : UnconfirmedMessage). q.message.message_id == message_id in
      let queue = c.unconfirmed_messages in
      elim (Option-cases (position same 0 queue)) [
        | inl e ↦ rw (e, confirm) w
        | inr (i, e) ↦ elim (Option-cases (remove_at i queue)) [
          | inl f ↦ rw (e, f, confirm) w
          | inr ((q, rest), f) ↦
              rw (e, f, confirm, run_callback-connection)
                (record {
                  pinged = omega arith;
                  numbered = w.numbered;
                  budget =
                      subst (Leaves (All (Within c.config.retry_max_count))) f
                        (remove_at-All c.config.retry_max_count i queue w.budget);
                  ordered =
                      subst (Leaves (IsOrdered 0 (now + c.config.retry_interval))) f
                        (remove_at-IsOrdered i 0 (now + c.config.retry_interval) queue w.ordered);
                })
        ]
      ]

  -- A message that enters the queue, due after the interval.
  enqueue-IsValid :
      (q : UnconfirmedMessage) (c : Connection)
      → IsValid at c
      → q.retry_at ≡ now + c.config.retry_interval
      → q.retries_remaining ≤ c.config.retry_max_count
      → IsValid now (record c { unconfirmed_messages = c.unconfirmed_messages ++ q ∷ [] })
  enqueue-IsValid q c v due few = record {
    pinged = v.pinged;
    numbered = v.numbered;
    budget =
        All-append (Within c.config.retry_max_count) c.unconfirmed_messages (q ∷ []) v.budget
          (few, tt);
    ordered =
        subst (λ hi. IsOrdered 0 hi (c.unconfirmed_messages ++ q ∷ [])) due
          (push_back-IsOrdered 0 (at + c.config.retry_interval) c.unconfirmed_messages q
            (omega arith) v.ordered);
  }

  message-IsValid :
      (message : Received) (sent_ok : Bool) (c : Connection)
      → IsValid at c
      → IsValid now (process_message now message sent_ok c flags).connection
  unfolding process_message
  message-IsValid (lagged count) sent_ok c v = IsValid-later c v
  message-IsValid closed sent_ok c v = IsValid-later c v
  message-IsValid (received m) true c v = enqueue-IsValid _ c v refl (omega arith)
  message-IsValid (received m) false c v = IsValid-later c v

  unconfirmed-IsValid :
      (q : UnconfirmedMessage) (sent_ok : Bool) (c : Connection)
      → q.retries_remaining ≤ c.config.retry_max_count
      → IsValid at c
      → IsValid now (process_unconfirmed_message now q sent_ok c flags).connection
  unfolding process_unconfirmed_message
  unconfirmed-IsValid q sent_ok c few v = elim (Bool-cases (q.retries_remaining == 0)) [
    | inl spent ↦ rw spent (IsValid-later c v)
    | inr left ↦ elim (Bool-cases sent_ok) [
      | inl e ↦ rw (left, e) (enqueue-IsValid _ c v refl (omega arith))
      | inr e ↦ rw (left, e) (IsValid-later c v)
    ]
  ]

  retry-IsValid :
      (sent_ok : Bool) (queue : List UnconfirmedMessage) (c : Connection)
      → IsValid at (record c { unconfirmed_messages = queue })
      → ValidAfter now (retry now sent_ok queue c flags)
  unfolding retry
  retry-IsValid sent_ok [] c v = tt
  retry-IsValid sent_ok (q ∷ rest) c v = elim (Bool-cases (leb q.retry_at now)) [
    | inl due ↦ rw due (
        unconfirmed-IsValid q sent_ok (record c { unconfirmed_messages = rest }) v.budget.0
          (record {
            pinged = v.pinged;
            numbered = v.numbered;
            budget = v.budget.1;
            ordered =
                IsOrdered-weaken 0 q.retry_at (at + c.config.retry_interval)
                  (at + c.config.retry_interval) rest (omega arith) (omega arith) v.ordered.1;
          }))
    | inr early ↦ rw early tt
  ]

-- The time at which a branch runs.
abbrev pub time_of : Event → ℕ
time_of (ping_due now sent_ok) = now
time_of (incoming now message) = now
time_of (broadcast now message sent_ok) = now
time_of (retry_due now sent_ok) = now

module _ (decode : List ℕ → Option String) (from_str : String → Option ℕ) where
  incoming-IsValid :
      (at now : ℕ) (message : Incoming) (c : Connection) (flags : Flags)
      → at ≤ now
      → IsValid at c
      → IsValid now (process_incomming_message decode from_str now message c flags).connection
  unfolding process_incomming_message
  incoming-IsValid at now (arrived (binary payload)) c flags later v =
      elim (Option-cases (decode payload)) [
        | inl e ↦ rw (e, process_incomming_binary_message) (IsValid-later at now later flags c v)
        | inr (text, e) ↦ elim (Option-cases (from_str text)) [
          | inl f ↦
              rw (e, f, process_incomming_binary_message) (IsValid-later at now later flags c v)
          | inr (id, f) ↦
              rw (e, f, process_incomming_binary_message)
                (confirm-IsValid at now later flags id c v)
        ]
      ]
  incoming-IsValid at now (arrived (Message.pong payload)) c flags later v =
      pong-IsValid at now later flags payload c v
  incoming-IsValid at now (arrived (Message.ping payload)) c flags later v =
      IsValid-later at now later flags c v
  incoming-IsValid at now _ c flags later v = IsValid-later at now later flags c v

  -- No round breaks these, whatever the user, the broadcast or the socket do, as long as the clock
  -- does not go back: at most two pings are unanswered; the number of the ping fits in 32 bits; no
  -- message has more retries than configured; and the queue is in the order in which its messages
  -- are due again, so that its front, for which the loop sleeps, is due first.
  pub round-IsValid :
      (at : ℕ) (event : Event) (c : Connection) (flags : Flags)
      → at ≤ time_of event
      → IsValid at c
      → ValidAfter (time_of event) (round decode from_str event c flags)
  unfolding round
  round-IsValid at (ping_due now sent_ok) c flags later v =
      elim (Bool-cases (leb c.ping_time now)) [
        | inl due ↦ rw due (process_ping-IsValid at now later flags sent_ok c v)
        | inr early ↦ rw early tt
      ]
  round-IsValid at (incoming now message) c flags later v =
      incoming-IsValid at now message c flags later v
  round-IsValid at (broadcast now message sent_ok) c flags later v =
      message-IsValid at now later flags message sent_ok c v
  round-IsValid at (retry_due now sent_ok) c flags later v =
      retry-IsValid at now later flags sent_ok c.unconfirmed_messages c v

-- A new connection is valid.
pub new-IsValid : (config : Config) (user_id now : ℕ) → IsValid now (new config user_id now)
unfolding new
new-IsValid config user_id now = record {
  pinged = omega arith;
  numbered = omega arith;
  budget = tt;
  ordered = omega arith;
}
