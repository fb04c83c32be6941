-- ===== src/Delivery/Websocket/Connection/Resend.antt =====
-- How often messages are sent again.
use mathlib.Core.Path.{subst}
use Prim.Native.String.{String}
use tom_notifier.Base.{
  ℕ, suc, ◌+◌, ◌-◌, ◌≤◌, ◌≡◌, refl, ap, inl, inr, Bool, true, false, List, [], ◌∷◌, ◌++◌, Option,
  none, some, leb, ◌==◌, arith, if◌then◌else◌, Bool-cases, Option-cases,
}
use tom_notifier.Delivery.Websocket.Callback.{ConfirmationCallback, Flags}
use tom_notifier.Delivery.Websocket.Types.{
  UnconfirmedMessage, Connection, Error, Message, binary, Incoming, arrived, Received, received,
  lagged, closed, Handled, Event, ping_due, incoming, broadcast, retry_due,
}
use tom_notifier.Delivery.Websocket.Connection.{
  finish, defer_ping, process_ping, process_incomming_pong_message, run_callback, confirm,
  process_incomming_binary_message, process_incomming_message, process_message,
  process_unconfirmed_message, retry, round, try_run,
}
use tom_notifier.Delivery.Websocket.Connection.Confirmed.{first_with, without, confirm_lem}
use tom_notifier.Delivery.Websocket.Connection.Loop.{try_run_next, try_run_stop}

-- How often the messages of a queue whose payload passes a test may still be sent.
abbrev pub remaining : (List ℕ → Bool) → List UnconfirmedMessage → ℕ
remaining P [] = 0
remaining P (q ∷ queue) =
    let rest = remaining P queue in if P q.message.payload then q.retries_remaining + rest else rest

-- How many messages were sent whose payload passes a test.
abbrev pub binaries : (List ℕ → Bool) → List Message → ℕ
binaries P [] = 0
binaries P (binary payload ∷ sent) =
    let rest = binaries P sent in if P payload then suc rest else rest
binaries P (_ ∷ sent) = binaries P sent

-- How often a message that a branch brings may be sent: once, and once for each retry.
abbrev pub allowance : (List ℕ → Bool) → ℕ → Event → ℕ
allowance P max (broadcast now (received message) sent_ok) =
    if P message.payload then suc max else 0
allowance P max _ = 0

abbrev pub allowances : (List ℕ → Bool) → ℕ → List Event → ℕ
allowances P max [] = 0
allowances P max (event ∷ events) = allowance P max event + allowances P max events

remaining-append :
    (P : List ℕ → Bool) (xs ys : List UnconfirmedMessage)
    → remaining P (xs ++ ys) ≡ remaining P xs + remaining P ys
remaining-append P [] ys = omega arith
remaining-append P (q ∷ xs) ys = ground (arith, remaining-append P xs ys)

remaining-without :
    (P : List ℕ → Bool) (id : ℕ) (queue : List UnconfirmedMessage)
    → remaining P (without id queue) ≤ remaining P queue
remaining-without P id [] = omega arith
remaining-without P id (q ∷ queue) = ground (arith, remaining-without P id queue)

binaries-append :
    (P : List ℕ → Bool) (xs ys : List Message)
    → binaries P (xs ++ ys) ≡ binaries P xs + binaries P ys
binaries-append P [] ys = omega arith
binaries-append P (binary payload ∷ xs) ys = ground (arith, binaries-append P xs ys)
binaries-append P (_ ∷ xs) ys = binaries-append P xs ys

-- A handler spends what it sends, and leaves the configuration.
pub record Spends (P : List ℕ → Bool) (c : Connection) (more : ℕ) (h : Handled) : Type 0 where
  pub spent :
      binaries P h.sent + remaining P h.connection.unconfirmed_messages
      ≤ remaining P c.unconfirmed_messages + more
  pub same_config : h.connection.config ≡ c.config

module _ (P : List ℕ → Bool) (now : ℕ) (c : Connection) (flags : Flags) where
  idle : (error : Option Error) → Spends P c 0 (finish c flags [] error)
  idle error = record { spent = omega arith; same_config = refl }

  ping-Spends : (sent_ok : Bool) → Spends P c 0 (process_ping now sent_ok c flags)
  unfolding process_ping
  ping-Spends sent_ok = record { spent = ground arith; same_config = ground arith }

  pong-Spends :
      (payload : List ℕ) → Spends P c 0 (process_incomming_pong_message now payload c flags)
  unfolding process_incomming_pong_message
  pong-Spends payload = record { spent = ground arith; same_config = ground arith }

  callback-Spends :
      (callback : Option ConfirmationCallback) (d : Connection)
      → remaining P d.unconfirmed_messages ≤ remaining P c.unconfirmed_messages
      → d.config ≡ c.config
      → Spends P c 0 (run_callback callback d flags)
  unfolding run_callback
  callback-Spends none d le e = record { spent = omega arith; same_config = e }
  callback-Spends (some callback) d le e = record { spent = omega arith; same_config = e }

  confirm-Spends : (id : ℕ) → Spends P c 0 (confirm now id c flags)
  confirm-Spends id = rw confirm_lem (at (first_with id c.unconfirmed_messages))
    where
      at :
          (found : Option UnconfirmedMessage)
          → Spends P c 0 (elim found [
            | none ↦ finish c flags [] none
            | some q ↦
                run_callback q.message.delivered_callback
                  (record (defer_ping now c) {
                    unconfirmed_messages = without id c.unconfirmed_messages;
                  })
                  flags
          ])
      at none = idle none
      at (some q) =
          callback-Spends q.message.delivered_callback _
            (remaining-without P id c.unconfirmed_messages) refl

  message-Spends :
      (message : Received) (sent_ok : Bool)
      → Spends P c
          (allowance P c.config.retry_max_count (broadcast now message sent_ok))
          (process_message now message sent_ok c flags)
  unfolding process_message
  message-Spends (lagged count) sent_ok = record { spent = omega arith; same_config = refl }
  message-Spends closed sent_ok = record { spent = omega arith; same_config = refl }
  message-Spends (received m) true = record {
    spent = ground (
      arith,
      remaining-append P c.unconfirmed_messages (
          record {
            retry_at = now + c.config.retry_interval;
            retries_remaining = c.config.retry_max_count;
            message = m;
          }
          ∷ []),
    );
    same_config = refl;
  }
  message-Spends (received m) false = record { spent = omega arith; same_config = refl }

abbrev SpendsAfter : (List ℕ → Bool) → Connection → ℕ → Option Handled → Type 0
SpendsAfter P c more none = Unit {0}
SpendsAfter P c more (some h) = Spends P c more h

unconfirmed-Spends :
    (P : List ℕ → Bool) (now : ℕ) (q : UnconfirmedMessage) (rest : List UnconfirmedMessage)
    (sent_ok : Bool) (c : Connection) (flags : Flags)
    → c.unconfirmed_messages ≡ q ∷ rest
    → Spends P c 0
        (process_unconfirmed_message now q sent_ok (record c { unconfirmed_messages = rest }) flags)
unfolding process_unconfirmed_message
unconfirmed-Spends P now q rest sent_ok c flags e = elim (Bool-cases (q.retries_remaining == 0)) [
  | inl spent' ↦
      rw spent' (record { spent = ground (arith, ap (remaining P) e); same_config = refl })
  | inr left ↦ elim (Bool-cases sent_ok) [
    | inl ok ↦
        rw (left, ok)
          (record {
            spent = ground (arith, ap (remaining P) e, left, remaining-append P rest (again ∷ []));
            same_config = refl;
          })
    | inr no_good ↦
        rw (left, no_good)
          (record { spent = ground (arith, ap (remaining P) e); same_config = refl })
  ]
]
  where
    again : UnconfirmedMessage
    again = record q {
      retry_at = now + c.config.retry_interval;
      retries_remaining = q.retries_remaining - 1;
    }

retry-Spends :
    (P : List ℕ → Bool) (now : ℕ) (sent_ok : Bool) (queue : List UnconfirmedMessage)
    (c : Connection) (flags : Flags)
    → c.unconfirmed_messages ≡ queue
    → SpendsAfter P c 0 (retry now sent_ok queue c flags)
unfolding retry
retry-Spends P now sent_ok [] c flags e = tt
retry-Spends P now sent_ok (q ∷ rest) c flags e = elim (Bool-cases (leb q.retry_at now)) [
  | inl due ↦ rw due (unconfirmed-Spends P now q rest sent_ok c flags e)
  | inr early ↦ rw early tt
]

module _ (P : List ℕ → Bool) (decode : List ℕ → Option String) (from_str : String → Option ℕ) where
  incoming-Spends :
      (now : ℕ) (message : Incoming) (c : Connection) (flags : Flags)
      → Spends P c 0 (process_incomming_message decode from_str now message c flags)
  unfolding process_incomming_message
  incoming-Spends now (arrived (binary payload)) c flags = elim (Option-cases (decode payload)) [
    | inl e ↦ rw (e, process_incomming_binary_message) (idle P now c flags _)
    | inr (text, e) ↦ elim (Option-cases (from_str text)) [
      | inl f ↦ rw (e, f, process_incomming_binary_message) (idle P now c flags _)
      | inr (id, f) ↦ rw (e, f, process_incomming_binary_message) (confirm-Spends P now c flags id)
    ]
  ]
  incoming-Spends now (arrived (Message.pong payload)) c flags = pong-Spends P now c flags payload
  incoming-Spends now (arrived (Message.ping payload)) c flags = idle P now c flags none
  incoming-Spends now _ c flags = idle P now c flags _

  round-Spends :
      (event : Event) (c : Connection) (flags : Flags)
      → SpendsAfter P c
          (allowance P c.config.retry_max_count event)
          (round decode from_str event c flags)
  unfolding round
  round-Spends (ping_due now sent_ok) c flags = elim (Bool-cases (leb c.ping_time now)) [
    | inl due ↦ rw due (ping-Spends P now c flags sent_ok)
    | inr early ↦ rw early tt
  ]
  round-Spends (incoming now message) c flags = incoming-Spends now message c flags
  round-Spends (broadcast now message sent_ok) c flags =
      message-Spends P now c flags message sent_ok
  round-Spends (retry_due now sent_ok) c flags =
      retry-Spends P now sent_ok c.unconfirmed_messages c flags refl

  -- However long the loop runs, it sends each message that the broadcast brings at most once and
  -- once more for each configured retry. For any test on payloads, such as that for being a certain
  -- one: the messages sent that pass it, with the retries left at the end for those that pass it, are
  -- no more than their retries left at the start and, for each message brought that passes it, one
  -- and the configured retries.
  pub try_run-Spends :
      (events : List Event) (c : Connection) (flags : Flags)
      → let h = try_run decode from_str events c flags in
        binaries P h.sent + remaining P h.connection.unconfirmed_messages
        ≤ remaining P c.unconfirmed_messages + allowances P c.config.retry_max_count events
  unfolding try_run
  try_run-Spends [] c flags = omega arith
  try_run-Spends (event ∷ events) c flags =
      elim (Option-cases (round decode from_str event c flags)) [
        | inl asleep ↦ rw (asleep, try_run) (omega (arith, try_run-Spends events c flags))
        | inr (h, ready) ↦
            let s =
              subst (SpendsAfter P c (allowance P c.config.retry_max_count event)) ready
                (round-Spends event c flags) in
            let rest = try_run-Spends events h.connection h.flags in
            elim (Option-cases h.error) [
              | inl going ↦ rw (try_run_next decode from_str event events c flags h ready going) (
                  omega (
                    arith,
                    s.spent,
                    rest,
                    binaries-append P h.sent
                        (try_run decode from_str events h.connection h.flags).sent,
                    ap (λ k. allowances P k.retry_max_count events) s.same_config,
                  ))
              | inr (e, stopped) ↦
                  rw (try_run_stop decode from_str event events c flags h e ready stopped)
                    (omega (arith, s.spent))
            ]
      ]
