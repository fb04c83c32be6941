-- ===== src/Rabbitmq/Connection.antt =====
-- shared/rabbitmq_client/src/connection/state_machine.rs, and the callback of connection_callback.rs.
pub mod Start
use mathlib.Core.Path.{subst}
use tom_notifier.Base.{
  ◌≡◌, refl, sym, inl, inr, ◌⊎◌, Bool, false, List, Option, none, some, Option-cases,
}
use tom_notifier.Rabbitmq.Retry.{retry}
use tom_notifier.Rabbitmq.Await.{Outcome, pending, done}

pub data State : Type 0 where
  ok closing_connection restoring_connection restoring_callback : State

-- `connection_tx` and `blocked_tx` are the last values sent on these watch channels. `C` is the
-- AMQP library's connection.
pub record StateMachine (C : Type 0) : Type 0 where
  pub connection : C
  pub connection_tx : Option C
  pub blocked_tx : Bool
  pub state : State

-- What ends an await: a network failure, the end of `close`, the results of `Connection::open`, or
-- the results of `register_callback`; `callback_blocked` is a call of the connection's callback.
pub data Event (C : Type 0) : Type 0 where
  network_failed closed : Event C
  connection_opened : List (Option C) → Event C
  callback_registered : List (Option (Unit {0})) → Event C
  callback_blocked : Bool → Event C

module _ {C : Type 0} where
  -- `StateMachine::new` as `RabbitmqConnection::new` calls it.
  unfoldable pub new : C → Bool → StateMachine C
  new connection blocked = record {
    connection = connection;
    connection_tx = some connection;
    blocked_tx = blocked;
    state = State.ok;
  }

  unfoldable pub ok_state : StateMachine C → StateMachine C
  ok_state s = record s { state = State.closing_connection }

  unfoldable pub closing_connection_state : StateMachine C → StateMachine C
  closing_connection_state s = record s { connection_tx = none; state = State.restoring_connection }

  unfoldable pub restoring_connection_state :
      List (Option C) → StateMachine C → Outcome (StateMachine C)
  restoring_connection_state opens s = elim (retry opens) [
    | none ↦ pending
    | some c ↦
        done (record s { connection = c; blocked_tx = false; state = State.restoring_callback })
  ]

  -- The branch of `restoring_callback_state` where the callback is registered.
  unfoldable pub callback_restored :
      List (Option (Unit {0})) → StateMachine C → Outcome (StateMachine C)
  callback_restored registers s = elim (retry registers) [
    | none ↦ pending
    | some _ ↦ done (record s { connection_tx = some s.connection; state = State.ok })
  ]

  -- The match of `run` on the state, and the callback, which may be called at any time.
  unfoldable pub dispatch : State → Event C → StateMachine C → Outcome (StateMachine C)
  unfolding ok_state closing_connection_state restoring_connection_state callback_restored
  dispatch _ (callback_blocked blocked) s = done (record s { blocked_tx = blocked })
  dispatch State.ok network_failed s = done (ok_state s)
  dispatch State.closing_connection closed s = done (closing_connection_state s)
  dispatch State.restoring_connection (connection_opened opens) s =
      restoring_connection_state opens s
  dispatch State.restoring_callback network_failed s = done (ok_state s)
  dispatch State.restoring_callback (callback_registered registers) s =
      callback_restored registers s
  dispatch _ _ s = pending

  unfoldable pub step : Event C → StateMachine C → Outcome (StateMachine C)
  unfolding dispatch
  step event s = dispatch s.state event s

  pub data Reach (s : StateMachine C) : StateMachine C → Type 0 where
    here : Reach s s
    next : {t u : StateMachine C} (event : Event C) → Reach s t → step event t ≡ done u → Reach s u

  -- By state, what producers and consumers can read from the watch channel.
  abbrev pub PublishedAt : State → StateMachine C → Type 0
  PublishedAt State.ok s = s.connection_tx ≡ some s.connection
  PublishedAt State.closing_connection s =
      (s.connection_tx ≡ some s.connection) ⊎ (s.connection_tx ≡ none)
  PublishedAt State.restoring_connection s = s.connection_tx ≡ none
  PublishedAt State.restoring_callback s = s.connection_tx ≡ none

  abbrev pub IsPublished : StateMachine C → Type 0
  IsPublished s = PublishedAt s.state s

  abbrev PublishedAfter : Outcome (StateMachine C) → Type 0
  PublishedAfter (done s) = IsPublished s
  PublishedAfter _ = Unit {0}

  blocked-PublishedAt :
      (state : State) (blocked : Bool) (s : StateMachine C)
      → PublishedAt state s
      → PublishedAt state (record s { blocked_tx = blocked })
  blocked-PublishedAt State.ok blocked s h = h
  blocked-PublishedAt State.closing_connection blocked s h = h
  blocked-PublishedAt State.restoring_connection blocked s h = h
  blocked-PublishedAt State.restoring_callback blocked s h = h

  dispatch-IsPublished :
      (state : State) (event : Event C) (s : StateMachine C)
      → s.state ≡ state
      → PublishedAt state s
      → PublishedAfter (dispatch state event s)
  unfolding dispatch
  dispatch-IsPublished state (callback_blocked blocked) s e h =
      subst (λ at. PublishedAt at (record s { blocked_tx = blocked })) (sym e)
        (blocked-PublishedAt state blocked s h)
  dispatch-IsPublished State.ok network_failed s e h = inl h
  dispatch-IsPublished State.closing_connection closed s e h = refl
  dispatch-IsPublished State.restoring_connection (connection_opened opens) s e h =
      elim (Option-cases (retry opens)) [
        | inl f ↦ rw (f, restoring_connection_state) tt
        | inr (c, f) ↦ rw (f, restoring_connection_state) h
      ]
  dispatch-IsPublished State.restoring_callback network_failed s e h = inr h
  dispatch-IsPublished State.restoring_callback (callback_registered registers) s e h =
      elim (Option-cases (retry registers)) [
        | inl f ↦ rw (f, callback_restored) tt
        | inr (c, f) ↦ rw (f, callback_restored) refl
      ]
  dispatch-IsPublished _ _ s e h = tt

  step-IsPublished :
      (event : Event C) (t u : StateMachine C)
      → step event t ≡ done u
      → IsPublished t
      → IsPublished u
  unfolding step
  step-IsPublished event t u e h =
      subst PublishedAfter e (dispatch-IsPublished t.state event t refl h)

  -- After any events from the start, the watch channel shows the machine's own connection in the
  -- state `Ok`, and nothing while the connection and its callback are restored; while a failed
  -- connection waits to be closed it shows that connection or nothing.
  pub Reach-IsPublished :
      (connection : C) (blocked : Bool) {s : StateMachine C}
      → Reach (new connection blocked) s
      → IsPublished s
  unfolding new
  Reach-IsPublished connection blocked here = refl
  Reach-IsPublished connection blocked (next event reach e) =
      step-IsPublished event _ _ e (Reach-IsPublished connection blocked reach)
