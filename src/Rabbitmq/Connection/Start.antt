-- ===== src/Rabbitmq/Connection/Start.antt =====
-- shared/rabbitmq_client/src/connection/rabbitmq_connection.rs: `RabbitmqConnection::new`, up to the
-- spawn of its task.
use tom_notifier.Base.{◌≡◌, refl, Bool, true, false, if◌then◌else◌, [], ◌∷◌, Option, none, some}
use tom_notifier.Rabbitmq.Await.{done}
use tom_notifier.Rabbitmq.Retry.{retry}
use tom_notifier.Rabbitmq.Connection.{
  State, StateMachine, connection_opened, callback_registered, new, step,
}

module _ {C : Type 0} where
  -- The machine that the task runs, or `none` for an error. The arguments are the results of opening
  -- the connection and of registering its callback, whose flag starts as not blocked.
  unfoldable pub start : Option C → Bool → Option (StateMachine C)
  unfolding new
  start none registered = none
  start (some connection) registered = if registered then some (new connection false) else none

  -- A connection that has started is in the very state into which a machine comes that has lost its
  -- connection, whatever state of blocking it had, and restores it without failures.
  pub start-restored :
      (connection : C) (lost : StateMachine C)
      → lost.state ≡ State.restoring_connection
      → (opened restored : StateMachine C) × (step (connection_opened (some connection ∷ [])) lost
          ≡ done opened)
        × (step (callback_registered (some tt ∷ [])) opened ≡ done restored)
        × (start (some connection) true ≡ some restored)
  unfolding start step retry
  start-restored connection lost e = (
    record lost { connection = connection; blocked_tx = false; state = State.restoring_callback },
    new connection false,
    rw e refl,
    refl,
    refl,
  )
