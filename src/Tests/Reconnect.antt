-- ===== src/Tests/Reconnect.antt =====
-- Runs of the models of a connection of shared/rabbitmq_client.
use tom_notifier.Base.{ℕ, ◌≡◌, refl, true, false, [], ◌∷◌, none, some}
use tom_notifier.Rabbitmq.Retry.{retry}
use tom_notifier.Rabbitmq.Connection
use tom_notifier.Rabbitmq.Connection.Start.{start, start-restored}
use tom_notifier.Rabbitmq.Await.{done}

-- A connection that is lost and opened again.
abbrev restored : Connection.StateMachine ℕ
restored = record {
  connection = 2;
  connection_tx = some 2;
  blocked_tx = false;
  state = Connection.State.ok;
}

reconnects : Connection.Reach (Connection.new 1 true) restored
unfolding Connection.step Connection.new retry
reconnects =
    Connection.next (Connection.callback_registered (some tt ∷ []))
      (Connection.next (Connection.connection_opened (none ∷ some 2 ∷ []))
        (Connection.next Connection.closed
          (Connection.next Connection.network_failed Connection.here refl) refl)
        refl)
      refl

Reach-IsPublished_example : Connection.IsPublished restored
Reach-IsPublished_example = Connection.Reach-IsPublished 1 true reconnects

-- A machine that has lost its connection while it was blocked.
abbrev lost : Connection.StateMachine ℕ
lost = record {
  connection = 1;
  connection_tx = none;
  blocked_tx = true;
  state = Connection.State.restoring_connection;
}

start-restored_example :
    (opened restored : Connection.StateMachine ℕ) × (Connection.step
        (Connection.connection_opened (some 2 ∷ []))
        lost
      ≡ done opened)
    × (Connection.step (Connection.callback_registered (some tt ∷ [])) opened ≡ done restored)
    × (start (some 2) true ≡ some restored)
start-restored_example = start-restored 2 lost refl
