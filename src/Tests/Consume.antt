-- ===== src/Tests/Consume.antt =====
-- Runs of the model of a consumer of shared/rabbitmq_client.
use tom_notifier.Base.{List, ℕ, ◌≡◌, refl, true, false, [], ◌∷◌, some}
use tom_notifier.Rabbitmq.Consumer.Machine.{
  State, consuming, recovering, StateMachine, ok_entered, consumer_cancelled, restore_awaited,
  Restored, Running, in_ok, step, at_state,
}
use tom_notifier.Rabbitmq.Consumer.Status.{follow, IsCoherent, Run, here, next, Run-Follows}
use tom_notifier.Rabbitmq.Consumer.Delivery.Tasks as Tasks
use tom_notifier.Rabbitmq.Consumer.Delivery.{Consumed}

-- A machine with two bindings, and the results of restoring it.
abbrev machine : StateMachine ℕ ℕ ℕ ℕ
machine = record {
  connection = some 1;
  channel = 2;
  queue_bind_args = 10 ∷ 11 ∷ [];
  consumer_cancelled = 3;
  state = State.ok;
}

abbrev all_well : Restored
all_well = record { declared = true; queued = true; bound = λ i. true; consumed = true }

abbrev consuming_machine : Running ℕ ℕ ℕ ℕ
consuming_machine = record { machine = machine; position = in_ok }

-- The broker cancels the consumer, and it is restored.
abbrev cancelled : Running ℕ ℕ ℕ ℕ
cancelled = at_state (record machine { state = State.restoring_consumer })

cancels : Run (at_state machine) (consuming ∷ recovering ∷ consuming ∷ []) consuming_machine
unfolding step
cancels = next ok_entered (at_state machine) consuming_machine consuming_machine _ _ refl (
    next consumer_cancelled consuming_machine cancelled consuming_machine _ _ refl (
      next (restore_awaited false all_well) cancelled (at_state machine) consuming_machine _ _ refl
        (next ok_entered (at_state machine) consuming_machine consuming_machine _ _ refl
          (here consuming_machine))))

Run-Follows_example :
    IsCoherent consuming_machine
    × (follow false (consuming ∷ recovering ∷ consuming ∷ []) ≡ some true)
Run-Follows_example = Run-Follows cancels refl

-- The same tag twice: the first delivery is answered, and the second ends when nobody listens.
abbrev deliveries : List Tasks.Event
deliveries =
    Tasks.delivered 5
    ∷ Tasks.ended 0 Consumed.ok
    ∷ Tasks.delivered 5
    ∷ Tasks.dropped
    ∷ Tasks.ended 0 Consumed.ok
    ∷ []

run-Accounted_example : Tasks.Accounted 5 2 Tasks.new (Tasks.run deliveries Tasks.new)
run-Accounted_example = Tasks.run-Accounted 5 deliveries
