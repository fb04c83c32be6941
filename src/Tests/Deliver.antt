-- ===== src/Tests/Deliver.antt =====
-- Runs of the model of the consumer of notifications, on deliveries of two announcements of the core.
use Prim.Native.String.{String}
use text.Mathlib.Text.{◌==◌ as ◌===◌}
use tom_notifier.Base.{
  ℕ, zero, suc, ◌≡◌, refl, true, false, List, [], ◌∷◌, Option, none, some, arith, if◌then◌else◌,
}
use tom_notifier.Protobuf.{NotificationStatus, Notification, RabbitmqNotification}
use tom_notifier.Rabbitmq.Consumer.Machine.{
  State, StateMachine, consuming, recovering, ok_entered, connection_changed, at_state, step, in_ok,
  Running,
}
use tom_notifier.Rabbitmq.Consumer.Status.{Run, here, next}
use tom_notifier.Rabbitmq.Consumer.Delivery.{Consumed}
use tom_notifier.Delivery.Dedup.{collect, deduplicate}
use tom_notifier.Delivery.Dedup.Memory.{round, run}
use tom_notifier.Delivery.Websocket.Service.{Fresh, new}
use tom_notifier.Delivery.Consume.{External, Delivery, Services, read_delivery, try_from, execute}
use tom_notifier.Delivery.Consume.Once.{execute_again}
use tom_notifier.Delivery.Consume.Follow.{execute_statuses, network_status_follows}

abbrev notification : ℕ → Notification
notification seconds = record {
  id = "n";
  status = NotificationStatus.updated;
  timestamp = some (seconds, 5);
  created_by = none;
  seen = some true;
  content_type = none;
  content = none;
}

-- A content holds the number of a user and a time.
abbrev external : External
external = record {
  decode = λ content. decode content;
  encode = λ m. [];
  from_str = λ text. if text === "user 0" then some 0 else some 1;
  parse_str = λ text. some 3;
  from_unix_timestamp = λ seconds. some seconds;
  replace_nanosecond = λ datetime nanos. some datetime;
}
  where
    user : ℕ → String
    user zero = "user 0"
    user (suc n) = "user 1"

    decode : List ℕ → Option RabbitmqNotification
    decode (u ∷ seconds ∷ []) =
        some (record { user_ids = user u ∷ []; notification = some (notification seconds) })
    decode _ = none

abbrev fresh : Fresh
fresh = record { now = 100; message_id = 30; flag = 4 }

abbrev services : Services
services = record { last_updates = []; websockets = new }

abbrev delivery : ℕ → ℕ → Delivery
delivery user seconds = record {
  user_ids = user ∷ [];
  notification = notification seconds;
  update = record { id = 3; timestamp = seconds };
}

-- The change of another user's copy, a moment earlier, is taken for a duplicate.
abbrev later : Services
later = record { last_updates = (3, 80) ∷ []; websockets = new }

execute_again_example :
    let r = execute external fresh (1 ∷ 79 ∷ []) later in
    (r.0.websockets ≡ new) × (r.1 ≡ Consumed.ok)
unfolding execute read_delivery try_from deduplicate run collect
execute_again_example =
    execute_again external 30 fresh fresh (0 ∷ 80 ∷ []) (1 ∷ 79 ∷ []) (delivery 0 80)
      (delivery 1 79) (round 100 ∷ []) services later refl refl refl (omega arith) (omega arith, tt)
      refl

-- A consumer that starts and then loses its connection.
abbrev machine : StateMachine ℕ ℕ ℕ ℕ
machine = record {
  connection = some 1;
  channel = 2;
  queue_bind_args = [];
  consumer_cancelled = 3;
  state = State.ok;
}

abbrev lost : Running ℕ ℕ ℕ ℕ
lost = at_state (record machine { state = State.waiting_for_connection })

loses : Run (at_state machine) (consuming ∷ recovering ∷ []) lost
unfolding step
loses =
    next ok_entered (at_state machine) (record { machine = machine; position = in_ok }) lost _ _
      refl
      (next connection_changed (record { machine = machine; position = in_ok }) lost lost _ _ refl
        (here lost))

network_status_follows_example :
    (execute_statuses external fresh (consuming ∷ recovering ∷ []) new).network_status_ok ≡ false
network_status_follows_example = network_status_follows external fresh new loses refl refl
