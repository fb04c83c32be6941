-- ===== src/Tests/Travel.antt =====
-- Runs of both programs together: a notification on its way to a user, and its confirmation back.
use Prim.Native.String.{len}
use tom_notifier.Base.{
  ℕ, ◌<◌, ◌≡◌, ap, refl, true, false, List, [], ◌∷◌, Option, none, some, arith, All,
}
use tom_notifier.Auth.{User, require_all_roles}
use tom_notifier.Protobuf.{
  NetworkStatus, NotificationStatus, Notification, RabbitmqNotification, WebSocketNotification,
  RabbitmqConfirmation,
}
use tom_notifier.Core.Types.{InputNotification, InsertedNotification}
use tom_notifier.Core.Service.{save_notification}
use tom_notifier.Core.Routing.{
  post_notifications_undelivered, put_notification_delivered_seen, handle,
}
use tom_notifier.Core.Confirm as Confirm
use tom_notifier.Core.Setup as Core
use tom_notifier.Core.Setup.{ConfirmationsConsumerServiceConfig}
use tom_notifier.Delivery.Setup.{NotificationsConsumerServiceConfig, consumer_arguments}
use tom_notifier.Delivery.Consume.{External, Services, execute}
use tom_notifier.Delivery.Websocket.Types.{Connection, UnconfirmedMessage}
use tom_notifier.Delivery.Websocket.Connection.{confirm}
use tom_notifier.Delivery.Websocket.Service.{Fresh, new, create_message}
use tom_notifier.Exchange.Topology.{Arrives, announcements_arrive}
use tom_notifier.Exchange.Announcements.{announcement, message_for_user, QueuedFor, saved_is_queued}
use tom_notifier.Exchange.Confirmations.{ReadsBack, Reaches, confirmation_arrives}
use tom_notifier.Tests.Notify.{repository}
use tom_notifier.Tests.Unary.{unary, len-unary, writer, reader_of, reader_of-Fits}

abbrev producer : User
producer = record { id = 9; roles = "tom_notifier_produce_notifications" ∷ [] }

abbrev queue : NotificationsConsumerServiceConfig
queue = record { exchange = "notifications"; queue = "ws" }

announcements_arrive_example :
    All
      (λ p. Arrives "notifications" p.routing_key (consumer_arguments queue "1"))
      (handle writer repository 1000 100 101
        (λ db. db)
        (put_notification_delivered_seen 3 true)
        producer
        true).produced
    × ((consumer_arguments queue "1").exchange_declare_args
        ≡ Core.producer_arguments "notifications")
announcements_arrive_example =
    announcements_arrive writer repository 100 101 producer true 1000 (λ db. db)
      (put_notification_delivered_seen 3 true) queue "1"

abbrev input : InputNotification
input = record {
  invalidate_at = none;
  user_ids = 7 ∷ 8 ∷ [];
  producer_notification_id = 1;
  content_type = "text";
  content = 1 ∷ [];
}

abbrev stored : InsertedNotification
stored = record {
  id = 3;
  created_at = 101;
  invalidate_at = none;
  user_ids = 7 ∷ 8 ∷ [];
  producer_id = 9;
  producer_notification_id = 1;
  content_type = "text";
  content = 1 ∷ [];
}

abbrev created : RabbitmqNotification
created = record {
  user_ids = unary 7 ∷ unary 8 ∷ [];
  notification = some (record {
    id = unary 3;
    status = NotificationStatus.new;
    timestamp = some (101, 0);
    created_by = some (unary 9);
    seen = some false;
    content_type = some "text";
    content = some (1 ∷ []);
  });
}

abbrev read : List ℕ → RabbitmqNotification
read content = created

abbrev reader : External
reader = reader_of read

abbrev write : RabbitmqNotification → List ℕ
write m = []

abbrev fresh : Fresh
fresh = record { now = 100; message_id = 30; flag = 4 }

abbrev services : Services
services = record {
  last_updates = [];
  websockets = record new {
    users_connections = (7, record { connection = 1; inbox = [] } ∷ []) ∷ [];
  };
}

accepted :
    (handle writer repository 1000 100 101
      (λ db. db)
      (post_notifications_undelivered input)
      producer
      true).status
    < 300
unfolding handle save_notification require_all_roles
accepted = omega arith

saved_is_queued_example :
    ((handle writer repository 1000 100 101
        (λ db. db)
        (post_notifications_undelivered input)
        producer
        true).produced
      ≡ announcement writer write reader (reader_of-Fits read) stored ∷ [])
    × QueuedFor reader fresh 7
        (7 ∷ 8 ∷ [])
        (message_for_user writer write reader (reader_of-Fits read) fresh stored)
        services
        (execute reader fresh
          (write (announcement writer write reader (reader_of-Fits read) stored).message)
          services)
saved_is_queued_example =
    saved_is_queued writer write reader (reader_of-Fits read) repository 100 101 producer true 1000
      (λ db. db) input stored fresh 7 services accepted refl refl refl

-- Confirmations as the lengths of two texts in unary.
abbrev write_confirmation : RabbitmqConfirmation → List ℕ
write_confirmation m = len m.user_id ∷ len m.id ∷ []

abbrev read_confirmation : List ℕ → Option RabbitmqConfirmation
read_confirmation (user_id ∷ id ∷ []) = some (record { user_id = unary user_id; id = unary id })
read_confirmation _ = none

abbrev confirmations : Confirm.External
confirmations = record {
  decode = read_confirmation;
  uuid_from_str = λ text. some (len text);
  object_id_from_str = λ text. some (len text);
}

confirmations-ReadsBack : ReadsBack unary unary write_confirmation confirmations
confirmations-ReadsBack = record {
  decode-encode = λ user_id id. rw (len-unary user_id, len-unary id) refl;
  uuid_from_str-to_string = λ user_id. ap some (len-unary user_id);
  object_id_from_str-to_hex = λ id. ap some (len-unary id);
}

abbrev core_queue : ConfirmationsConsumerServiceConfig
core_queue = record { exchange = "confirmations"; queue = "core" }

abbrev notification : Notification
notification = record {
  id = unary 3;
  status = NotificationStatus.new;
  timestamp = none;
  created_by = none;
  seen = none;
  content_type = none;
  content = none;
}

abbrev no_payload : WebSocketNotification → List ℕ
no_payload m = []

abbrev waiting : UnconfirmedMessage
waiting = record {
  retry_at = 110;
  retries_remaining = 2;
  message = create_message no_payload fresh NetworkStatus.ok (some notification);
}

abbrev connection : Connection
connection = record {
  config = record {
    ping_interval = 30;
    retry_max_count = 2;
    retry_interval = 10;
    connection_buffer_size = 16;
  };
  user_id = 7;
  unconfirmed_messages = waiting ∷ [];
  ping_time = 120;
  ping_message = 0;
  pings_sent = 0;
}

confirmation_arrives_example :
    Reaches {P = ℕ} 0 unary unary write_confirmation confirmations confirmations-ReadsBack
      core_queue repository 7 3 false
      (confirm 105 30 connection []).confirmations
unfolding create_message
confirmation_arrives_example =
    confirmation_arrives 0 unary unary write_confirmation confirmations confirmations-ReadsBack
      no_payload core_queue repository fresh notification 105 30 3 connection waiting [] false refl
      refl refl refl refl
