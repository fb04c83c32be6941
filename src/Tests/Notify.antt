-- ===== src/Tests/Notify.antt =====
-- Runs of the model of tom-notifier-core, and of an announcement as ws-delivery reads it.
use Prim.Native.String.{String}
use tom_notifier.Base.{
  ℕ, zero, suc, ◌≡◌, ◌≢◌, ◌⊎◌, refl, Bool, true, false, List, [], ◌∷◌, map, Option, none, some, All,
  Result,
}
use tom_notifier.Protobuf.{NotificationStatus, Notification, RabbitmqNotification}
use tom_notifier.Auth.{User}
use tom_notifier.Rabbitmq.Consumer.Delivery.{err}
use tom_notifier.Core.Types.{
  InputNotification, StoredNotification, RepositoryError, no_document_updated, Repository,
}
use tom_notifier.Core.Producer as Core
use tom_notifier.Core.Producer.{send_new, send_updated, send_deleted}
use tom_notifier.Core.Service.{find_undelivered_notifications, output}
use tom_notifier.Core.Service.Polling.{Confirms, polled_once}
use tom_notifier.Core.Routing.{
  post_notifications_undelivered, put_notifications_undelivered_invalidate_at,
  put_notification_delivered_seen, Response, empty, handle,
}
use tom_notifier.Core.Routing.Answers.{Answered, handle-Answered}
use tom_notifier.Core.Routing.Roles.{producers_only}
use tom_notifier.Core.Confirm as Confirm
use tom_notifier.Core.Confirm.{Confirmation, AnswersTo, execute-AnswersTo}
use tom_notifier.Delivery.Consume as Consume
use tom_notifier.Tests.Unary.{writer, reader_of, reader_of-Fits}
use tom_notifier.Exchange.{Fits, ReadAs, read_delivery-announced}

-- A database with one notification for the user 7, delivered or not.
abbrev pub stored : StoredNotification
stored = record {
  id = 3;
  created_at = 80;
  producer_id = 9;
  seen = false;
  content_type = "text";
  content = 1 ∷ [];
}

abbrev pub once : Bool → Bool × Result (Unit {0}) RepositoryError
once true = (true, Result.err no_document_updated)
once false = (true, Result.ok tt)

abbrev pub undelivered : Bool → List StoredNotification
undelivered true = []
undelivered false = stored ∷ []

abbrev pub repository : Repository Bool
repository = record {
  insert = λ user_ids created_at invalidate_at producer_id number content_type content db. (
    false,
    Result.ok (record {
      id = 3;
      created_at = created_at;
      invalidate_at = invalidate_at;
      user_ids = user_ids;
      producer_id = producer_id;
      producer_notification_id = number;
      content_type = content_type;
      content = content;
    }),
  );
  update_invalidate_at = λ id producer_id invalidate_at db. (db, Result.ok tt);
  insert_confirmation = λ id user_id db. once db;
  insert_many_confirmations = λ ids user_id db. (true, Result.ok tt);
  update_confirmation_seen = λ id user_id seen db. (db, Result.ok tt);
  delete = λ id user_id db. (db, Result.err no_document_updated);
  find_delivered = λ id user_id db. Result.ok none;
  find_many_delivered = λ user_id pagination filters db. Result.ok [];
  find_many_undelivered = λ user_id db. Result.ok (undelivered db);
}

-- Texts of numbers, for the numbers that occur here.
abbrev to_text : ℕ → String
to_text zero = "0"
to_text (suc n) = "s"

abbrev core : Core.External
core = record {
  to_hex = to_text;
  to_string = to_text;
  unix_timestamp = λ t. t;
  nanosecond = λ t. 0;
}

abbrev user : User
user = record { id = 7; roles = "reader" ∷ [] }

handle-Answered_example :
    Answered core repository 100 101 user true (put_notification_delivered_seen 3 true) (
      handle core repository 1000 100 101
        (λ db. db)
        (put_notification_delivered_seen 3 true)
        user
        true)
handle-Answered_example =
    handle-Answered core repository 100 101 user true 1000 (λ db. db)
      (put_notification_delivered_seen 3 true)

abbrev notification : InputNotification
notification = record {
  invalidate_at = none;
  user_ids = 7 ∷ [];
  producer_notification_id = 1;
  content_type = "text";
  content = 1 ∷ [];
}

producers_only_example :
    let refused : Response Bool = record { db = true; produced = []; status = 403; body = empty } in
    (handle core repository 1000 100 101
        (λ db. db)
        (post_notifications_undelivered notification)
        user
        true
      ≡ refused)
    × (handle core repository 1000 100 101
          (λ db. db)
          (put_notifications_undelivered_invalidate_at 3 none)
          user
          true
        ≡ refused)
producers_only_example =
    producers_only core repository 1000 100 101 (λ db. db) user true notification 3 none refl

abbrev IsDelivered : ℕ → ℕ → Bool → Type 0
IsDelivered id user_id db = db ≡ true

everything : (ids : List ℕ) → All (λ id. IsDelivered id 7 true) ids
everything [] = tt
everything (id ∷ ids) = (refl, everything ids)

nothing_left :
    (id : ℕ) (db : Bool) (found : List StoredNotification)
    → db ≡ true
    → ◌≡◌ {A = Result (List StoredNotification) RepositoryError}
        (Result.ok (undelivered db))
        (Result.ok found)
    → All (λ n. n.id ≢ id) found
nothing_left id true [] h e = tt
nothing_left id true (n ∷ found) h e = cc
nothing_left id false found h e = cc

repository-Confirms : Confirms repository IsDelivered
repository-Confirms = record {
  confirmed_are = λ ids user_id db h. everything ids;
  delivered_are_not_found = λ id user_id db found h e. nothing_left id db found h e;
}

polled_once_example :
    (map (output core) (stored ∷ []) ≡ map (output core) (stored ∷ []))
    × All (λ id. All {A = StoredNotification} (λ m. m.id ≢ id) []) (3 ∷ [])
unfolding find_undelivered_notifications
polled_once_example =
    polled_once core repository IsDelivered repository-Confirms 7 false (stored ∷ []) []
      (map (output core) (stored ∷ [])) (λ db. db) (λ db. db) (λ id db h. h) refl refl refl

-- A confirmation that is delivered again.
abbrev confirm : Confirm.External
confirm = record {
  decode = λ content. some (record { user_id = "7"; id = "3" });
  uuid_from_str = λ text. some 7;
  object_id_from_str = λ text. some 3;
}

execute-AnswersTo_example :
    ((Confirm.read confirm [] ≡ none)
      × (Confirm.execute confirm repository [] true ≡ (true, err (record { requeue = false }))))
    ⊎ ((c : Confirmation) × (Confirm.read confirm [] ≡ some c)
        × ((Confirm.execute confirm repository [] true).0
            ≡ (repository.insert_confirmation c.id c.user_id true).0)
        × AnswersTo
            (repository.insert_confirmation c.id c.user_id true).1
            (Confirm.execute confirm repository [] true).1)
execute-AnswersTo_example = execute-AnswersTo confirm repository [] true

abbrev created : RabbitmqNotification
created = (send_new writer (7 ∷ []) 3 80 9 true "text" (1 ∷ [])).message

abbrev updated : RabbitmqNotification
updated = (send_updated writer 7 3 true 80).message

abbrev deleted : RabbitmqNotification
deleted = (send_deleted writer 7 3 80).message

abbrev status_code : NotificationStatus → List ℕ
status_code NotificationStatus.new = []
status_code NotificationStatus.updated = 0 ∷ []
status_code NotificationStatus.deleted = 0 ∷ 0 ∷ []

abbrev message_code : Option Notification → List ℕ
message_code none = []
message_code (some n) = status_code n.status

abbrev message_of : List ℕ → RabbitmqNotification
message_of [] = created
message_of (_ ∷ []) = updated
message_of (_ ∷ _) = deleted

abbrev reader : Consume.External
reader = reader_of message_of

writer-Fits : Fits writer reader
writer-Fits = reader_of-Fits message_of

abbrev write : RabbitmqNotification → List ℕ
write m = message_code m.notification

read_delivery-announced_example :
    ReadAs writer write reader writer-Fits
      (send_new writer (7 ∷ []) 3 80 9 true "text" (1 ∷ []))
      (7 ∷ [])
      NotificationStatus.new
      (some true)
      3
      80
    × ReadAs writer write reader writer-Fits
        (send_updated writer 7 3 true 80)
        (7 ∷ [])
        NotificationStatus.updated
        (some true)
        3
        80
    × ReadAs writer write reader writer-Fits
        (send_deleted writer 7 3 80)
        (7 ∷ [])
        NotificationStatus.deleted
        none
        3
        80
unfolding send_new send_updated send_deleted
read_delivery-announced_example =
    read_delivery-announced writer write reader writer-Fits (7 ∷ []) 7 3 80 9 true "text" (1 ∷ [])
      refl refl refl
