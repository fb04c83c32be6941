-- ===== src/Core/Producer.antt =====
-- tom-notifier-core/src/service/notifications_producer_service/notifications_producer_service_impl.rs:
-- what it hands to the RabbitMQ producer, before it is encoded.
use Prim.Native.String.{String}
use tom_notifier.Base.{ℕ, Bool, List, [], ◌∷◌, map, none, some}
use tom_notifier.Protobuf.{NotificationStatus, RabbitmqNotification}

-- What the service uses of other libraries: `ObjectId::to_hex`, the text of a `Uuid`, and the two
-- parts of an `OffsetDateTime`.
pub record External : Type 0 where
  pub to_hex : ℕ → String
  pub to_string : ℕ → String
  pub unix_timestamp : ℕ → ℕ
  pub nanosecond : ℕ → ℕ

-- A message for the producer: its routing key and its content.
pub record Produced : Type 0 where
  pub routing_key : String
  pub message : RabbitmqNotification

module _ (x : External) where
  unfoldable pub send_new : List ℕ → ℕ → ℕ → ℕ → Bool → String → List ℕ → Produced
  send_new user_ids id timestamp created_by seen content_type content = record {
    routing_key = "NEW";
    message = record {
      user_ids = map x.to_string user_ids;
      notification = some (record {
        id = x.to_hex id;
        status = NotificationStatus.new;
        timestamp = some (x.unix_timestamp timestamp, x.nanosecond timestamp);
        created_by = some (x.to_string created_by);
        seen = some seen;
        content_type = some content_type;
        content = some content;
      });
    };
  }

  unfoldable pub send_updated : ℕ → ℕ → Bool → ℕ → Produced
  send_updated user_id id seen timestamp = record {
    routing_key = "UPDATED";
    message = record {
      user_ids = x.to_string user_id ∷ [];
      notification = some (record {
        id = x.to_hex id;
        status = NotificationStatus.updated;
        timestamp = some (x.unix_timestamp timestamp, x.nanosecond timestamp);
        created_by = none;
        seen = some seen;
        content_type = none;
        content = none;
      });
    };
  }

  unfoldable pub send_deleted : ℕ → ℕ → ℕ → Produced
  send_deleted user_id id timestamp = record {
    routing_key = "DELETED";
    message = record {
      user_ids = x.to_string user_id ∷ [];
      notification = some (record {
        id = x.to_hex id;
        status = NotificationStatus.deleted;
        timestamp = some (x.unix_timestamp timestamp, x.nanosecond timestamp);
        created_by = none;
        seen = none;
        content_type = none;
        content = none;
      });
    };
  }
