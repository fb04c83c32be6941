-- ===== src/Exchange.antt =====
-- The two programs together: what tom-notifier-core announces, as tom-notifier-ws-delivery reads it.
pub mod Topology
pub mod Announcements
pub mod Confirmations
pub mod Started
use Prim.Native.String.{String}
use tom_notifier.Base.{ℕ, ◌≡◌, refl, Bool, List, [], ◌∷◌, map, Option, none, some}
use tom_notifier.Protobuf.{NotificationStatus, Notification, RabbitmqNotification}
use tom_notifier.Core.Producer as Core
use tom_notifier.Core.Producer.{Produced, send_new, send_updated, send_deleted}
use tom_notifier.Delivery.Consume.{External, try_from, parse_user_ids, read_delivery}

-- The libraries of both programs fit: the numbers, ids and times that one writes, the other reads
-- back.
pub record Fits (x : Core.External) (y : External) : Type 0 where
  pub from_str-to_string : (user_id : ℕ) → y.from_str (x.to_string user_id) ≡ some user_id
  pub parse_str-to_hex : (id : ℕ) → y.parse_str (x.to_hex id) ≡ some id
  pub seconds : ℕ → ℕ
  pub from_unix_timestamp-seconds :
      (t : ℕ) → y.from_unix_timestamp (x.unix_timestamp t) ≡ some (seconds t)
  pub replace_nanosecond-seconds :
      (t : ℕ) → y.replace_nanosecond (seconds t) (x.nanosecond t) ≡ some t

module _ (x : Core.External) (encode : RabbitmqNotification → List ℕ) (y : External)
    (fits : Fits x y) where
  parse_user_ids-to_string :
      (user_ids : List ℕ) → parse_user_ids y (map x.to_string user_ids) ≡ some user_ids
  unfolding parse_user_ids
  parse_user_ids-to_string [] = refl
  parse_user_ids-to_string (user_id ∷ user_ids) =
      rw (fits.from_str-to_string user_id, parse_user_ids-to_string user_ids) refl

  try_from-change :
      (n : Notification) (id timestamp : ℕ)
      → n.id ≡ x.to_hex id
      → n.timestamp ≡ some (x.unix_timestamp timestamp, x.nanosecond timestamp)
      → try_from y n ≡ some (record { id = id; timestamp = timestamp })
  unfolding try_from
  try_from-change n id timestamp e f =
      rw
        (
          e,
          fits.parse_str-to_hex id,
          f,
          fits.from_unix_timestamp-seconds timestamp,
          fits.replace_nanosecond-seconds timestamp,
        )
        refl

  -- The decoder of protobuf reads back what its encoder makes of a message.
  abbrev pub Decodes : RabbitmqNotification → Type 0
  Decodes message = y.decode (encode message) ≡ some message

  -- A notification with the id and the time of a change.
  pub read-message :
      (user_ids : List ℕ) (n : Notification) (id timestamp : ℕ)
      → n.id ≡ x.to_hex id
      → n.timestamp ≡ some (x.unix_timestamp timestamp, x.nanosecond timestamp)
      → Decodes (record { user_ids = map x.to_string user_ids; notification = some n })
      → read_delivery y
          (encode (record { user_ids = map x.to_string user_ids; notification = some n }))
        ≡ some (record {
          user_ids = user_ids;
          notification = n;
          update = record { id = id; timestamp = timestamp };
        })
  unfolding read_delivery
  read-message user_ids n id timestamp e f decodes =
      rw (decodes, parse_user_ids-to_string user_ids, try_from-change n id timestamp e f) refl

  -- A message is read as a delivery to some users, of a notification with a status and a value of
  -- `seen`, and with the id and the time of an update.
  abbrev pub ReadAs : Produced → List ℕ → NotificationStatus → Option Bool → ℕ → ℕ → Type 0
  ReadAs p user_ids status seen id timestamp =
      (n : Notification) × (read_delivery y (encode p.message)
        ≡ some (record {
          user_ids = user_ids;
          notification = n;
          update = record { id = id; timestamp = timestamp };
        }))
      × (n.status ≡ status)
      × (n.seen ≡ seen)

  -- Every announcement of the core is read by ws-delivery as what it announces: for the same users,
  -- under the same id and time, with its own status, and with the value of seen where it has one;
  -- provided that the libraries of both programs read back the numbers, ids, times and messages that
  -- they write.
  pub read_delivery-announced :
      (user_ids : List ℕ) (user_id id timestamp created_by : ℕ) (seen : Bool)
      (content_type : String) (content : List ℕ)
      → let created = send_new x user_ids id timestamp created_by seen content_type content in
        let updated = send_updated x user_id id seen timestamp in
        let deleted = send_deleted x user_id id timestamp in
        Decodes created.message
        → Decodes updated.message
        → Decodes deleted.message
        → ReadAs created user_ids NotificationStatus.new (some seen) id timestamp
          × ReadAs updated (user_id ∷ []) NotificationStatus.updated (some seen) id timestamp
          × ReadAs deleted (user_id ∷ []) NotificationStatus.deleted none id timestamp
  unfolding send_new send_updated send_deleted
  read_delivery-announced user_ids user_id id timestamp created_by seen content_type content c u d =
      (
        (_, read-message user_ids _ id timestamp refl refl c, refl, refl),
        (_, read-message (user_id ∷ []) _ id timestamp refl refl u, refl, refl),
        (_, read-message (user_id ∷ []) _ id timestamp refl refl d, refl, refl),
      )
