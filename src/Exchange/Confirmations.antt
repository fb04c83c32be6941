-- ===== src/Exchange/Confirmations.antt =====
-- The way of a confirmation, from a user's websocket to the repository of tom-notifier-core.
use Prim.Native.String.{String}
use text.Mathlib.TextPositions.{eq_refl}
use tom_notifier.Base.{ℕ, ◌≡◌, ◌∙◌, ap, refl, false, List, [], ◌∷◌, map, some}
use tom_notifier.Protobuf.{
  NetworkStatus, NotificationStatus, Notification, WebSocketNotification, RabbitmqConfirmation,
}
use tom_notifier.Rabbitmq.Producer.Defs as Producer
use tom_notifier.Rabbitmq.Producer.Defs.{Message}
use tom_notifier.Core.Types.{Repository}
use tom_notifier.Core.Confirm as Core
use tom_notifier.Core.Confirm.{inserted}
use tom_notifier.Core.Setup.{ConfirmationsConsumerServiceConfig, consumer_arguments}
use tom_notifier.Delivery.Websocket.Callback.{ConfirmationCallback, Confirmation, Flags, is_set}
use tom_notifier.Delivery.Websocket.Callback as Callback
use tom_notifier.Delivery.Websocket.Types.{UnconfirmedMessage, Connection}
use tom_notifier.Delivery.Websocket.Connection.{confirm, defer_ping, run_callback}
use tom_notifier.Delivery.Websocket.Connection.Confirmed.{first_with, without, confirm_lem}
use tom_notifier.Delivery.Websocket.Service.{Fresh, delivered_callback, create_message}
use tom_notifier.Delivery.Setup as Delivery
use tom_notifier.Exchange.Topology.{Arrives}

-- The core reads back the user's id, the notification's id and the message that ws-delivery writes.
-- `to_hex` is how the core wrote the id when it announced the notification.
pub record ReadsBack (to_string to_hex : ℕ → String) (encode : RabbitmqConfirmation → List ℕ)
    (y : Core.External) : Type 0 where
  pub decode-encode :
      (user_id id : ℕ)
      → y.decode (encode (record { user_id = to_string user_id; id = to_hex id }))
        ≡ some (record { user_id = to_string user_id; id = to_hex id })
  pub uuid_from_str-to_string : (user_id : ℕ) → y.uuid_from_str (to_string user_id) ≡ some user_id
  pub object_id_from_str-to_hex : (id : ℕ) → y.object_id_from_str (to_hex id) ≡ some id

module _ {P : Type 0} (persistent : P) (to_string to_hex : ℕ → String)
    (encode : RabbitmqConfirmation → List ℕ) (y : Core.External)
    (reads : ReadsBack to_string to_hex encode y) where
  -- The core reads a confirmation that ws-delivery sends as what it is.
  pub read-send :
      (user_id id : ℕ)
      → Core.read y
          (Delivery.send persistent to_string encode
            (record { user_id = user_id; id = to_hex id })).content
        ≡ some (record { user_id = user_id; id = id })
  unfolding Core.read Core.try_from Delivery.send Producer.send
  read-send user_id id =
      rw
        (
          reads.decode-encode user_id id,
          reads.uuid_from_str-to_string user_id,
          reads.object_id_from_str-to_hex id,
          Core.read,
          Core.try_from,
        )
        refl

  execute-send :
      {Db : Type 0} (r : Repository Db) (user_id id : ℕ) (db : Db)
      → let i = r.insert_confirmation id user_id db in
        Core.execute y r
          (Delivery.send persistent to_string encode
            (record { user_id = user_id; id = to_hex id })).content
          db
        ≡ (i.0, inserted i.1)
  unfolding Core.execute
  execute-send r user_id id db = rw (read-send user_id id, Core.execute) refl

-- The callback of a message about a new notification.
new_callback :
    (flag : ℕ) (n : Notification)
    → n.status ≡ NotificationStatus.new
    → delivered_callback flag (some n) ≡ some (record { was_called = flag; id = n.id })
unfolding delivered_callback
new_callback flag n e = rw (e, delivered_callback) refl

run_callback-unset :
    (k : ConfirmationCallback) (c : Connection) (flags : Flags)
    → is_set k.was_called flags ≡ false
    → (run_callback (some k) c flags).confirmations ≡ record { user_id = c.user_id; id = k.id } ∷ []
unfolding run_callback Callback.execute
run_callback-unset k c flags h = rw h refl

module _ {P Db : Type 0} (persistent : P) (to_string to_hex : ℕ → String)
    (encode : RabbitmqConfirmation → List ℕ) (y : Core.External)
    (reads : ReadsBack to_string to_hex encode y) where
  -- What a confirmation of a message becomes: one message for the core, which comes into the core's
  -- queue, and which the core takes as the confirmation of a notification by a user.
  abbrev pub Reaches :
      ConfirmationsConsumerServiceConfig → Repository Db → ℕ → ℕ → Db → List Confirmation → Type 0
  Reaches config r user_id id db confirmations =
      (message : Message P) × (map (Delivery.send persistent to_string encode) confirmations
        ≡ message ∷ [])
      × Arrives config.exchange message.routing_key (consumer_arguments config)
      × (let i = r.insert_confirmation id user_id db in
          Core.execute y r message.content db ≡ (i.0, inserted i.1))

  sent-Reaches :
      (config : ConfirmationsConsumerServiceConfig) (r : Repository Db) (user_id id : ℕ) (db : Db)
      (confirmations : List Confirmation)
      → confirmations ≡ record { user_id = user_id; id = to_hex id } ∷ []
      → Reaches config r user_id id db confirmations
  unfolding consumer_arguments Delivery.send Producer.send
  sent-Reaches config r user_id id db confirmations e = (
    Delivery.send persistent to_string encode (record { user_id = user_id; id = to_hex id }),
    ap (map (Delivery.send persistent to_string encode)) e,
    rw (eq_refl config.exchange) refl,
    execute-send persistent to_string to_hex encode y reads r user_id id db,
  )

  -- The way of a confirmation through both programs: when a user confirms a message that announced a
  -- new notification to him, and nobody confirmed that message before, then his connection hands one
  -- message to the RabbitMQ producer; it comes into the queue of the core with the same name of the
  -- exchange; and the core inserts his confirmation of that notification and answers by its result;
  -- provided that the libraries of the core read back what those of ws-delivery write.
  pub confirmation_arrives :
      (encode_ws : WebSocketNotification → List ℕ) (config : ConfirmationsConsumerServiceConfig)
      (r : Repository Db) (fresh : Fresh) (n : Notification) (now message_id id : ℕ)
      (c : Connection) (q : UnconfirmedMessage) (flags : Flags) (db : Db)
      → first_with message_id c.unconfirmed_messages ≡ some q
      → q.message ≡ create_message encode_ws fresh NetworkStatus.ok (some n)
      → n.status ≡ NotificationStatus.new
      → n.id ≡ to_hex id
      → is_set fresh.flag flags ≡ false
      → Reaches config r c.user_id id db (confirm now message_id c flags).confirmations
  unfolding create_message
  confirmation_arrives encode_ws config r fresh n now message_id id c q flags db e m new named h =
      let rest = without message_id c.unconfirmed_messages in
      let left = record (defer_ping now c) { unconfirmed_messages = rest } in
      let callback : q.message.delivered_callback
          ≡ some (record { was_called = fresh.flag; id = n.id }) =
        ap (λ w. w.delivered_callback) m ∙ new_callback fresh.flag n new in
      sent-Reaches config r c.user_id id db _ (
        rw (confirm_lem now message_id c flags, e, callback)
          (run_callback-unset (record { was_called = fresh.flag; id = n.id }) left flags h
            ∙ ap (λ text. record { user_id = c.user_id; id = text } ∷ []) named))
