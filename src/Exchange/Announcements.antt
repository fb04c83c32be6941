-- ===== src/Exchange/Announcements.antt =====
-- The way of a new notification, from a request to tom-notifier-core to the queues of the connections
-- of a tom-notifier-ws-delivery.
use tom_notifier.Base.{
  ℕ, ◌<◌, ◌==◌, ◌≡◌, ◌∙◌, ap, refl, inl, inr, false, List, [], ◌∷◌, none, some, if◌then◌else◌,
  lookup, is_empty, count, arith, Result, map,
}
use mathlib.Core.Path.{sym}
use tom_notifier.Auth.{User}
use tom_notifier.Protobuf.{NetworkStatus, NotificationStatus, Notification, RabbitmqNotification}
use tom_notifier.Delivery.Websocket.Callback as Callback
use tom_notifier.Delivery.Websocket.Types.{WebSocketMessage}
use tom_notifier.Rabbitmq.Consumer.Delivery.{Consumed}
use tom_notifier.Core.Types.{InputNotification, InsertedNotification, Repository, RepositoryError}
use tom_notifier.Core.Producer as Core
use tom_notifier.Core.Producer.{Produced, send_new}
use tom_notifier.Core.Routing.{Response, post_notifications_undelivered, handle}
use tom_notifier.Core.Routing.Answers.{Answered, handle-Answered}
use tom_notifier.Delivery.Dedup.{LastUpdates, NotificationStatusUpdate, deduplicate, Deduplicated}
use tom_notifier.Delivery.Websocket.Service.{Fresh, create_message, delivered_callback}
use tom_notifier.Delivery.Websocket.Service.Registry.{queued, send-lookup}
use tom_notifier.Delivery.Consume.{External, Services, Delivery, after_deduplicate, execute}
use tom_notifier.Delivery.Consume.Once.{execute-readable}
use tom_notifier.Exchange.{Fits, Decodes, read-message}

first_update :
    (u : NotificationStatusUpdate) (m : LastUpdates)
    → lookup u.id m ≡ none
    → (deduplicate u m).1 ≡ Deduplicated.ok
unfolding deduplicate
first_update u m e = rw (e, deduplicate) refl

-- How often a message to some users is queued for the connections of one.
abbrev pub copies : ℕ → List ℕ → ℕ
copies user_id user_ids = if is_empty user_ids then 1 else count (λ u. u == user_id) user_ids

module _ (y : External) (fresh : Fresh) (user_id : ℕ) where
  -- A delivery was acked, and its notification was queued for the connections of a user.
  abbrev pub QueuedFor : List ℕ → WebSocketMessage → Services → Services × Consumed → Type 0
  QueuedFor user_ids message before (after, result) =
      (result ≡ Consumed.ok)
      × (lookup user_id after.websockets.users_connections
          ≡ queued (copies user_id user_ids) message
              (lookup user_id before.websockets.users_connections))

  after_ok :
      (d : Delivery) (r : LastUpdates × Deduplicated) (users : List ℕ)
      (message : RabbitmqNotification) (s : Services)
      → r.1 ≡ Deduplicated.ok
      → d.user_ids ≡ users
      → message.notification ≡ some d.notification
      → QueuedFor users
          (create_message y.encode fresh NetworkStatus.ok message.notification)
          s
          (after_deduplicate y fresh d r s.websockets)
  unfolding after_deduplicate
  after_ok d (m, Deduplicated.duplicate) users message s e f g = cc
  after_ok d (m, Deduplicated.ok) users message s e f g =
      rw (← f, g) (refl, send-lookup y.encode fresh d.user_ids d.notification user_id s.websockets)

module _ (x : Core.External) (encode : RabbitmqNotification → List ℕ) (y : External)
    (fits : Fits x y) where
  -- What is told of a stored notification, and its message between the programs.
  abbrev pub notification : InsertedNotification → Notification
  notification s = record {
    id = x.to_hex s.id;
    status = NotificationStatus.new;
    timestamp = some (x.unix_timestamp s.created_at, x.nanosecond s.created_at);
    created_by = some (x.to_string s.producer_id);
    seen = some false;
    content_type = some s.content_type;
    content = some s.content;
  }

  abbrev pub announcement : InsertedNotification → Produced
  announcement s = record {
    routing_key = "NEW";
    message = record {
      user_ids = map x.to_string s.user_ids;
      notification = some (notification s);
    };
  }

  -- The message for the user, which can be confirmed.
  abbrev pub message_for_user : Fresh → InsertedNotification → WebSocketMessage
  message_for_user fresh s = record {
    message_id = fresh.message_id;
    payload = y.encode (record {
      message_id = fresh.message_id;
      message_timestamp = fresh.now;
      network_status = NetworkStatus.ok;
      notification = some (notification s);
    });
    delivered_callback = some (record { was_called = fresh.flag; id = x.to_hex s.id });
  }

  announcement-QueuedFor :
      (stored : InsertedNotification) (fresh : Fresh) (user_id : ℕ) (services : Services)
      → Decodes x encode y fits (announcement stored).message
      → lookup stored.id services.last_updates ≡ none
      → QueuedFor y fresh user_id stored.user_ids
          (message_for_user fresh stored)
          services
          (execute y fresh (encode (announcement stored).message) services)
  unfolding create_message delivered_callback Callback.new
  announcement-QueuedFor stored fresh user_id services decodes unseen =
      let read =
        read-message x encode y fits stored.user_ids _ stored.id stored.created_at refl refl
          decodes in
      rw (execute-readable y fresh (encode (announcement stored).message) _ services read) (
        after_ok y fresh user_id _
          (deduplicate (record { id = stored.id; timestamp = stored.created_at })
            services.last_updates)
          stored.user_ids (announcement stored).message services
          (first_update (record { id = stored.id; timestamp = stored.created_at })
            services.last_updates unseen)
          refl refl)

  ok-injective :
      (s t : InsertedNotification)
      → ◌≡◌ {A = Result InsertedNotification RepositoryError} (Result.ok s) (Result.ok t)
      → s ≡ t
  ok-injective s t e = cc

  module _ {Db : Type 0} (r : Repository Db) (now created_at : ℕ) (user : User) (db : Db) where
    sent_new :
        (s : InsertedNotification)
        → send_new x s.user_ids s.id s.created_at s.producer_id false s.content_type s.content
          ≡ announcement s
    unfolding send_new
    sent_new s = refl

    announced :
        (n : InputNotification) (stored : InsertedNotification) (a : Response Db)
        → a.status < 300
        → (r.insert n.user_ids created_at n.invalidate_at user.id n.producer_notification_id
            n.content_type n.content db).1
          ≡ Result.ok stored
        → Answered x r now created_at user db (post_notifications_undelivered n) a
        → a.produced ≡ announcement stored ∷ []
    announced n stored a good e (inl (bad, quiet)) = absurd (omega arith)
    announced n stored a good e (inr (status, (s, named, produced, inserted))) =
        let same : s ≡ stored = ok-injective s stored (sym inserted ∙ e) in
        produced ∙ ap (λ p. p ∷ []) (sent_new s) ∙ ap (λ t. announcement t ∷ []) same

    -- The way of a new notification through both programs: when a request to save it succeeds, the
    -- core announces it in one message with the status new; and a ws-delivery that has seen nothing of
    -- it acks that message, and puts a message with the same content, which can be confirmed, behind
    -- what is in the inbox of each connection of a user, as often as the user is among those stored
    -- with it, or once if it is stored for nobody in particular; provided that the libraries of ws-delivery read back what those of the core write.
    pub saved_is_queued :
        (max_content_len : ℕ) (meanwhile : Db → Db) (n : InputNotification)
        (stored : InsertedNotification) (fresh : Fresh) (user_id : ℕ) (services : Services)
        → let a =
            handle x r max_content_len now created_at meanwhile
              (post_notifications_undelivered n)
              user
              db in
          a.status < 300
          → (r.insert n.user_ids created_at n.invalidate_at user.id n.producer_notification_id
              n.content_type n.content db).1
            ≡ Result.ok stored
          → Decodes x encode y fits (announcement stored).message
          → lookup stored.id services.last_updates ≡ none
          → (a.produced ≡ announcement stored ∷ [])
            × QueuedFor y fresh user_id stored.user_ids
                (message_for_user fresh stored)
                services
                (execute y fresh (encode (announcement stored).message) services)
    saved_is_queued max_content_len meanwhile n stored fresh user_id services good e decodes
          unseen =
        (
          announced n stored
              (handle x r max_content_len now created_at meanwhile
                (post_notifications_undelivered n) user db)
              good e
              (handle-Answered x r now created_at user db max_content_len meanwhile
                (post_notifications_undelivered n)),
          announcement-QueuedFor stored fresh user_id services decodes unseen,
        )
