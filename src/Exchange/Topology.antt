-- ===== src/Exchange/Topology.antt =====
-- The exchanges and queues of both programs: what tom-notifier-core announces comes into the queue of
-- every tom-notifier-ws-delivery.
use Prim.Native.String.{String}
use text.Mathlib.TextPositions.{eq_refl}
use tom_notifier.Base.{ℕ, ◌≡◌, ◌⊎◌, refl, inl, inr, List, [], ◌∷◌, All, All-imp}
use tom_notifier.Auth.{User}
use tom_notifier.Core.Types.{Repository}
use tom_notifier.Core.Producer.{External, Produced, send_new, send_updated, send_deleted}
use tom_notifier.Core.Routing.{
  Request, Body, post_notifications_undelivered, get_notifications_undelivered,
  put_notifications_undelivered_invalidate_at, get_notifications_delivered,
  get_notification_delivered, delete_notification_delivered, put_notification_delivered_seen,
  handle,
}
use tom_notifier.Core.Routing.Fair.{Announces}
use tom_notifier.Core.Routing.Answers.{handle-Answered}
use tom_notifier.Core.Setup as Core
use tom_notifier.Rabbitmq.Arguments.{ConsumerArguments, queues_of}
use tom_notifier.Delivery.Setup.{NotificationsConsumerServiceConfig, consumer_arguments}

-- A message with a routing key, sent to an exchange, comes into the one queue of a consumer.
abbrev pub Arrives : String → String → ConsumerArguments → Type 0
Arrives exchange routing_key arguments =
    queues_of exchange routing_key arguments.queue_bind_args
    ≡ arguments.queue_declare_args.queue ∷ []

-- The routing keys of announcements.
abbrev IsKey : String → Type 0
IsKey key = (key ≡ "NEW") ⊎ ((key ≡ "UPDATED") ⊎ (key ≡ "DELETED"))

key-Arrives :
    (config : NotificationsConsumerServiceConfig) (uuid key : String)
    → IsKey key
    → Arrives config.exchange key (consumer_arguments config uuid)
unfolding consumer_arguments
key-Arrives config uuid key (inl e) = rw (e, eq_refl config.exchange) refl
key-Arrives config uuid key (inr (inl e)) = rw (e, eq_refl config.exchange) refl
key-Arrives config uuid key (inr (inr e)) = rw (e, eq_refl config.exchange) refl

module _ {Db : Type 0} (x : External) (r : Repository Db) (now created_at : ℕ) (user : User)
    (db : Db) where
  only :
      (p : Produced) (produced : List Produced)
      → IsKey p.routing_key
      → produced ≡ p ∷ []
      → All (λ q. IsKey q.routing_key) produced
  only p produced key e = rw e (key, tt)

  none_at_all : (produced : List Produced) → produced ≡ [] → All (λ q. IsKey q.routing_key) produced
  none_at_all produced e = rw e tt

  Announces-keys :
      (request : Request) (body : Body) (produced : List Produced)
      → Announces x r now created_at user db request body produced
      → All (λ q. IsKey q.routing_key) produced
  unfolding send_new send_updated send_deleted
  Announces-keys (post_notifications_undelivered n) body produced (s, named, e, stored) =
      only _ produced (inl refl) e
  Announces-keys (delete_notification_delivered id) body produced (e, deleted) =
      only _ produced (inr (inr refl)) e
  Announces-keys (put_notification_delivered_seen id seen) body produced (e, stored) =
      only _ produced (inr (inl refl)) e
  Announces-keys get_notifications_undelivered body produced e = none_at_all produced e
  Announces-keys (put_notifications_undelivered_invalidate_at id invalidate_at) body produced
        (e, stored) =
      none_at_all produced e
  Announces-keys (get_notifications_delivered pagination filters) body produced e =
      none_at_all produced e
  Announces-keys (get_notification_delivered id) body produced e = none_at_all produced e

  -- Whatever a request of a user makes the core announce comes into exactly one queue of each
  -- ws-delivery with the same name of the exchange, whatever suffix that queue has; and both declare
  -- the exchange with the same arguments.
  pub announcements_arrive :
      (max_content_len : ℕ) (meanwhile : Db → Db) (request : Request)
      (config : NotificationsConsumerServiceConfig) (uuid : String)
      → All
          (λ p. Arrives config.exchange p.routing_key (consumer_arguments config uuid))
          (handle x r max_content_len now created_at meanwhile request user db).produced
        × ((consumer_arguments config uuid).exchange_declare_args
            ≡ Core.producer_arguments config.exchange)
  unfolding consumer_arguments Core.producer_arguments
  announcements_arrive max_content_len meanwhile request config uuid =
      let a = handle x r max_content_len now created_at meanwhile request user db in
      (
        All-imp (λ p. IsKey p.routing_key)
            (λ p. Arrives config.exchange p.routing_key (consumer_arguments config uuid))
            (λ p. λ key. key-Arrives config uuid p.routing_key key) a.produced
            (elim (handle-Answered x r now created_at user db max_content_len meanwhile request) [
              | inl (status, quiet) ↦ none_at_all a.produced quiet
              | inr (status, loud) ↦ Announces-keys request a.body a.produced loud
            ]),
        refl,
      )
