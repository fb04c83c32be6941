-- ===== src/Exchange/Started.antt =====
-- Both programs, started with environments that agree on the names of the exchanges.
use Prim.Native.String.{String}
use text.Mathlib.TextPositions.{eq_refl}
use mathlib.Core.Option.{some-injective}
use tom_notifier.Base.{◌≡◌, ◌∙◌, refl, sym, ap, some, Result}
use tom_notifier.Env.{Externals}
use tom_notifier.Core.Setup as CoreSetup
use tom_notifier.Core.Env as CoreEnv
use tom_notifier.Core.Application as Core
use tom_notifier.Delivery.Setup as DeliverySetup
use tom_notifier.Delivery.Env as DeliveryEnv
use tom_notifier.Delivery.Env.Reads as DeliveryReads
use tom_notifier.Delivery.Application as Delivery
use tom_notifier.Exchange.Topology.{Arrives}

module _ {Address K E : Type 0} where
  -- A program that has read its environment and created its state.
  pub record CoreStarted (x : Externals Address K) (starts : Core.Starts E) (state : Core.State)
      : Type 0 where
    pub env : CoreEnv.ApplicationEnv Address K
    pub parsed : CoreEnv.parse x ≡ Result.ok env
    pub created : Core.create_state starts env ≡ Result.ok state

  pub record DeliveryStarted (x : Externals Address K) (starts : Delivery.Starts E)
      (state : Delivery.State) : Type 0 where
    pub env : DeliveryEnv.ApplicationEnv Address K
    pub parsed : DeliveryEnv.parse x ≡ Result.ok env
    pub created : Delivery.create_state starts env ≡ Result.ok state

-- The exchange of announcements, and that of confirmations, of two states.
abbrev pub Connected : Core.State → Delivery.State → Type 0
Connected core delivery =
    (delivery.consumer.exchange_declare_args ≡ core.producer)
    × (core.consumer.exchange_declare_args ≡ delivery.confirmations)
    × Arrives core.producer.exchange "NEW" delivery.consumer
    × Arrives core.producer.exchange "UPDATED" delivery.consumer
    × Arrives core.producer.exchange "DELETED" delivery.consumer
    × Arrives delivery.confirmations.exchange "" core.consumer

-- The two states that these names of exchanges and queues give.
names-Connected :
    (core : Core.State) (delivery : Delivery.State)
    (notifications confirmations queue prefix uuid : String)
    → core.producer ≡ CoreSetup.producer_arguments notifications
    → core.consumer
      ≡ CoreSetup.consumer_arguments (record { exchange = confirmations; queue = queue })
    → delivery.confirmations ≡ DeliverySetup.producer_arguments confirmations
    → delivery.consumer
      ≡ DeliverySetup.consumer_arguments (record { exchange = notifications; queue = prefix }) uuid
    → Connected core delivery
unfolding CoreSetup.producer_arguments CoreSetup.consumer_arguments DeliverySetup.producer_arguments
    DeliverySetup.consumer_arguments
names-Connected core delivery notifications confirmations queue prefix uuid p c q d =
    rw (p, c, q, d, eq_refl notifications, eq_refl confirmations)
      (refl, refl, refl, refl, refl, refl)

module _ {Address K E : Type 0} (x y : Externals Address K) (starts : Core.Starts E)
    (delivery_starts : Delivery.Starts E) where
  core_exchanges :
      (env : CoreEnv.ApplicationEnv Address K)
      → CoreEnv.parse x ≡ Result.ok env
      → (x.var "TOM_NOTIFIER_CORE_RABBITMQ_NOTIFICATIONS_EXCHANGE_NAME"
          ≡ some env.rabbitmq_notifications_exchange_name)
        × (x.var "TOM_NOTIFIER_CORE_RABBITMQ_CONFIRMATIONS_EXCHANGE_NAME"
            ≡ some env.rabbitmq_confirmations_exchange_name)
  core_exchanges env h =
      let (a, b, c, d, e, f, g, i, j, k, notifications, confirmations, l, m) =
        CoreEnv.parse-Reads x h in
      (notifications, confirmations)

  delivery_exchanges :
      (env : DeliveryEnv.ApplicationEnv Address K)
      → DeliveryEnv.parse y ≡ Result.ok env
      → (y.var "TOM_NOTIFIER_WS_DELIVERY_RABBITMQ_NOTIFICATIONS_EXCHANGE_NAME"
          ≡ some env.rabbitmq_notifications_exchange_name)
        × (y.var "TOM_NOTIFIER_WS_DELIVERY_RABBITMQ_CONFIRMATIONS_EXCHANGE_NAME"
            ≡ some env.rabbitmq_confirmations_exchange_name)
  delivery_exchanges env h =
      let (a, b, c, d, e, f, g, i, j, k, l, m, n, notifications, o, confirmations, p, q, r) =
        DeliveryReads.parse-Reads y h in
      (notifications, confirmations)

  -- When both programs have started, and the variables for the exchange of notifications and for the
  -- exchange of confirmations have the same values in both environments, each exchange is declared by
  -- both programs with the same arguments, announcements of each kind come into the one queue of
  -- ws-delivery, and confirmations into the one queue of the core.
  pub started-Connected :
      (core : Core.State) (delivery : Delivery.State)
      → CoreStarted x starts core
      → DeliveryStarted y delivery_starts delivery
      → x.var "TOM_NOTIFIER_CORE_RABBITMQ_NOTIFICATIONS_EXCHANGE_NAME"
        ≡ y.var "TOM_NOTIFIER_WS_DELIVERY_RABBITMQ_NOTIFICATIONS_EXCHANGE_NAME"
      → x.var "TOM_NOTIFIER_CORE_RABBITMQ_CONFIRMATIONS_EXCHANGE_NAME"
        ≡ y.var "TOM_NOTIFIER_WS_DELIVERY_RABBITMQ_CONFIRMATIONS_EXCHANGE_NAME"
      → Connected core delivery
  started-Connected core delivery c d same_notifications same_confirmations =
      let (n, m) = core_exchanges c.env c.parsed in
      let (n', m') = delivery_exchanges d.env d.parsed in
      let notifications : d.env.rabbitmq_notifications_exchange_name
          ≡ c.env.rabbitmq_notifications_exchange_name =
        some-injective _ _ (sym n' ∙ sym same_notifications ∙ n) in
      let confirmations : d.env.rabbitmq_confirmations_exchange_name
          ≡ c.env.rabbitmq_confirmations_exchange_name =
        some-injective _ _ (sym m' ∙ sym same_confirmations ∙ m) in
      let (producer, consumer, handles) = Core.create_state-ClientsOf starts c.env core c.created in
      let (producer', consumer', handles') =
        Delivery.create_state-ClientsOf delivery_starts d.env delivery d.created in
      names-Connected core delivery _ _ _ _ _ producer consumer
        (producer' ∙ ap DeliverySetup.producer_arguments confirmations)
        (consumer'
          ∙ ap
              (λ exchange.
                DeliverySetup.consumer_arguments
                  (record { exchange = exchange; queue = d.env.rabbitmq_notifications_queue_name })
                  delivery_starts.uuid)
              notifications)
