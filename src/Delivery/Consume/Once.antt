-- ===== src/Delivery/Consume/Once.antt =====
-- A notification is sent to the users at most once.
use tom_notifier.Base.{ℕ, ◌+◌, ◌≤◌, ◌≡◌, ◌⊎◌, false, refl, inl, inr, List, none, some, Option-cases}
use tom_notifier.Rabbitmq.Consumer.Delivery.{Consumed, err}
use tom_notifier.Delivery.Dedup.{LastUpdates, Deduplicated, deduplicate}
use tom_notifier.Delivery.Dedup.Memory.{Call, run, RoundsBefore, second_update_is_duplicate}
use tom_notifier.Delivery.Websocket.Service.{Service, Fresh}
use tom_notifier.Delivery.Consume.{
  External, Services, Delivery, read_delivery, after_deduplicate, execute,
}

module _ (x : External) where
  pub execute-readable :
      (fresh : Fresh) (content : List ℕ) (d : Delivery) (s : Services)
      → read_delivery x content ≡ some d
      → execute x fresh content s
        ≡ after_deduplicate x fresh d (deduplicate d.update s.last_updates) s.websockets
  unfolding execute
  execute-readable fresh content d s e = rw (e, execute) refl

  after_ok :
      (fresh : Fresh) (d : Delivery) (r : LastUpdates × Deduplicated) (websockets : Service)
      → (after_deduplicate x fresh d r websockets).1 ≡ Consumed.ok
  unfolding after_deduplicate
  after_ok fresh d (m, Deduplicated.ok) websockets = refl
  after_ok fresh d (m, Deduplicated.duplicate) websockets = refl

  -- No delivery is put back into the queue: one that cannot be read is refused for good and touches
  -- neither service, and every other one is acked.
  pub execute-result :
      (fresh : Fresh) (content : List ℕ) (s : Services)
      → ((read_delivery x content ≡ none)
          × (execute x fresh content s ≡ (s, err (record { requeue = false }))))
        ⊎ ((d : Delivery) × (read_delivery x content ≡ some d)
            × ((execute x fresh content s).1 ≡ Consumed.ok))
  unfolding execute
  execute-result fresh content s = elim (Option-cases (read_delivery x content)) [
    | inl e ↦ inl (e, rw (e, execute) refl)
    | inr (d, e) ↦ inr (
      d,
      e,
      rw (execute-readable fresh content d s e)
          (after_ok fresh d (deduplicate d.update s.last_updates) s.websockets),
    )
  ]

  after_duplicate :
      (fresh : Fresh) (d : Delivery) (r : LastUpdates × Deduplicated) (websockets : Service)
      → r.1 ≡ Deduplicated.duplicate
      → after_deduplicate x fresh d r websockets
        ≡ (record { last_updates = r.0; websockets = websockets }, Consumed.ok)
  unfolding after_deduplicate
  after_duplicate fresh d (m, Deduplicated.ok) websockets e = cc
  after_duplicate fresh d (m, Deduplicated.duplicate) websockets e = refl

  after_table :
      (fresh : Fresh) (d : Delivery) (r : LastUpdates × Deduplicated) (websockets : Service)
      → (after_deduplicate x fresh d r websockets).0.last_updates ≡ r.0
  unfolding after_deduplicate
  after_table fresh d (m, Deduplicated.ok) websockets = refl
  after_table fresh d (m, Deduplicated.duplicate) websockets = refl

  -- Once a delivery was processed, a later one for the same notification whose time is not after the
  -- first one's is acked and sent to nobody, whoever its users are; as long as every round of the
  -- garbage collector between them comes within the lifespan after the first one's time.
  pub execute_again :
      (lifespan : ℕ) (fresh later : Fresh) (content content' : List ℕ) (d d' : Delivery)
      (calls : List Call) (s t : Services)
      → read_delivery x content ≡ some d
      → read_delivery x content' ≡ some d'
      → d'.update.id ≡ d.update.id
      → d'.update.timestamp ≤ d.update.timestamp
      → RoundsBefore (d.update.timestamp + lifespan) calls
      → t.last_updates ≡ run lifespan calls (execute x fresh content s).0.last_updates
      → let r = execute x later content' t in (r.0.websockets ≡ t.websockets) × (r.1 ≡ Consumed.ok)
  execute_again lifespan fresh later content content' d d' calls s t e e' same le before table =
      let first : (execute x fresh content s).0.last_updates
          ≡ (deduplicate d.update s.last_updates).0 =
        rw (execute-readable fresh content d s e)
          (after_table fresh d (deduplicate d.update s.last_updates) s.websockets) in
      let again : (deduplicate d'.update t.last_updates).1 ≡ Deduplicated.duplicate =
        rw (table, first)
          (second_update_is_duplicate lifespan d.update d'.update calls s.last_updates same le
            before) in
      rw
        (
          execute-readable later content' d' t e',
          after_duplicate later d' (deduplicate d'.update t.last_updates) t.websockets again,
        )
        (refl, refl)
