-- ===== src/Delivery/Dedup.antt =====
-- tom-notifier-ws-delivery/src/service/notifications_deduplication_service: the table of the last
-- update of each notification, and its garbage collector. Times count from the epoch, in the
-- clock's unit.
pub mod Memory
use tom_notifier.Base.{
  ℕ, ◌+◌, ◌≡◌, refl, Bool, true, false, List, [], ◌∷◌, Option, none, some, ltb, if◌then◌else◌,
  lookup, insert, filter,
}

-- The map behind the mutex: from the id of a notification to the time of its last update.
abbrev pub LastUpdates : Type 0
LastUpdates = List (ℕ × ℕ)

-- `NotificationsDeduplicationServiceImpl::new`.
abbrev pub new : LastUpdates
new = []

pub record NotificationStatusUpdate : Type 0 where
  pub id : ℕ
  pub timestamp : ℕ

pub data Deduplicated : Type 0 where
  ok duplicate : Deduplicated

-- The match of `deduplicate` on the entry for the id.
unfoldable pub compare_with :
    Option ℕ → NotificationStatusUpdate → LastUpdates → LastUpdates × Deduplicated
compare_with (some datetime) notification last_updates =
    if ltb datetime notification.timestamp
    then (insert notification.id notification.timestamp last_updates, Deduplicated.ok)
    else (last_updates, Deduplicated.duplicate)
compare_with none notification last_updates =
    (insert notification.id notification.timestamp last_updates, Deduplicated.ok)

unfoldable pub deduplicate : NotificationStatusUpdate → LastUpdates → LastUpdates × Deduplicated
unfolding compare_with
deduplicate notification last_updates =
    compare_with (lookup notification.id last_updates) notification last_updates

-- One round of the garbage collector at the time `now`: `timestamp > now - lifespan`, with the
-- lifespan on the other side. The capacity of the table is not modelled.
unfoldable pub collect : ℕ → ℕ → LastUpdates → LastUpdates
collect notification_lifespan now last_updates =
    filter (λ e. ltb now (e.1 + notification_lifespan)) last_updates

-- What wakes the garbage collector: a tick of its interval, with the time, or `close`.
pub data Woken : Type 0 where
  tick : ℕ → Woken
  close_notified : Woken

-- `run`: the table after it, and whether it has ended.
unfoldable pub garbage_collector : ℕ → List Woken → LastUpdates → LastUpdates × Bool
unfolding collect
garbage_collector notification_lifespan [] last_updates = (last_updates, false)
garbage_collector notification_lifespan (tick now ∷ woken) last_updates =
    garbage_collector notification_lifespan woken (collect notification_lifespan now last_updates)
garbage_collector notification_lifespan (close_notified ∷ woken) last_updates = (last_updates, true)
