-- ===== src/Delivery/Dedup/Memory.antt =====
-- What the table remembers, over any calls of `deduplicate` and of the garbage collector.
use tom_notifier.Base.{
  ℕ, ◌+◌, ◌≤◌, ◌<◌, ◌≡◌, ◌∙◌, ◌↔◌, inl, inr, refl, Bool, true, ◌&&◌, List, [], ◌∷◌, Option, none,
  some, ltb, ◌==◌, if◌then◌else◌, lookup, arith, Option-cases, Bool-cases, ==_iff, ==-refl,
  lookup-insert, IsMap, insert-IsMap,
}
use tom_notifier.Delivery.Dedup.{
  new, LastUpdates, NotificationStatusUpdate, Deduplicated, deduplicate, collect, Woken, tick,
  close_notified, garbage_collector,
}

-- An update is news for an entry if there is none or the entry is older.
abbrev pub is_news : Option ℕ → ℕ → Bool
is_news none timestamp = true
is_news (some datetime) timestamp = ltb datetime timestamp

-- An update is accepted exactly if its notification has no entry or an older one; then its time is
-- the notification's entry, and otherwise the table is as before; other entries stay in both cases.
pub deduplicate_lem :
    (n : NotificationStatusUpdate) (m : LastUpdates) (k : ℕ)
    → let r = deduplicate n m in
      (r.1
        ≡ (if is_news (lookup n.id m) n.timestamp then Deduplicated.ok else Deduplicated.duplicate))
      × (lookup k r.0 ≡ (
          if is_news (lookup n.id m) n.timestamp && n.id == k
          then some n.timestamp
          else lookup k m))
unfolding deduplicate
deduplicate_lem n m k = elim (Option-cases (lookup n.id m)) [
  | inl e ↦ rw (e, deduplicate) (refl, lookup-insert n.id k n.timestamp m)
  | inr (t, e) ↦ elim (Bool-cases (ltb t n.timestamp)) [
    | inl newer ↦ rw (e, deduplicate) (rw newer (refl, lookup-insert n.id k n.timestamp m))
    | inr older ↦ rw (e, deduplicate) (rw older (refl, refl))
  ]
]

-- The table knows of an update of `id` at time `t` or later.
abbrev pub Remembers : ℕ → ℕ → LastUpdates → Type 0
Remembers id t m = (v : ℕ) × (lookup id m ≡ some v) × (t ≤ v)

deduplicate-Remembers :
    (n : NotificationStatusUpdate) (m : LastUpdates) (id t : ℕ)
    → Remembers id t m
    → Remembers id t (deduplicate n m).0
deduplicate-Remembers n m id t (v, found, le) =
    elim (Bool-cases (is_news (lookup n.id m) n.timestamp && n.id == id)) [
      | inl hit ↦
          (n.timestamp, (deduplicate_lem n m id).1 ∙ rw hit refl, ground (arith, ==_iff n.id id))
      | inr miss ↦ (v, (deduplicate_lem n m id).1 ∙ rw miss found, le)
    ]

-- After its own call an update is remembered, accepted or not.
deduplicate-Remembers_self :
    (n : NotificationStatusUpdate) (m : LastUpdates)
    → Remembers n.id n.timestamp (deduplicate n m).0
deduplicate-Remembers_self n m = elim (Option-cases (lookup n.id m)) [
  | inl e ↦ (n.timestamp, (deduplicate_lem n m n.id).1 ∙ rw (e, ==-refl n.id) refl, omega arith)
  | inr (t, e) ↦ elim (Bool-cases (ltb t n.timestamp)) [
    | inl newer ↦
        (n.timestamp, (deduplicate_lem n m n.id).1 ∙ rw (e, newer, ==-refl n.id) refl, omega arith)
    | inr older ↦ (t, (deduplicate_lem n m n.id).1 ∙ rw (e, older) refl, ground arith)
  ]
]

lookup-collect :
    (lifespan now : ℕ) (m : LastUpdates) (id v : ℕ)
    → now < v + lifespan
    → lookup id m ≡ some v
    → lookup id (collect lifespan now m) ≡ some v
unfolding collect
lookup-collect lifespan now [] id v h found = found
lookup-collect lifespan now ((k, w) ∷ m) id v h found =
    ground (arith, lookup-collect lifespan now m id v)

-- A round of the collector that comes before `t + lifespan` forgets no update at `t` or later.
collect-Remembers :
    (lifespan now : ℕ) (m : LastUpdates) (id t : ℕ)
    → now < t + lifespan
    → Remembers id t m
    → Remembers id t (collect lifespan now m)
collect-Remembers lifespan now m id t h (v, found, le) =
    (v, lookup-collect lifespan now m id v (omega arith) found, le)

-- The calls that reach the table, in the order in which they take the mutex.
pub data Call : Type 0 where
  update : NotificationStatusUpdate → Call
  round : ℕ → Call

unfoldable pub run : ℕ → List Call → LastUpdates → LastUpdates
run lifespan [] m = m
run lifespan (update n ∷ calls) m = run lifespan calls (deduplicate n m).0
run lifespan (round now ∷ calls) m = run lifespan calls (collect lifespan now m)

-- Each round of the collector among the calls comes before a time.
abbrev pub RoundsBefore : ℕ → List Call → Type 0
RoundsBefore limit [] = Unit {0}
RoundsBefore limit (update n ∷ calls) = RoundsBefore limit calls
RoundsBefore limit (round now ∷ calls) = (now < limit) × RoundsBefore limit calls

run-Remembers :
    (lifespan : ℕ) (calls : List Call) (m : LastUpdates) (id t : ℕ)
    → RoundsBefore (t + lifespan) calls
    → Remembers id t m
    → Remembers id t (run lifespan calls m)
unfolding run
run-Remembers lifespan [] m id t h r = r
run-Remembers lifespan (update n ∷ calls) m id t h r =
    run-Remembers lifespan calls (deduplicate n m).0 id t h (deduplicate-Remembers n m id t r)
run-Remembers lifespan (round now ∷ calls) m id t h r =
    run-Remembers lifespan calls (collect lifespan now m) id t h.1
      (collect-Remembers lifespan now m id t h.0 r)

Remembers-duplicate :
    (n : NotificationStatusUpdate) (m : LastUpdates) (t : ℕ)
    → n.timestamp ≤ t
    → Remembers n.id t m
    → (deduplicate n m).1 ≡ Deduplicated.duplicate
Remembers-duplicate n m t le (v, found, h) = (deduplicate_lem n m 0).0 ∙ ground arith

-- Once an update was handed in, a second update of the same notification that is not more recent is
-- a duplicate, whatever was handed in between, as long as each round of the collector between them
-- comes before the first update's time plus the lifespan.
pub second_update_is_duplicate :
    (lifespan : ℕ) (first second : NotificationStatusUpdate) (calls : List Call) (m : LastUpdates)
    → second.id ≡ first.id
    → second.timestamp ≤ first.timestamp
    → RoundsBefore (first.timestamp + lifespan) calls
    → (deduplicate second (run lifespan calls (deduplicate first m).0)).1 ≡ Deduplicated.duplicate
second_update_is_duplicate lifespan first second calls m same le before =
    Remembers-duplicate second _ first.timestamp le (
      rw same (
        run-Remembers lifespan calls _ first.id first.timestamp before
          (deduplicate-Remembers_self first m)))

lookup-collect-none :
    (lifespan now : ℕ) (m : LastUpdates) (id : ℕ)
    → lookup id m ≡ none
    → lookup id (collect lifespan now m) ≡ none
unfolding collect
lookup-collect-none lifespan now [] id e = refl
lookup-collect-none lifespan now ((k, w) ∷ m) id e =
    ground (arith, lookup-collect-none lifespan now m id)

collect-lookup :
    (lifespan now : ℕ) (m : LastUpdates) (id v : ℕ)
    → IsMap m
    → lookup id (collect lifespan now m) ≡ some v
    → (lookup id m ≡ some v) × (now < v + lifespan)
unfolding collect
collect-lookup lifespan now [] id v h found = cc
collect-lookup lifespan now ((k, w) ∷ m) id v h found = ground (
  arith,
  collect-lookup lifespan now m id v h.1,
  lookup-collect-none lifespan now m k h.0,
  ==_iff k id,
)

collect-IsMap : (lifespan now : ℕ) (m : LastUpdates) → IsMap m → IsMap (collect lifespan now m)
unfolding collect
collect-IsMap lifespan now [] h = tt
collect-IsMap lifespan now ((k, w) ∷ m) h =
    ground (arith, collect-IsMap lifespan now m h.1, lookup-collect-none lifespan now m k h.0)

deduplicate-IsMap :
    (n : NotificationStatusUpdate) (m : LastUpdates) → IsMap m → IsMap (deduplicate n m).0
unfolding deduplicate
deduplicate-IsMap n m h = ground (arith, insert-IsMap n.id n.timestamp m h)

run-IsMap :
    (lifespan : ℕ) (calls : List Call) (m : LastUpdates) → IsMap m → IsMap (run lifespan calls m)
unfolding run
run-IsMap lifespan [] m h = h
run-IsMap lifespan (update n ∷ calls) m h =
    run-IsMap lifespan calls (deduplicate n m).0 (deduplicate-IsMap n m h)
run-IsMap lifespan (round now ∷ calls) m h =
    run-IsMap lifespan calls (collect lifespan now m) (collect-IsMap lifespan now m h)

-- The rounds of the collector for some ticks.
abbrev rounds : List ℕ → List Call
rounds [] = []
rounds (now ∷ times) = round now ∷ rounds times

abbrev ticks_then_close : List ℕ → List Woken → List Woken
ticks_then_close [] later = close_notified ∷ later
ticks_then_close (now ∷ times) later = tick now ∷ ticks_then_close times later

-- The collector ends when it is notified, after a round for each tick before.
pub garbage_collector-run :
    (lifespan : ℕ) (times : List ℕ) (later : List Woken) (m : LastUpdates)
    → garbage_collector lifespan (ticks_then_close times later) m
      ≡ (run lifespan (rounds times) m, true)
unfolding garbage_collector run
garbage_collector-run lifespan [] later m = refl
garbage_collector-run lifespan (now ∷ times) later m =
    garbage_collector-run lifespan times later (collect lifespan now m)

-- After any calls on a new service, a round of the collector leaves exactly the entries that are
-- younger than the lifespan, unchanged.
pub collect_exact :
    (lifespan : ℕ) (calls : List Call) (now id v : ℕ)
    → let m = run lifespan calls new in
      (lookup id (collect lifespan now m) ≡ some v)
      ↔ ((lookup id m ≡ some v) × (now < v + lifespan))
collect_exact lifespan calls now id v =
    let m = run lifespan calls new in
    (
      collect-lookup lifespan now m id v (run-IsMap lifespan calls new tt),
      λ p. lookup-collect lifespan now m id v p.1 p.0,
    )
