-- ===== src/Delivery/Tickets/Used.antt =====
-- What tickets_repository_impl.rs makes of the documented behaviour of the database: the promises of
-- tickets_repository.rs on tickets that were used.
use text.Mathlib.Text.{◌==◌ as ◌===◌}
use mathlib.Core.Path.{subst}
use tom_notifier.Base.{
  ℕ, ◌==◌, ◌≡◌, ◌≢◌, ◌⊎◌, ap, refl, inl, inr, Bool, true, false, not, ◌&&◌, List, [], ◌∷◌, ◌++◌,
  any, is_some, All, ==_iff, none, some, if◌then◌else◌, Bool-cases, Option-cases, arith, Result,
}
use tom_notifier.Mongo.{DriverError}
use tom_notifier.Delivery.Tickets.Once.{Lawful}
use tom_notifier.Delivery.Tickets.Mongo.{
  TicketInsertEntity, TicketFindEntity, Condition, id_is, ticket_is, used_at_null, Update,
  set_used_at, Collection, updated, insert, update_used_at, repository,
}

-- What conditions and updates mean for a document.
abbrev pub matches : Condition → TicketFindEntity → Bool
matches (id_is i) d = d.id == i
matches (ticket_is text) d = d.ticket === text
matches used_at_null d = not (is_some d.used_at)

abbrev pub matches_all : List Condition → TicketFindEntity → Bool
matches_all [] d = true
matches_all (condition ∷ conditions) d = matches condition d && matches_all conditions d

abbrev pub apply : Update → TicketFindEntity → TicketFindEntity
apply (set_used_at time) d = record d { used_at = time }

-- The first document that matches, updated.
abbrev pub update_first : List Condition → Update → List TicketFindEntity → List TicketFindEntity
update_first filter update [] = []
update_first filter update (d ∷ ds) =
    if matches_all filter d then apply update d ∷ ds else d ∷ update_first filter update ds

abbrev pub stored : ℕ → TicketInsertEntity → TicketFindEntity
stored i entity = record {
  id = i;
  ticket = entity.ticket;
  user_id = entity.user_id;
  issued_at = entity.issued_at;
  expire_at = entity.expire_at;
  used_at = entity.used_at;
}

-- No two documents have the same id.
abbrev pub IsUnique : List TicketFindEntity → Type 0
IsUnique [] = Unit {0}
IsUnique (d ∷ ds) = All (λ e. e.id ≢ d.id) ds × IsUnique ds

-- What the database documents of these calls, where `documents` are those of the collection: ids are
-- unique; `update_one` updates the first document that matches or, at most if it fails, none, and
-- counts it; and `insert_one` adds the document under some id or, if it fails, none.
pub record Documented {Db : Type 0} (c : Collection Db) (documents : Db → List TicketFindEntity)
    : Type 0 where
  pub ids_differ : (db : Db) → IsUnique (documents db)
  pub update_one_counts :
      (filter : List Condition) (update : Update) (n : ℕ) (db : Db)
      → (c.update_one filter update db).1 ≡ Result.ok n
      → (documents (c.update_one filter update db).0 ≡ update_first filter update (documents db))
        × (n ≡ (if any (matches_all filter) (documents db) then 1 else 0))
  pub update_one_updates :
      (filter : List Condition) (update : Update) (db : Db)
      → (documents (c.update_one filter update db).0 ≡ documents db)
        ⊎ (documents (c.update_one filter update db).0 ≡ update_first filter update (documents db))
  pub insert_one_adds :
      (entity : TicketInsertEntity) (db : Db)
      → (documents (c.insert_one entity db).0 ≡ documents db)
        ⊎ ((i : ℕ) × (documents (c.insert_one entity db).0
              ≡ documents db ++ (stored i entity ∷ [])))

-- The filter of `update_used_at`.
abbrev unused : ℕ → List Condition
unused i = id_is i ∷ used_at_null ∷ []

-- A document with an id that has `used_at`.
abbrev pub is_used : ℕ → TicketFindEntity → Bool
is_used i d = (d.id == i) && is_some d.used_at

abbrev pub used : ℕ → List TicketFindEntity → Bool
used i = any (is_used i)

update-used :
    (i time : ℕ) (ds : List TicketFindEntity)
    → any (matches_all (unused i)) ds ≡ true
    → used i (update_first (unused i) (set_used_at (some time)) ds) ≡ true
update-used i time [] h = cc
update-used i time (d ∷ ds) h = ground (arith, update-used i time ds)

update-keeps :
    (i j time : ℕ) (ds : List TicketFindEntity)
    → used i ds ≡ true
    → used i (update_first (unused j) (set_used_at (some time)) ds) ≡ true
update-keeps i j time [] h = h
update-keeps i j time (d ∷ ds) h = ground (arith, update-keeps i j time ds)

append-keeps :
    (i : ℕ) (ds more : List TicketFindEntity) → used i ds ≡ true → used i (ds ++ more) ≡ true
append-keeps i [] more h = cc
append-keeps i (d ∷ ds) more h = ground (arith, append-keeps i ds more)

absent :
    (i : ℕ) (q : TicketFindEntity → Bool) (ds : List TicketFindEntity)
    → All (λ e. e.id ≢ i) ds
    → any (λ d. (d.id == i) && q d) ds ≡ false
absent i q [] h = refl
absent i q (d ∷ ds) h = elim (Bool-cases (d.id == i)) [
  | inl same ↦ elim (h.0 ((==_iff d.id i).0 same)) [ ]
  | inr other ↦ rw other (absent i q ds h.1)
]

used-refuses :
    (i : ℕ) (ds : List TicketFindEntity)
    → IsUnique ds
    → used i ds ≡ true
    → any (matches_all (unused i)) ds ≡ false
used-refuses i [] unique h = refl
used-refuses i (d ∷ ds) unique h = elim (Bool-cases (d.id == i)) [
  | inr other ↦ rw other (used-refuses i ds unique.1 (ground arith))
  | inl same ↦
      let others = subst (λ k. All (λ e. e.id ≢ k) ds) ((==_iff d.id i).0 same) unique.0 in
      elim (Option-cases d.used_at) [
        | inl e ↦
            let later : used i ds ≡ true = ground arith in
            cc (absent i (λ k. is_some k.used_at) ds others, later)
        | inr (t, e) ↦ rw (same, e) (absent i (λ k. not (is_some k.used_at) && true) ds others)
      ]
]

updated-ok : (result : Result ℕ DriverError) → updated result ≡ Result.ok tt → result ≡ Result.ok 1
unfolding updated
updated-ok (Result.ok n) h = elim (Bool-cases (n == 1)) [
  | inl one ↦ ap (λ k. Result.ok k) (ground arith)
  | inr other ↦ ground arith
]
updated-ok (Result.err e) h = cc

-- The repository keeps what its interface promises of used tickets, if the database does what it
-- documents: an update of `used_at` that succeeds sets it, is refused once it is set, and neither an
-- update nor an insertion takes it back.
pub repository-Lawful :
    {Db : Type 0} (c : Collection Db) (documents : Db → List TicketFindEntity)
    → Documented c documents
    → Lawful (repository c) (λ id db. used id (documents db) ≡ true)
unfolding insert update_used_at
repository-Lawful {Db = Db} c documents d = record {
  update_sets = λ id used_at db h.
      let set = set_used_at (some (c.datetime used_at)) in
      let (after, count) =
        d.update_one_counts (unused id) set 1 db
          (updated-ok (c.update_one (unused id) set db).1 h) in
      rw after (update-used id (c.datetime used_at) (documents db) (ground (arith, count)));
  update_refuses = λ id used_at db u h.
      let set = set_used_at (some (c.datetime used_at)) in
      let (after, count) =
        d.update_one_counts (unused id) set 1 db
          (updated-ok (c.update_one (unused id) set db).1 h) in
      let none_left = used-refuses id (documents db) (d.ids_differ db) u in
      impossible (any (matches_all (unused id)) (documents db)) none_left count;
  update_keeps = λ id other used_at db u.
      elim (d.update_one_updates (unused other) (set_used_at (some (c.datetime used_at))) db) [
        | inl same ↦ rw same u
        | inr after ↦ rw after (update-keeps id other (c.datetime used_at) (documents db) u)
      ];
  insert_keeps = λ id ticket user_id issued_at expire_at db u.
      let entity : TicketInsertEntity = record {
        ticket = ticket;
        user_id = user_id;
        issued_at = c.datetime issued_at;
        expire_at = c.datetime expire_at;
        used_at = none;
      } in
      elim (d.insert_one_adds entity db) [
        | inl same ↦ rw same u
        | inr (i, after) ↦ rw after (append-keeps id (documents db) (stored i entity ∷ []) u)
      ];
}
  where
    impossible : (b : Bool) → b ≡ false → ◌≡◌ {A = ℕ} 1 (if b then 1 else 0) → ⊥
    impossible b e h = ground arith
