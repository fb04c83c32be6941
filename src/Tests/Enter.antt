-- ===== src/Tests/Enter.antt =====
-- Runs of the model of the tickets.
use Prim.Native.String.{String}
use tom_notifier.Base.{
  ℕ, ◌≡◌, ◌≢◌, ◌∙◌, refl, inl, inr, true, List, [], ◌∷◌, any, Option, none, some, Result,
  if◌then◌else◌, Bool-cases, arith,
}
use tom_notifier.Delivery.Tickets.{consume_ticket}
use tom_notifier.Delivery.Tickets.Once.{Lawful, consume_ticket_once, inserts}
use tom_notifier.Delivery.Tickets.Mongo.{
  TicketFindEntity, Condition, Update, set_used_at, from, found, Collection, DriverError,
  write_error, repository, find, update_used_at, insert,
}
use tom_notifier.Delivery.Tickets.Used.{
  matches_all, update_first, used, Documented, repository-Lawful,
}

-- A database with two tickets, given by their `used_at`; nothing can be inserted.
abbrev pub Db : Type 0
Db = Option ℕ × Option ℕ

abbrev pub ticket : ℕ → String → Option ℕ → TicketFindEntity
ticket id text used_at = record {
  id = id;
  ticket = text;
  user_id = 7;
  issued_at = 40;
  expire_at = 90;
  used_at = used_at;
}

abbrev one : Option ℕ → TicketFindEntity
one = ticket 1 "one"

abbrev two : Option ℕ → TicketFindEntity
two = ticket 2 "two"

abbrev documents : Db → List TicketFindEntity
documents (a, b) = one a ∷ two b ∷ []

abbrev first_of : List Condition → List TicketFindEntity → Option TicketFindEntity
first_of conditions [] = none
first_of conditions (d ∷ ds) = if matches_all conditions d then some d else first_of conditions ds

abbrev updated : List Condition → Update → Db → Db × ℕ
updated conditions (set_used_at time) (a, b) =
    if matches_all conditions (one a)
    then ((time, b), 1)
    else if matches_all conditions (two b)
    then ((a, time), 1)
    else ((a, b), 0)

abbrev pub collection : Collection Db
collection = record {
  datetime = λ time. time;
  insert_one = λ entity db. (db, Result.err (write_error 11000));
  find_one = λ conditions db. Result.ok (first_of conditions (documents db));
  update_one = λ conditions update db. let u = updated conditions update db in (u.0, Result.ok u.1);
}

updated-documents :
    (conditions : List Condition) (update : Update) (a b : Option ℕ)
    → (documents (updated conditions update (a, b)).0
        ≡ update_first conditions update (documents (a, b)))
      × ((updated conditions update (a, b)).1
          ≡ (if any (matches_all conditions) (documents (a, b)) then 1 else 0))
updated-documents conditions (set_used_at time) a b =
    elim (Bool-cases (matches_all conditions (one a))) [
      | inl e ↦ rw e (refl, refl)
      | inr e ↦ elim (Bool-cases (matches_all conditions (two b))) [
        | inl f ↦ rw (e, f) (refl, refl)
        | inr f ↦ rw (e, f) (refl, refl)
      ]
    ]

same_count : (n m : ℕ) → ◌≡◌ {A = Result ℕ DriverError} (Result.ok n) (Result.ok m) → m ≡ n
same_count n m h = ground arith

collection-Documented : Documented collection documents
collection-Documented = record {
  ids_differ = λ db. ((λ e. omega arith, tt), (tt, tt));
  update_one_counts = λ conditions update n db e.
      let (after, count) = updated-documents conditions update db.0 db.1 in
      (after, same_count (updated conditions update db).1 n e ∙ count);
  update_one_updates =
      λ conditions update db. inr (updated-documents conditions update db.0 db.1).0;
  insert_one_adds = λ entity db. inl refl;
}

collection-Lawful : Lawful (repository collection) (λ id db. used id (documents db) ≡ true)
collection-Lawful = repository-Lawful collection documents collection-Documented

repository-Lawful_example : Lawful (repository collection) (λ id db. used id (documents db) ≡ true)
repository-Lawful_example = repository-Lawful collection documents collection-Documented

-- Two users come with two tickets.
consume_ticket_once_example : ◌≢◌ {A = ℕ} 2 1
unfolding consume_ticket find found from update_used_at insert
consume_ticket_once_example =
    consume_ticket_once (repository collection) (λ id db. used id (documents db) ≡ true)
      collection-Lawful 60 70 "one" "two" [] (inserts "three" 8 50 90 ∷ []) [] (none, none)
      (record (from (one none)) { used_at = some 60 })
      (record (from (two none)) { used_at = some 70 }) refl refl
