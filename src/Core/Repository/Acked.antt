-- ===== src/Core/Repository/Acked.antt =====
-- A confirmation that tom-notifier-core has acked, in its repository.
use tom_notifier.Base.{
  ℕ, ◌==◌, ◌≡◌, ◌≢◌, ◌≤◌, ◌∙◌, ap, sym, refl, inl, inr, Bool, true, false, ◌&&◌, ◌||◌, List, [],
  ◌∷◌, Option, none, some, ltb, if◌then◌else◌, filter, ==_iff, All, All-imp, arith, Bool-cases,
  Result,
}
use mathlib.Core.Path.{subst}
use tom_notifier.Mongo.{DriverError}
use tom_notifier.Rabbitmq.Consumer.Delivery.{Consumed}
use tom_notifier.Core.Types.{StoredNotification}
use tom_notifier.Core.Confirm.{External, Confirmation, read, inserted, execute}
use tom_notifier.Core.Repository.Documents.{
  id, push_confirmation, invalidate_at_gt, invalidate_at_null, UpdateResult, Collection,
}
use tom_notifier.Core.Repository.Impl.{
  addressed, unconfirmed, to_confirm, undelivered, delivered_now, updated, insert_confirmation,
  find_many_undelivered, repository,
}
use tom_notifier.Core.Repository.Meaning.{
  Document, is_after, matches, matches_all, push_first, Documented, IsUnique,
}
use tom_notifier.Core.Repository.Promises.{pushed_fails, unmatched_fails, delivered_are_not_found}

abbrev Undelivered : ℕ → ℕ → ℕ → Document → Type 0
Undelivered user now i d = d.id ≡ i → matches_all (undelivered user now) d ≡ false

-- Documents with other ids are not looked for under this one.
others :
    (user now i : ℕ) (d : Document) (ds : List Document)
    → d.id ≡ i
    → All (λ e. e.id ≢ d.id) ds
    → All (Undelivered user now i) ds
others user now i d ds same unique =
    All-imp (λ e. e.id ≢ d.id) (Undelivered user now i)
      (λ e. λ differs. λ here. absurd (differs (here ∙ sym same))) ds unique

and_left : (a b : Bool) → (a && b) ≡ true → a ≡ true
and_left true b h = refl
and_left false b h = h

push_first-Undelivered :
    (user now i : ℕ) (ds : List Document)
    → IsUnique ds
    → All
        (Undelivered user now i)
        (push_first (to_confirm (id i) user now) (delivered_now user now) ds)
push_first-Undelivered user now i [] unique = tt
push_first-Undelivered user now i (d ∷ ds) unique =
    let rest = push_first-Undelivered user now i ds unique.1 in
    elim (Bool-cases (matches_all (to_confirm (id i) user now) d)) [
      | inl passes ↦ rw passes (
          (
            λ same. pushed_fails user now d,
            others user now i d ds ((==_iff d.id i).0 (and_left (d.id == i) _ passes)) unique.0,
          ))
      | inr fails ↦
          rw fails
            ((λ same. unmatched_fails (id i) user now d ((==_iff d.id i).1 same) fails, rest))
    ]

-- While time passes, what is not looked for stays so.
weaker_fails :
    (a s s' n u : Bool)
    → (s' ≡ true → s ≡ true)
    → ((a && (s || n)) && u) ≡ false
    → ((a && (s' || n)) && u) ≡ false
weaker_fails false s s' n u h k = refl
weaker_fails true s false n u h k = fails s n u k
  where
    fails : (s n u : Bool) → ((s || n) && u) ≡ false → (n && u) ≡ false
    fails true true u k' = k'
    fails true false u k' = refl
    fails false n u k' = k'
weaker_fails true true true n u h k = k
weaker_fails true false true n u h k = cc (h refl)

is_after-later :
    (now later : ℕ) (time : Option ℕ)
    → now ≤ later
    → is_after later time ≡ true
    → is_after now time ≡ true
is_after-later now later none h k = k
is_after-later now later (some t) h k = ground arith

Undelivered-later :
    (user now later i : ℕ) (ds : List Document)
    → now ≤ later
    → All (Undelivered user now i) ds
    → All (Undelivered user later i) ds
Undelivered-later user now later i ds h all =
    All-imp (Undelivered user now i) (Undelivered user later i)
      (λ d. λ k. λ same.
        weaker_fails (matches (addressed user) d) (matches (invalidate_at_gt now) d)
          (matches (invalidate_at_gt later) d) (matches invalidate_at_null d)
          (matches_all (unconfirmed user ∷ []) d)
          (is_after-later now later d.entity.invalidate_at h) (k same))
      ds all

-- An ack means that the database answered.
updated-answers :
    (test : UpdateResult → Bool) (r : Result UpdateResult DriverError)
    → inserted (updated test r) ≡ Consumed.ok
    → (result : UpdateResult) × (r ≡ Result.ok result)
unfolding inserted updated
updated-answers test (Result.ok result) h = (result, refl)
updated-answers test (Result.err e) h = cc

-- The documents with an id are all that matters here.
abbrev pub with_id : ℕ → List Document → List Document
with_id i = filter (λ d. d.id == i)

Undelivered-with_id :
    (user now i : ℕ) (ds : List Document)
    → All (Undelivered user now i) ds
    → All (Undelivered user now i) (with_id i ds)
Undelivered-with_id user now i [] h = tt
Undelivered-with_id user now i (d ∷ ds) h = elim (Bool-cases (d.id == i)) [
  | inl same ↦ rw same (h.0, Undelivered-with_id user now i ds h.1)
  | inr other ↦ rw other (Undelivered-with_id user now i ds h.1)
]

with_id-Undelivered :
    (user now i : ℕ) (ds : List Document)
    → All (Undelivered user now i) (with_id i ds)
    → All (Undelivered user now i) ds
with_id-Undelivered user now i [] h = tt
with_id-Undelivered user now i (d ∷ ds) h = elim (Bool-cases (d.id == i)) [
  | inl same ↦
      let k : All (Undelivered user now i) (d ∷ with_id i ds) =
        subst (λ b. All (Undelivered user now i) (if b then d ∷ with_id i ds else with_id i ds))
          same h in
      (k.0, with_id-Undelivered user now i ds k.1)
  | inr other ↦
      let k : All (Undelivered user now i) (with_id i ds) =
        subst (λ b. All (Undelivered user now i) (if b then d ∷ with_id i ds else with_id i ds))
          other h in
      (λ here. absurd (cc ((==_iff d.id i).1 here, other)), with_id-Undelivered user now i ds k)
]

module _ {Db : Type 0} (c : Collection Db) (documents : Db → List Document)
    (law : Documented c documents) where
  acked-Undelivered :
      (i user now : ℕ) (db : Db)
      → IsUnique (documents db)
      → inserted (insert_confirmation c i user (now, db)).1 ≡ Consumed.ok
      → All (Undelivered user now i) (documents (insert_confirmation c i user (now, db)).0.1)
  unfolding insert_confirmation
  acked-Undelivered i user now db unique acked =
      let filter = to_confirm (id i) user now in
      let k = delivered_now user now in
      let (result, e) =
        updated-answers (λ u. ltb 0 u.modified_count)
          (c.update_one filter (push_confirmation k) db).1 acked in
      subst (All (Undelivered user now i)) (sym (law.update_one_pushes filter k result db e))
        (push_first-Undelivered user now i (documents db) unique)

  read-execute :
      (x : External) (content : List ℕ) (k : Confirmation) (state : ℕ × Db)
      → read x content ≡ some k
      → execute x (repository c) content state ≡ (
        (insert_confirmation c k.id k.user_id state).0,
        inserted (insert_confirmation c k.id k.user_id state).1,
      )
  unfolding execute
  read-execute x content k state e = rw (e, execute) refl

  -- Once the core has acked a confirmation, whether it was the first one or found nothing to change,
  -- no later poll of that user finds that notification as long as its document stays as the ack left
  -- it, whatever happens to the others; provided that no two documents have the same id and that the
  -- database does what it documents.
  pub acked_is_not_polled :
      (x : External) (content : List ℕ) (k : Confirmation) (now later : ℕ) (db later_db : Db)
      (found : List StoredNotification)
      → IsUnique (documents db)
      → read x content ≡ some k
      → now ≤ later
      → let after = execute x (repository c) content (now, db) in
        after.1 ≡ Consumed.ok
        → with_id k.id (documents later_db) ≡ with_id k.id (documents after.0.1)
        → find_many_undelivered c k.user_id (later, later_db) ≡ Result.ok found
        → All (λ n. n.id ≢ k.id) found
  acked_is_not_polled x content k now later db later_db found unique e le acked stays polled =
      let i = insert_confirmation c k.id k.user_id (now, db) in
      let same = read-execute x content k (now, db) e in
      let left : All (Undelivered k.user_id now k.id) (with_id k.id (documents i.0.1)) =
        Undelivered-with_id k.user_id now k.id (documents i.0.1)
          (acked-Undelivered k.id k.user_id now db unique (ap (λ a. a.1) (sym same) ∙ acked)) in
      let stayed : with_id k.id (documents later_db) ≡ with_id k.id (documents i.0.1) =
        stays ∙ ap (λ (a : (ℕ × Db) × Consumed). with_id k.id (documents a.0.1)) same in
      delivered_are_not_found c documents law k.id k.user_id (later, later_db) found
        (Undelivered-later k.user_id now later k.id (documents later_db) le (
          with_id-Undelivered k.user_id now k.id (documents later_db)
            (subst (All (Undelivered k.user_id now k.id)) (sym stayed) left)))
        polled
