-- ===== src/Core/Repository/Promises.antt =====
-- What notifications_repository_impl.rs makes of the documented behaviour of the database: the
-- promises of notifications_repository.rs on delivered notifications.
use tom_notifier.Base.{
  ℕ, ◌==◌, ◌≡◌, ◌≢◌, ◌∙◌, sym, refl, inl, inr, Bool, true, false, not, ◌&&◌, ◌||◌, List, [], ◌∷◌,
  ◌++◌, map, any, ==-refl, All, All-imp, Bool-cases, Result,
}
use mathlib.Core.Path.{subst}
use tom_notifier.Mongo.{DriverError}
use tom_notifier.Core.Types.{StoredNotification}
use tom_notifier.Core.Service.Polling.{Confirms}
use tom_notifier.Core.Repository.Documents.{
  Confirmation, ElementCondition, Condition, id_in, invalidate_at_null, invalidate_at_gt, or,
  push_confirmation, UpdateResult, NotificationFindEntity, Collection,
}
use tom_notifier.Core.Repository.Impl.{
  from, addressed, unconfirmed, done, found_many, to_confirm, undelivered, delivered_now,
  insert_many_confirmations, find_many_undelivered, repository,
}
use tom_notifier.Core.Repository.Meaning.{
  Document, matches, matches_all, all_elements, push, push_where, Documented, IsDelivered,
}

any-push :
    (user now : ℕ) (confirmations : List Confirmation)
    → any
        (all_elements (ElementCondition.user_id user ∷ []))
        (confirmations ++ delivered_now user now ∷ [])
      ≡ true
any-push user now [] = rw (==-refl user) refl
any-push user now (k ∷ confirmations) =
    elim (Bool-cases (all_elements (ElementCondition.user_id user ∷ []) k)) [
      | inl e ↦ rw e refl
      | inr e ↦ rw e (any-push user now confirmations)
    ]

push_where-id :
    (filter : List Condition) (k : Confirmation) (d : Document) → (push_where filter k d).id ≡ d.id
push_where-id filter k d = elim (Bool-cases (matches_all filter d)) [
  | inl e ↦ rw e refl
  | inr e ↦ rw e refl
]

confirmed_fails :
    (a b confirmed : Bool) → confirmed ≡ true → ((a && b) && (not confirmed && true)) ≡ false
confirmed_fails true true confirmed h = rw h refl
confirmed_fails true false confirmed h = refl
confirmed_fails false b confirmed h = refl

-- The two filters differ in the test of the id, and in the order of two conditions.
swapped_fails :
    (within a b c u : Bool)
    → within ≡ true
    → (within && ((a && (b || c)) && u)) ≡ false
    → ((a && (c || b)) && u) ≡ false
swapped_fails false a b c u h k = cc
swapped_fails true false b c u h k = refl
swapped_fails true true true true u h k = k
swapped_fails true true true false u h k = k
swapped_fails true true false true u h k = k
swapped_fails true true false false u h k = refl

-- A document that a confirmation was pushed to is not looked for any more.
pub pushed_fails :
    (user now : ℕ) (d : Document)
    → matches_all (undelivered user now) (push (delivered_now user now) d) ≡ false
pushed_fails user now d =
    confirmed_fails (matches (addressed user) d)
      (matches (or (invalidate_at_gt now) invalidate_at_null) d) _
      (any-push user now d.entity.confirmations)

-- Nor is a document with one of the ids that none was pushed to.
pub unmatched_fails :
    (ids : Condition) (user now : ℕ) (d : Document)
    → matches ids d ≡ true
    → matches_all (to_confirm ids user now) d ≡ false
    → matches_all (undelivered user now) d ≡ false
unmatched_fails ids user now d within fails =
    swapped_fails (matches ids d) (matches (addressed user) d) (matches invalidate_at_null d)
      (matches (invalidate_at_gt now) d) (matches_all (unconfirmed user ∷ []) d) within fails

pushed_is_delivered :
    (ids : List ℕ) (user now i : ℕ) (d : Document)
    → any (λ n. i == n) ids ≡ true
    → (push_where (to_confirm (id_in ids) user now) (delivered_now user now) d).id ≡ i
    → matches_all
        (undelivered user now)
        (push_where (to_confirm (id_in ids) user now) (delivered_now user now) d)
      ≡ false
pushed_is_delivered ids user now i d within e =
    let filter = to_confirm (id_in ids) user now in
    let same : d.id ≡ i = sym (push_where-id filter (delivered_now user now) d) ∙ e in
    elim (Bool-cases (matches_all filter d)) [
      | inl passes ↦ rw passes (pushed_fails user now d)
      | inr fails ↦ rw fails (
          unmatched_fails (id_in ids) user now d
            (subst (λ j. any (λ n. j == n) ids ≡ true) (sym same) within) fails)
    ]

pub All-map :
    {A B : Type 0} (f : A → B) (P : B → Type 0) (Q : A → Type 0) (xs : List A)
    → ((x : A) → Q x → P (f x))
    → All Q xs
    → All P (map f xs)
All-map f P Q [] imp h = tt
All-map f P Q (x ∷ xs) imp h = (imp x h.0, All-map f P Q xs imp h.1)

everywhere : {A : Type 0} (P : A → Type 0) (xs : List A) → ((x : A) → P x) → All P xs
everywhere P [] h = tt
everywhere P (x ∷ xs) h = (h x, everywhere P xs h)

any-weaken :
    (i x : ℕ) (xs : List ℕ) → any (λ n. i == n) xs ≡ true → any (λ n. i == n) (x ∷ xs) ≡ true
any-weaken i x xs h = elim (Bool-cases (i == x)) [ inl e ↦ rw e refl | inr e ↦ rw e h ]

All-members :
    (P : ℕ → Type 0) (xs : List ℕ) → ((i : ℕ) → any (λ n. i == n) xs ≡ true → P i) → All P xs
All-members P [] h = tt
All-members P (x ∷ xs) h =
    (h x (rw (==-refl x) refl), All-members P xs (λ i. λ k. h i (any-weaken i x xs k)))

done-ok :
    (r : Result UpdateResult DriverError)
    → done r ≡ Result.ok tt
    → (result : UpdateResult) × (r ≡ Result.ok result)
unfolding done
done-ok (Result.ok result) h = (result, refl)
done-ok (Result.err e) h = cc

pub found_many-ok :
    (r : Result (List NotificationFindEntity) DriverError) (found : List StoredNotification)
    → found_many r ≡ Result.ok found
    → (entities : List NotificationFindEntity) × (r ≡ Result.ok entities)
      × (map from entities ≡ found)
unfolding found_many
found_many-ok (Result.ok entities) found h = (entities, refl, cc)
found_many-ok (Result.err e) found h = cc

module _ {Db : Type 0} (c : Collection Db) (documents : Db → List Document)
    (law : Documented c documents) where
  confirmed_are :
      (ids : List ℕ) (user : ℕ) (state : ℕ × Db)
      → (insert_many_confirmations c ids user state).1 ≡ Result.ok tt
      → All (λ i. IsDelivered documents i user (insert_many_confirmations c ids user state).0) ids
  unfolding insert_many_confirmations
  confirmed_are ids user (now, db) h =
      let filter = to_confirm (id_in ids) user now in
      let k = delivered_now user now in
      let (result, e) = done-ok (c.update_many filter (push_confirmation k) db).1 h in
      let after = law.update_many_pushes filter k result db e in
      All-members _ ids (λ i. λ within.
        subst (All (λ d. d.id ≡ i → matches_all (undelivered user now) d ≡ false)) (sym after) (
          All-map (push_where filter k) _ (λ d. Unit {0}) (documents db)
            (λ d. λ u. pushed_is_delivered ids user now i d within)
            (everywhere (λ d. Unit {0}) (documents db) (λ d. tt))))

  pub delivered_are_not_found :
      (i user : ℕ) (state : ℕ × Db) (found : List StoredNotification)
      → IsDelivered documents i user state
      → find_many_undelivered c user state ≡ Result.ok found
      → All (λ n. n.id ≢ i) found
  unfolding find_many_undelivered from
  delivered_are_not_found i user (now, db) found h e =
      let (entities, e', same) = found_many-ok _ found e in
      subst (All (λ n. n.id ≢ i)) same (
        All-map from (λ n. n.id ≢ i) (λ n. n.id ≢ i) entities (λ n. λ k. k)
          (law.find_matches _ _ _ _ db entities (λ j. j ≢ i) e'
            (All-imp (λ d. d.id ≡ i → matches_all (undelivered user now) d ≡ false)
              (λ d. matches_all (undelivered user now) d ≡ true → d.id ≢ i)
              (λ d. λ k. λ yes_all. λ same_id. absurd (sym (k same_id) ∙ yes_all)) (documents db)
              h)))
    where
      absurd : false ≡ true → ⊥
      absurd k = cc

  -- If the database does what it documents, the repository keeps the promises on which polling
  -- rests: after a successful `insert_many_confirmations` every one of its ids counts as delivered
  -- to the user, and what is delivered is not found by `find_many_undelivered`.
  pub repository-Confirms : Confirms (repository c) (IsDelivered documents)
  repository-Confirms = record {
    confirmed_are = confirmed_are;
    delivered_are_not_found = delivered_are_not_found;
  }
