-- ===== src/Core/Repository/Meaning.antt =====
-- The meaning of the filters and updates of notifications_repository_impl.rs on documents, as the
-- database documents it.
use tom_notifier.Base.{
  ℕ, ◌==◌, ◌≡◌, ◌≢◌, Bool, true, false, not, ◌&&◌, ◌||◌, List, [], ◌∷◌, ◌++◌, map, Option, none,
  some, if◌then◌else◌, is_some, any, length, ltb, All, Result,
}
use tom_notifier.Core.Repository.Documents.{
  Confirmation, ElementCondition, Condition, id_in, producer_id, user_ids, user_ids_size,
  invalidate_at_null, invalidate_at_gt, and, or, elem_match, not_elem_match, push_confirmation,
  Projection, Sort, UpdateResult, NotificationInsertEntity, NotificationFindEntity, Collection,
}
use tom_notifier.Core.Repository.Impl.{undelivered}

-- A document is what was inserted, with its id.
pub record Document : Type 0 where
  pub id : ℕ
  pub entity : NotificationInsertEntity

-- The documented meaning of the filters.
abbrev pub element_matches : Confirmation → ElementCondition → Bool
element_matches k (ElementCondition.user_id user) = k.user_id == user
element_matches k (ElementCondition.notification_deleted true) = k.notification_deleted
element_matches k (ElementCondition.notification_deleted false) = not k.notification_deleted
element_matches k (ElementCondition.notification_seen true) = k.notification_seen
element_matches k (ElementCondition.notification_seen false) = not k.notification_seen

abbrev pub all_elements : List ElementCondition → Confirmation → Bool
all_elements [] k = true
all_elements (condition ∷ conditions) k = element_matches k condition && all_elements conditions k

abbrev pub is_after : ℕ → Option ℕ → Bool
is_after now none = false
is_after now (some time) = ltb now time

abbrev pub matches : Condition → Document → Bool
matches (Condition.id n) d = d.id == n
matches (id_in ns) d = any (λ n. d.id == n) ns
matches (producer_id p) d = d.entity.producer_id == p
matches (user_ids user) d = any (λ u. u == user) d.entity.user_ids
matches (user_ids_size n) d = length d.entity.user_ids == n
matches invalidate_at_null d = not (is_some d.entity.invalidate_at)
matches (invalidate_at_gt now) d = is_after now d.entity.invalidate_at
matches (and a b) d = matches a d && matches b d
matches (or a b) d = matches a d || matches b d
matches (elem_match conditions) d = any (all_elements conditions) d.entity.confirmations
matches (not_elem_match conditions) d = not (any (all_elements conditions) d.entity.confirmations)

abbrev pub matches_all : List Condition → Document → Bool
matches_all [] d = true
matches_all (condition ∷ conditions) d = matches condition d && matches_all conditions d

abbrev pub push : Confirmation → Document → Document
push k d = record {
  id = d.id;
  entity = record d.entity { confirmations = d.entity.confirmations ++ k ∷ [] };
}

abbrev pub push_where : List Condition → Confirmation → Document → Document
push_where filter k d = if matches_all filter d then push k d else d

-- The first document that matches, with the confirmation.
abbrev pub push_first : List Condition → Confirmation → List Document → List Document
push_first filter k [] = []
push_first filter k (d ∷ ds) =
    if matches_all filter d then push k d ∷ ds else d ∷ push_first filter k ds

-- What the database documents of three of its calls: an `update_many` that succeeds applies `$push`
-- to each document that matches and leaves the others; an `update_one` to the first one; and
-- whatever holds of the ids of all documents that match holds of the ids that `find` yields.
pub record Documented {Db : Type 0} (c : Collection Db) (documents : Db → List Document)
    : Type 1 where
  pub update_many_pushes :
      (filter : List Condition) (k : Confirmation) (result : UpdateResult) (db : Db)
      → (c.update_many filter (push_confirmation k) db).1 ≡ Result.ok result
      → documents (c.update_many filter (push_confirmation k) db).0
        ≡ map (push_where filter k) (documents db)
  pub update_one_pushes :
      (filter : List Condition) (k : Confirmation) (result : UpdateResult) (db : Db)
      → (c.update_one filter (push_confirmation k) db).1 ≡ Result.ok result
      → documents (c.update_one filter (push_confirmation k) db).0
        ≡ push_first filter k (documents db)
  pub find_matches :
      (filter : List Condition) (projection : Projection) (sort : Sort) (pages : Option (ℕ × ℕ))
      (db : Db) (entities : List NotificationFindEntity) (P : ℕ → Type 0)
      → c.find filter projection sort pages db ≡ Result.ok entities
      → All (λ d. matches_all filter d ≡ true → P d.id) (documents db)
      → All (λ e. P e.id) entities

-- A notification is delivered to a user if no document with its id is among those that polling
-- looks for now: he has confirmed it, it is not for him, or its time is over.
abbrev pub IsDelivered : {Db : Type 0} → (Db → List Document) → ℕ → ℕ → ℕ × Db → Type 0
IsDelivered documents i user (now, db) =
    All (λ d. d.id ≡ i → matches_all (undelivered user now) d ≡ false) (documents db)

-- No two documents have the same id.
abbrev pub IsUnique : List Document → Type 0
IsUnique [] = Unit {0}
IsUnique (d ∷ ds) = All (λ e. e.id ≢ d.id) ds × IsUnique ds
