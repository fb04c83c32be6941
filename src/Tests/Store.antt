-- ===== src/Tests/Store.antt =====
-- A database that does what tom-notifier-core's repository relies on.
use tom_notifier.Base.{
  ◌≢◌, arith, ℕ, ◌≡◌, refl, inl, inr, true, false, List, [], ◌∷◌, map, filter, Option, none, some,
  All, Bool-cases, Result,
}
use mathlib.Core.Path.{subst}
use tom_notifier.Mongo.{DriverError, other_id}
use tom_notifier.Core.Service.Polling.{Confirms}
use tom_notifier.Core.Repository.Documents.{
  Confirmation, Condition, Update, push_confirmation, UpdateResult, NotificationFindEntity,
  Collection,
}
use tom_notifier.Core.Types.{StoredNotification}
use tom_notifier.Core.Confirm.{External, execute}
use tom_notifier.Core.Repository.Acked.{acked_is_not_polled}
use tom_notifier.Core.Repository.Impl.{repository, from, insert_confirmation, find_many_undelivered}
use tom_notifier.Core.Repository.Meaning.{
  Document, matches_all, push, push_where, push_first, Documented, IsDelivered,
}
use tom_notifier.Core.Repository.Promises.{repository-Confirms}

abbrev no_count : UpdateResult
no_count = record { matched_count = 0; modified_count = 0 }

-- Only the updates that push a confirmation do anything here.
abbrev updated : List Condition → Update → List Document → List Document
updated conditions (push_confirmation k) db = map (push_where conditions k) db
updated conditions _ db = db

abbrev updated_one : List Condition → Update → List Document → List Document
updated_one conditions (push_confirmation k) db = push_first conditions k db
updated_one conditions _ db = db

abbrev entity_of : Document → NotificationFindEntity
entity_of d = record {
  id = d.id;
  created_at = d.entity.created_at;
  producer_id = d.entity.producer_id;
  content_type = d.entity.content_type;
  content = d.entity.content;
  confirmations = [];
}

abbrev first : List NotificationFindEntity → Option NotificationFindEntity
first [] = none
first (e ∷ entities) = some e

abbrev store : Collection (List Document)
store = record {
  datetime = λ time. time;
  insert_one = λ entity db. (db, Result.ok other_id);
  update_one = λ conditions update db. (updated_one conditions update db, Result.ok no_count);
  update_many = λ conditions update db. (updated conditions update db, Result.ok no_count);
  find_one = λ conditions projection db.
      Result.ok (first (map entity_of (filter (matches_all conditions) db)));
  find = λ conditions projection sort pages db.
      Result.ok (map entity_of (filter (matches_all conditions) db));
}

found :
    (conditions : List Condition) (P : ℕ → Type 0) (db : List Document)
    → All (λ d. matches_all conditions d ≡ true → P d.id) db
    → All (λ e. P e.id) (map entity_of (filter (matches_all conditions) db))
found conditions P [] h = tt
found conditions P (d ∷ db) h = elim (Bool-cases (matches_all conditions d)) [
  | inl e ↦ rw e (h.0 e, found conditions P db h.1)
  | inr e ↦ rw e (found conditions P db h.1)
]

entities_of :
    (a b : List NotificationFindEntity)
    → ◌≡◌ {A = Result (List NotificationFindEntity) DriverError} (Result.ok a) (Result.ok b)
    → a ≡ b
entities_of a b h = cc

store-Documented : Documented store (λ db. db)
store-Documented = record {
  update_many_pushes = λ conditions k result db e. refl;
  update_one_pushes = λ conditions k result db e. refl;
  find_matches = λ conditions projection sort pages db entities P e h.
      subst (All (λ f. P f.id))
        (entities_of (map entity_of (filter (matches_all conditions) db)) entities e)
        (found conditions P db h);
}

repository-Confirms_example : Confirms (repository store) (IsDelivered (λ db. db))
repository-Confirms_example = repository-Confirms store (λ db. db) store-Documented

-- A notification for the user 7, whose confirmation comes.
abbrev waiting : Document
waiting = record {
  id = 3;
  entity = record {
    created_at = 80;
    invalidate_at = none;
    user_ids = 7 ∷ [];
    producer_id = 9;
    producer_notification_id = 1;
    content_type = "text";
    content = 1 ∷ [];
    confirmations = [];
  };
}

abbrev reader : External
reader = record {
  decode = λ content. some (record { user_id = "7"; id = "3" });
  uuid_from_str = λ text. some 7;
  object_id_from_str = λ text. some 3;
}

abbrev other : Document
other = record waiting { id = 4 }

abbrev confirmed_now : Confirmation
confirmed_now = record {
  user_id = 7;
  notification_delivered_at = 100;
  notification_seen = false;
  notification_deleted = false;
}

-- Before the poll the other notification comes.
acked_is_not_polled_example :
    All (λ (n : StoredNotification). n.id ≢ 3) (from (entity_of other) ∷ [])
unfolding execute insert_confirmation find_many_undelivered from
acked_is_not_polled_example =
    acked_is_not_polled store (λ db. db) store-Documented reader [] (record { user_id = 7; id = 3 })
      100 120 (waiting ∷ []) (push confirmed_now waiting ∷ other ∷ []) (from (entity_of other) ∷ [])
      (tt, tt) refl (omega arith) refl refl refl
