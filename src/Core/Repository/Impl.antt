-- ===== src/Core/Repository/Impl.antt =====
-- The operations of tom-notifier-core/src/repository/notifications_repository_impl.rs. The state is
-- the database with the reading of the clock, which stands for `DateTime::from(now_utc())`.
use Prim.Native.String.{String}
use tom_notifier.Base.{
  ltb, ℕ, ◌*◌, ◌%◌, ◌^◌, Bool, true, false, List, [], ◌∷◌, map, Option, none, some, if◌then◌else◌,
  ◌==◌, Result,
}
use tom_notifier.Mongo.{
  DriverError, write_error, other_error, InsertedId, object_id, other_id, duplicate_key_code,
}
use tom_notifier.Core.Types.{
  RepositoryError, insert_unique_violation, no_document_updated, mongo, InsertedNotification,
  StoredNotification, Pagination, NotificationFilters, Repository,
}
use tom_notifier.Core.Repository.Documents.{
  Confirmation, ElementCondition, Condition, id, id_in, user_ids, user_ids_size, invalidate_at_null,
  invalidate_at_gt, and, or, elem_match, not_elem_match, set_invalidate_at, push_confirmation,
  set_matched_seen, set_matched_deleted, UpdateResult, with_matched_confirmation,
  without_confirmations, ascending, descending, NotificationInsertEntity,
  NotificationConfirmationFindEntity, NotificationFindEntity, Collection,
}

-- repository/dto/notification.rs: `From<NotificationFindEntity>`.
unfoldable pub first_seen : List NotificationConfirmationFindEntity → Bool
first_seen [] = false
first_seen (confirmation ∷ confirmations) = confirmation.notification_seen

unfoldable pub from : NotificationFindEntity → StoredNotification
unfolding first_seen
from entity = record {
  id = entity.id;
  created_at = entity.created_at;
  producer_id = entity.producer_id;
  seen = first_seen entity.confirmations;
  content_type = entity.content_type;
  content = entity.content;
}

-- `Option::map`.
abbrev map_some : (ℕ → ℕ) → Option ℕ → Option ℕ
map_some f none = none
map_some f (some time) = some (f time)

-- The match on the count of documents, and `?` before it.
unfoldable pub updated :
    (UpdateResult → Bool) → Result UpdateResult DriverError → Result (Unit {0}) RepositoryError
updated test (Result.ok result) =
    if test result then Result.ok tt else Result.err no_document_updated
updated test (Result.err e) = Result.err mongo

unfoldable pub done : Result UpdateResult DriverError → Result (Unit {0}) RepositoryError
done (Result.ok result) = Result.ok tt
done (Result.err e) = Result.err mongo

unfoldable pub found_one :
    Result (Option NotificationFindEntity) DriverError
    → Result (Option StoredNotification) RepositoryError
unfolding from
found_one (Result.ok none) = Result.ok none
found_one (Result.ok (some entity)) = Result.ok (some (from entity))
found_one (Result.err e) = Result.err mongo

unfoldable pub found_many :
    Result (List NotificationFindEntity) DriverError
    → Result (List StoredNotification) RepositoryError
found_many (Result.ok entities) = Result.ok (map from entities)
found_many (Result.err e) = Result.err mongo

unfoldable pub inserted :
    (ℕ → InsertedNotification)
    → Result InsertedId DriverError
    → Result InsertedNotification RepositoryError
inserted notification (Result.ok (object_id new)) = Result.ok (notification new)
inserted notification (Result.ok other_id) = Result.err mongo
inserted notification (Result.err (write_error code)) =
    if code == duplicate_key_code then Result.err insert_unique_violation else Result.err mongo
inserted notification (Result.err other_error) = Result.err mongo

abbrev pub addressed : ℕ → Condition
addressed user = or (user_ids user) (user_ids_size 0)

abbrev pub unconfirmed : ℕ → Condition
unconfirmed user = not_elem_match (ElementCondition.user_id user ∷ [])

abbrev pub delivered_now : ℕ → ℕ → Confirmation
delivered_now user now = record {
  user_id = user;
  notification_delivered_at = now;
  notification_seen = false;
  notification_deleted = false;
}

-- The filters of `insert_confirmation`, `insert_many_confirmations` and `find_many_undelivered`.
abbrev pub to_confirm : Condition → ℕ → ℕ → List Condition
to_confirm ids user now =
    ids
    ∷ and (addressed user) (or invalidate_at_null (invalidate_at_gt now))
    ∷ unconfirmed user
    ∷ []

abbrev pub undelivered : ℕ → ℕ → List Condition
undelivered user now =
    and (addressed user) (or (invalidate_at_gt now) invalidate_at_null) ∷ unconfirmed user ∷ []

module _ {Db : Type 0} (c : Collection Db) where
  unfoldable pub insert :
      List ℕ
      → ℕ
      → Option ℕ
      → ℕ
      → ℕ
      → String
      → List ℕ
      → ℕ × Db
      → (ℕ × Db) × Result InsertedNotification RepositoryError
  unfolding inserted
  insert users created_at invalidate_at producer number content_type content (now, db) =
      let insert_entity : NotificationInsertEntity = record {
        created_at = c.datetime created_at;
        invalidate_at = map_some c.datetime invalidate_at;
        user_ids = users;
        producer_id = producer;
        producer_notification_id = number;
        content_type = content_type;
        content = content;
        confirmations = [];
      } in
      let r = c.insert_one insert_entity db in
      let notification : ℕ → InsertedNotification = λ new. record {
        id = new;
        created_at = created_at;
        invalidate_at = invalidate_at;
        user_ids = users;
        producer_id = producer;
        producer_notification_id = number;
        content_type = content_type;
        content = content;
      } in
      ((now, r.0), inserted notification r.1)

  unfoldable pub update_invalidate_at :
      ℕ → ℕ → Option ℕ → ℕ × Db → (ℕ × Db) × Result (Unit {0}) RepositoryError
  unfolding updated
  update_invalidate_at document producer invalidate_at (now, db) =
      let r =
        c.update_one (id document ∷ Condition.producer_id producer ∷ [])
          (set_invalidate_at (map_some c.datetime invalidate_at)) db in
      ((now, r.0), updated (λ u. u.matched_count == 1) r.1)

  unfoldable pub insert_confirmation : ℕ → ℕ → ℕ × Db → (ℕ × Db) × Result (Unit {0}) RepositoryError
  unfolding updated
  insert_confirmation document user (now, db) =
      let r =
        c.update_one (to_confirm (id document) user now)
          (push_confirmation (delivered_now user now)) db in
      ((now, r.0), updated (λ u. ltb 0 u.modified_count) r.1)

  unfoldable pub insert_many_confirmations :
      List ℕ → ℕ → ℕ × Db → (ℕ × Db) × Result (Unit {0}) RepositoryError
  unfolding done
  insert_many_confirmations ids user (now, db) =
      let r =
        c.update_many (to_confirm (id_in ids) user now) (push_confirmation (delivered_now user now))
          db in
      ((now, r.0), done r.1)

  unfoldable pub update_confirmation_seen :
      ℕ → ℕ → Bool → ℕ × Db → (ℕ × Db) × Result (Unit {0}) RepositoryError
  unfolding updated
  update_confirmation_seen document user seen (now, db) =
      let r =
        c.update_one
          (id document
            ∷ elem_match
                (ElementCondition.user_id user ∷ ElementCondition.notification_deleted false ∷ [])
            ∷ [])
          (set_matched_seen seen) db in
      ((now, r.0), updated (λ u. u.matched_count == 1) r.1)

  unfoldable pub delete : ℕ → ℕ → ℕ × Db → (ℕ × Db) × Result (Unit {0}) RepositoryError
  unfolding updated
  delete document user (now, db) =
      let r =
        c.update_one (id document ∷ elem_match (ElementCondition.user_id user ∷ []) ∷ [])
          (set_matched_deleted true) db in
      ((now, r.0), updated (λ u. u.modified_count == 1) r.1)

  unfoldable pub find_delivered :
      ℕ → ℕ → ℕ × Db → Result (Option StoredNotification) RepositoryError
  unfolding found_one
  find_delivered document user (now, db) = found_one (
      c.find_one
        (id document
          ∷ elem_match
              (ElementCondition.user_id user ∷ ElementCondition.notification_deleted false ∷ [])
          ∷ [])
        with_matched_confirmation db)

  -- The condition on `notification_seen`, if it is asked for.
  unfoldable pub seen_filter : Option Bool → List ElementCondition
  seen_filter none = []
  seen_filter (some seen) = ElementCondition.notification_seen seen ∷ []

  -- The product is one of 32 bits.
  unfoldable pub find_many_delivered :
      ℕ
      → Pagination
      → NotificationFilters
      → ℕ × Db
      → Result (List StoredNotification) RepositoryError
  unfolding found_many seen_filter
  find_many_delivered user pagination filters (now, db) = found_many (
      c.find
        (elem_match (
            ElementCondition.user_id user
            ∷ ElementCondition.notification_deleted false
            ∷ seen_filter filters.seen)
          ∷ [])
        with_matched_confirmation descending
        (some ((pagination.page_size * pagination.page_idx) % 2 ^ 32, pagination.page_size)) db)

  unfoldable pub find_many_undelivered :
      ℕ → ℕ × Db → Result (List StoredNotification) RepositoryError
  unfolding found_many
  find_many_undelivered user (now, db) =
      found_many (c.find (undelivered user now) without_confirmations ascending none db)

  -- `NotificationsRepositoryImpl`.
  abbrev pub repository : Repository (ℕ × Db)
  repository = record {
    insert = insert;
    update_invalidate_at = update_invalidate_at;
    insert_confirmation = insert_confirmation;
    insert_many_confirmations = insert_many_confirmations;
    update_confirmation_seen = update_confirmation_seen;
    delete = delete;
    find_delivered = find_delivered;
    find_many_delivered = find_many_delivered;
    find_many_undelivered = find_many_undelivered;
  }
