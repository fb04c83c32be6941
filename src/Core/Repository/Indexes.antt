-- ===== src/Core/Repository/Indexes.antt =====
-- `NotificationsRepositoryImpl::new` of
-- tom-notifier-core/src/repository/notifications_repository_impl.rs.
use Prim.Native.String.{String}
use tom_notifier.Base.{◌≡◌, ◌∙◌, sym, refl, ap, true, false, List, [], ◌∷◌, Result}
use tom_notifier.Mongo.Indexes.{
  IndexModel, Action, ◌>>=◌, ◌>>◌, Database, create_missing, with_index, Documented, opened-elim,
  names_of, next-elim, create_missing-with_index, contains, with_index-other, with_index_again,
  with_index-contains,
}

abbrev pub notifications : String
notifications = "notifications"

-- `create_unique_producer_notification_index`.
abbrev pub unique_producer_notification : IndexModel
unique_producer_notification = record {
  keys = "producer_id" ∷ "producer_notification_id" ∷ [];
  name = "unique_index_producer_id_producer_notification_id";
  unique = true;
}

-- `create_confirmations_user_id_index`.
abbrev pub confirmations_user_id : IndexModel
confirmations_user_id = record {
  keys = "confirmations.user_id" ∷ [];
  name = "index_confirmation_user_id";
  unique = false;
}

-- The indexes that there are after `new`.
abbrev pub with_indexes : List IndexModel → List IndexModel
with_indexes indexes =
    with_index confirmations_user_id (with_index unique_producer_notification indexes)

with_indexes_again : (is : List IndexModel) → with_indexes (with_indexes is) ≡ with_indexes is
with_indexes_again is =
    let uniques = with_index unique_producer_notification is in
    let there : contains (names_of (with_indexes is)) unique_producer_notification.name ≡ true =
      with_index-other confirmations_user_id uniques unique_producer_notification.name refl
      ∙ with_index-contains unique_producer_notification is in
    rw there (with_index_again confirmations_user_id uniques)

module _ {Db : Type 0} (d : Database Db) where
  unfoldable pub create_indexes : List String → Action Db (Unit {0})
  unfolding create_missing
  create_indexes index_names = do
    create_missing d notifications index_names unique_producer_notification
    create_missing d notifications index_names confirmations_user_id

  unfoldable pub new : Action Db (Unit {0})
  unfolding create_indexes
  new = do
    d.create_collection notifications
    index_names ← d.list_index_names notifications
    create_indexes index_names

  -- The program has been started once or more, and each time the repository was created.
  pub data Restarts (db : Db) : Db → Type 0 where
    once : (new db).1 ≡ Result.ok tt → Restarts db (new db).0
    again :
        {before : Db}
        → Restarts db before
        → (new before).1 ≡ Result.ok tt
        → Restarts db (new before).0

  module _ (indexes : Db → List IndexModel) (documented : Documented d notifications indexes) where
    create_indexes-with_indexes :
        (is : List IndexModel) (db : Db)
        → indexes db ≡ is
        → (create_indexes (names_of is) db).1 ≡ Result.ok tt
        → indexes (create_indexes (names_of is) db).0 ≡ with_indexes is
    unfolding create_indexes
    create_indexes-with_indexes is db kept h =
        next-elim (λ after. indexes after ≡ with_indexes is)
          (λ u. create_missing d notifications (names_of is) confirmations_user_id)
          (create_missing d notifications (names_of is) unique_producer_notification db) tt h
          λ u. λ first. λ h1.
            let step = create_missing-with_index d notifications indexes documented (names_of is) in
            let middle =
              (create_missing d notifications (names_of is) unique_producer_notification db).0 in
            let had : indexes middle ≡ with_index unique_producer_notification is =
              step unique_producer_notification db
                (ap (λ js. contains (names_of js) unique_producer_notification.name) (sym kept))
                first
              ∙ ap (with_index unique_producer_notification) kept in
            step confirmations_user_id middle
              (sym (
                ap (λ js. contains (names_of js) confirmations_user_id.name) had
                ∙ with_index-other unique_producer_notification is confirmations_user_id.name refl))
              h1
            ∙ ap (with_index confirmations_user_id) had

    new-with_indexes :
        (db : Db) → (new db).1 ≡ Result.ok tt → indexes (new db).0 ≡ with_indexes (indexes db)
    unfolding new
    new-with_indexes db h =
        opened-elim d notifications indexes documented
          (λ after. indexes after ≡ with_indexes (indexes db)) create_indexes db h
          λ opened. λ kept. λ ok. create_indexes-with_indexes (indexes db) opened kept ok

    -- However often the program is started, with no error, its collection has the indexes that it had
    -- first, and besides them the unique index on the producer's notifications and the index on the
    -- users of confirmations, each once and only if there was none of its name.
    pub restarts-with_indexes :
        {db after : Db} → Restarts db after → indexes after ≡ with_indexes (indexes db)
    restarts-with_indexes (once h) = new-with_indexes _ h
    restarts-with_indexes {db = db} (again {before = before} restarts h) =
        new-with_indexes before h
        ∙ ap with_indexes (restarts-with_indexes restarts)
        ∙ with_indexes_again (indexes db)
