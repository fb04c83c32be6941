-- ===== src/Tests/Index.antt =====
-- The indexes of tom-notifier-core, in a database that is a list of them.
use tom_notifier.Base.{◌≡◌, refl, sym, List, [], ◌∷◌, Result, ok-injective}
use tom_notifier.Mongo.Indexes as Indexes
use tom_notifier.Mongo.Indexes.{IndexModel, Database, names_of, with_index}
use tom_notifier.Core.Repository.Indexes.{
  notifications, unique_producer_notification, confirmations_user_id, with_indexes, once, again,
  new, restarts-with_indexes,
}

-- The indexes of a database are a list; every call succeeds.
abbrev database : Database (List IndexModel)
database = record {
  create_collection = λ collection indexes. (indexes, Result.ok tt);
  list_index_names = λ collection indexes. (indexes, Result.ok (names_of indexes));
  create_index = λ collection index indexes. (with_index index indexes, Result.ok tt);
}

abbrev database-Documented : Indexes.Documented database notifications (λ indexes. indexes)
database-Documented = record {
  create_collection_keeps = λ db. refl;
  list_keeps = λ db. refl;
  list_names = λ db names e. sym (ok-injective e);
  create_index_adds = λ db index missing e. rw missing refl;
}

restarts-with_indexes_example :
    unique_producer_notification ∷ confirmations_user_id ∷ [] ≡ with_indexes []
unfolding new
restarts-with_indexes_example =
    restarts-with_indexes database (λ indexes. indexes) database-Documented {db = []}
      (again (once refl) refl)
