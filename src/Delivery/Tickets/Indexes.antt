-- ===== src/Delivery/Tickets/Indexes.antt =====
-- `TicketsRepositoryImpl::new` of
-- tom-notifier-ws-delivery/src/repository/tickets_repository/tickets_repository_impl.rs.
use Prim.Native.String.{String}
use tom_notifier.Base.{◌≡◌, ◌∙◌, sym, ap, true, List, [], ◌∷◌, Result}
use tom_notifier.Mongo.Indexes.{
  IndexModel, Action, ◌>>=◌, ◌>>◌, Database, create_missing, with_index, Documented, opened-elim,
  names_of, create_missing-with_index, contains,
}

abbrev pub tickets : String
tickets = "tickets"

abbrev pub unique_ticket : IndexModel
unique_ticket = record { keys = "ticket" ∷ []; name = "unique_ticket"; unique = true }

module _ {Db : Type 0} (d : Database Db) where
  unfoldable pub new : Action Db (Unit {0})
  unfolding create_missing
  new = do
    d.create_collection tickets
    index_names ← d.list_index_names tickets
    create_missing d tickets index_names unique_ticket

  -- Whenever the repository is created without an error, the collection has the indexes that it had,
  -- and the unique index of tickets if it had none of that name.
  pub new-with_index :
      (indexes : Db → List IndexModel)
      → Documented d tickets indexes
      → (db : Db) → (new db).1 ≡ Result.ok tt
      → indexes (new db).0 ≡ with_index unique_ticket (indexes db)
  unfolding new
  new-with_index indexes documented db h =
      opened-elim d tickets indexes documented
        (λ after. indexes after ≡ with_index unique_ticket (indexes db))
        (λ index_names. create_missing d tickets index_names unique_ticket) db h
        λ opened. λ kept. λ ok.
          create_missing-with_index d tickets indexes documented (names_of (indexes db))
            unique_ticket opened (ap (λ is. contains (names_of is) "unique_ticket") (sym kept)) ok
          ∙ ap (with_index unique_ticket) kept
