-- ===== src/Delivery/Tickets/Mongo.antt =====
-- tom-notifier-ws-delivery/src/repository/tickets_repository/tickets_repository_impl.rs, over the
-- calls of the database's driver.
use Prim.Native.String.{String}
use tom_notifier.Base.{ℕ, [], ◌∷◌, List, Option, none, some, if◌then◌else◌, ◌==◌, Result}
pub use tom_notifier.Mongo.{DriverError, write_error, other_error, InsertedId, object_id, other_id}
use tom_notifier.Mongo.{duplicate_key_code}
use tom_notifier.Delivery.Tickets.{
  RepositoryError, insert_unique_violation, no_document_updated, mongo, Ticket, Repository,
}

-- `TicketInsertEntity`.
pub record TicketInsertEntity : Type 0 where
  pub ticket : String
  pub user_id : ℕ
  pub issued_at : ℕ
  pub expire_at : ℕ
  pub used_at : Option ℕ

pub record TicketFindEntity : Type 0 where
  pub id : ℕ
  pub ticket : String
  pub user_id : ℕ
  pub issued_at : ℕ
  pub expire_at : ℕ
  pub used_at : Option ℕ

-- `From<TicketFindEntity>` of `Ticket`. A time of the database, in milliseconds, is a number like any
-- other.
unfoldable pub from : TicketFindEntity → Ticket
from value = record {
  id = value.id;
  ticket = value.ticket;
  user_id = value.user_id;
  issued_at = value.issued_at;
  expire_at = value.expire_at;
  used_at = value.used_at;
}

-- The conditions of a filter, which is a list of them, and an update.
pub data Condition : Type 0 where
  id_is : ℕ → Condition
  ticket_is : String → Condition
  used_at_null : Condition

pub data Update : Type 0 where
  set_used_at : Option ℕ → Update

-- The calls of the driver on the collection of tickets; `update_one` yields the count of matched
-- documents. `datetime` is `DateTime::from`, which keeps of a time what the database keeps.
pub record Collection (Db : Type 0) : Type 0 where
  pub datetime : ℕ → ℕ
  pub insert_one : TicketInsertEntity → Db → Db × Result InsertedId DriverError
  pub find_one : List Condition → Db → Result (Option TicketFindEntity) DriverError
  pub update_one : List Condition → Update → Db → Db × Result ℕ DriverError

unfoldable pub inserted : Result InsertedId DriverError → Result ℕ RepositoryError
inserted (Result.ok (object_id id)) = Result.ok id
inserted (Result.ok other_id) = Result.err mongo
inserted (Result.err (write_error code)) =
    if code == duplicate_key_code then Result.err insert_unique_violation else Result.err mongo
inserted (Result.err other_error) = Result.err mongo

unfoldable pub found :
    Result (Option TicketFindEntity) DriverError → Result (Option Ticket) RepositoryError
unfolding from
found (Result.ok none) = Result.ok none
found (Result.ok (some entity)) = Result.ok (some (from entity))
found (Result.err e) = Result.err mongo

unfoldable pub updated : Result ℕ DriverError → Result (Unit {0}) RepositoryError
updated (Result.ok matched_count) =
    if matched_count == 1 then Result.ok tt else Result.err no_document_updated
updated (Result.err e) = Result.err mongo

module _ {Db : Type 0} (c : Collection Db) where
  unfoldable pub insert : String → ℕ → ℕ → ℕ → Db → Db × Result ℕ RepositoryError
  unfolding inserted
  insert ticket user_id issued_at expire_at db =
      let entity : TicketInsertEntity = record {
        ticket = ticket;
        user_id = user_id;
        issued_at = c.datetime issued_at;
        expire_at = c.datetime expire_at;
        used_at = none;
      } in
      let result = c.insert_one entity db in (result.0, inserted result.1)

  unfoldable pub find : String → Db → Result (Option Ticket) RepositoryError
  unfolding found
  find ticket db = found (c.find_one (ticket_is ticket ∷ []) db)

  unfoldable pub update_used_at : ℕ → ℕ → Db → Db × Result (Unit {0}) RepositoryError
  unfolding updated
  update_used_at id used_at db =
      let result =
        c.update_one (id_is id ∷ used_at_null ∷ []) (set_used_at (some (c.datetime used_at))) db in
      (result.0, updated result.1)

  -- `TicketsRepositoryImpl`.
  abbrev pub repository : Repository Db
  repository = record { insert = insert; find = find; update_used_at = update_used_at }
