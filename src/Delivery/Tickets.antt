-- ===== src/Delivery/Tickets.antt =====
-- tom-notifier-ws-delivery/src/service/tickets_service/tickets_service_impl.rs, over the interface
-- of repository/tickets_repository/tickets_repository.rs, with error.rs.
pub mod Indexes
pub mod Mongo
pub mod Used
pub mod Once
use Prim.Native.String.{String}
use tom_notifier.Base.{
  ℕ, ◌+◌, ◌≡◌, ◌≢◌, Bool, true, false, List, [], ◌∷◌, Option, none, some, if◌then◌else◌, ltb,
  is_some, Result,
}
use tom_notifier.Auth.{MissingRoleError}

-- repository/error.rs; `mongo` is any error of the database.
pub data RepositoryError : Type 0 where
  insert_unique_violation no_document_updated mongo : RepositoryError

-- error.rs.
pub data Error : Type 0 where
  auth : MissingRoleError → Error
  database : RepositoryError → Error
  ticket_invalid : String → Error
  duplicate : Error

unfoldable pub into_response : Error → ℕ
into_response (auth e) = 403
into_response (database e) = 500
into_response (ticket_invalid text) = 401
into_response duplicate = 409

-- repository/tickets_repository/dto/ticket.rs.
pub record Ticket : Type 0 where
  pub id : ℕ
  pub ticket : String
  pub user_id : ℕ
  pub issued_at : ℕ
  pub expire_at : ℕ
  pub used_at : Option ℕ

-- The operations of `TicketsRepository` on the database's states.
pub record Repository (Db : Type 0) : Type 0 where
  pub insert : String → ℕ → ℕ → ℕ → Db → Db × Result ℕ RepositoryError
  pub find : String → Db → Result (Option Ticket) RepositoryError
  pub update_used_at : ℕ → ℕ → Db → Db × Result (Unit {0}) RepositoryError

-- What `consume_ticket` makes of the result of `find`, at the time `now`.
unfoldable pub check_ticket : ℕ → Result (Option Ticket) RepositoryError → Result Ticket Error
check_ticket now (Result.err e) = Result.err (database e)
check_ticket now (Result.ok none) = Result.err (ticket_invalid "ticket not exist")
check_ticket now (Result.ok (some ticket)) =
    if is_some ticket.used_at
    then Result.err (ticket_invalid "ticket already used")
    else if ltb ticket.expire_at now
    then Result.err (ticket_invalid "ticket expired")
    else Result.ok ticket

-- Its match on the result of `update_used_at`.
unfoldable pub used_ticket : ℕ → Ticket → Result (Unit {0}) RepositoryError → Result Ticket Error
used_ticket now ticket (Result.ok _) = Result.ok (record ticket { used_at = some now })
used_ticket now ticket (Result.err no_document_updated) =
    Result.err (ticket_invalid "ticket already used")
used_ticket now ticket (Result.err e) = Result.err (database e)

module _ {Db : Type 0} (r : Repository Db) where
  -- `create_ticket`; `ticket` is the new `Uuid` as text.
  unfoldable pub create_ticket : ℕ → ℕ → String → ℕ → Db → Db × Result String Error
  create_ticket lifespan now ticket user_id db =
      let inserted = r.insert ticket user_id now (now + lifespan) db in
      elim inserted.1 [
        | Result.err e ↦ (inserted.0, Result.err (database e))
        | Result.ok id ↦ (inserted.0, Result.ok ticket)
      ]

  -- The second half of `consume_ticket`, with the ticket that the first half accepted.
  unfoldable pub use_ticket : ℕ → Result Ticket Error → Db → Db × Result Ticket Error
  unfolding used_ticket
  use_ticket now (Result.err e) db = (db, Result.err e)
  use_ticket now (Result.ok ticket) db =
      let updated = r.update_used_at ticket.id now db in
      (updated.0, used_ticket now ticket updated.1)

  -- `consume_ticket`, where `meanwhile` is what other tasks do to the database between its two calls.
  unfoldable pub consume_ticket : ℕ → String → (Db → Db) → Db → Db × Result Ticket Error
  unfolding check_ticket use_ticket
  consume_ticket now ticket meanwhile db =
      use_ticket now (check_ticket now (r.find ticket db)) (meanwhile db)
