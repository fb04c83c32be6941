-- ===== src/Delivery/Tickets/Once.antt =====
-- A ticket lets its user in at most once, whatever other tasks do.
use Prim.Native.String.{String}
use mathlib.Core.Path.{subst}
use tom_notifier.Base.{
  ℕ, ◌≤◌, ◌≡◌, ◌≢◌, ◌∙◌, refl, sym, ap, List, [], ◌∷◌, Option, none, some, arith, Result,
}
use tom_notifier.Delivery.Tickets.{
  RepositoryError, no_document_updated, Error, Ticket, Repository, check_ticket, used_ticket,
  use_ticket, consume_ticket,
}

-- What other tasks may do: any operations of the repository.
pub data Operation : Type 0 where
  inserts : String → ℕ → ℕ → ℕ → Operation
  updates : ℕ → ℕ → Operation

module _ {Db : Type 0} (r : Repository Db) where
  abbrev pub run : List Operation → Db → Db
  run [] db = db
  run (inserts ticket user_id issued_at expire_at ∷ operations) db =
      run operations (r.insert ticket user_id issued_at expire_at db).0
  run (updates id used_at ∷ operations) db = run operations (r.update_used_at id used_at db).0

-- What the documentation of `TicketsRepository` promises of tickets whose `used_at` is set.
pub record Lawful {Db : Type 0} (r : Repository Db) (IsUsed : ℕ → Db → Type 0) : Type 0 where
  pub update_sets :
      (id used_at : ℕ) (db : Db)
      → (r.update_used_at id used_at db).1 ≡ Result.ok tt
      → IsUsed id (r.update_used_at id used_at db).0
  pub update_refuses :
      (id used_at : ℕ) (db : Db) → IsUsed id db → (r.update_used_at id used_at db).1 ≢ Result.ok tt
  pub update_keeps :
      (id other used_at : ℕ) (db : Db)
      → IsUsed id db
      → IsUsed id (r.update_used_at other used_at db).0
  pub insert_keeps :
      (id : ℕ) (ticket : String) (user_id issued_at expire_at : ℕ) (db : Db)
      → IsUsed id db
      → IsUsed id (r.insert ticket user_id issued_at expire_at db).0

-- A ticket that is accepted was found, unused and not expired.
check_ticket-ok :
    (now : ℕ) (found : Result (Option Ticket) RepositoryError) (ticket : Ticket)
    → check_ticket now found ≡ Result.ok ticket
    → (found ≡ Result.ok (some ticket)) × (ticket.used_at ≡ none) × (now ≤ ticket.expire_at)
unfolding check_ticket
check_ticket-ok now (Result.err e) ticket h = cc
check_ticket-ok now (Result.ok none) ticket h = cc
check_ticket-ok now (Result.ok (some t)) ticket h = ground arith

used_ticket-ok :
    (now : ℕ) (t : Ticket) (u : Result (Unit {0}) RepositoryError) (ticket : Ticket)
    → used_ticket now t u ≡ Result.ok ticket
    → (u ≡ Result.ok tt) × (ticket ≡ record t { used_at = some now })
unfolding used_ticket
used_ticket-ok now t (Result.ok _) ticket h = (refl, cc)
used_ticket-ok now t (Result.err no_document_updated) ticket h = cc
used_ticket-ok now t (Result.err _) ticket h = cc

module _ {Db : Type 0} (r : Repository Db) where
  -- What a success of `consume_ticket` says of the database that it saw.
  abbrev pub Consumed : ℕ → String → (Db → Db) → Db → Ticket → Type 0
  Consumed now text meanwhile db ticket =
      (found : Ticket) × (r.find text db ≡ Result.ok (some found))
      × (found.used_at ≡ none)
      × (now ≤ found.expire_at)
      × (ticket ≡ record found { used_at = some now })
      × ((r.update_used_at found.id now (meanwhile db)).1 ≡ Result.ok tt)
      × ((consume_ticket r now text meanwhile db).0
          ≡ (r.update_used_at found.id now (meanwhile db)).0)

  use_ticket-ok :
      (now : ℕ) (checked : Result Ticket Error) (db : Db) (ticket : Ticket)
      → (use_ticket r now checked db).1 ≡ Result.ok ticket
      → (found : Ticket) × (checked ≡ Result.ok found)
        × ((r.update_used_at found.id now db).1 ≡ Result.ok tt)
        × (ticket ≡ record found { used_at = some now })
  unfolding use_ticket
  use_ticket-ok now (Result.err e) db ticket h = cc
  use_ticket-ok now (Result.ok found) db ticket h =
      let (done, same) = used_ticket-ok now found (r.update_used_at found.id now db).1 ticket h in
      (found, refl, done, same)

  -- A ticket that is consumed was found by its text, unused and not expired, and was marked as used
  -- at that time by the same call.
  pub consume_ticket-ok :
      (now : ℕ) (text : String) (meanwhile : Db → Db) (db : Db) (ticket : Ticket)
      → (consume_ticket r now text meanwhile db).1 ≡ Result.ok ticket
      → Consumed now text meanwhile db ticket
  unfolding consume_ticket use_ticket
  consume_ticket-ok now text meanwhile db ticket h =
      let (found, checked, done, same) =
        use_ticket-ok now (check_ticket now (r.find text db)) (meanwhile db) ticket h in
      let (there, unused, fresh) = check_ticket-ok now (r.find text db) found checked in
      (found, there, unused, fresh, same, done, rw checked refl)

  module _ (IsUsed : ℕ → Db → Type 0) (law : Lawful r IsUsed) where
    run-IsUsed :
        (id : ℕ) (operations : List Operation) (db : Db)
        → IsUsed id db
        → IsUsed id (run r operations db)
    run-IsUsed id [] db h = h
    run-IsUsed id (inserts ticket user_id issued_at expire_at ∷ operations) db h =
        run-IsUsed id operations _ (law.insert_keeps id ticket user_id issued_at expire_at db h)
    run-IsUsed id (updates other used_at ∷ operations) db h =
        run-IsUsed id operations _ (law.update_keeps id other used_at db h)

    -- If two calls of `consume_ticket` succeed, one after the other ends, they consumed different
    -- tickets, whatever operations other tasks run during and between them; provided that the
    -- repository sets `used_at` once and keeps it.
    pub consume_ticket_once :
        (now later : ℕ) (text again : String) (during between then : List Operation) (db : Db)
        (ticket other : Ticket)
        → let first = consume_ticket r now text (run r during) db in
          let second = consume_ticket r later again (run r then) (run r between first.0) in
          first.1 ≡ Result.ok ticket → second.1 ≡ Result.ok other → other.id ≢ ticket.id
    consume_ticket_once now later text again during between then db ticket other h k same =
        let (found, _, _, _, t, done, after) =
          consume_ticket-ok now text (run r during) db ticket h in
        let first = (consume_ticket r now text (run r during) db).0 in
        let (found', _, _, _, t', done', _) =
          consume_ticket-ok later again (run r then) (run r between first) other k in
        let used : IsUsed found.id (run r then (run r between first)) = run-IsUsed found.id then _ (
          run-IsUsed found.id between first (
            subst (IsUsed found.id) (sym after)
              (law.update_sets found.id now (run r during db) done))) in
        let ids : found'.id ≡ found.id = sym (ap (λ x. x.id) t') ∙ same ∙ ap (λ x. x.id) t in
        law.update_refuses found'.id later _
          (subst (λ i. IsUsed i (run r then (run r between first))) (sym ids) used) done'
