-- ===== src/Delivery/Routing.antt =====
-- The handlers of tom-notifier-ws-delivery/src/routing.rs.
use Prim.Native.String.{String}
use tom_notifier.Base.{ℕ, ◌≡◌, ◌≤◌, ◌∙◌, ap, sym, refl, false, [], ◌∷◌, Option, none, some, Result}
use tom_notifier.Auth.{User, has_role, require_all_roles, require_all_roles-first_missing}
use tom_notifier.Delivery.Tickets.{
  Repository, Ticket, Error, auth, into_response, create_ticket, consume_ticket,
}
use tom_notifier.Delivery.Tickets.Once.{consume_ticket-ok}
use tom_notifier.Delivery.Websocket.Service.{Service, close_connections}

-- auth/role.rs: `Role::Admin`.
abbrev pub admin : String
admin = "tom_notifier_admin"

-- A status and a body, or an error's status.
pub record TicketResponse (Db : Type 0) : Type 0 where
  pub db : Db
  pub status : ℕ
  pub ticket : Option String

unfoldable pub get_ticket :
    {Db : Type 0} → Repository Db → ℕ → ℕ → String → User → Db → TicketResponse Db
unfolding create_ticket into_response
get_ticket r lifespan now ticket user db =
    let created = create_ticket r lifespan now ticket user.id db in
    elim created.1 [
      | Result.ok t ↦ record { db = created.0; status = 200; ticket = some t }
      | Result.err e ↦ record { db = created.0; status = into_response e; ticket = none }
    ]

unfoldable pub delete_connection : User → ℕ → Service → Service × ℕ
unfolding require_all_roles close_connections into_response
delete_connection user user_id s = elim (require_all_roles user (admin ∷ [])) [
  | Result.ok _ ↦ (close_connections user_id s, 204)
  | Result.err e ↦ (s, into_response (auth e))
]

-- `client`: the user for whom `handle_client` runs once the connection is upgraded, which is
-- answered with 101.
pub record Upgrade (Db : Type 0) : Type 0 where
  pub db : Db
  pub status : ℕ
  pub client : Option ℕ

abbrev upgrade : {Db : Type 0} → Db → Result Ticket Error → Upgrade Db
upgrade db (Result.ok ticket) = record { db = db; status = 101; client = some ticket.user_id }
upgrade db (Result.err e) = record { db = db; status = into_response e; client = none }

unfoldable pub websocket_upgrade :
    {Db : Type 0} → Repository Db → ℕ → String → (Db → Db) → Db → Upgrade Db
unfolding consume_ticket into_response
websocket_upgrade r now ticket meanwhile db =
    let consumed = consume_ticket r now ticket meanwhile db in upgrade consumed.0 consumed.1

upgrade-client :
    {Db : Type 0} (db : Db) (consumed : Result Ticket Error) (user_id : ℕ)
    → (upgrade db consumed).client ≡ some user_id
    → (ticket : Ticket) × (consumed ≡ Result.ok ticket) × (ticket.user_id ≡ user_id)
upgrade-client db (Result.ok ticket) user_id h = (ticket, refl, cc)
upgrade-client db (Result.err e) user_id h = cc

-- A websocket is opened only for the user of a stored ticket that was not used and had not expired.
pub websocket_upgrade-client :
    {Db : Type 0} (r : Repository Db) (now : ℕ) (text : String) (meanwhile : Db → Db) (db : Db)
    (user_id : ℕ)
    → (websocket_upgrade r now text meanwhile db).client ≡ some user_id
    → (found : Ticket) × (r.find text db ≡ Result.ok (some found))
      × (found.used_at ≡ none)
      × (now ≤ found.expire_at)
      × (found.user_id ≡ user_id)
unfolding websocket_upgrade
websocket_upgrade-client r now text meanwhile db user_id h =
    let consumed = consume_ticket r now text meanwhile db in
    let (ticket, ok, same) = upgrade-client consumed.0 consumed.1 user_id h in
    let (found, there, unused, fresh, used, _, _) =
      consume_ticket-ok r now text meanwhile db ticket ok in
    (found, there, unused, fresh, ap (λ t. t.user_id) (sym used) ∙ same)

-- Without the role of an administrator nobody's connections are closed: the answer is 403.
pub admins_only :
    (user : User) (user_id : ℕ) (s : Service)
    → has_role user admin ≡ false
    → delete_connection user user_id s ≡ (s, 403)
unfolding delete_connection into_response
admins_only user user_id s h =
    let e : require_all_roles user (admin ∷ []) ≡ Result.err (record { missing_role = admin }) =
      require_all_roles-first_missing user (admin ∷ []) ∙ rw h refl in
    rw (e, delete_connection) refl
