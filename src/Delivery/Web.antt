-- ===== src/Delivery/Web.antt =====
-- The web application of tom-notifier-ws-delivery: `create_application` of application/application.rs,
-- without the layer that traces, with the routes of Routes.
mod Routes
mod Opened
pub use Routes.*
pub use Opened.{opened, connections_of, newcomer, kept, opened-newcomer}
use Prim.Native.String.{String}
use mathlib.Core.Path.{subst}
use tom_notifier.Base.{
  ℕ, ◌≤◌, ◌≡◌, ◌≢◌, ◌⊎◌, refl, inl, inr, Bool, true, List, [], ◌∷◌, ◌++◌, Option, none, some,
  Result, Option-cases, Bool-cases,
}
use tom_notifier.Http.{Method, route_of, handler_of, Http}
use tom_notifier.Auth.{User, Claims, Accepted, has_role}
use tom_notifier.Auth.Layer as Layer
use tom_notifier.Auth.Layer.{
  Validation, JwtAuthLayer, guard, poll-call, guard-refused, guard-accepted,
}
use tom_notifier.Delivery.Tickets.{Repository, Ticket}
use tom_notifier.Protobuf.{WebSocketNotification}
use tom_notifier.Delivery.Websocket.Service.{Service, Fresh}
use tom_notifier.Delivery.Routing as Routing
use tom_notifier.Delivery.Routing.{admin, websocket_upgrade-client, admins_only}

-- `decode` is `jsonwebtoken::decode`; `text` is the text of the next ticket, and `meanwhile` what
-- others do to the database while a ticket is consumed. `connection` is the new connection if one is
-- opened, and `fresh` what a message to it takes from outside.
module _ {K Db : Type 0} (decode : K → Validation → String → Option Claims) (extract : Extract)
    (auth : JwtAuthLayer K) (r : Repository Db) (ticket_lifespan now : ℕ) (text : String)
    (meanwhile : Db → Db) (encode : WebSocketNotification → List ℕ) (fresh : Fresh)
    (connection : ℕ) where
  abbrev pub refused : ℕ → Db → Service → Response Db
  refused status db websockets = record {
    db = db;
    websockets = websockets;
    status = status;
    ticket = none;
    client = none;
  }

  abbrev ticket_for : User → Db → Service → Response Db
  ticket_for user db websockets =
      let t = Routing.get_ticket r ticket_lifespan now text user db in
      record (refused t.status t.db websockets) { ticket = t.ticket }

  abbrev deleted_for : User → Result ℕ ℕ → Db → Service → Response Db
  deleted_for user (Result.err status) db websockets = refused status db websockets
  deleted_for user (Result.ok user_id) db websockets =
      let d = Routing.delete_connection user user_id websockets in refused d.1 db d.0

  abbrev upgraded : Result String ℕ → Db → Service → Response Db
  upgraded (Result.err status) db websockets = refused status db websockets
  upgraded (Result.ok ticket) db websockets =
      let u = Routing.websocket_upgrade r now ticket meanwhile db in
      record (refused u.status u.db (opened encode fresh connection u.client websockets)) {
        client = u.client;
      }

  abbrev pub dispatch : Db → Service → Option Guarded → User → Layer.Request Http → Response Db
  dispatch db websockets none user req = refused 405 db websockets
  dispatch db websockets (some get_ticket) user req = ticket_for user db websockets
  dispatch db websockets (some delete_connection) user req =
      deleted_for user (extract.user_id req.rest) db websockets

  abbrev pub dispatch_open : Option Open → Result String ℕ → Db → Service → Response Db
  dispatch_open none ticket db websockets = refused 405 db websockets
  dispatch_open (some websocket_upgrade) ticket db websockets = upgraded ticket db websockets

  abbrev authorize : List (Method × Guarded) → Layer.Request Http → Db → Service → Response Db
  authorize methods req db websockets =
      guard decode (dispatch db websockets (handler_of methods req.rest.method)) auth
        (refused 401 db websockets) req

  abbrev open_or_unknown : Option (List (Method × Open)) → Http → Db → Service → Response Db
  open_or_unknown none http db websockets = refused 404 db websockets
  open_or_unknown (some methods) http db websockets =
      dispatch_open (handler_of methods http.method) (extract.ticket http) db websockets

  abbrev pub routed :
      Option (List (Method × Guarded)) → Layer.Request Http → Db → Service → Response Db
  routed none req db websockets =
      open_or_unknown (route_of open_routes req.rest.path) req.rest db websockets
  routed (some methods) req db websockets = authorize methods req db websockets

  unfoldable pub create_application : Layer.Request Http → Db → Service → Response Db
  unfolding guard opened Routing.get_ticket Routing.delete_connection Routing.websocket_upgrade
  create_application req db websockets =
      routed (route_of guarded_routes req.rest.path) req db websockets

  abbrev pub Accepts : Layer.Request Http → User → Type 0
  Accepts req user = Accepted (decode auth.key auth.validation) req.authorization user

  -- Every user has the connections that he had, and the one that is opened.
  abbrev Grows : Service → Response Db → Type 0
  Grows websockets response =
      (user_id : ℕ)
      → connections_of user_id response.websockets
        ≡ connections_of user_id websockets ++ newcomer response.client connection user_id

  -- Nobody has lost a connection, or the request is an administrator's.
  abbrev ByAdmin : Layer.Request Http → Service → Response Db → Type 0
  ByAdmin req websockets response =
      Grows websockets response ⊎ ((user : User) × Accepts req user × (has_role user admin ≡ true))

  -- A websocket is opened with a stored ticket of the user.
  abbrev pub WithTicket : Layer.Request Http → Db → ℕ → Type 0
  WithTicket req db user_id =
      (ticket : String) × (found : Ticket) × (extract.ticket req.rest ≡ Result.ok ticket)
      × (r.find ticket db ≡ Result.ok (some found))
      × (found.used_at ≡ none)
      × (now ≤ found.expire_at)
      × (found.user_id ≡ user_id)

  deleted-ByAdmin :
      (req : Layer.Request Http) (user : User) (user_id : Result ℕ ℕ) (db : Db)
      (websockets : Service)
      → Accepts req user
      → ByAdmin req websockets (deleted_for user user_id db websockets)
  deleted-ByAdmin req user (Result.err status) db websockets accepted = inl (λ u. kept u websockets)
  deleted-ByAdmin req user (Result.ok user_id) db websockets accepted =
      elim (Bool-cases (has_role user admin)) [
        | inl is_admin ↦ inr (user, accepted, is_admin)
        | inr is_not ↦
            rw (admins_only user user_id websockets is_not) (inl (λ u. kept u websockets))
      ]

  dispatch-ByAdmin :
      (req : Layer.Request Http) (user : User) (handler : Option Guarded) (db : Db)
      (websockets : Service)
      → Accepts req user
      → ByAdmin req websockets (dispatch db websockets handler user req)
  dispatch-ByAdmin req user none db websockets accepted = inl (λ u. kept u websockets)
  dispatch-ByAdmin req user (some get_ticket) db websockets accepted = inl (λ u. kept u websockets)
  dispatch-ByAdmin req user (some delete_connection) db websockets accepted =
      deleted-ByAdmin req user (extract.user_id req.rest) db websockets accepted

  -- What the layer makes of a request: the answer for its user, or the refusal.
  authorize-cases :
      (methods : List (Method × Guarded)) (req : Layer.Request Http) (db : Db)
      (websockets : Service)
      → ((user : User) × Accepts req user
          × (authorize methods req db websockets
              ≡ dispatch db websockets (handler_of methods req.rest.method) user req))
        ⊎ (authorize methods req db websockets ≡ refused 401 db websockets)
  authorize-cases methods req db websockets =
      let service = dispatch db websockets (handler_of methods req.rest.method) in
      let refusal = refused 401 db websockets in
      elim (poll-call decode service auth {E = Unit {0}} refusal
        (λ answer. Layer.ready (Result.ok answer)) req) [
          | inl (user, accepted, e) ↦
              inl (user, accepted, guard-accepted decode service auth refusal req user accepted)
          | inr (nobody, e) ↦ inr (guard-refused decode service auth refusal req nobody)
        ]

  dispatch_open-Grows :
      (handler : Option Open) (ticket : Result String ℕ) (db : Db) (websockets : Service)
      → Grows websockets (dispatch_open handler ticket db websockets)
  dispatch_open-Grows none ticket db websockets user_id = kept user_id websockets
  dispatch_open-Grows (some websocket_upgrade) (Result.ok ticket) db websockets user_id =
      opened-newcomer encode fresh connection
        (Routing.websocket_upgrade r now ticket meanwhile db).client websockets user_id
  dispatch_open-Grows (some websocket_upgrade) (Result.err status) db websockets user_id =
      kept user_id websockets

  open-Grows :
      (methods : Option (List (Method × Open))) (http : Http) (db : Db) (websockets : Service)
      → Grows websockets (open_or_unknown methods http db websockets)
  open-Grows none http db websockets user_id = kept user_id websockets
  open-Grows (some methods) http db websockets user_id =
      dispatch_open-Grows (handler_of methods http.method) (extract.ticket http) db websockets
        user_id

  -- No request takes a connection from a user but that of an administrator, whose token decodes under
  -- the key and algorithms of the layer: after any other request every user has the connections that he
  -- had, and behind them the new connection if a websocket is opened for him.
  pub create_application-ByAdmin :
      (req : Layer.Request Http) (db : Db) (websockets : Service)
      → ((user_id : ℕ)
          → connections_of user_id (create_application req db websockets).websockets
            ≡ connections_of user_id websockets
              ++ newcomer (create_application req db websockets).client connection user_id)
        ⊎ ((user : User) × Accepts req user × (has_role user admin ≡ true))
  unfolding create_application
  create_application-ByAdmin req db websockets =
      elim (Option-cases (route_of guarded_routes req.rest.path)) [
        | inl other ↦
            rw other (inl (open-Grows (route_of open_routes req.rest.path) req.rest db websockets))
        | inr (methods, path) ↦ elim (authorize-cases methods req db websockets) [
          | inl (user, accepted, e) ↦
              rw (path, e)
                (dispatch-ByAdmin req user (handler_of methods req.rest.method) db websockets
                  accepted)
          | inr e ↦ rw (path, e) (inl (λ user_id. kept user_id websockets))
        ]
      ]

  dispatch_open-client :
      (handler : Option Open) (ticket : Result String ℕ) (db : Db) (websockets : Service)
      (user_id : ℕ)
      → (dispatch_open handler ticket db websockets).client ≡ some user_id
      → (t : String) × (found : Ticket) × (ticket ≡ Result.ok t)
        × (r.find t db ≡ Result.ok (some found))
        × (found.used_at ≡ none)
        × (now ≤ found.expire_at)
        × (found.user_id ≡ user_id)
  dispatch_open-client none ticket db websockets user_id h = cc
  dispatch_open-client (some websocket_upgrade) (Result.err status) db websockets user_id h = cc
  dispatch_open-client (some websocket_upgrade) (Result.ok t) db websockets user_id h =
      let (found, there, unused, fresh, same) =
        websocket_upgrade-client r now t meanwhile db user_id h in
      (t, found, refl, there, unused, fresh, same)

  dispatch-client :
      (handler : Option Guarded) (user : User) (user_id : Result ℕ ℕ) (req : Layer.Request Http)
      (db : Db) (websockets : Service)
      → extract.user_id req.rest ≡ user_id
      → (dispatch db websockets handler user req).client ≡ none
  dispatch-client none user user_id req db websockets e = refl
  dispatch-client (some get_ticket) user user_id req db websockets e = refl
  dispatch-client (some delete_connection) user (Result.ok id) req db websockets e = rw e refl
  dispatch-client (some delete_connection) user (Result.err status) req db websockets e = rw e refl

  open-client :
      (methods : Option (List (Method × Open))) (req : Layer.Request Http) (db : Db)
      (websockets : Service) (user_id : ℕ)
      → (open_or_unknown methods req.rest db websockets).client ≡ some user_id
      → WithTicket req db user_id
  open-client none req db websockets user_id h = cc
  open-client (some methods) req db websockets user_id h =
      dispatch_open-client (handler_of methods req.rest.method) (extract.ticket req.rest) db
        websockets user_id h

  -- A websocket is opened for a user only by a request with a ticket that is stored for this user, was
  -- not used and has not expired.
  pub create_application-WithTicket :
      (req : Layer.Request Http) (db : Db) (websockets : Service) (user_id : ℕ)
      → (create_application req db websockets).client ≡ some user_id
      → WithTicket req db user_id
  unfolding create_application
  create_application-WithTicket req db websockets user_id h =
      elim (Option-cases (route_of guarded_routes req.rest.path)) [
        | inl other ↦
            open-client (route_of open_routes req.rest.path) req db websockets user_id
              (subst (λ methods. (routed methods req db websockets).client ≡ some user_id) other h)
        | inr (methods, path) ↦
            let guarded =
              subst (λ found. (routed found req db websockets).client ≡ some user_id) path h in
            elim (authorize-cases methods req db websockets) [
              | inl (user, accepted, e) ↦
                  let no_client =
                    dispatch-client (handler_of methods req.rest.method) user
                      (extract.user_id req.rest) req db websockets refl in
                  cc (guarded, e, no_client)
              | inr e ↦ cc (guarded, e)
            ]
      ]
