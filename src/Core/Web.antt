-- ===== src/Core/Web.antt =====
-- The web application of tom-notifier-core: `routing` of routing.rs, `create_middleware` of
-- application/application_middleware.rs and `create_application` of application/application.rs,
-- without the layer that traces.
use Prim.Native.String.{String}
use tom_notifier.Base.{
  ℕ, ◌≤◌, ◌≡◌, refl, inl, inr, false, List, [], ◌∷◌, Option, none, some, Result, arith, ltb,
  if◌then◌else◌, Option-cases,
}
use tom_notifier.Auth.{User, Claims, Accepted}
use tom_notifier.Auth.Layer as Layer
use tom_notifier.Auth.Layer.{Validation, JwtAuthLayer, guard, guard-refused, guard-accepted}
use tom_notifier.Http.{
  Method, get, post, put, delete, Segment, literal, parameter, route_of, handler_of, Http,
}
use tom_notifier.Core.Types.{Repository}
use tom_notifier.Core.Producer.{External}
use tom_notifier.Core.Routing.{Request, Response, empty, handle}
use tom_notifier.Core.Env.{ApplicationEnv}

pub record ApplicationMiddleware (K : Type 0) : Type 0 where
  pub auth : JwtAuthLayer K
  pub body_limit : ℕ

unfoldable pub create_middleware :
    {Address K : Type 0} → ApplicationEnv Address K → ApplicationMiddleware K
unfolding Layer.new
create_middleware env = record {
  auth = Layer.new env.jwt_key env.jwt_algorithms;
  body_limit = env.max_http_content_len;
}

-- The handlers of routing.rs.
pub data Handler : Type 0 where
  post_notifications_undelivered get_notifications_undelivered : Handler
  put_notifications_undelivered_invalidate_at : Handler
  get_notifications_delivered get_notification_delivered : Handler
  delete_notification_delivered put_notification_delivered_seen : Handler

abbrev pub under : String → List Segment → List Segment
under part rest = literal "api" ∷ literal "v1" ∷ literal "notifications" ∷ literal part ∷ rest

-- `routing`: the paths, and the methods of each.
abbrev pub routing : List (List Segment × List (Method × Handler))
routing =
    (
      under "undelivered" [],
      (post, post_notifications_undelivered) ∷ (get, get_notifications_undelivered) ∷ [],
    )
    ∷ (
      under "undelivered" (parameter ∷ literal "invalidate_at" ∷ []),
      (put, put_notifications_undelivered_invalidate_at) ∷ [],
    )
    ∷ (under "delivered" [], (get, get_notifications_delivered) ∷ [])
    ∷ (
      under "delivered" (parameter ∷ []),
      (get, get_notification_delivered) ∷ (delete, delete_notification_delivered) ∷ [],
    )
    ∷ (
      under "delivered" (parameter ∷ literal "seen" ∷ []),
      (put, put_notification_delivered_seen) ∷ [],
    )
    ∷ []

-- The handler that each request is meant for.
abbrev pub handler_for : Request → Handler
handler_for (Request.post_notifications_undelivered n) = post_notifications_undelivered
handler_for Request.get_notifications_undelivered = get_notifications_undelivered
handler_for (Request.put_notifications_undelivered_invalidate_at id invalidate_at) =
    put_notifications_undelivered_invalidate_at
handler_for (Request.get_notifications_delivered pagination filters) = get_notifications_delivered
handler_for (Request.get_notification_delivered id) = get_notification_delivered
handler_for (Request.delete_notification_delivered id) = delete_notification_delivered
handler_for (Request.put_notification_delivered_seen id seen) = put_notification_delivered_seen

abbrev below : String → List String → List String
below part rest = "api" ∷ "v1" ∷ "notifications" ∷ part ∷ rest

-- The method and the path of each request, whatever text its parameter has.
abbrev pub IsSentTo : Request → Method → List String → Type 0
IsSentTo (Request.post_notifications_undelivered n) method path =
    (method ≡ post) × (path ≡ below "undelivered" [])
IsSentTo Request.get_notifications_undelivered method path =
    (method ≡ get) × (path ≡ below "undelivered" [])
IsSentTo (Request.put_notifications_undelivered_invalidate_at id invalidate_at) method path =
    (text : String) × (method ≡ put) × (path ≡ below "undelivered" (text ∷ "invalidate_at" ∷ []))
IsSentTo (Request.get_notifications_delivered pagination filters) method path =
    (method ≡ get) × (path ≡ below "delivered" [])
IsSentTo (Request.get_notification_delivered id) method path =
    (text : String) × (method ≡ get) × (path ≡ below "delivered" (text ∷ []))
IsSentTo (Request.delete_notification_delivered id) method path =
    (text : String) × (method ≡ delete) × (path ≡ below "delivered" (text ∷ []))
IsSentTo (Request.put_notification_delivered_seen id seen) method path =
    (text : String) × (method ≡ put) × (path ≡ below "delivered" (text ∷ "seen" ∷ []))

-- The routes that have a path, and of them the handler of a method.
abbrev Routes : Request → Method → List String → Type 0
Routes request method path =
    (methods : List (Method × Handler)) × (route_of routing path ≡ some methods)
    × (handler_of methods method ≡ some (handler_for request))

routing-Routes :
    (request : Request) (method : Method) (path : List String)
    → IsSentTo request method path
    → Routes request method path
routing-Routes (Request.post_notifications_undelivered n) method path (m, p) =
    rw (m, p) (_, refl, refl)
routing-Routes Request.get_notifications_undelivered method path (m, p) = rw (m, p) (_, refl, refl)
routing-Routes (Request.put_notifications_undelivered_invalidate_at id invalidate_at) method path
      (text, m, p) =
    rw (m, p) (_, refl, refl)
routing-Routes (Request.get_notifications_delivered pagination filters) method path (m, p) =
    rw (m, p) (_, refl, refl)
routing-Routes (Request.get_notification_delivered id) method path (text, m, p) =
    rw (m, p) (_, refl, refl)
routing-Routes (Request.delete_notification_delivered id) method path (text, m, p) =
    rw (m, p) (_, refl, refl)
routing-Routes (Request.put_notification_delivered_seen id seen) method path (text, m, p) =
    rw (m, p) (_, refl, refl)

-- `decode` is `jsonwebtoken::decode`; `extract` is what the framework reads of the path's parameter,
-- the query and the body for a handler, or the status with which it refuses them.
module _ {K Db : Type 0} (decode : K → Validation → String → Option Claims)
    (extract : Handler → Http → Result Request ℕ) (middleware : ApplicationMiddleware K)
    (x : External) (r : Repository Db) (max_content_len now created_at : ℕ)
    (meanwhile : Db → Db) where
  abbrev pub refused : ℕ → Db → Response Db
  refused status db = record { db = db; produced = []; status = status; body = empty }

  -- The layer that limits the body, around a route or the fallback.
  abbrev pub limited : Http → Db → Response Db → Response Db
  limited http db response =
      if ltb middleware.body_limit http.content_length then refused 413 db else response

  abbrev extracted : User → Db → Result Request ℕ → Response Db
  extracted user db (Result.ok request) =
      handle x r max_content_len now created_at meanwhile request user db
  extracted user db (Result.err status) = refused status db

  abbrev pub dispatch : Option Handler → User → Http → Db → Response Db
  dispatch none user http db = refused 405 db
  dispatch (some handler) user http db = extracted user db (extract handler http)

  abbrev service : List (Method × Handler) → Db → User → Layer.Request Http → Response Db
  service methods db user req =
      limited req.rest db (dispatch (handler_of methods req.rest.method) user req.rest db)

  abbrev authorize : List (Method × Handler) → Layer.Request Http → Db → Response Db
  authorize methods req db = guard decode (service methods db) middleware.auth (refused 401 db) req

  abbrev pub routed : Option (List (Method × Handler)) → Layer.Request Http → Db → Response Db
  routed none req db = limited req.rest db (refused 404 db)
  routed (some methods) req db = authorize methods req db

  -- `create_application`: the layer for the authorization is around the routes alone, and inside it the
  -- limit of the body. Handlers answer at once here.
  unfoldable pub create_application : Layer.Request Http → Db → Response Db
  unfolding handle guard
  create_application req db = routed (route_of routing req.rest.path) req db

  -- A request in its form of HTTP: it has the method and the path of the request, the framework reads
  -- it for the handler that is meant, and the body is within the limit.
  abbrev pub IsHttpOf : Http → Request → Type 0
  IsHttpOf http request =
      IsSentTo request http.method http.path
      × (extract (handler_for request) http ≡ Result.ok request)
      × (http.content_length ≤ middleware.body_limit)

  abbrev pub Accepts : Layer.Request Http → User → Type 0
  Accepts req user =
      Accepted (decode middleware.auth.key middleware.auth.validation) req.authorization user

  -- Nothing is stored and nothing is announced.
  abbrev pub Untouched : Db → Response Db → Type 0
  Untouched db response = (response.db ≡ db) × (response.produced ≡ [])

  limited-Untouched :
      (http : Http) (db : Db) (status : ℕ) → Untouched db (limited http db (refused status db))
  limited-Untouched http db status = ground arith

  authorize-Untouched :
      (methods : List (Method × Handler)) (req : Layer.Request Http) (db : Db)
      → ((user : User) → ¬ Accepts req user)
      → Untouched db (authorize methods req db)
  authorize-Untouched methods req db nobody =
      rw (guard-refused decode (service methods db) middleware.auth (refused 401 db) req nobody)
        (refl, refl)

  service-handle :
      (methods : List (Method × Handler)) (handler : Handler) (request : Request) (user : User)
      (req : Layer.Request Http) (db : Db)
      → handler_of methods req.rest.method ≡ some handler
      → extract handler req.rest ≡ Result.ok request
      → req.rest.content_length ≤ middleware.body_limit
      → service methods db user req
        ≡ handle x r max_content_len now created_at meanwhile request user db
  service-handle methods handler request user req db found read short =
      let within : ltb middleware.body_limit req.rest.content_length ≡ false = ground arith in
      rw (within, found, read) refl

  -- Each of the seven requests, sent with its method to its path, with a token that decodes under the
  -- key and algorithms of the middleware and a body within the limit, is answered by its own handler,
  -- for the user of the token; provided that the framework reads it for that handler.
  pub create_application-handle :
      (req : Layer.Request Http) (db : Db) (user : User) (request : Request)
      → Accepts req user
      → IsHttpOf req.rest request
      → create_application req db
        ≡ handle x r max_content_len now created_at meanwhile request user db
  unfolding create_application
  create_application-handle req db user request accepted (sent, read, short) =
      let (methods, path, found) = routing-Routes request req.rest.method req.rest.path sent in
      rw
        (
          path,
          guard-accepted decode (service methods db) middleware.auth (refused 401 db) req user
              accepted,
        )
        (service-handle methods (handler_for request) request user req db found read short)

  -- Without a token that decodes under the key and algorithms of the middleware, no request stores or
  -- announces anything.
  pub create_application-Untouched :
      (req : Layer.Request Http) (db : Db)
      → ((user : User) → ¬ Accepts req user)
      → Untouched db (create_application req db)
  unfolding create_application
  create_application-Untouched req db nobody =
      elim (Option-cases (route_of routing req.rest.path)) [
        | inl unknown ↦ rw unknown (limited-Untouched req.rest db 404)
        | inr (methods, path) ↦ rw path (authorize-Untouched methods req db nobody)
      ]
