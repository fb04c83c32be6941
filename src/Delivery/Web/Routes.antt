-- ===== src/Delivery/Web/Routes.antt =====
-- `routing` of tom-notifier-ws-delivery/src/routing.rs, and what requests come with and leave.
use Prim.Native.String.{String}
use tom_notifier.Base.{ℕ, List, [], ◌∷◌, Option, Result}
use tom_notifier.Http.{Method, get, delete, Segment, literal, parameter, Http}
use tom_notifier.Delivery.Websocket.Service.{Service}

-- The handlers behind the layer for the authorization, and the one beside it.
pub data Guarded : Type 0 where
  get_ticket delete_connection : Guarded

pub data Open : Type 0 where
  websocket_upgrade : Open

-- `routing`: the routes before `route_layer`, and the one after it.
abbrev pub guarded_routes : List (List Segment × List (Method × Guarded))
guarded_routes =
    (literal "api" ∷ literal "v1" ∷ literal "ticket" ∷ [], (get, get_ticket) ∷ [])
    ∷ (
      literal "api" ∷ literal "v1" ∷ literal "connection" ∷ parameter ∷ [],
      (delete, delete_connection) ∷ [],
    )
    ∷ []

abbrev pub open_routes : List (List Segment × List (Method × Open))
open_routes = (literal "ws" ∷ literal "v1" ∷ [], (get, websocket_upgrade) ∷ []) ∷ []

-- What a request leaves and answers; `client` is the user for whom a websocket is opened.
pub record Response (Db : Type 0) : Type 0 where
  pub db : Db
  pub websockets : Service
  pub status : ℕ
  pub ticket : Option String
  pub client : Option ℕ

-- What the framework reads of a request: the user's id of the path, and the ticket of the query, where
-- the request asks for an upgrade; or the status with which it refuses the request.
pub record Extract : Type 0 where
  pub user_id : Http → Result ℕ ℕ
  pub ticket : Http → Result String ℕ
