-- ===== src/Tests/Visit.antt =====
-- Runs of the web application of tom-notifier-ws-delivery.
use Prim.Native.String.{String}
use text.Mathlib.Text.{◌==◌}
use tom_notifier.Base.{
  ℕ, ◌++◌, ◌≡◌, ◌⊎◌, List, refl, true, [], ◌∷◌, Option, none, some, Result, if◌then◌else◌,
}
use tom_notifier.Http.{Http, get, delete}
use tom_notifier.Auth.{User, Claims, has_role}
use tom_notifier.Auth.Util.{hs256}
use tom_notifier.Auth.Layer as Layer
use tom_notifier.Auth.Layer.{Validation, JwtAuthLayer}
use tom_notifier.Delivery.Tickets.{consume_ticket}
use tom_notifier.Delivery.Tickets.Mongo.{repository, find, update_used_at}
use tom_notifier.Delivery.Websocket.Service.{Fresh, new}
use tom_notifier.Protobuf.{WebSocketNotification}
use tom_notifier.Delivery.Routing.{admin, websocket_upgrade}
use tom_notifier.Delivery.Web.{
  Extract, Response, connections_of, newcomer, create_application, Accepts, WithTicket,
  create_application-ByAdmin, create_application-WithTicket,
}
use tom_notifier.Tests.Enter.{Db, collection}

abbrev layer : JwtAuthLayer String
layer = Layer.new "key" (hs256 ∷ [])

-- A token library that knows the token of one administrator.
abbrev decode : String → Validation → String → Option Claims
decode key validation token =
    if token == "abc" then some (record { sub = 9; roles = admin ∷ [] }) else none

abbrev extract : Extract
extract = record { user_id = λ http. Result.ok 7; ticket = λ http. Result.ok "one" }

abbrev write : WebSocketNotification → List ℕ
write m = []

abbrev fresh : Fresh
fresh = record { now = 60; message_id = 1; flag = 0 }

abbrev http : Http
http = record { method = get; path = "ws" ∷ "v1" ∷ []; content = []; content_length = 0 }

abbrev upgrade : Layer.Request Http
upgrade = record { authorization = none; rest = http }

-- One ticket was used already, and the user comes with the other.
create_application-WithTicket_example :
    WithTicket decode extract layer
      (repository collection)
      30
      60
      "new"
      (λ db. db)
      write
      fresh
      5
      upgrade
      (none, some 50)
      7
unfolding create_application websocket_upgrade consume_ticket find update_used_at
create_application-WithTicket_example =
    create_application-WithTicket decode extract layer (repository collection) 30 60 "new"
      (λ db. db) write fresh 5 upgrade (none, some 50) new 7 refl

abbrev disconnect : Layer.Request Http
disconnect = record {
  authorization = some (some "Bearer abc");
  rest = record http { method = delete; path = "api" ∷ "v1" ∷ "connection" ∷ "7" ∷ [] };
}

abbrev left : Response Db
left =
    create_application decode extract layer (repository collection) 30 60 "new" (λ db. db) write
      fresh 5 disconnect (none, none) new

create_application-ByAdmin_example :
    ((user_id : ℕ)
      → connections_of user_id left.websockets
        ≡ connections_of user_id new ++ newcomer left.client 5 user_id)
    ⊎ ((user : User) × Accepts decode extract layer
          (repository collection)
          30
          60
          "new"
          (λ db. db)
          write
          fresh
          5
          disconnect
          user
        × (has_role user admin ≡ true))
create_application-ByAdmin_example =
    create_application-ByAdmin decode extract layer (repository collection) 30 60 "new" (λ db. db)
      write fresh 5 disconnect (none, none) new
