-- ===== src/Tests/Web.antt =====
-- A run of the web application of tom-notifier-core.
use Prim.Native.String.{String}
use text.Mathlib.Text.{◌==◌}
use tom_notifier.Base.{
  ℕ, ◌≡◌, refl, true, [], ◌∷◌, Option, none, some, Result, arith, if◌then◌else◌,
}
use tom_notifier.Auth.{Claims, parse_authorization_header, parse_authorization_header-Accepted}
use tom_notifier.Auth.Util.{hs256, hs384}
use tom_notifier.Auth.Layer as Layer
use tom_notifier.Auth.Layer.{Validation}
use tom_notifier.Core.Routing.{Request, put_notification_delivered_seen, handle}
use tom_notifier.Http.{Http, put}
use tom_notifier.Core.Web.{
  ApplicationMiddleware, create_middleware, Handler, create_application, Untouched,
  create_application-handle, create_application-Untouched,
}
use tom_notifier.Tests.Notify.{repository}
use tom_notifier.Tests.Started.{core_env}
use tom_notifier.Tests.Unary.{writer}

-- A token library that knows one token under the key of the environment.
abbrev decode : String → Validation → String → Option Claims
decode key validation token =
    if key == "secret"
    then (if token == "abc" then some (record { sub = 7; roles = [] }) else none)
    else none

-- The framework reads the id 3 and the body true.
abbrev extract : Handler → Http → Result Request ℕ
extract handler http = Result.ok (put_notification_delivered_seen 3 true)

abbrev middleware : ApplicationMiddleware String
middleware = create_middleware core_env

abbrev request : Layer.Request Http
request = record {
  authorization = some (some "Bearer abc");
  rest = record {
    method = put;
    path = "api" ∷ "v1" ∷ "notifications" ∷ "delivered" ∷ "3" ∷ "seen" ∷ [];
    content = [];
    content_length = 10;
  };
}

create_application-handle_example :
    create_application decode extract middleware writer repository 1000 100 101
      (λ db. db)
      request
      true
    ≡ handle writer repository 1000 100 101
        (λ db. db)
        (put_notification_delivered_seen 3 true)
        (record { id = 7; roles = [] })
        true
unfolding create_middleware parse_authorization_header
create_application-handle_example =
    create_application-handle decode extract middleware writer repository 1000 100 101 (λ db. db)
      request true (record { id = 7; roles = [] }) (put_notification_delivered_seen 3 true)
      (parse_authorization_header-Accepted
        (decode "secret" (record { algorithms = hs256 ∷ hs384 ∷ [] })) (some (some "Bearer abc"))
        (record { id = 7; roles = [] }) refl)
      (("3", refl, refl), refl, omega arith)

abbrev anonymous : Layer.Request Http
anonymous = record request { authorization = none }

create_application-Untouched_example :
    Untouched decode extract middleware writer repository 1000 100 101
      (λ db. db)
      true
      (create_application decode extract middleware writer repository 1000 100 101
        (λ db. db)
        anonymous
        true)
create_application-Untouched_example =
    create_application-Untouched decode extract middleware writer repository 1000 100 101 (λ db. db)
      anonymous true (λ user accepted. cc accepted.header_is)
