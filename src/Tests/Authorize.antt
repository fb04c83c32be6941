-- ===== src/Tests/Authorize.antt =====
-- Runs of the model of shared/jwt_auth.
use Prim.Native.String.{String}
use text.Mathlib.Text.{◌==◌}
use tom_notifier.Auth.Util.{hs256}
use tom_notifier.Auth.Layer as Layer
use tom_notifier.Auth.Layer.{JwtAuthLayer, Validation, Poll, ready}
use tom_notifier.Base.{ℕ, ◌⊎◌, ◌≡◌, refl, [], ◌∷◌, Option, none, some, Result, if◌then◌else◌}
use tom_notifier.Auth.{
  User, Claims, parse_authorization_header, parse_authorization_header-separated,
}

abbrev user : User
user = record { id = 7; roles = "reader" ∷ [] }

-- A decoder that knows one token.
abbrev decode : String → Option Claims
decode token = if token == "abc" then some (record { sub = 7; roles = "reader" ∷ [] }) else none

-- Even a header whose token follows the word Bearer and a letter.
parse_authorization_header-separated_example :
    parse_authorization_header decode (some (some "BearerXabc")) ≡ Result.ok user
parse_authorization_header-separated_example =
    parse_authorization_header-separated "X" "abc" refl decode

abbrev layer : JwtAuthLayer String
layer = Layer.new "key" (hs256 ∷ [])

-- A library that knows one token under one key, and an inner service that answers with the id.
abbrev decode_under : String → Validation → String → Option Claims
decode_under key validation token = if key == "key" then decode token else none

abbrev inner : User → Layer.Request ℕ → ℕ
inner user req = user.id

abbrev answered : ℕ → Poll (Result ℕ String)
answered answer = ready (Result.ok answer)

abbrev request : Layer.Request ℕ
request = record { authorization = some (some "Bearer abc"); rest = 0 }

poll-call_example :
    ((user : User) × Layer.Lets decode_under inner layer request user
      × (Layer.poll 401 answered (Layer.call decode_under inner layer request)
          ≡ ready (Result.ok (inner user request))))
    ⊎ (((user : User) → ¬ Layer.Lets decode_under inner layer request user)
        × (Layer.poll 401 answered (Layer.call decode_under inner layer request)
            ≡ ready (Result.ok 401)))
poll-call_example = Layer.poll-call decode_under inner layer 401 answered request
