-- ===== src/Auth/Layer.antt =====
-- shared/jwt_auth/src/middleware: the layer, its service, and the future that it answers with.
use Prim.Native.String.{String}
use tom_notifier.Base.{◌≡◌, refl, inl, inr, ◌⊎◌, List, Option, Result}
use tom_notifier.Auth.{
  User, Claims, parse_authorization_header, Accepted, parse_authorization_header-Accepted,
  Accepted-parse_authorization_header,
}
use tom_notifier.Auth.Util.{Algorithm}

-- `Validation`, of which the layer sets the algorithms and keeps the library's other defaults.
pub record Validation : Type 0 where
  pub algorithms : List Algorithm

-- `JwtAuthLayer`, and `JwtAuthService` without the inner service.
pub record JwtAuthLayer (K : Type 0) : Type 0 where
  pub validation : Validation
  pub key : K

unfoldable pub new : {K : Type 0} → K → List Algorithm → JwtAuthLayer K
new key algorithms = record { validation = record { algorithms = algorithms }; key = key }

-- `JwtAuthFuture`, with the inner service's future.
pub data JwtAuthFuture (F : Type 0) : Type 0 where
  authorized : F → JwtAuthFuture F
  unauthorized : JwtAuthFuture F

pub data Poll (A : Type 0) : Type 0 where
  pending : Poll A
  ready : A → Poll A

-- A request as the service sees it: its `Authorization` header, as what `to_str` yields, and the
-- rest.
pub record Request (B : Type 0) : Type 0 where
  pub authorization : Option (Option String)
  pub rest : B

-- `unauthorized_response` is the empty response with the status 401; `inner_poll` is `poll` of the
-- inner future.
unfoldable pub poll :
    {F Response E : Type 0}
    → Response
    → (F → Poll (Result Response E))
    → JwtAuthFuture F
    → Poll (Result Response E)
poll unauthorized_response inner_poll (authorized inner) = inner_poll inner
poll unauthorized_response inner_poll unauthorized = ready (Result.ok unauthorized_response)

-- `decode` is `jsonwebtoken::decode`, and `inner` calls the inner service on a request with the user
-- among its extensions.
module _ {K B F : Type 0} (decode : K → Validation → String → Option Claims)
    (inner : User → Request B → F) (layer : JwtAuthLayer K) where
  abbrev call_for : Request B → Result User String → JwtAuthFuture F
  call_for req (Result.ok user) = authorized (inner user req)
  call_for req (Result.err e) = unauthorized

  unfoldable pub call : Request B → JwtAuthFuture F
  unfolding parse_authorization_header
  call req =
      call_for req
        (parse_authorization_header (decode layer.key layer.validation) req.authorization)

  -- A request that the layer accepts, and for whom.
  abbrev pub Lets : Request B → User → Type 0
  Lets req user = Accepted (decode layer.key layer.validation) req.authorization user

  -- Polling the answer is polling the inner service's answer for the user of a token that decodes under
  -- the layer's key and algorithms, if the request's header holds one; else the answer is 401 at once.
  pub poll-call :
      {Response E : Type 0} (unauthorized_response : Response)
      (inner_poll : F → Poll (Result Response E)) (req : Request B)
      → ((user : User) × Lets req user
          × (poll unauthorized_response inner_poll (call req) ≡ inner_poll (inner user req)))
        ⊎ (((user : User) → ¬ Lets req user)
            × (poll unauthorized_response inner_poll (call req)
                ≡ ready (Result.ok unauthorized_response)))
  unfolding poll call
  poll-call unauthorized_response inner_poll req =
      by_result (parse_authorization_header decode_token req.authorization) refl
    where
      decode_token : String → Option Claims
      decode_token = decode layer.key layer.validation

      by_result :
          (r : Result User String)
          → parse_authorization_header decode_token req.authorization ≡ r
          → ((user : User) × Lets req user
              × (poll unauthorized_response inner_poll (call_for req r)
                  ≡ inner_poll (inner user req)))
            ⊎ (((user : User) → ¬ Lets req user)
                × (poll unauthorized_response inner_poll (call_for req r)
                    ≡ ready (Result.ok unauthorized_response)))
      by_result (Result.ok user) e =
          inl
            (user, parse_authorization_header-Accepted decode_token req.authorization user e, refl)
      by_result (Result.err text) e = inr (
        λ user accepted.
            cc
              (e, Accepted-parse_authorization_header decode_token req.authorization user accepted),
        refl,
      )

  -- A service that answers at once, behind the layer.
  unfoldable pub guard : F → Request B → F
  unfolding call poll
  guard unauthorized_response req =
      answer_of (poll unauthorized_response (λ answer. ready (Result.ok answer)) (call req))
    where
      answer_of : Poll (Result F (Unit {0})) → F
      answer_of (ready (Result.ok answer)) = answer
      answer_of _ = unauthorized_response

  pub guard-accepted :
      (unauthorized_response : F) (req : Request B) (user : User)
      → Lets req user
      → guard unauthorized_response req ≡ inner user req
  unfolding guard
  guard-accepted unauthorized_response req user accepted =
      rw
        (Accepted-parse_authorization_header (decode layer.key layer.validation) req.authorization
          user accepted)
        refl

  pub guard-refused :
      (unauthorized_response : F) (req : Request B)
      → ((user : User) → ¬ Lets req user)
      → guard unauthorized_response req ≡ unauthorized_response
  unfolding guard
  guard-refused unauthorized_response req nobody =
      elim (poll-call {E = Unit {0}} unauthorized_response (λ answer. ready (Result.ok answer))
        req) [
          | inl (user, accepted, e) ↦ elim (nobody user accepted) [ ]
          | inr (nobody_else, e) ↦ rw e refl
        ]
