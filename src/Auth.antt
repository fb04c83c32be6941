-- ===== src/Auth.antt =====
-- The crate shared/jwt_auth: the reading of the `Authorization` header, and the check of roles.
pub mod Util
pub mod Layer
pub mod Issue
use Prim.Native.String.{String, len, slice, ◌++◌ as ◌+++◌}
use text.Mathlib.Text.{is_le, is_char_boundary, starts_with, get?, ◌==◌ as ◌===◌}
use text.Mathlib.TextLemmas.{append_assoc}
use Prim.Native.Nat.{compare}
use text.Mathlib.TextPositions.{
  slice-append_right, boundary-append, boundary-len, starts_with-append, len-append,
}
use mathlib.Core.Path.{subst}
use tom_notifier.Base.{
  ℕ, ◌≤◌, ◌≡◌, ◌∙◌, refl, sym, ap, inl, inr, Bool, true, not, List, [], ◌∷◌, Option, none, some,
  if◌then◌else◌, any, filter, arith, Bool-cases, Option-cases, Result,
}

-- dto/user.rs.
pub record User : Type 0 where
  pub id : ℕ
  pub roles : List String

pub record MissingRoleError : Type 0 where
  pub missing_role : String

abbrev pub has_role : User → String → Bool
has_role user role = any (λ user_role. user_role === role) user.roles

unfoldable pub require_all_roles : User → List String → Result (Unit {0}) MissingRoleError
require_all_roles user [] = Result.ok tt
require_all_roles user (role ∷ roles) =
    let rest = require_all_roles user roles in
    if not (has_role user role) then Result.err (record { missing_role = role }) else rest

-- What a list of missing roles amounts to.
abbrev pub first_missing : List String → Result (Unit {0}) MissingRoleError
first_missing [] = Result.ok tt
first_missing (role ∷ roles) = Result.err (record { missing_role = role })

-- The check succeeds if the user has every role that is required, and otherwise names the first one,
-- in the order required, that the user lacks.
pub require_all_roles-first_missing :
    (user : User) (roles : List String)
    → require_all_roles user roles ≡ first_missing (filter (λ role. not (has_role user role)) roles)
unfolding require_all_roles
require_all_roles-first_missing user [] = refl
require_all_roles-first_missing user (role ∷ roles) = elim (Bool-cases (has_role user role)) [
  | inl has ↦ rw has (require_all_roles-first_missing user roles)
  | inr lacks ↦ rw lacks refl
]

-- dto/claims.rs, flattened.
pub record Claims : Type 0 where
  pub sub : ℕ
  pub roles : List String

-- The end of `parse_authorization_header`, on what decoding the token yields.
abbrev pub user_of : Option Claims → Result User String
user_of none = Result.err "invalid jwt"
user_of (some claims) = Result.ok (record { id = claims.sub; roles = claims.roles })

-- `decode` is `jsonwebtoken::decode` with the service's key and validation. A header is given as
-- what its `to_str` yields.
module _ (decode : String → Option Claims) where
  unfoldable pub parse_authorization_header : Option (Option String) → Result User String
  parse_authorization_header none = Result.err "missing Authorization header"
  parse_authorization_header (some none) = Result.err "illegal character in Authorization header"
  parse_authorization_header (some (some authorization_value)) =
      if not (starts_with authorization_value "Bearer")
      then Result.err "unsupported autorization type"
      else elim (get? authorization_value (len "Bearer ") (len authorization_value)) [
        | none ↦ Result.err "invalid jwt"
        | some token ↦ user_of (decode token)
      ]

  -- A header that begins with the word Bearer and goes on, after one byte more, with a token that
  -- decodes; and the user of the token's claims.
  pub record Accepted (header : Option (Option String)) (user : User) : Type 0 where
    pub value : String
    pub token : String
    pub claims : Claims
    pub header_is : header ≡ some (some value)
    pub bearer : starts_with value "Bearer" ≡ true
    pub token_is : get? value (len "Bearer ") (len value) ≡ some token
    pub decoded : decode token ≡ some claims
    pub user_is : user ≡ record { id = claims.sub; roles = claims.roles }

  pub parse_authorization_header-Accepted :
      (header : Option (Option String)) (user : User)
      → parse_authorization_header header ≡ Result.ok user
      → Accepted header user
  unfolding parse_authorization_header
  parse_authorization_header-Accepted none user e = cc
  parse_authorization_header-Accepted (some none) user e = cc
  parse_authorization_header-Accepted (some (some value)) user e =
      elim (Bool-cases (starts_with value "Bearer")) [
        | inr other ↦ ground arith
        | inl bearer ↦ elim (Option-cases (get? value (len "Bearer ") (len value))) [
          | inl short ↦ ground arith
          | inr (token, long) ↦ elim (Option-cases (decode token)) [
            | inl bad ↦ ground arith
            | inr (claims, good) ↦ record {
              value = value;
              token = token;
              claims = claims;
              header_is = refl;
              bearer = bearer;
              token_is = long;
              decoded = good;
              user_is = ground arith;
            }
          ]
        ]
      ]

  pub Accepted-parse_authorization_header :
      (header : Option (Option String)) (user : User)
      → Accepted header user
      → parse_authorization_header header ≡ Result.ok user
  unfolding parse_authorization_header
  Accepted-parse_authorization_header header user a =
      rw (a.header_is, a.bearer, a.token_is, a.decoded, a.user_is) refl

is_le-compare : (a b : ℕ) → a ≤ b → is_le (compare a b) ≡ true
is_le-compare a b h = ground arith

get-append_right : (s t : String) → get? (s +++ t) (len s) (len (s +++ t)) ≡ some t
get-append_right s t =
    let le : is_le (compare (len s) (len (s +++ t))) ≡ true =
      is_le-compare (len s) (len (s +++ t)) (omega (arith, len-append s t)) in
    let cut : slice (s +++ t) (len s) (len (s +++ t)) ≡ t =
      subst (λ k. slice (s +++ t) (len s) k ≡ t) (sym (len-append s t)) (slice-append_right s t) in
    let front : is_char_boundary (s +++ t) (len s) ≡ true = boundary-append s t in
    let end : is_char_boundary (s +++ t) (len (s +++ t)) ≡ true = boundary-len (s +++ t) in
    rw (le, front, end) (ap some cut)

module _ (separator token : String) (one_byte : len separator ≡ 1) where
  abbrev value : String
  value = "Bearer" +++ (separator +++ token)

  abbrev front : String
  front = "Bearer" +++ separator

  front-len : len front ≡ 7
  front-len = len-append "Bearer" separator ∙ omega (arith, one_byte)

  value-split : value ≡ front +++ token
  value-split = sym (append_assoc "Bearer" separator token)

  get-separated : get? value (len "Bearer ") (len value) ≡ some token
  get-separated =
      subst (λ v. get? v 7 (len v) ≡ some token) (sym value-split)
        (subst (λ k. get? (front +++ token) k (len (front +++ token)) ≡ some token) front-len
          (get-append_right front token))

  -- Whatever one byte stands between the word Bearer and a token, a header is accepted exactly if
  -- the token decodes, and then for the user of its claims.
  pub parse_authorization_header-separated :
      (decode : String → Option Claims)
      → parse_authorization_header decode (some (some ("Bearer" +++ (separator +++ token))))
        ≡ user_of (decode token)
  unfolding parse_authorization_header
  parse_authorization_header-separated decode =
      rw (starts_with-append "Bearer" (separator +++ token), get-separated) refl
