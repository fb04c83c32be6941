-- ===== src/Tests/Issue.antt =====
-- A run of the model of shared/jwt_auth/src/test.rs, with a library that writes claims into tokens.
use Prim.Native.Char.{code}
use Prim.Native.String.{String, len}
use text.Mathlib.Text.{◌==◌}
use tom_notifier.Auth.Util.{Algorithm, hs256, hs384, Keys, parse_jwt_algorithms, parse_jwt_key}
use tom_notifier.Auth.{User, Claims}
use tom_notifier.Auth.Layer as Layer
use tom_notifier.Auth.Layer.{Validation, authorized, call}
use tom_notifier.Auth.Issue.{
  Encoding, Signs, ReadAsPair, create_jwt, create_jwt-call, parse_jwt_encoding_key, bearing,
}
use tom_notifier.Base.{
  ℕ, ◌≡◌, ◌∙◌, ap, refl, Bool, true, false, List, [], ◌∷◌, Option, none, some, Result,
  if◌then◌else◌, arith,
}
use tom_notifier.Base.{◌==◌ as ◌=ℕ=◌}
use tom_notifier.Tests.Unary.{unary, len-unary}

-- A text is written with a mark before each character, and a comma at its end.
abbrev put_text : String → String → String
put_text String.[] rest = String.◌∷◌ "," rest
put_text (String.◌∷◌ c text) rest = String.◌∷◌ "." (String.◌∷◌ c (put_text text rest))

abbrev put : List String → String
put [] = ""
put (text ∷ texts) = put_text text (put texts)

abbrev extend : Prim.Native.Char.Char → List String → List String
extend c [] = []
extend c (text ∷ texts) = String.◌∷◌ c text ∷ texts

abbrev take : Bool → String → List String
take is_marked String.[] = []
take true (String.◌∷◌ c text) = extend c (take false text)
take false (String.◌∷◌ c text) =
    let rest = take false text in
    let marked = take true text in if code c =ℕ= b',' then "" ∷ rest else marked

take-put_text : (text rest : String) → take false (put_text text rest) ≡ text ∷ take false rest
take-put_text String.[] rest = refl
take-put_text (String.◌∷◌ c text) rest = ap (extend c) (take-put_text text rest)

take-put : (texts : List String) → take false (put texts) ≡ texts
take-put [] = refl
take-put (text ∷ texts) = take-put_text text (put texts) ∙ ap (λ t. text ∷ t) (take-put texts)

abbrev claims_of : List String → Option Claims
claims_of [] = none
claims_of (sub ∷ roles) = some (record { sub = len sub; roles = roles })

abbrev encoding : Encoding String
encoding = record {
  from_secret = λ s. s;
  from_ec_pem = λ s. none;
  from_rsa_pem = λ s. none;
  encode = λ algorithm claims key. some (put (unary claims.sub ∷ claims.roles));
}

abbrev keys : Keys String
keys = record {
  from_str = λ s. if s == "HS256" then some hs256 else some hs384;
  from_secret = λ s. s;
  from_ec_pem = λ s. none;
  from_rsa_pem = λ s. none;
}

abbrev decode : String → Validation → String → Option Claims
decode key validation token = claims_of (take false token)

abbrev Pair : Algorithm → String → String → Type 0
Pair algorithm private public = private ≡ public

library : (now : ℕ) → Signs encoding decode Pair now
library now = record {
  signs = λ algorithm claims private public pair. (
    put (unary claims.sub ∷ claims.roles),
    refl,
    λ before after same early.
        ap claims_of (take-put (unary claims.sub ∷ claims.roles))
        ∙ ap (λ n. some (record { sub = n; roles = claims.roles })) (len-unary claims.sub),
  );
}

algorithms_read : parse_jwt_algorithms keys "HS256,HS384" ≡ Result.ok (hs256 ∷ hs384 ∷ [])
unfolding parse_jwt_algorithms
algorithms_read = refl

private_key_read : parse_jwt_encoding_key keys encoding hs256 "secret" ≡ Result.ok "secret"
unfolding parse_jwt_encoding_key
private_key_read = refl

public_key_read : parse_jwt_key keys hs256 "secret" ≡ Result.ok "secret"
unfolding parse_jwt_key
public_key_read = refl

abbrev pair : ReadAsPair keys encoding Pair hs256 "secret" "secret"
pair = record {
  private = "secret";
  public = "secret";
  private_read = private_key_read;
  public_read = public_key_read;
  is_pair = refl;
}

abbrev inner : User → Layer.Request ℕ → ℕ
inner user req = user.id

create_jwt-call_example :
    (token : String) × (create_jwt keys encoding 7 ("reader" ∷ []) "HS256,HS384" "secret"
      ≡ Result.ok token)
    × (call decode inner (Layer.new pair.public (hs256 ∷ hs384 ∷ [])) (bearing token 0)
        ≡ authorized (inner (record { id = 7; roles = "reader" ∷ [] }) (bearing token 0)))
create_jwt-call_example =
    create_jwt-call keys encoding decode Pair 5 inner (library 5) (omega arith) "HS256,HS384"
      "secret" "secret" hs256 (hs384 ∷ []) 7 ("reader" ∷ []) 0 algorithms_read (refl, tt) pair
