-- ===== src/Auth/Issue.antt =====
-- shared/jwt_auth/src/test.rs: the making of a token, with which the programs are tried.
use Prim.Native.String.{String, ◌++◌ as ◌+++◌}
use tom_notifier.Base.{
  ℕ, ◌≤◌, ◌≡◌, refl, List, [], ◌∷◌, ◌++◌, Option, some, Result, map_err, ◌>>=◌, ok_or,
}
use tom_notifier.Auth.{User, Claims, parse_authorization_header-separated}
use tom_notifier.Auth.Util.{
  Algorithm, hs256, hs384, hs512, es256, es384, rs256, rs384, rs512, ps256, ps384, ps512, eddsa,
  Error, Keys, parse_jwt_algorithms, parse_jwt_key,
}
use tom_notifier.Auth.Layer as Layer
use tom_notifier.Auth.Layer.{Request, Validation, JwtAuthFuture, authorized, call}

-- What makes `unwrap` or `expect` panic.
pub data Panic : Type 0 where
  invalid_algorithms : Error → Panic
  no_algorithm invalid_key not_encoded : Panic

-- The claims as `create_jwt` writes them.
pub record TokenClaims : Type 0 where
  pub sub : ℕ
  pub exp : ℕ
  pub roles : List String

-- What the token library does: it makes a key of the text of a secret or of a key in PEM, and a
-- token of claims with an algorithm and a key.
pub record Encoding (E : Type 0) : Type 0 where
  pub from_secret : String → E
  pub from_ec_pem : String → Option E
  pub from_rsa_pem : String → Option E
  pub encode : Algorithm → TokenClaims → E → Option String

abbrev first_of : List Algorithm → Result Algorithm Panic
first_of [] = Result.err no_algorithm
first_of (jwt_algorithm ∷ jwt_algorithms) = Result.ok jwt_algorithm

module _ {K E : Type 0} (keys : Keys K) (encoding : Encoding E) where
  unfoldable pub parse_jwt_encoding_key : Algorithm → String → Result E Panic
  parse_jwt_encoding_key hs256 key = Result.ok (encoding.from_secret key)
  parse_jwt_encoding_key hs384 key = Result.ok (encoding.from_secret key)
  parse_jwt_encoding_key hs512 key = Result.ok (encoding.from_secret key)
  parse_jwt_encoding_key es256 key = ok_or (encoding.from_ec_pem key) invalid_key
  parse_jwt_encoding_key es384 key = ok_or (encoding.from_ec_pem key) invalid_key
  parse_jwt_encoding_key rs256 key = ok_or (encoding.from_rsa_pem key) invalid_key
  parse_jwt_encoding_key rs384 key = ok_or (encoding.from_rsa_pem key) invalid_key
  parse_jwt_encoding_key rs512 key = ok_or (encoding.from_rsa_pem key) invalid_key
  parse_jwt_encoding_key ps256 key = ok_or (encoding.from_rsa_pem key) invalid_key
  parse_jwt_encoding_key ps384 key = ok_or (encoding.from_rsa_pem key) invalid_key
  parse_jwt_encoding_key ps512 key = ok_or (encoding.from_rsa_pem key) invalid_key
  parse_jwt_encoding_key eddsa key = ok_or (encoding.from_ec_pem key) invalid_key

  unfoldable pub encode_jwt : TokenClaims → String → String → Result String Panic
  unfolding parse_jwt_encoding_key
  encode_jwt claims jwt_algorithms jwt_key = do
    algorithms ← map_err invalid_algorithms (parse_jwt_algorithms keys jwt_algorithms)
    jwt_algorithm ← first_of algorithms
    key ← parse_jwt_encoding_key jwt_algorithm jwt_key
    ok_or (encoding.encode jwt_algorithm claims key) not_encoded

  unfoldable pub create_jwt : ℕ → List String → String → String → Result String Panic
  unfolding encode_jwt
  create_jwt user_id roles jwt_algorithms jwt_key =
      encode_jwt (record { sub = user_id; exp = 253402210800; roles = roles }) jwt_algorithms
        jwt_key

-- The kinds of keys that the library tells apart.
pub data Family : Type 0 where
  hmac rsa ec ed : Family

abbrev pub family : Algorithm → Family
family hs256 = hmac
family hs384 = hmac
family hs512 = hmac
family es256 = ec
family es384 = ec
family rs256 = rsa
family rs384 = rsa
family rs512 = rsa
family ps256 = rsa
family ps384 = rsa
family ps512 = rsa
family eddsa = ed

abbrev pub AllOf : Family → List Algorithm → Type 0
AllOf f [] = Unit
AllOf f (algorithm ∷ algorithms) = (family algorithm ≡ f) × AllOf f algorithms

-- What the library promises at the time `now` of an algorithm and a pair of keys for it, which are
-- keys of the curve of the algorithm where it has one: it
-- makes a token of any claims, and until they expire, the token is read as those claims with any list
-- of algorithms of the family that has the algorithm.
pub record Signs {K E : Type 0} (encoding : Encoding E)
    (decode : K → Validation → String → Option Claims) (Pair : Algorithm → E → K → Type 0) (now : ℕ)
    : Type 0 where
  pub signs :
      (algorithm : Algorithm) (claims : TokenClaims) (private : E) (public : K)
      → Pair algorithm private public
      → (token : String) × (encoding.encode algorithm claims private ≡ some token)
        × ((before after : List Algorithm)
            → AllOf (family algorithm) (before ++ algorithm ∷ after)
            → now ≤ claims.exp
            → decode public (record { algorithms = before ++ algorithm ∷ after }) token
              ≡ some (record { sub = claims.sub; roles = claims.roles }))

-- Two texts that are read, for an algorithm, as the two keys of a pair.
pub record ReadAsPair {K E : Type 0} (keys : Keys K) (encoding : Encoding E)
    (Pair : Algorithm → E → K → Type 0) (algorithm : Algorithm) (private_text public_text : String)
    : Type 0 where
  pub private : E
  pub public : K
  pub private_read : parse_jwt_encoding_key keys encoding algorithm private_text ≡ Result.ok private
  pub public_read : parse_jwt_key keys algorithm public_text ≡ Result.ok public
  pub is_pair : Pair algorithm private public

-- A request with a token behind the word Bearer and a space.
abbrev pub bearing : {B : Type 0} → String → B → Request B
bearing token body = record {
  authorization = some (some ("Bearer" +++ (" " +++ token)));
  rest = body;
}

module _ {K E B F : Type 0} (keys : Keys K) (encoding : Encoding E)
    (decode : K → Validation → String → Option Claims) (Pair : Algorithm → E → K → Type 0) (now : ℕ)
    (inner : User → Request B → F) where
  -- If the token library signs as it promises, and the list of algorithms is read as algorithms of one
  -- family, and the text of the private key and the text of the public key are read, for the first of
  -- them, as a pair of keys, then `create_jwt` makes a token, and until the time in it, a request
  -- with the token behind the word Bearer and a space passes the layer with those algorithms and the
  -- public key, for a user with the id and the roles that were given.
  pub create_jwt-call :
      Signs encoding decode Pair now
      → now ≤ 253402210800
      → (jwt_algorithms private_text public_text : String) (first : Algorithm)
        (rest : List Algorithm) (user_id : ℕ) (roles : List String) (body : B)
      → parse_jwt_algorithms keys jwt_algorithms ≡ Result.ok (first ∷ rest)
      → AllOf (family first) rest
      → (pair : ReadAsPair keys encoding Pair first private_text public_text)
      → (token : String) × (create_jwt keys encoding user_id roles jwt_algorithms private_text
          ≡ Result.ok token)
        × (call decode inner (Layer.new pair.public (first ∷ rest)) (bearing token body)
            ≡ authorized (inner (record { id = user_id; roles = roles }) (bearing token body)))
  unfolding create_jwt call Layer.new
  create_jwt-call library early jwt_algorithms private_text public_text first rest user_id roles
        body read same pair =
      let claims : TokenClaims = record { sub = user_id; exp = 253402210800; roles = roles } in
      let (token, encoded, decoded) =
        library.signs first claims pair.private pair.public pair.is_pair in
      (
        token,
        rw (read, pair.private_read, encoded) refl,
        rw
            (
              parse_authorization_header-separated " " token refl
                  (decode pair.public (record { algorithms = first ∷ rest })),
              decoded [] rest (refl, same) early,
            )
            refl,
      )
