-- ===== src/Env.antt =====
-- What application_env.rs of both programs shares: `env_var`, and the reading of numbers.
use Prim.Native.Char.{code}
use Prim.Native.String.{String}
use tom_notifier.Base.{
  ◌≡◌, ℕ, ◌+◌, ◌-◌, ◌*◌, ◌^◌, ◌&&◌, leb, ◌==◌, List, [], ◌∷◌, Option, none, some, true, false,
  Result, ◌>>=◌, ok_or, if◌then◌else◌, map_err, >>=-elim, ok_or-ok, ok-injective, refl,
}
use tom_notifier.Auth.Util as Util
use tom_notifier.Auth.Util.{Keys, Algorithm}

pub data Error : Type 0 where
  not_set : String → Error
  invalid_address invalid_number no_algorithm : Error
  jwt : Util.Error → Error

-- The variables of the process, the reading of a socket address, and the token library.
pub record Externals (Address K : Type 0) : Type 0 where
  pub var : String → Option String
  pub parse_address : String → Option Address
  pub keys : Keys K

-- The digits of a number in base ten after those that make `number`, up to `max`.
abbrev digits : ℕ → ℕ → String → Option ℕ
digits max number String.[] = some number
digits max number (String.◌∷◌ c text) =
    let longer = number * 10 + (code c - b'0') in
    elim (leb b'0' (code c) && leb (code c) b'9' && leb longer max) [
      | true ↦ digits max longer text
      | false ↦ none
    ]

-- `str::parse` to an unsigned integer of that width: a sign plus may stand before the digits.
unfoldable pub parse_uint : ℕ → String → Option ℕ
parse_uint width String.[] = none
parse_uint width (String.◌∷◌ c String.[]) = digits (2 ^ width - 1) 0 (String.◌∷◌ c String.[])
parse_uint width (String.◌∷◌ c (String.◌∷◌ d text)) =
    if code c == b'+'
    then digits (2 ^ width - 1) 0 (String.◌∷◌ d text)
    else digits (2 ^ width - 1) 0 (String.◌∷◌ c (String.◌∷◌ d text))

map_err-ok :
    {A : Type 0} (r : Result A Util.Error) {a : A} → map_err jwt r ≡ Result.ok a → r ≡ Result.ok a
map_err-ok (Result.ok a) h = cc (ok-injective h)
map_err-ok (Result.err e) h = cc

module _ {Address K : Type 0} (x : Externals Address K) where
  unfoldable pub env_var : String → Result String Error
  env_var name = ok_or (x.var name) (not_set name)

  -- `Self::env_var(name)?.parse()` for a number of that width.
  unfoldable pub env_number : ℕ → String → Result ℕ Error
  unfolding env_var parse_uint
  env_number width name = do text ← env_var name; ok_or (parse_uint width text) invalid_number

  unfoldable pub env_address : String → Result Address Error
  unfolding env_var
  env_address name = do text ← env_var name; ok_or (x.parse_address text) invalid_address

  unfoldable pub env_algorithms : String → Result (List Algorithm) Error
  unfolding env_var Util.parse_jwt_algorithms
  env_algorithms name = do text ← env_var name; map_err jwt (Util.parse_jwt_algorithms x.keys text)

  -- The key for the first algorithm.
  unfoldable pub env_key : List Algorithm → String → Result K Error
  unfolding env_var Util.parse_jwt_key
  env_key [] name = Result.err no_algorithm
  env_key (jwt_algorithm ∷ rest) name = do
    text ← env_var name
    map_err jwt (Util.parse_jwt_key x.keys jwt_algorithm text)

  -- What each of them has read, from the variable of that name.
  abbrev pub HasText : String → String → Type 0
  HasText name text = x.var name ≡ some text

  abbrev pub HasNumber : ℕ → String → ℕ → Type 0
  HasNumber width name n = (text : String) × HasText name text × (parse_uint width text ≡ some n)

  abbrev pub HasAddress : String → Address → Type 0
  HasAddress name address =
      (text : String) × HasText name text × (x.parse_address text ≡ some address)

  abbrev pub HasAlgorithms : String → List Algorithm → Type 0
  HasAlgorithms name algorithms =
      (text : String) × HasText name text
      × (Util.parse_jwt_algorithms x.keys text ≡ Result.ok algorithms)

  abbrev pub HasKey : List Algorithm → String → K → Type 0
  HasKey algorithms name key =
      (first : Algorithm) × (rest : List Algorithm) × (text : String) × (algorithms ≡ first ∷ rest)
      × HasText name text
      × (Util.parse_jwt_key x.keys first text ≡ Result.ok key)

  pub env_var-HasText :
      (name : String) {text : String} → env_var name ≡ Result.ok text → HasText name text
  unfolding env_var
  env_var-HasText name h = ok_or-ok (x.var name) (not_set name) h

  pub env_number-HasNumber :
      (width : ℕ) (name : String) {n : ℕ}
      → env_number width name ≡ Result.ok n
      → HasNumber width name n
  unfolding env_number
  env_number-HasNumber width name h = >>=-elim (env_var name) _ h λ text. λ read. λ parsed.
      (text, env_var-HasText name read, ok_or-ok (parse_uint width text) invalid_number parsed)

  pub env_address-HasAddress :
      (name : String) {address : Address}
      → env_address name ≡ Result.ok address
      → HasAddress name address
  unfolding env_address
  env_address-HasAddress name h = >>=-elim (env_var name) _ h λ text. λ read. λ parsed.
      (text, env_var-HasText name read, ok_or-ok (x.parse_address text) invalid_address parsed)

  pub env_algorithms-HasAlgorithms :
      (name : String) {algorithms : List Algorithm}
      → env_algorithms name ≡ Result.ok algorithms
      → HasAlgorithms name algorithms
  unfolding env_algorithms
  env_algorithms-HasAlgorithms name h = >>=-elim (env_var name) _ h λ text. λ read. λ parsed.
      (text, env_var-HasText name read, map_err-ok (Util.parse_jwt_algorithms x.keys text) parsed)

  pub env_key-HasKey :
      (algorithms : List Algorithm) (name : String) {key : K}
      → env_key algorithms name ≡ Result.ok key
      → HasKey algorithms name key
  unfolding env_key
  env_key-HasKey [] name h = cc
  env_key-HasKey (first ∷ rest) name h = >>=-elim (env_var name) _ h λ text. λ read. λ parsed. (
    first,
    rest,
    text,
    refl,
    env_var-HasText name read,
    map_err-ok (Util.parse_jwt_key x.keys first text) parsed,
  )
