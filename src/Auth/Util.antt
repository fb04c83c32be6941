-- ===== src/Auth/Util.antt =====
-- shared/jwt_auth/src/util.rs, with the splitting of text that it uses.
use Prim.Native.Char.{code}
use Prim.Native.String.{String, ◌++◌ as ◌+++◌}
use Prim.Native.String.append as append
use mathlib.Core.Path.{subst}
use tom_notifier.Base.{
  ◌≡◌, ℕ, ◌==◌, List, Bool, true, false, [], ◌∷◌, arith, Bool-cases, inl, inr, Option, some, Result,
  ◌>>=◌, ok_or, if◌then◌else◌, map, >>=-elim, ok_or-ok, ok-injective, refl, ◌∙◌,
}

-- `Algorithm` of the token library, as the match in `parse_jwt_key` lists it.
pub data Algorithm : Type 0 where
  hs256 hs384 hs512 es256 es384 rs256 rs384 rs512 ps256 ps384 ps512 eddsa : Algorithm

pub data Error : Type 0 where
  invalid_algorithm invalid_ec_pem_key invalid_rsa_pem_key : Error

-- The first item of a split begins with this character too.
abbrev extend_first : Prim.Native.Char.Char → List String → List String
extend_first c [] = []
extend_first c (item ∷ items) = String.◌∷◌ c item ∷ items

-- `str::split` by a character, given by its code.
unfoldable pub split : ℕ → String → List String
split separator String.[] = "" ∷ []
split separator (String.◌∷◌ c text) =
    let rest = split separator text in
    if code c == separator then "" ∷ rest else extend_first c rest

-- What the token library does: it reads the name of an algorithm, and makes a key of the text of a
-- secret or of a key in PEM.
pub record Keys (K : Type 0) : Type 0 where
  pub from_str : String → Option Algorithm
  pub from_secret : String → K
  pub from_ec_pem : String → Option K
  pub from_rsa_pem : String → Option K

module _ {K : Type 0} (keys : Keys K) where
  -- The loop of `parse_jwt_algorithms`.
  unfoldable pub parse_each : List String → Result (List Algorithm) Error
  parse_each [] = Result.ok []
  parse_each (algorithm_str ∷ items) = do
    algorithm ← ok_or (keys.from_str algorithm_str) invalid_algorithm
    algorithms ← parse_each items
    Result.ok (algorithm ∷ algorithms)

  unfoldable pub parse_jwt_algorithms : String → Result (List Algorithm) Error
  unfolding parse_each split
  parse_jwt_algorithms jwt_algorithms = parse_each (split b',' jwt_algorithms)

  unfoldable pub parse_jwt_key : Algorithm → String → Result K Error
  parse_jwt_key hs256 jwt_key = Result.ok (keys.from_secret jwt_key)
  parse_jwt_key hs384 jwt_key = Result.ok (keys.from_secret jwt_key)
  parse_jwt_key hs512 jwt_key = Result.ok (keys.from_secret jwt_key)
  parse_jwt_key es256 jwt_key = ok_or (keys.from_ec_pem jwt_key) invalid_ec_pem_key
  parse_jwt_key es384 jwt_key = ok_or (keys.from_ec_pem jwt_key) invalid_ec_pem_key
  parse_jwt_key rs256 jwt_key = ok_or (keys.from_rsa_pem jwt_key) invalid_rsa_pem_key
  parse_jwt_key rs384 jwt_key = ok_or (keys.from_rsa_pem jwt_key) invalid_rsa_pem_key
  parse_jwt_key rs512 jwt_key = ok_or (keys.from_rsa_pem jwt_key) invalid_rsa_pem_key
  parse_jwt_key ps256 jwt_key = ok_or (keys.from_rsa_pem jwt_key) invalid_rsa_pem_key
  parse_jwt_key ps384 jwt_key = ok_or (keys.from_rsa_pem jwt_key) invalid_rsa_pem_key
  parse_jwt_key ps512 jwt_key = ok_or (keys.from_rsa_pem jwt_key) invalid_rsa_pem_key
  parse_jwt_key eddsa jwt_key = ok_or (keys.from_ec_pem jwt_key) invalid_ec_pem_key

  -- The algorithms that are read are those that the items name, in their order.
  pub parse_each-ok :
      (items : List String) {algorithms : List Algorithm}
      → parse_each items ≡ Result.ok algorithms
      → map keys.from_str items ≡ map some algorithms
  unfolding parse_each
  parse_each-ok [] h = cc (ok-injective h)
  parse_each-ok (item ∷ items) h =
      >>=-elim (ok_or (keys.from_str item) invalid_algorithm) _ h λ algorithm. λ first. λ h1.
        >>=-elim (parse_each items) _ h1 λ algorithms. λ others. λ h2.
          let e = ok_or-ok (keys.from_str item) invalid_algorithm first in
          subst (λ read. map keys.from_str (item ∷ items) ≡ map some read) (ok-injective h2)
            (cc (e, parse_each-ok items others))

  parse_each-reads :
      (items : List String) (algorithms : List Algorithm)
      → map keys.from_str items ≡ map some algorithms
      → parse_each items ≡ Result.ok algorithms
  unfolding parse_each
  parse_each-reads [] [] h = refl
  parse_each-reads [] (algorithm ∷ algorithms) h = cc
  parse_each-reads (item ∷ items) [] h = cc
  parse_each-reads (item ∷ items) (algorithm ∷ algorithms) h =
      let e : keys.from_str item ≡ some algorithm = cc in
      let rest : map keys.from_str items ≡ map some algorithms = cc in
      rw (e, parse_each-reads items algorithms rest) refl

abbrev lacks : ℕ → String → Bool
lacks separator String.[] = true
lacks separator (String.◌∷◌ c text) = if code c == separator then false else lacks separator text

abbrev join : String → String → List String → String
join separator first [] = first
join separator first (second ∷ rest) = first +++ (separator +++ join separator second rest)

split-lacks : (text : String) → lacks b',' text ≡ true → split b',' text ≡ text ∷ []
unfolding split
split-lacks String.[] h = refl
split-lacks (String.◌∷◌ c text) h = ground (arith, split-lacks text)

comma_append : (text : String) → ("," +++ text) ≡ String.◌∷◌ "," text
comma_append text = append.cons _ "" text ∙ rw (append.nil text) refl

split-separated :
    (first text : String)
    → lacks b',' first ≡ true
    → split b',' (first +++ ("," +++ text)) ≡ first ∷ split b',' text
unfolding split
split-separated String.[] text h = rw (append.nil ("," +++ text), comma_append text) refl
split-separated (String.◌∷◌ c first) text h = elim (Bool-cases (code c == b',')) [
  | inl comma ↦ ground arith
  | inr other ↦
      rw (append.cons c first ("," +++ text), other, split-separated first text (ground arith)) refl
]

abbrev AllLack : List String → Type 0
AllLack [] = Unit
AllLack (item ∷ items) = (lacks b',' item ≡ true) × AllLack items

split-join :
    (first : String) (rest : List String)
    → lacks b',' first ≡ true
    → AllLack rest
    → split b',' (join "," first rest) ≡ first ∷ rest
split-join first [] h hs = split-lacks first h
split-join first (second ∷ rest) h hs =
    split-separated first (join "," second rest) h ∙ rw (split-join second rest hs.0 hs.1) refl

-- Names of algorithms without a comma, joined by commas, are read as the algorithms that they name,
-- in their order.
pub parse_jwt_algorithms-join :
    {K : Type 0} (keys : Keys K) (first : String) (rest : List String) (algorithms : List Algorithm)
    → lacks b',' first ≡ true
    → AllLack rest
    → map keys.from_str (first ∷ rest) ≡ map some algorithms
    → parse_jwt_algorithms keys (join "," first rest) ≡ Result.ok algorithms
unfolding parse_jwt_algorithms
parse_jwt_algorithms-join keys first rest algorithms h hs named =
    rw (split-join first rest h hs) (parse_each-reads keys (first ∷ rest) algorithms named)

split-first :
    (separator : ℕ) (text : String)
    → (first : String) × (rest : List String) × (split separator text ≡ first ∷ rest)
unfolding split
split-first separator String.[] = ("", [], refl)
split-first separator (String.◌∷◌ c text) =
    let (first, rest, e) = split-first separator text in
    elim (Bool-cases (code c == separator)) [
      | inl same ↦ ("", split separator text, rw same refl)
      | inr other ↦ (String.◌∷◌ c first, rest, rw (other, e) refl)
    ]

-- There is always an algorithm: even the empty text has one item.
pub parse_jwt_algorithms-first :
    {K : Type 0} (keys : Keys K) (text : String) {algorithms : List Algorithm}
    → parse_jwt_algorithms keys text ≡ Result.ok algorithms
    → (first : Algorithm) × (rest : List Algorithm) × (algorithms ≡ first ∷ rest)
unfolding parse_jwt_algorithms
parse_jwt_algorithms-first keys text {algorithms = []} h =
    let (first, rest, e) = split-first b',' text in
    let named = parse_each-ok keys (split b',' text) h in cc (named, e)
parse_jwt_algorithms-first keys text {algorithms = first ∷ rest} h = (first, rest, refl)
