-- ===== src/Core/Content.antt =====
-- The content of a notification in JSON: `de_base64` of dto/input/notification.rs, and `se_base64` of
-- dto/output/notification.rs.
use Prim.Native.String.{String}
use tom_notifier.Base.{ℕ, ◌≡◌, refl, List, Option, some, ok_or, Result, ◌>>=◌}

-- What the library for base64 does.
pub record Base64 : Type 0 where
  pub encode : List ℕ → String
  pub decode : String → Option (List ℕ)

-- `string` is what `String::deserialize` yields, and `invalid` the error for a text that is not base64.
unfoldable pub deserialize : {E : Type 0} → Base64 → E → Result String E → Result (List ℕ) E
deserialize base64 invalid read = do
  string ← read
  bytes ← ok_or (base64.decode string) invalid
  Result.ok bytes

-- `serialize_string` is `String::serialize` into the serializer.
unfoldable pub serialize : {R : Type 0} → Base64 → (String → R) → List ℕ → R
serialize base64 serialize_string v = serialize_string (base64.encode v)

-- What the library decodes of what it has encoded is what is read of what is written.
deserialize-serialize :
    {E : Type 0} (base64 : Base64) (invalid : E)
    → ((v : List ℕ) → base64.decode (base64.encode v) ≡ some v)
    → (v : List ℕ)
    → deserialize base64 invalid (serialize base64 (λ string. Result.ok string) v) ≡ Result.ok v
unfolding deserialize serialize
deserialize-serialize base64 invalid decodes v = rw (decodes v) refl
