-- ===== src/Json/Contracts.antt =====
-- src/changebridge/contracts.py: canonical values and the domain-separated digest. A JSON value
-- holds no float, decimal, timestamp, bytes or non-text key, so those branches have no case here.
use Prim.Native.String.{◌++◌}
use text.Mathlib.Text.{find?}
use changebridge_cdc_migrati.Base.{String, Bool, true, false, ◌||◌, List, [], ◌∷◌}
use changebridge_cdc_migrati.Base.Tests.{if◌then◌else◌, is_some}
use changebridge_cdc_migrati.Base.Key.{◌==◌, text_key}
use changebridge_cdc_migrati.Base.Result.{Result, ok, err, ◌>>=◌}
use changebridge_cdc_migrati.Json.{
  Json, null, bool, num, str, arr, obj, Items, nil, cons, Fields, end, field, Codec,
}

pub data ContractError : Type 0 where
  invalid_domain normalized_key_collision : ContractError

abbrev contains : String → List String → Bool
contains k [] = false
contains k (j ∷ js) = j == k || contains k js

-- the fields of an object, with the normalized keys seen so far
abbrev guarded : Bool → Result ContractError Fields → Result ContractError Fields
guarded true fields = err normalized_key_collision
guarded false fields = fields

unfoldable mutual
  pub canonical_value : Codec → Json → Result ContractError Json
  canonical_value c null = ok null
  canonical_value c (bool b) = ok (bool b)
  canonical_value c (num n) = ok (num n)
  canonical_value c (str s) = ok (str (c.nfc s))
  canonical_value c (arr xs) = canonical_items c xs >>= λ ys. ok (arr ys)
  canonical_value c (obj fs) = canonical_fields c [] fs >>= λ gs. ok (obj gs)

  pub canonical_items : Codec → Items → Result ContractError Items
  canonical_items c nil = ok nil
  canonical_items c (cons x xs) =
      canonical_value c x >>= λ y. canonical_items c xs >>= λ ys. ok (cons y ys)

  pub canonical_fields : Codec → List String → Fields → Result ContractError Fields
  canonical_fields c seen end = ok end
  canonical_fields c seen (field k x fs) = guarded (contains (c.nfc k) seen) (
      canonical_value c x >>= λ y.
      canonical_fields c (c.nfc k ∷ seen) fs >>= λ gs. ok (field (c.nfc k) y gs))

abbrev version : String
version = "changebridge-canonical-json/1.0.0"

-- the text whose UTF-8 bytes are hashed
unfoldable pub canonical_bytes : Codec → Json → String → Result ContractError String
canonical_bytes c value domain =
    let normalized = c.nfc domain in
    if normalized == "" || is_some (find? normalized "\n")
    then err invalid_domain
    else (canonical_value c value >>= λ body.
        ok (version ++ ("\n" ++ (normalized ++ ("\n" ++ c.dumps false body)))))

unfoldable pub semantic_digest : Codec → Json → String → Result ContractError String
unfolding canonical_value canonical_bytes
semantic_digest c value domain = canonical_bytes c value domain >>= λ bytes. ok (c.sha256 bytes)
