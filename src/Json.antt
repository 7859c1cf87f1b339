-- ===== src/Json.antt =====
-- The JSON values that the program encodes, and what it takes from Python's `json` and `hashlib`.
-- Objects keep the order in which their fields are written; encoding sorts them.
pub mod Canonical
pub mod Sample
pub mod Contracts
pub mod Access
use changebridge_cdc_migrati.Base.{String, Bool, ℕ, List, [], ◌∷◌, Option, none, some}
use changebridge_cdc_migrati.Base.Int.{ℤ, pos}

mutual
  pub data Json : Type 0 where
    null : Json
    bool : Bool → Json
    num : ℤ → Json
    str : String → Json
    arr : Items → Json
    obj : Fields → Json

  pub data Items : Type 0 where
    nil : Items
    cons : Json → Items → Items

  pub data Fields : Type 0 where
    end : Fields
    field : String → Json → Fields → Fields

abbrev pub list : List Json → Json
list xs = arr (items xs)
  where
    items : List Json → Items
    items [] = nil
    items (x ∷ xs) = cons x (items xs)

abbrev pub dict : List (String × Json) → Json
dict xs = obj (fields xs)
  where
    fields : List (String × Json) → Fields
    fields [] = end
    fields ((k, x) ∷ xs) = field k x (fields xs)

abbrev pub nat : ℕ → Json
nat n = num (pos n)

abbrev pub optional : Option Json → Json
optional none = null
optional (some j) = j

-- What the program takes from its libraries: `json.dumps(value, sort_keys=True,
-- separators=(",", ":"), ensure_ascii=…)`, `json.loads`, `hashlib.sha256` of the UTF-8 bytes of a
-- text, in hexadecimal, and `unicodedata.normalize("NFC", …)`.
pub record Codec : Type 0 where
  pub dumps : Bool → Json → String
  pub loads : String → Json
  pub sha256 : String → String
  pub nfc : String → String
