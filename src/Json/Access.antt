-- ===== src/Json/Access.antt =====
-- What the program asks of a decoded JSON value: `get` on a mapping, and `==` with a constant.
use changebridge_cdc_migrati.Base.{
  ℕ, zero, suc, String, Bool, true, false, ◌&&◌, Option, none, some,
}
use changebridge_cdc_migrati.Base.Tests.{if◌then◌else◌, is_some}
use changebridge_cdc_migrati.Base.Key.{◌==◌, text_key, number_key}
use changebridge_cdc_migrati.Base.Int.{pos}
use changebridge_cdc_migrati.Json.{Json, bool, num, str, obj, Fields, end, field}

-- the fields' values, as Python's `in` and `[]` find them
unfoldable pub lookup : String → Fields → Option Json
lookup k end = none
lookup k (field j x fs) = if j == k then some x else lookup k fs

-- value.get(key), of a value that is a mapping
unfoldable pub get : String → Json → Option Json
unfolding lookup
get k (obj fs) = lookup k fs
get k _ = none

abbrev pub is_mapping : Option Json → Bool
is_mapping (some (obj fs)) = true
is_mapping _ = false

-- value == text
abbrev pub is_text : String → Option Json → Bool
is_text t (some (str u)) = u == t
is_text t _ = false

-- value == n, where Python counts True as 1 and False as 0
abbrev pub is_number : ℕ → Option Json → Bool
is_number n (some (num (pos m))) = m == n
is_number n (some (bool true)) = n == 1
is_number n (some (bool false)) = n == 0
is_number n _ = false

-- value is True
abbrev pub is_true : Option Json → Bool
is_true (some (bool true)) = true
is_true _ = false

unfoldable pub size : Fields → ℕ
size end = zero
size (field k x fs) = suc (size fs)

-- set(value) == {a, b}, of a mapping, whose keys are distinct
unfoldable pub has_keys : String → String → Json → Bool
unfolding size lookup
has_keys a b (obj fs) = size fs == 2 && (is_some (lookup a fs) && is_some (lookup b fs))
has_keys a b _ = false
