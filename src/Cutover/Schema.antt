-- ===== src/Cutover/Schema.antt =====
-- src/changebridge/schema.py: `check_compatibility`. A reason is a value in place of its text.
use changebridge_cdc_migrati.Base.{
  String, Bool, true, false, not, ◌&&◌, Option, none, some, List, [], ◌∷◌, ◌++◌, map,
}
use changebridge_cdc_migrati.Base.Tests.{if◌then◌else◌, is_some}
use changebridge_cdc_migrati.Base.Key.{◌==◌, text_key}
use changebridge_cdc_migrati.Base.Table.{Table, find}
use changebridge_cdc_migrati.Base.Dict.{with_entries}

pub record Field : Type 0 where
  pub name : String
  pub data_type : String
  pub nullable : Bool

pub data Reason : Type 0 where
  removed : String → Reason
  type_change : String → String → String → Reason
  became_required : String → Reason
  required_added : String → Reason

pub record CompatibilityResult : Type 0 where
  pub compatible : Bool
  pub reasons : List Reason

abbrev pub is_empty {ℓ} : {A : Type ℓ} → List A → Bool
is_empty [] = true
is_empty (x ∷ xs) = false

-- {field.name: field for field in fields}
unfoldable pub by_name : List Field → Table String Field
unfolding with_entries
by_name fields = with_entries [] (map (λ f. (f.name, f)) fields)

-- the reason that one field of the old schema gives, if any
unfoldable pub old_reason : Table String Field → String → Field → Option Reason
unfolding find
old_reason new name field = elim (find name new) [
  | none ↦ some (removed name)
  | some f ↦
      if not (f.data_type == field.data_type)
      then some (type_change name field.data_type f.data_type)
      else if field.nullable && not f.nullable
      then some (became_required name)
      else none
]

unfoldable pub new_reason : Table String Field → String → Field → Option Reason
unfolding find
new_reason old name field =
    if not (is_some (find name old)) && not field.nullable then some (required_added name) else none

unfoldable pub collect : (String → Field → Option Reason) → Table String Field → List Reason
collect reason [] = []
collect reason ((name, field) ∷ fields) =
    let rest = collect reason fields in elim (reason name field) [ none ↦ rest | some r ↦ r ∷ rest ]

unfoldable pub check_compatibility : List Field → List Field → CompatibilityResult
unfolding by_name old_reason new_reason collect
check_compatibility previous candidate =
    let old = by_name previous in
    let new = by_name candidate in
    let reasons = collect (old_reason new) old ++ collect (new_reason old) new in
    record { compatible = is_empty reasons; reasons = reasons }
