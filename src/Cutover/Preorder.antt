-- ===== src/Cutover/Preorder.antt =====
-- What compatibility of schemas means, and that it is a preorder on them.
use mathlib.Core.Option.{none-ne-some, some-injective}
use mathlib.Core.Path.{subst}
use changebridge_cdc_migrati.Base.{
  String, true, Option, none, some, List, [], ◌∷◌, ◌++◌, map, ◌≡◌, ◌↔◌, refl, sym, ◌∙◌, inl, inr,
  arith,
}
use changebridge_cdc_migrati.Base.Tests.{All, Option-cases}
use changebridge_cdc_migrati.Base.Key.{text_key}
use changebridge_cdc_migrati.Base.Table.{Table, find}
use changebridge_cdc_migrati.Base.Dict.{with_entries-IsDict, IsDict, All-find_iff}
use changebridge_cdc_migrati.Cutover.Schema.{
  Field, Reason, removed, is_empty, by_name, old_reason, new_reason, collect, check_compatibility,
}

-- a field that the candidate keeps: its type is the same, and it may only become nullable
abbrev pub Kept : Table String Field → String → Field → Type 0
Kept new name f =
    (g : Field) × (find name new ≡ some g)
    × (g.data_type ≡ f.data_type)
    × (f.nullable ≡ true → g.nullable ≡ true)

-- a field that the candidate adds is nullable
abbrev pub Optional : Table String Field → String → Field → Type 0
Optional old name g = find name old ≡ none → g.nullable ≡ true

abbrev pub IsCompatible : Table String Field → Table String Field → Type 0
IsCompatible old new =
    ((name : String) (f : Field) → find name old ≡ some f → Kept new name f)
    × ((name : String) (g : Field) → find name new ≡ some g → Optional old name g)

old_reason-missing :
    (new : Table String Field) (name : String) (f : Field)
    → find name new ≡ none
    → old_reason new name f ≡ some (removed name)
unfolding old_reason
old_reason-missing new name f e = ground (arith, e)

old_reason-found :
    (new : Table String Field) (name : String) (f g : Field)
    → find name new ≡ some g
    → (old_reason new name f ≡ none)
      ↔ ((g.data_type ≡ f.data_type) × (f.nullable ≡ true → g.nullable ≡ true))
unfolding old_reason
old_reason-found new name f g e = ground (arith, e, text_key.equals_iff g.data_type f.data_type)

old_reason_iff :
    (new : Table String Field) (name : String) (f : Field)
    → (old_reason new name f ≡ none) ↔ Kept new name f
old_reason_iff new name f = elim (Option-cases (find name new)) [
  | inl missing ↦ (
    λ e. absurd (none-ne-some (removed name) (sym e ∙ old_reason-missing new name f missing)),
    λ kept. absurd (none-ne-some kept.0 (sym missing ∙ kept.1)),
  )
  | inr (g, found) ↦
      let same = old_reason-found new name f g found in
      (
        λ e. let (types, weaker) = same.0 e in (g, found, types, weaker),
        λ kept. (old_reason-found new name f kept.0 kept.1).1 (kept.2, kept.3),
      )
]

new_reason_iff :
    (old : Table String Field) (name : String) (g : Field)
    → (new_reason old name g ≡ none) ↔ Optional old name g
unfolding new_reason
new_reason_iff old name g = ground arith

collect_iff :
    (reason : String → Field → Option Reason) (t : Table String Field)
    → (is_empty (collect reason t) ≡ true) ↔ All (λ r. reason r.0 r.1 ≡ none) t
unfolding collect
collect_iff reason [] = (λ _. tt, λ _. refl)
collect_iff reason ((name, f) ∷ t) = ground (arith, collect_iff reason t)

is_empty-append :
    (xs ys : List Reason)
    → (is_empty (xs ++ ys) ≡ true) ↔ ((is_empty xs ≡ true) × (is_empty ys ≡ true))
is_empty-append [] ys = ground arith
is_empty-append (x ∷ xs) ys = ground arith

by_name-IsDict : (fields : List Field) → IsDict (by_name fields)
unfolding by_name IsDict
by_name-IsDict fields =
    with_entries-IsDict {K = String} {V = Field} [] (map (λ f. (f.name, f)) fields) tt

-- Two schemas are compatible exactly when every field of the old one is kept, with its type and not
-- made required, and every field that the new one adds is nullable.
pub check_compatibility_iff :
    (previous candidate : List Field)
    → ((check_compatibility previous candidate).compatible ≡ true)
      ↔ IsCompatible (by_name previous) (by_name candidate)
unfolding check_compatibility
check_compatibility_iff previous candidate =
    let old = by_name previous in
    let new = by_name candidate in
    let kept = collect_iff (old_reason new) old in
    let added = collect_iff (new_reason old) new in
    let both = is_empty-append (collect (old_reason new) old) (collect (new_reason old) new) in
    let all_kept = All-find_iff (λ n f. old_reason new n f ≡ none) old (by_name-IsDict previous) in
    let all_added =
      All-find_iff (λ n f. new_reason old n f ≡ none) new (by_name-IsDict candidate) in
    (
      λ e.
          let (a, b) = both.0 e in
          (
            λ n f found. (old_reason_iff new n f).0 (all_kept.0 (kept.0 a) n f found),
            λ n g found. (new_reason_iff old n g).0 (all_added.0 (added.0 b) n g found),
          ),
      λ h. both.1 (
        kept.1 (all_kept.1 (λ n f found. (old_reason_iff new n f).1 (h.0 n f found))),
        added.1 (all_added.1 (λ n g found. (new_reason_iff old n g).1 (h.1 n g found))),
      ),
    )

IsCompatible-trans :
    (a b c : Table String Field) → IsCompatible a b → IsCompatible b c → IsCompatible a c
IsCompatible-trans a b c h k = (
  λ n f found.
      let (g, in_b, same, weaker) = h.0 n f found in
      let (e, in_c, same', weaker') = k.0 n g in_b in
      (e, in_c, same' ∙ same, λ nullable. weaker' (weaker nullable)),
  λ n e found absent. elim (Option-cases (find n b)) [
    | inl absent' ↦ k.1 n e found absent'
    | inr (g, in_b) ↦
        let (e', in_c, same, weaker) = k.0 n g in_b in
        let one : e' ≡ e = some-injective e' e (sym in_c ∙ found) in
        subst (λ x. x.nullable ≡ true) one (weaker (h.1 n g in_b absent))
  ],
)

-- Compatibility is a preorder: a schema is compatible with itself, and what is compatible with a
-- compatible successor is compatible with the schema itself.
pub check_compatibility_preorder :
    ((a : List Field) → (check_compatibility a a).compatible ≡ true)
    × ((a b c : List Field)
        → (check_compatibility a b).compatible ≡ true
        → (check_compatibility b c).compatible ≡ true
        → (check_compatibility a c).compatible ≡ true)
check_compatibility_preorder = (
  λ a. (check_compatibility_iff a a).1 (
    λ n f found. (f, found, refl, λ e. e),
    λ n g found absent. absurd (none-ne-some g (sym absent ∙ found)),
  ),
  λ a b c h k. (check_compatibility_iff a c).1 (
      IsCompatible-trans (by_name a) (by_name b) (by_name c) ((check_compatibility_iff a b).0 h)
        ((check_compatibility_iff b c).0 k)),
)
