-- ===== src/SchemaControl/Verdicts.antt =====
-- When the schema policy finds a candidate compatible, against the check of schema.py.
use mathlib.Core.Option.{some-injective, none-ne-some}
use mathlib.Core.Path.{subst₂}
use changebridge_cdc_migrati.Json.Contracts.{semantic_digest}
use changebridge_cdc_migrati.Base.{
  String, Bool, true, false, not, ◌&&◌, ◌||◌, Option, none, some, List, [], ◌∷◌, ◌++◌, ◌≡◌, ◌↔◌,
  refl, sym, ap, ◌∙◌, ◌⊎◌, inl, inr, arith,
}
use changebridge_cdc_migrati.Base.Tests.{if◌then◌else◌, is_some, Option-cases, Bool-cases}
use changebridge_cdc_migrati.Base.Key.{◌==◌, text_key, number_key}
use changebridge_cdc_migrati.Base.Result.{ok, Result-cases}
use changebridge_cdc_migrati.Base.Table.{Table, find}
use changebridge_cdc_migrati.Base.Sort.{sort, insert_sorted, text_le}
use changebridge_cdc_migrati.Json.{Codec}
use changebridge_cdc_migrati.Cutover.Schema.{
  is_empty, by_name, Reason, old_reason, new_reason, collect, check_compatibility,
}
use changebridge_cdc_migrati.Cutover.Preorder.{IsCompatible, check_compatibility_iff}
use changebridge_cdc_migrati.Cutover.Gate.{fail_if}
use changebridge_cdc_migrati.SchemaControl.Decision.{
  Verdict, compatible, incompatible, unknown, FieldDefinition, PrimaryKeyField, ContractIdentity,
  SchemaDecision,
}
use changebridge_cdc_migrati.SchemaControl.Policy.{
  RegisteredSchema, Registry, same_keys, resolve, any_removed, change_reasons, changes, only_new,
  added_fields, any_required, compare_contracts, assess_known, assess_resolved, assess, action,
  material, decision_of, decide,
}

is_empty-append : {A : Type 0} (xs ys : List A) → is_empty (xs ++ ys) ≡ (is_empty xs && is_empty ys)
is_empty-append [] ys = refl
is_empty-append (x ∷ xs) ys = refl

-- one field of the old contract, for the two checks
old_reason-changes :
    (new : Table String FieldDefinition) (name : String) (f : FieldDefinition)
    → is_some (old_reason new name f)
      ≡ not (elim (find name new) [ none ↦ false | some g ↦ is_empty (change_reasons f g) ])
unfolding old_reason
old_reason-changes new name f = elim (Option-cases (find name new)) [
  | inl missing ↦ ground (arith, missing)
  | inr (g, found) ↦ ground (
    arith,
    found,
    text_key.equals_iff f.data_type g.data_type,
    text_key.equals_iff g.data_type f.data_type,
  )
]

collect-cons :
    (reason : String → FieldDefinition → Option Reason) (name : String) (f : FieldDefinition)
    (t : Table String FieldDefinition)
    → is_empty (collect reason ((name, f) ∷ t))
      ≡ (not (is_some (reason name f)) && is_empty (collect reason t))
unfolding collect
collect-cons reason name f t = ground arith

changes-found :
    (new : Table String FieldDefinition) (name : String) (f g : FieldDefinition)
    (old : Table String FieldDefinition)
    → find name new ≡ some g
    → changes new ((name, f) ∷ old) ≡ change_reasons f g ++ changes new old
unfolding changes
changes-found new name f g old found = rw (found, changes) refl

changes-cons :
    (new : Table String FieldDefinition) (name : String) (f g : FieldDefinition)
    (old : Table String FieldDefinition)
    → find name new ≡ some g
    → is_empty (changes new ((name, f) ∷ old))
      ≡ (is_empty (change_reasons f g) && is_empty (changes new old))
changes-cons new name f g old found =
    ap is_empty (changes-found new name f g old found)
    ∙ is_empty-append (change_reasons f g) (changes new old)

old_side :
    (new old : Table String FieldDefinition)
    → is_empty (collect (old_reason new) old)
      ≡ (not (any_removed new old) && is_empty (changes new old))
unfolding collect any_removed changes
old_side new [] = refl
old_side new ((name, f) ∷ old) = elim (Option-cases (find name new)) [
  | inl missing ↦
      rw (collect-cons (old_reason new) name f old, old_reason-changes new name f, missing)
        (ground (arith, missing))
  | inr (g, found) ↦
      rw (collect-cons (old_reason new) name f old, old_reason-changes new name f, found)
        (ground (arith, found, changes-cons new name f g old found, old_side new old))
]

insert_sorted-any :
    (x : String × FieldDefinition) (t : Table String FieldDefinition)
    → any_required (insert_sorted (λ p q. text_le p.0 q.0) x t)
      ≡ (not x.1.nullable || any_required t)
unfolding insert_sorted any_required
insert_sorted-any x [] = refl
insert_sorted-any x (y ∷ t) = ground (arith, insert_sorted-any x t)

sort-any :
    (t : Table String FieldDefinition)
    → any_required (sort (λ p q. text_le p.0 q.0) t) ≡ any_required t
unfolding sort any_required
sort-any [] = refl
sort-any (x ∷ t) =
    insert_sorted-any x (sort (λ p q. text_le p.0 q.0) t)
    ∙ ap (λ b. not x.1.nullable || b) (sort-any t)

new_side :
    (old new : Table String FieldDefinition)
    → is_empty (collect (new_reason old) new) ≡ not (any_required (only_new old new))
unfolding collect new_reason only_new any_required
new_side old [] = refl
new_side old ((name, f) ∷ new) = ground (arith, new_side old new)

same_keys_iff : (js ks : List PrimaryKeyField) → (same_keys js ks ≡ true) ↔ (js ≡ ks)
unfolding same_keys
same_keys_iff [] [] = ground arith
same_keys_iff [] (k ∷ ks) = ground arith
same_keys_iff (j ∷ js) [] = ground arith
same_keys_iff (j ∷ js) (k ∷ ks) = ground (
  arith,
  same_keys_iff js ks,
  number_key.equals_iff j.ordinal k.ordinal,
  text_key.equals_iff j.name k.name,
  text_key.equals_iff j.data_type k.data_type,
)

policy-empty :
    (k m a : Bool) (cs : List String) (p q r : String)
    → is_empty (fail_if (not k) p ++ fail_if m q ++ cs ++ fail_if a r)
      ≡ (k && ((not m && is_empty cs) && not a))
policy-empty true false true [] p q r = refl
policy-empty true false false [] p q r = refl
policy-empty true false a (x ∷ cs) p q r = refl
policy-empty true true a cs p q r = refl
policy-empty false m a cs p q r = refl

verdict_iff :
    (reasons : List String)
    → ((if is_empty reasons then compatible else incompatible) ≡ compatible)
      ↔ (is_empty reasons ≡ true)
verdict_iff [] = (λ _. refl, λ _. refl)
verdict_iff (x ∷ reasons) = (λ e. absurd (ground (arith, e)), λ e. absurd (ground (arith, e)))

and_iff : (a b : Bool) → ((a && b) ≡ true) ↔ ((a ≡ true) × (b ≡ true))
and_iff a b = ground arith

-- the check of two schemas, by the parts of the policy
schemas_agree :
    (previous candidate : List FieldDefinition)
    → (check_compatibility previous candidate).compatible ≡ (
        (not (any_removed (by_name candidate) (by_name previous))
          && is_empty (changes (by_name candidate) (by_name previous)))
        && not (any_required (added_fields (by_name previous) (by_name candidate))))
unfolding check_compatibility added_fields
schemas_agree previous candidate =
    let old = by_name previous in
    let new = by_name candidate in
    is_empty-append (collect (old_reason new) old) (collect (new_reason old) new)
    ∙ ap (λ b. b && is_empty (collect (new_reason old) new)) (old_side new old)
    ∙ ap (λ b. (not (any_removed new old) && is_empty (changes new old)) && b)
        (new_side old new ∙ ap not (sym (sort-any (only_new old new))))

module _ (old new : RegisteredSchema) where
  -- the comparison of two contracts agrees with the check of two schemas
  compare_contracts_iff : ((compare_contracts old new).verdict ≡ compatible) ↔ (
      (old.primary_key ≡ new.primary_key)
      × ((check_compatibility old.fields new.fields).compatible ≡ true))
  unfolding compare_contracts
  compare_contracts_iff =
      let o = by_name old.fields in
      let n = by_name new.fields in
      let k = same_keys old.primary_key new.primary_key in
      let keys = same_keys_iff old.primary_key new.primary_key in
      let all =
        policy-empty k (any_removed n o) (any_required (added_fields o n)) (changes n o)
          "CB25S020_PRIMARY_KEY_CHANGED" "CB25S021_FIELD_REMOVED" "CB25S024_REQUIRED_FIELD_ADDED" in
      let fields = all ∙ ap (λ b. k && b) (sym (schemas_agree old.fields new.fields)) in
      let both = and_iff k (check_compatibility old.fields new.fields).compatible in
      (
        λ e. let (a, b) = both.0 (sym fields ∙ (verdict_iff _).0 e) in (keys.0 a, b),
        λ h. (verdict_iff _).1 (fields ∙ both.1 (keys.1 h.0, h.1)),
      )

-- the contracts are registered for the table, with one primary key; the check of their schemas finds
-- them compatible, and they are: fields are kept, and those added are nullable
abbrev pub AreCompatible : String → Option RegisteredSchema → Option RegisteredSchema → Type 0
AreCompatible source_table old new =
    (a : RegisteredSchema) × (b : RegisteredSchema) × (old ≡ some a)
    × (new ≡ some b)
    × (a.source_table ≡ source_table)
    × (b.source_table ≡ source_table)
    × (a.primary_key ≡ b.primary_key)
    × ((check_compatibility a.fields b.fields).compatible ≡ true)
    × IsCompatible (by_name a.fields) (by_name b.fields)

abbrev IsMatch : String → RegisteredSchema → RegisteredSchema → Type 0
IsMatch source_table a b =
    (a.source_table ≡ source_table)
    × (b.source_table ≡ source_table)
    × (a.primary_key ≡ b.primary_key)
    × ((check_compatibility a.fields b.fields).compatible ≡ true)

assess_known_iff :
    (source_table : String) (a b : RegisteredSchema)
    → ((assess_known source_table a b).verdict ≡ compatible) ↔ (
        (a.source_table ≡ source_table)
        × (b.source_table ≡ source_table)
        × (a.primary_key ≡ b.primary_key)
        × ((check_compatibility a.fields b.fields).compatible ≡ true))
unfolding assess_known
assess_known_iff source_table a b =
    let left = text_key.equals_iff a.source_table source_table in
    let right = text_key.equals_iff b.source_table source_table in
    let contracts = compare_contracts_iff a b in ground (arith, left, right, contracts)

assess_resolved_iff :
    (source_table : String) (old new : Option RegisteredSchema)
    → ((assess_resolved source_table old new).verdict ≡ compatible)
      ↔ AreCompatible source_table old new
unfolding assess_resolved
assess_resolved_iff source_table (some a) (some b) =
    let known = assess_known_iff source_table a b in
    (
      λ e.
          let (x, y, keys, fields) = known.0 e in
          let kept = (check_compatibility_iff a.fields b.fields).0 fields in
          (a, b, refl, refl, x, y, keys, fields, kept),
      λ h.
          let (a', b', ea, eb, x, y, keys, fields, _) = h in
          known.1 (
            subst₂ (IsMatch source_table) (sym (some-injective a a' ea))
              (sym (some-injective b b' eb)) (x, y, keys, fields)),
    )
assess_resolved_iff source_table none new =
    (λ e. absurd (ground (arith, e)), λ h. absurd (none-ne-some h.0 h.2))
assess_resolved_iff source_table (some a) none =
    (λ e. absurd (ground (arith, e)), λ h. absurd (none-ne-some h.1 h.3))

assess_iff :
    (current policy_digest source_table : String) (old new : Option RegisteredSchema)
    → ((assess current policy_digest source_table old new).verdict ≡ compatible)
      ↔ ((policy_digest ≡ current) × AreCompatible source_table old new)
unfolding assess
assess_iff current policy_digest source_table old new =
    let digests = text_key.equals_iff policy_digest current in
    let resolved = assess_resolved_iff source_table old new in
    elim (Bool-cases (policy_digest == current)) [
      | inl same ↦
          rw (same, if◌then◌else◌) (λ e. (digests.0 same, resolved.0 e), λ h. resolved.1 h.1)
      | inr other ↦ (
        λ e. absurd (ground (arith, e, other)),
        λ h. absurd (ground (arith, digests.1 h.0, other)),
      )
    ]

-- what each verdict asks for
abbrev pub IsActed : Verdict → String → Type 0
IsActed verdict required_action =
    ((verdict ≡ compatible) × (required_action ≡ "APPLY"))
    ⊎ ((verdict ≡ incompatible) × (required_action ≡ "REJECT"))
    ⊎ ((verdict ≡ unknown) × (required_action ≡ "QUARANTINE"))

abbrev pub IsActedOn : SchemaDecision → Type 0
IsActedOn d = IsActed d.verdict d.required_action

verdict_action : (verdict : Verdict) → IsActed verdict (action verdict)
verdict_action compatible = inl (refl, refl)
verdict_action incompatible = inr (inl (refl, refl))
verdict_action unknown = inr (inr (refl, refl))

module _ (registry : Registry) (current g table : String) (previous candidate : ContractIdentity)
    (policy_digest : String) where
  decision_of-IsActedOn :
      (digest : String)
      → IsActedOn (decision_of registry current g table previous candidate policy_digest digest)
  unfolding decision_of
  decision_of-IsActedOn digest =
      verdict_action
        (assess current policy_digest table (resolve previous registry)
          (resolve candidate registry)).verdict

  decide-eq-ok :
      (c : Codec) (d : SchemaDecision)
      → decide registry current g table previous candidate policy_digest c ≡ ok d
      → (digest : String) × (d
          ≡ decision_of registry current g table previous candidate policy_digest digest)
  unfolding decide
  decide-eq-ok c d h =
      let body = material registry current g table previous candidate policy_digest in
      elim (Result-cases (semantic_digest c body "stage25-schema-decision")) [
        | inl (digest, e) ↦ (digest, ground (arith, h, e))
        | inr (x, e) ↦ absurd (ground (arith, h, e))
      ]

  -- When the policy decides, a compatible contract is to be applied, an incompatible one rejected and
  -- an unknown one quarantined, and the verdict is compatible exactly when the decision is asked under
  -- the current policy, both contracts are registered for the table with one primary key, and
  -- `check_compatibility` of schema.py accepts their fields: each field is kept with its type and is
  -- not made required, and those added, any number of them, are nullable.
  pub decide_iff :
      (c : Codec) (d : SchemaDecision)
      → decide registry current g table previous candidate policy_digest c ≡ ok d
      → IsActedOn d
        × ((d.verdict ≡ compatible) ↔ (
            (policy_digest ≡ current)
            × AreCompatible table (resolve previous registry) (resolve candidate registry)))
  unfolding decision_of
  decide_iff c d h =
      let (digest, e) = decide-eq-ok c d h in
      rw e (
        decision_of-IsActedOn digest,
        assess_iff current policy_digest table (resolve previous registry)
            (resolve candidate registry),
      )
