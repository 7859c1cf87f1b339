-- ===== src/Cutover/Tests.antt =====
-- Two schemas and two states, and the theorems at them.
use changebridge_cdc_migrati.Base.{ℕ, String, true, false, List, [], ◌∷◌, ◌≡◌, ◌↔◌, refl}
use changebridge_cdc_migrati.Base.Int.{pos}
use changebridge_cdc_migrati.Base.Key.{text_key}
use changebridge_cdc_migrati.Base.Table.{find, replace}
use changebridge_cdc_migrati.Base.Dict.{with_entries}
use changebridge_cdc_migrati.Base.Members.{seen, distinct}
use changebridge_cdc_migrati.Base.Sort.{sort, insert_sorted}
use changebridge_cdc_migrati.Json.{nat}
use changebridge_cdc_migrati.Json.Canonical.{canonical_json, digest, table_digest}
use changebridge_cdc_migrati.Json.Sample.{sample, print, tally}
use changebridge_cdc_migrati.Cutover.Schema.{
  Field, removed, required_added, by_name, old_reason, new_reason, collect, check_compatibility,
}
use changebridge_cdc_migrati.Cutover.Preorder.{IsCompatible}
use changebridge_cdc_migrati.Cutover.Reconciliation.{
  State, matched, all_matched, report_matched, rows_of, table_names, table_proof, reconcile,
}
use changebridge_cdc_migrati.Cutover.Agreement.{IsReconciled}
use changebridge_cdc_migrati.Cutover.Gate.{
  Seconds, finite, exceeds, IsWithin, lag, GateResult, evaluate_cutover, cutover_iff,
}

program : Unit {0}
unfolding find replace with_entries seen distinct sort insert_sorted print tally canonical_json
    digest table_digest by_name old_reason new_reason collect check_compatibility matched
    all_matched report_matched rows_of table_names table_proof reconcile exceeds evaluate_cutover
program = tt

abbrev nullable : String → Field
nullable name = record { name = name; data_type = "string"; nullable = true }

abbrev required : String → Field
required name = record { name = name; data_type = "string"; nullable = false }

abbrev old : List Field
old = required "id" ∷ nullable "note" ∷ []

abbrev new : List Field
new = required "id" ∷ nullable "note" ∷ nullable "extra" ∷ []

breaking :
    (check_compatibility old (required "id" ∷ required "extra" ∷ [])).reasons
    ≡ removed "note" ∷ required_added "extra" ∷ []
unfolding program
breaking = refl

abbrev state : State
state = ("orders", ("o-1", nat 3) ∷ ("o-2", nat 4) ∷ []) ∷ ("items", []) ∷ []

abbrev seconds : ℕ → Seconds
seconds n = finite (pos n) 0

abbrev gate : Seconds → Seconds → GateResult
gate s m =
    evaluate_cutover (reconcile sample "g" (pos 7) state state) (check_compatibility old new) s m
      true true

-- 3 and 2.5 seconds of lag under a limit, and 6 and 31 above it
gates :
    ((gate (seconds 3) (seconds 5)).allowed ≡ true)
    × ((gate (finite (pos 5) 1) (seconds 30)).failures ≡ [])
    × ((gate (seconds 6) (seconds 5)).allowed ≡ false)
    × ((gate (seconds 31) (seconds 30)).failures ≡ lag (seconds 31) (seconds 30) ∷ [])
unfolding program
gates = (refl, refl, refl, refl)

cutover_iff_example : ((gate (seconds 3) (seconds 5)).allowed ≡ true) ↔ (
    IsReconciled sample state state
    × IsCompatible (by_name old) (by_name new)
    × IsWithin (seconds 3) (seconds 5)
    × (true ≡ true)
    × (true ≡ true))
cutover_iff_example =
    cutover_iff sample "g" (pos 7) state state old new (seconds 3) (seconds 5) true true
