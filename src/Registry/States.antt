-- ===== src/Registry/States.antt =====
-- The states of generations and shards in every store that calls of the registry reach.
use changebridge_cdc_migrati.Base.{
  String, Bool, true, false, not, ◌&&◌, ◌||◌, Option, none, some, List, [], ◌∷◌, ◌≡◌, refl, ap, inl,
  inr, arith,
}
use changebridge_cdc_migrati.Base.Tests.{Bool-cases, is_some, nat_eq}
use changebridge_cdc_migrati.Base.Key.{◌==◌, text_key, pair_key}
use changebridge_cdc_migrati.Base.Table.{find, find-append, find-update}
use changebridge_cdc_migrati.Json.{Codec}
use changebridge_cdc_migrati.Registry.{
  Store, Host, Generation, GenerationState, created, snapshot_loading, cdc_applying, Proof, empty,
}
use changebridge_cdc_migrati.Registry.Transitions.{allowed, advance, needs_proof}
use changebridge_cdc_migrati.Registry.Change
use changebridge_cdc_migrati.Registry.Change.{Call, run, run_all, Moves, run-Change}

-- A generation is created at revision 0, loading its snapshot at 1, or applying changes at 2; in
-- the last case its admission proof is recorded.
unfoldable pub lawful : Option Generation → Option Proof → Bool
lawful none proof = true
lawful (some g) proof = elim g.state [
  | created ↦ nat_eq g.revision 0
  | snapshot_loading ↦ nat_eq g.revision 1
  | cdc_applying ↦ nat_eq g.revision 2 && is_some proof
  | _ ↦ false
]

abbrev LawfulAt : String → Store → Type 0
LawfulAt g s = lawful (find g s.generation_registry) (find g s.snapshot_admission_proofs) ≡ true

advance-lawful :
    (row : Generation) (to_state : GenerationState) (proof : Option Proof)
    → lawful (some row) proof ≡ true
    → allowed row.state to_state ≡ true
    → (not (needs_proof to_state) || is_some proof) ≡ true
    → lawful (some (advance to_state row)) proof ≡ true
unfolding lawful allowed
advance-lawful row to_state proof h may proven = ground arith

moved-LawfulAt :
    (g : String) (row : Generation) (to_state : GenerationState) (s s' : Store) (k : String)
    → Moves g row to_state s s'
    → LawfulAt k s
    → LawfulAt k s'
moved-LawfulAt g row to_state s s' k m h = elim (Bool-cases (g == k)) [
  | inl e ↦ ground (
    arith,
    e,
    text_key.equals_iff g k,
    m.found,
    m.may,
    m.proven,
    ap (find k) m.generations,
    ap (find k) m.proofs,
    find-update g k (advance to_state) s.generation_registry,
    advance-lawful row to_state (find k s.snapshot_admission_proofs),
  )
  | inr e ↦ ground (
    arith,
    e,
    ap (find k) m.generations,
    ap (find k) m.proofs,
    find-update g k (advance to_state) s.generation_registry,
  )
]

created-lawful :
    (row : Generation) (proof : Option Proof)
    → row.state ≡ created
    → row.revision ≡ 0
    → lawful (some row) proof ≡ true
unfolding lawful
created-lawful row proof is at = ground arith

proven-lawful :
    (g : Option Generation) (p : Proof) → lawful g none ≡ true → lawful g (some p) ≡ true
unfolding lawful
proven-lawful g p h = ground arith

Change-LawfulAt : (s s' : Store) (k : String) → Change.Change s s' → LawfulAt k s → LawfulAt k s'
Change-LawfulAt s s' k (Change.quiet e) h = ground arith
Change-LawfulAt s s' k (Change.registered g row free is at e) h = ground (
  arith,
  text_key.equals_iff g k,
  find-append g k row s.generation_registry free,
  created-lawful row (find k s.snapshot_admission_proofs) is at,
)
Change-LawfulAt s s' k (Change.moved g row to_state m) h = moved-LawfulAt g row to_state s s' k m h
Change-LawfulAt s s' k (Change.claimed g i c free e) h = ground arith
Change-LawfulAt s s' k (Change.marked g i shard to_state found may e) h = ground arith
Change-LawfulAt s s' k (Change.committed g token row free e) h = ground arith
Change-LawfulAt s s' k (Change.admitted g row free e) h = ground (
  arith,
  text_key.equals_iff g k,
  find-append g k row s.snapshot_admission_proofs free,
  proven-lawful (find k s.generation_registry) row,
)

run_all-LawfulAt :
    (c : Codec) (h : Host) (calls : List Call) (s : Store) (k : String)
    → LawfulAt k s
    → LawfulAt k (run_all c h calls s)
unfolding run_all
run_all-LawfulAt c h [] s k holds = holds
run_all-LawfulAt c h (call ∷ calls) s k holds =
    run_all-LawfulAt c h calls (run c h call s) k
      (Change-LawfulAt s (run c h call s) k (run-Change s c h call) holds)

-- After any calls of the registry's methods on a new database, whether they return or raise, a
-- generation is created at revision 0, loading at revision 1, or applying changes at revision 2 with
-- a recorded admission proof; no other state is reached.
pub states_lawful :
    (c : Codec) (h : Host) (calls : List Call) (g : String)
    → lawful
        (find g (run_all c h calls empty).generation_registry)
        (find g (run_all c h calls empty).snapshot_admission_proofs)
      ≡ true
unfolding find lawful
states_lawful c h calls g = run_all-LawfulAt c h calls empty g refl
