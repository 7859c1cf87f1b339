-- ===== src/Engine/Activation.antt =====
-- The active pointer changes by compare-and-swap.
use changebridge_cdc_migrati.Base.{
  ℕ, ◌+◌, ◌≤◌, String, true, some, List, [], ◌∷◌, ◌≡◌, ◌≢◌, inl, inr, arith,
}
use changebridge_cdc_migrati.Base.Tests.{Option-cases}
use changebridge_cdc_migrati.Base.Key.{text_key}
use changebridge_cdc_migrati.Base.Table.{find}
use changebridge_cdc_migrati.Base.Exec.{done}
use changebridge_cdc_migrati.Json.{Codec}
use changebridge_cdc_migrati.Engine.{
  Engine, Generation, is_ready, get_generation, swap_pointer, activate,
}
use changebridge_cdc_migrati.Engine.Frontier.{active_pointer_same}
use changebridge_cdc_migrati.Engine.Change.{
  Call, run, run_all, Change, same, created, promoted, advanced, activated, run-Change,
}

-- A successful activation had a ready generation and the current version. It returns the next
-- version, which with the generation is the new pointer, and changes nothing else.
pub activate_lem :
    (g : String) (v w : ℕ) (s s' : Engine)
    → activate g v s ≡ done w s'
    → (row : Generation) × (find g s.generations ≡ some row)
      × (is_ready row.status ≡ true)
      × (s.active_pointer.pointer_version ≡ v)
      × (w ≡ v + 1)
      × (s' ≡ record s {
        active_pointer = record { generation_id = some g; pointer_version = v + 1 };
      })
unfolding activate get_generation swap_pointer
activate_lem g v w s s' h = elim (Option-cases (find g s.generations)) [
  | inl missing ↦ absurd (ground arith)
  | inr (row, found) ↦ (row, found, ground arith, ground arith, ground arith, ground arith)
]

module _ (c : Codec) where
  Change-version :
      (s s' : Engine)
      → Change c s s'
      → s.active_pointer.pointer_version ≤ s'.active_pointer.pointer_version
  Change-version s s' (same e) = ground arith
  Change-version s s' (created h row free start e) = ground arith
  Change-version s s' (promoted h row status found unready accepts gs bs ptr) = ground arith
  Change-version s s' (advanced h b p) = ground (arith, active_pointer_same c h b s s' p)
  Change-version s s' (activated h row found is e) = ground arith

  run_all-version :
      (calls : List Call) (s : Engine)
      → s.active_pointer.pointer_version ≤ (run_all c calls s).active_pointer.pointer_version
  unfolding run_all
  run_all-version [] s = omega arith
  run_all-version (call ∷ calls) s = omega (
    arith,
    Change-version s (run c call s) (run-Change c call s),
    run_all-version calls (run c call s),
  )

-- Once an activation with an expected version has succeeded, no other with the same expected
-- version ever does, whatever calls come between: at most one of several publishers wins.
pub activate_once :
    (c : Codec) (g : String) (v w : ℕ) (s s' : Engine)
    → activate g v s ≡ done w s'
    → (calls : List Call) (h : String) (r : ℕ) (t : Engine)
    → activate h v (run_all c calls s') ≢ done r t
activate_once c g v w s s' won calls h r t again =
    let (_, _, _, _, _, first) = activate_lem g v w s s' won in
    let (_, _, _, second, _, _) = activate_lem h v r (run_all c calls s') t again in
    absurd (ground (arith, first, second, run_all-version c calls s'))
