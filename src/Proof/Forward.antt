-- ===== src/Proof/Forward.antt =====
-- What calls of the proof ledger never undo.
use mathlib.Core.Option.{some-injective}
use mathlib.Core.Path.{subst}
use changebridge_cdc_migrati.Base.{
  ℕ, ◌≤◌, String, true, false, some, List, [], ◌∷◌, ◌≡◌, refl, sym, ap, ◌∙◌, inl, inr, arith,
}
use changebridge_cdc_migrati.Base.Tests.{Bool-cases}
use changebridge_cdc_migrati.Base.Key.{◌==◌, text_key}
use changebridge_cdc_migrati.Base.Table.{
  Table, find, update, find-insert_or_ignore_kept, find-update,
}
use changebridge_cdc_migrati.Json.{Codec}
use changebridge_cdc_migrati.Proof.Ledger.{
  Store, State, cdc_applying, sealed, proving, proven, Generation, can_seal, can_prove, conflicts,
  write_seal, start_proving, write_manifest_row,
}
use changebridge_cdc_migrati.Proof.Change.{Call, fresh, Change, run, run_all, run-Change}

-- the order in which a generation passes its states
abbrev pub rank : State → ℕ
rank cdc_applying = 0
rank sealed = 1
rank proving = 2
rank proven = 3

-- a later row of the same generation
pub record Ahead (row later : Generation) : Type 0 where
  pub same_frontier : later.frontier ≡ row.frontier
  pub same_schemas : later.schema_set_digest ≡ row.schema_set_digest
  pub forward : rank row.state ≤ rank later.state
  pub keeps_seal :
      (payload : String) → row.seal_json ≡ some payload → later.seal_json ≡ some payload

Ahead-refl : (row : Generation) → Ahead row row
Ahead-refl row = record {
  same_frontier = refl;
  same_schemas = refl;
  forward = omega arith;
  keeps_seal = λ p h. h;
}

Ahead-trans : (a b c : Generation) → Ahead a b → Ahead b c → Ahead a c
Ahead-trans a b c h k = record {
  same_frontier = k.same_frontier ∙ h.same_frontier;
  same_schemas = k.same_schemas ∙ h.same_schemas;
  forward = omega (arith, h.forward, k.forward);
  keeps_seal = λ p e. k.keeps_seal p (h.keeps_seal p e);
}

module _ (c : Codec) where
  write_seal-Ahead :
      (row : Generation) (payload : String)
      → can_seal row.state ≡ true
      → conflicts row.seal_json payload ≡ false
      → Ahead row (write_seal c payload row)
  write_seal-Ahead row payload may agreed = record {
    same_frontier = refl;
    same_schemas = refl;
    forward = ground (arith, may);
    keeps_seal = λ p e. ground (arith, agreed, e, text_key.equals_iff p payload);
  }

  start_proving-Ahead :
      (row : Generation) → can_prove row.state ≡ true → Ahead row (start_proving c row)
  start_proving-Ahead row may = record {
    same_frontier = refl;
    same_schemas = refl;
    forward = ground (arith, may);
    keeps_seal = λ p e. e;
  }

  write_manifest_row-Ahead :
      (row : Generation) (payload : String) → Ahead row (write_manifest_row c payload row)
  write_manifest_row-Ahead row payload = record {
    same_frontier = refl;
    same_schemas = refl;
    forward = ground arith;
    keeps_seal = λ p e. e;
  }

  -- a row of the generation that is ahead of an earlier one
  abbrev pub Later : String → Generation → Table String Generation → Type 0
  Later g row t = (later : Generation) × (find g t ≡ some later) × Ahead row later

  update-Later :
      (k : String) (f : Generation → Generation) (t : Table String Generation) (old : Generation)
      → find k t ≡ some old
      → Ahead old (f old)
      → (g : String) (row : Generation) → find g t ≡ some row
      → Later g row (update k f t)
  update-Later k f t old current ahead g row found = elim (Bool-cases (k == g)) [
    | inl same ↦
        let e : k ≡ g = (text_key.equals_iff k g).0 same in
        let one : old ≡ row = some-injective old row (sym current ∙ ap (λ j. find j t) e ∙ found) in
        (
          f row,
          ground (arith, find-update k g f t, same, found),
          subst (λ r. Ahead r (f r)) one ahead,
        )
    | inr other ↦ (row, ground (arith, find-update k g f t, other, found), Ahead-refl row)
  ]

  Change-Later :
      (s s' : Store)
      → Change c s s'
      → (g : String) (row : Generation) → find g s.generations ≡ some row
      → Later g row s'.generations
  Change-Later s s' (Change.quiet rows attempts) g row h = (row, rw rows h, Ahead-refl row)
  Change-Later s s' (Change.registered k frontier schemas rows attempts) g row h = (
    row,
    rw rows (find-insert_or_ignore_kept k g (fresh frontier schemas) row s.generations h),
    Ahead-refl row,
  )
  Change-Later s s' (Change.sealed k payload old found may agreed rows attempts) g row h =
      let ahead = write_seal-Ahead old payload may agreed in
      rw rows (update-Later k (write_seal c payload) s.generations old found ahead g row h)
  Change-Later s s' (Change.began k a old found may rows attempts) g row h =
      let ahead = start_proving-Ahead old may in
      rw rows (update-Later k (start_proving c) s.generations old found ahead g row h)
  Change-Later s s' (Change.proved a payload attempt old d m fa fg hs hd is e) g row h =
      let write = write_manifest_row c (c.dumps true m) in
      let ahead = write_manifest_row-Ahead old (c.dumps true m) in
      rw e (update-Later attempt.generation_id write s.generations old fg ahead g row h)

  -- Whatever calls follow, a generation stays in the ledger with its frontier and its schema set, its
  -- seal is never replaced, and its state never goes back.
  pub run_all-Ahead :
      (calls : List Call) (s : Store) (g : String) (row : Generation)
      → find g s.generations ≡ some row
      → Later g row (run_all c calls s).generations
  unfolding run_all
  run_all-Ahead [] s g row h = (row, h, Ahead-refl row)
  run_all-Ahead (call ∷ calls) s g row h =
      let next = run c call s in
      let (middle, found, ahead) = Change-Later s next (run-Change c call s) g row h in
      let (later, found', ahead') = run_all-Ahead calls next g middle found in
      (later, found', Ahead-trans row middle later ahead ahead')
