-- ===== src/Proof/Evidence.antt =====
-- Every generation of the proof ledger stands where its seal and its manifest put it.
use mathlib.Core.Option.{none-ne-some, some-injective}
use mathlib.Core.Path.{subst, subst₂}
use changebridge_cdc_migrati.Base.{
  String, true, none, some, List, [], ◌∷◌, ◌≡◌, ◌⊎◌, refl, sym, ap, ◌∙◌, inl, inr, arith,
}
use changebridge_cdc_migrati.Base.Key.{text_key, pair_key}
use changebridge_cdc_migrati.Base.Table.{
  Table, find, update, insert_or_ignore, find-insert_or_ignore, find-update-eq-some,
}
use changebridge_cdc_migrati.Json.{Json, Codec}
use changebridge_cdc_migrati.Json.Access.{get}
use changebridge_cdc_migrati.Proof.Gates.{Binding}
use changebridge_cdc_migrati.Proof.Assembly.{IsManifest}
use changebridge_cdc_migrati.Proof.Ledger.{
  Store, empty, cdc_applying, sealed, proving, proven, Generation, Attempt, can_seal, can_prove,
  write_seal, start_proving, binding_of, close_attempt, write_manifest_row,
}
use changebridge_cdc_migrati.Proof.Change.{Call, fresh, opened, Change, run, run_all, run-Change}

-- what a manifest of the generation is bound to
abbrev pub own_binding : String → Generation → Binding
own_binding g row = record {
  generation_id = g;
  frontier = row.frontier;
  schema_set_digest = row.schema_set_digest;
  input_revision = 1;
}

-- A generation is unsealed at revision 0, sealed without a manifest at revision 1, or proven at
-- revision 2 by a manifest for its own binding and seal.
pub data IsBacked (c : Codec) (g : String) (row : Generation) : Type 0 where
  unsealed :
      row.state ≡ cdc_applying
      → row.revision ≡ 0
      → row.seal_json ≡ none
      → row.manifest_json ≡ none
      → IsBacked c g row
  unproven :
      (payload : String)
      → (row.state ≡ sealed) ⊎ (row.state ≡ proving)
      → row.revision ≡ 1
      → row.seal_json ≡ some payload
      → row.manifest_json ≡ none
      → IsBacked c g row
  backed :
      (payload : String) (seal_digest manifest : Json)
      → row.state ≡ proven
      → row.revision ≡ 2
      → row.seal_json ≡ some payload
      → get "seal_digest" (c.loads payload) ≡ some seal_digest
      → IsManifest c (own_binding g row) seal_digest manifest
      → row.manifest_json ≡ some (c.dumps true manifest)
      → IsBacked c g row

module _ (c : Codec) (g : String) (row : Generation) where
  write_seal-IsBacked :
      (payload : String)
      → IsBacked c g row
      → can_seal row.state ≡ true
      → IsBacked c g (write_seal c payload row)
  write_seal-IsBacked payload (unsealed state revision seal manifest) may =
      unproven payload (inl refl) refl refl manifest
  write_seal-IsBacked payload (unproven p state revision seal manifest) may =
      unproven payload (inl refl) refl refl manifest
  write_seal-IsBacked payload (backed p d m state revision seal digest is manifest) may =
      absurd (ground (arith, state, may))

  start_proving-IsBacked :
      IsBacked c g row → can_prove row.state ≡ true → IsBacked c g (start_proving c row)
  start_proving-IsBacked (unsealed state revision seal manifest) may =
      absurd (ground (arith, state, may))
  start_proving-IsBacked (unproven p state revision seal manifest) may =
      unproven p (inr refl) revision seal manifest
  start_proving-IsBacked (backed p d m state revision seal digest is manifest) may =
      absurd (ground (arith, state, may))

  revision_proving : IsBacked c g row → can_prove row.state ≡ true → row.revision ≡ 1
  revision_proving (unsealed state revision seal manifest) may = absurd (ground (arith, state, may))
  revision_proving (unproven p state revision seal manifest) may = revision
  revision_proving (backed p d m state revision seal digest is manifest) may =
      absurd (ground (arith, state, may))

module _ (c : Codec) where
  -- every generation is backed, and every attempt is of revision 1
  abbrev pub IsLedger : Store → Type 0
  IsLedger s =
      ((g : String) (row : Generation) → find g s.generations ≡ some row → IsBacked c g row)
      × ((a : String) (attempt : Attempt)
          → find a s.attempts ≡ some attempt
          → attempt.input_revision ≡ 1)

  abbrev Rows : Table String Generation → Type 0
  Rows t = (g : String) (row : Generation) → find g t ≡ some row → IsBacked c g row

  insert_or_ignore-Rows :
      (g frontier schemas : String) (t : Table String Generation)
      → Rows t
      → Rows (insert_or_ignore g (fresh frontier schemas) t)
  insert_or_ignore-Rows g frontier schemas t rows j row h =
      elim (find-insert_or_ignore g j (fresh frontier schemas) row t h) [
        | inl before ↦ rows j row before
        | inr (same, free, new) ↦ rw new (unsealed refl refl refl refl)
      ]

  update-Rows :
      (g : String) (f : Generation → Generation) (t : Table String Generation) (row : Generation)
      → find g t ≡ some row
      → IsBacked c g (f row)
      → Rows t
      → Rows (update g f t)
  update-Rows g f t row current changed rows j new h =
      let (old, found, which) = find-update-eq-some g j f new t h in
      elim which [
        | inl (same, e) ↦
            let one : row ≡ old =
              some-injective row old (sym current ∙ ap (λ k. find k t) same ∙ found) in
            subst₂ (IsBacked c) same (ap f one ∙ sym e) changed
        | inr (other, e) ↦ rw e (rows j old found)
      ]

  began-attempts :
      (a g : String) (row : Generation) (s : Store)
      → row.revision ≡ 1
      → IsLedger s
      → (b : String) (attempt : Attempt)
      → find b (insert_or_ignore a (opened g row) s.attempts) ≡ some attempt
      → attempt.input_revision ≡ 1
  began-attempts a g row s one (h, k) b attempt found =
      elim (find-insert_or_ignore a b (opened g row) attempt s.attempts found) [
        | inl before ↦ k b attempt before
        | inr (same, free, new) ↦ ap (λ x. x.input_revision) new ∙ one
      ]

  proved-attempts :
      (a : String) (s : Store)
      → IsLedger s
      → (b : String) (attempt : Attempt)
      → find b (update a (close_attempt c) s.attempts) ≡ some attempt
      → attempt.input_revision ≡ 1
  proved-attempts a s (h, k) b attempt found =
      let (old, before, which) =
        find-update-eq-some a b (close_attempt c) attempt s.attempts found in
      elim which [
        | inl (same, e) ↦ ap (λ x. x.input_revision) e ∙ k b old before
        | inr (other, e) ↦ ap (λ x. x.input_revision) e ∙ k b old before
      ]

  proved-IsBacked :
      (attempt : Attempt) (row : Generation) (payload : String) (seal_digest manifest : Json)
      → attempt.input_revision ≡ 1
      → row.seal_json ≡ some payload
      → get "seal_digest" (c.loads payload) ≡ some seal_digest
      → IsManifest c (binding_of c attempt row) seal_digest manifest
      → IsBacked c attempt.generation_id (write_manifest_row c (c.dumps true manifest) row)
  proved-IsBacked attempt row payload d m one has_seal digest is =
      let own : binding_of c attempt row ≡ own_binding attempt.generation_id row =
        ap
          (λ n. record {
            generation_id = attempt.generation_id;
            frontier = row.frontier;
            schema_set_digest = row.schema_set_digest;
            input_revision = n;
          })
          one in
      backed payload d m refl refl has_seal digest (subst (λ b. IsManifest c b d m) own is) refl

  Change-IsLedger : (s s' : Store) → Change c s s' → IsLedger s → IsLedger s'
  Change-IsLedger s s' (Change.quiet rows attempts) (h, k) = (rw rows h, rw attempts k)
  Change-IsLedger s s' (Change.registered g frontier schemas rows attempts) (h, k) =
      (rw rows (insert_or_ignore-Rows g frontier schemas s.generations h), rw attempts k)
  Change-IsLedger s s' (Change.sealed g payload row found may agreed rows attempts) (h, k) =
      let new = write_seal-IsBacked c g row payload (h g row found) may in
      (rw rows (update-Rows g (write_seal c payload) s.generations row found new h), rw attempts k)
  Change-IsLedger s s' (Change.began g a row found may rows attempts) (h, k) =
      let new = start_proving-IsBacked c g row (h g row found) may in
      let one = revision_proving c g row (h g row found) may in
      (
        rw rows (update-Rows g (start_proving c) s.generations row found new h),
        rw attempts (began-attempts a g row s one (h, k)),
      )
  Change-IsLedger s s' (Change.proved a payload attempt row d m fa fg hs hd is e) (h, k) =
      let new = proved-IsBacked attempt row payload d m (k a attempt fa) hs hd is in
      let write = write_manifest_row c (c.dumps true m) in
      rw e (
        update-Rows attempt.generation_id write s.generations row fg new h,
        proved-attempts a s (h, k),
      )

  run_all-IsLedger : (calls : List Call) (s : Store) → IsLedger s → IsLedger (run_all c calls s)
  unfolding run_all
  run_all-IsLedger [] s h = h
  run_all-IsLedger (call ∷ calls) s h =
      run_all-IsLedger calls (run c call s)
        (Change-IsLedger s (run c call s) (run-Change c call s) h)

  empty-IsLedger : IsLedger empty
  unfolding find
  empty-IsLedger =
      (λ g row h. absurd (none-ne-some row h), λ a attempt h. absurd (none-ne-some attempt h))

  -- Whatever calls a new ledger receives, a generation that it holds is unsealed without a manifest,
  -- sealed without one, or proven, and then its manifest was assembled of one passing gate for each
  -- required identifier, bound to the generation's own frontier, schema set and seal.
  pub generation-IsBacked :
      (calls : List Call) (g : String) (row : Generation)
      → find g (run_all c calls empty).generations ≡ some row
      → IsBacked c g row
  generation-IsBacked calls g row h = (run_all-IsLedger calls empty empty-IsLedger).0 g row h
