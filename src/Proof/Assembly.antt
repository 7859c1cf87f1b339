-- ===== src/Proof/Assembly.antt =====
-- What a manifest that `assemble_manifest` returns says of the gates that it was given.
use mathlib.Core.Option.{none-ne-some}
use mathlib.Core.Path.{subst₂}
use changebridge_cdc_migrati.Base.{
  String, true, Option, none, some, List, [], ◌∷◌, ◌++◌, ◌≡◌, refl, inl, inr, arith,
}
use changebridge_cdc_migrati.Base.Tests.{All, Bool-cases}
use changebridge_cdc_migrati.Base.Key.{◌==◌, text_key}
use changebridge_cdc_migrati.Base.Result.{
  ok, require_all, >>=-eq-ok, require_all-eq-ok, Result-cases,
}
use changebridge_cdc_migrati.Base.Table.{Table, find}
use changebridge_cdc_migrati.Json.{Json, str, dict, Codec}
use changebridge_cdc_migrati.Json.Access.{get, is_text, is_number}
use changebridge_cdc_migrati.Json.Contracts.{semantic_digest}
use changebridge_cdc_migrati.Proof.Gates.{
  Binding, required_gates, known_gate, validate_gate, frontier_value, pick, manifest_fields, guards,
  admit_as, admit_gates, write_manifest, assemble_manifest,
}

-- a valid gate of an identifier, that passed and is bound to what the manifest is bound to
pub record Passing (c : Codec) (b : Binding) (id : String) (gate : Json) : Type 0 where
  pub valid : validate_gate c gate ≡ ok tt
  pub identifier : known_gate (get "gate_id" gate) ≡ some id
  pub passed : is_text "PASS" (get "verdict" gate) ≡ true
  pub generation : is_text b.generation_id (get "generation_id" gate) ≡ true
  pub at_frontier : is_text b.frontier (frontier_value gate) ≡ true
  pub schemas : is_text b.schema_set_digest (get "schema_set_digest" gate) ≡ true
  pub revision : is_number b.input_revision (get "input_revision" gate) ≡ true

module _ (c : Codec) (b : Binding) where
  -- one passing gate for each identifier, in their order
  abbrev pub Passes : List String → List Json → Type 0
  Passes [] [] = Unit
  Passes (id ∷ ids) (gate ∷ gates) = Passing c b id gate × Passes ids gates
  Passes _ _ = ⊥

  abbrev Rows : Table String Json → Type 0
  Rows = All (λ r. Passing c b r.0 r.1)

  Rows-append :
      (t : Table String Json) (id : String) (gate : Json)
      → Rows t
      → Passing c b id gate
      → Rows (t ++ (id, gate) ∷ [])
  Rows-append [] id gate rows p = (p, tt)
  Rows-append (r ∷ t) id gate rows p = (rows.0, Rows-append t id gate rows.1 p)

  admit_as-Rows :
      (by_id t : Table String Json) (gate : Json) (known : Option String)
      → known_gate (get "gate_id" gate) ≡ known
      → validate_gate c gate ≡ ok tt
      → admit_as c b by_id gate known ≡ ok t
      → Rows by_id
      → Rows t
  unfolding admit_as
  admit_as-Rows by_id t gate none e valid h rows = absurd (ground (arith, h))
  admit_as-Rows by_id t gate (some id) e valid h rows =
      let (_, checked, last) = >>=-eq-ok (require_all (guards c b by_id gate id)) _ h in
      let (_, (generation, (frontier, (schemas, (revision, (passed, _)))))) =
        require_all-eq-ok (guards c b by_id gate id) checked in
      let e' : t ≡ by_id ++ (id, gate) ∷ [] = ground (arith, last) in
      rw e' (
        Rows-append by_id id gate rows (record {
          valid = valid;
          identifier = e;
          passed = passed;
          generation = generation;
          at_frontier = frontier;
          schemas = schemas;
          revision = revision;
        }))

  admit_gates-Rows :
      (by_id t : Table String Json) (gates : List Json)
      → admit_gates c b by_id gates ≡ ok t
      → Rows by_id
      → Rows t
  unfolding admit_gates
  admit_gates-Rows by_id t [] h rows = let e : t ≡ by_id = ground (arith, h) in rw e rows
  admit_gates-Rows by_id t (gate ∷ gates) h rows =
      let (_, valid, more) = >>=-eq-ok (validate_gate c gate) _ h in
      let known = known_gate (get "gate_id" gate) in
      let (next, admitted, last) = >>=-eq-ok (admit_as c b by_id gate known) _ more in
      admit_gates-Rows next t gates last
        (admit_as-Rows by_id next gate known refl valid admitted rows)

  find-Rows :
      (id : String) (t : Table String Json) (gate : Json)
      → find id t ≡ some gate
      → Rows t
      → Passing c b id gate
  unfolding find
  find-Rows id [] gate h rows = absurd (none-ne-some gate h)
  find-Rows id ((j, g) ∷ t) gate h rows = elim (Bool-cases (j == id)) [
    | inl same ↦
        let e : j ≡ id = (text_key.equals_iff j id).0 same in
        subst₂ (Passing c b) e (ground (arith, h, same)) rows.0
    | inr other ↦ find-Rows id t gate (rw other at h) rows.1
  ]

  pick-cons :
      (id : String) (ids : List String) (t : Table String Json) (gates : List Json)
      → pick (id ∷ ids) t ≡ some gates
      → (gate : Json) × (rest : List Json) × (find id t ≡ some gate)
        × (pick ids t ≡ some rest)
        × (gates ≡ gate ∷ rest)
  unfolding pick
  pick-cons id ids t gates h = ground (arith, h)

  pick-Passes :
      (ids : List String) (t : Table String Json) (gates : List Json)
      → Rows t
      → pick ids t ≡ some gates
      → Passes ids gates
  unfolding pick
  pick-Passes [] t gates rows h = let e : gates ≡ [] = ground (arith, h) in rw e tt
  pick-Passes (id ∷ ids) t gates rows h =
      let (gate, rest, found, more, e) = pick-cons id ids t gates h in
      rw e (find-Rows id t gate found rows, pick-Passes ids t rest rows more)

  -- the manifest, of one passing gate for each required identifier, in their order, under its digest
  abbrev pub IsManifest : Json → Json → Type 0
  IsManifest seal_digest manifest =
      (gates : List Json) × (digest : String) × Passes required_gates gates
      × (semantic_digest c (dict (manifest_fields b seal_digest gates)) "stage26-proof-manifest"
          ≡ ok digest)
      × (manifest
          ≡ dict
              (manifest_fields b seal_digest gates ++ ("proof_manifest_digest", str digest) ∷ []))

  write_manifest-eq-ok :
      (seal_digest manifest : Json) (picked : Option (List Json))
      → write_manifest c b seal_digest picked ≡ ok manifest
      → (gates : List Json) × (digest : String) × (picked ≡ some gates)
        × (semantic_digest c (dict (manifest_fields b seal_digest gates)) "stage26-proof-manifest"
            ≡ ok digest)
        × (manifest
            ≡ dict
                (manifest_fields b seal_digest gates ++ ("proof_manifest_digest", str digest) ∷ []))
  unfolding write_manifest
  write_manifest-eq-ok seal_digest manifest none h = absurd (ground (arith, h))
  write_manifest-eq-ok seal_digest manifest (some gates) h =
      let body = dict (manifest_fields b seal_digest gates) in
      elim (Result-cases (semantic_digest c body "stage26-proof-manifest")) [
        | inl (digest, e) ↦ (gates, digest, refl, e, ground (arith, h, e))
        | inr (x, e) ↦ absurd (ground (arith, h, e))
      ]

  -- When `assemble_manifest` returns, its manifest lists one valid gate for each required
  -- identifier, in their order, each of which passed and is bound to the manifest's generation,
  -- frontier, schema set and revision, and carries the digest of what it lists.
  pub assemble_manifest-IsManifest :
      (gates : List Json) (seal_digest manifest : Json)
      → assemble_manifest c b gates seal_digest ≡ ok manifest
      → IsManifest seal_digest manifest
  unfolding assemble_manifest
  assemble_manifest-IsManifest gates seal_digest manifest h =
      let (by_id, admitted, written) = >>=-eq-ok (admit_gates c b [] gates) _ h in
      let (picked, digest, chosen, signed, e) =
        write_manifest-eq-ok seal_digest manifest (pick required_gates by_id) written in
      let rows = admit_gates-Rows [] by_id gates admitted tt in
      (picked, digest, pick-Passes required_gates by_id picked rows chosen, signed, e)
