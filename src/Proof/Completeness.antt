-- ===== src/Proof/Completeness.antt =====
-- Gates that pass are enough: `assemble_manifest` returns.
use mathlib.Core.List.{
  Mem, Nodup, Nodup-cons, mem-cast, mem-cons_self, mem-cons_of_mem, append-nil, append_assoc,
}
use changebridge_cdc_migrati.Base.{
  String, none, some, List, [], ◌∷◌, ◌++◌, map, ◌≡◌, ◌≢◌, refl, sym, ap, ◌∙◌, arith,
}
use changebridge_cdc_migrati.Base.Tests.{All}
use changebridge_cdc_migrati.Base.Key.{text_key}
use changebridge_cdc_migrati.Base.Result.{ok}
use changebridge_cdc_migrati.Base.Table.{Table, find}
use changebridge_cdc_migrati.Json.{Json, str, dict, Codec}
use changebridge_cdc_migrati.Json.Contracts.{semantic_digest}
use changebridge_cdc_migrati.Proof.Gates.{
  Binding, required_gates, pick, manifest_fields, admit_as, admit_gates, write_manifest,
  assemble_manifest,
}
use changebridge_cdc_migrati.Proof.Assembly.{Passing}

-- gates under their identifiers, no two of which are equal
abbrev Distinct : Table String Json → Type 0
Distinct [] = Unit
Distinct ((id, gate) ∷ rows) = All (λ r. r.0 ≢ id) rows × Distinct rows

find-other :
    (id j : String) (gate : Json) (t : Table String Json)
    → find j t ≡ none
    → j ≢ id
    → find j (t ++ (id, gate) ∷ []) ≡ none
unfolding find
find-other id j gate [] h other = ground (arith, other, text_key.equals_iff id j)
find-other id j gate ((k, g) ∷ t) h other = ground (arith, h, other, find-other id j gate t)

module _ (c : Codec) (b : Binding) where
  abbrev pub AllPass : Table String Json → Type 0
  AllPass = All (λ r. Passing c b r.0 r.1)

  admit_as-Passing :
      (t : Table String Json) (id : String) (gate : Json)
      → find id t ≡ none
      → Passing c b id gate
      → admit_as c b t gate (some id) ≡ ok (t ++ (id, gate) ∷ [])
  unfolding admit_as
  admit_as-Passing t id gate free p =
      rw (free, p.generation, p.at_frontier, p.schemas, p.revision, p.passed) refl

  keep_free :
      (id : String) (gate : Json) (t rows : Table String Json)
      → All (λ r. r.0 ≢ id) rows
      → All (λ r. find r.0 t ≡ none) rows
      → All (λ r. find r.0 (t ++ (id, gate) ∷ []) ≡ none) rows
  keep_free id gate t [] others free = tt
  keep_free id gate t ((j, g) ∷ rows) others free =
      (find-other id j gate t free.0 others.0, keep_free id gate t rows others.1 free.1)

  admit_gates-Passing :
      (t rows : Table String Json)
      → Distinct rows
      → AllPass rows
      → All (λ r. find r.0 t ≡ none) rows
      → admit_gates c b t (map (λ r. r.1) rows) ≡ ok (t ++ rows)
  unfolding admit_gates
  admit_gates-Passing t [] distinct pass free = ap ok (sym (append-nil t))
  admit_gates-Passing t ((id, gate) ∷ rows) distinct pass free =
      let p = pass.0 in
      rw (p.valid, p.identifier, admit_as-Passing t id gate free.0 p)
        (admit_gates-Passing (t ++ (id, gate) ∷ []) rows distinct.1 pass.1
            (keep_free id gate t rows distinct.0 free.1)
          ∙ ap ok (append_assoc t ((id, gate) ∷ []) rows))

  every_free : (rows : Table String Json) → All (λ r. find {V = Json} r.0 [] ≡ none) rows
  unfolding find
  every_free [] = tt
  every_free (r ∷ rows) = (refl, every_free rows)

  absent-All :
      (id : String) (rows : Table String Json)
      → ¬ Mem id (map (λ r. r.0) rows)
      → All (λ r. r.0 ≢ id) rows
  absent-All id [] absent = tt
  absent-All id ((j, gate) ∷ rows) absent = (
    λ e. absent (mem-cast (sym e) mem-cons_self),
    absent-All id rows (λ m. absent (mem-cons_of_mem j m)),
  )

  Nodup-Distinct : (rows : Table String Json) → Nodup (map (λ r. r.0) rows) → Distinct rows
  Nodup-Distinct [] h = tt
  Nodup-Distinct ((id, gate) ∷ rows) h =
      let (absent, rest) = Nodup-cons.0 h in (absent-All id rows absent, Nodup-Distinct rows rest)

  -- Gates of distinct identifiers that are valid, passed and are bound to the manifest, the required
  -- ones among them, are assembled, in whatever order they come, unless the digest itself raises.
  pub assemble_manifest_returns :
      (rows : Table String Json) (gates : List Json) (seal_digest : Json) (digest : String)
      → Nodup (map (λ r. r.0) rows)
      → AllPass rows
      → pick required_gates rows ≡ some gates
      → semantic_digest c (dict (manifest_fields b seal_digest gates)) "stage26-proof-manifest"
        ≡ ok digest
      → assemble_manifest c b (map (λ r. r.1) rows) seal_digest
        ≡ ok (
            dict
              (manifest_fields b seal_digest gates ++ ("proof_manifest_digest", str digest) ∷ []))
  unfolding assemble_manifest write_manifest
  assemble_manifest_returns rows gates seal_digest digest distinct pass picked signed =
      rw
        (
          admit_gates-Passing [] rows (Nodup-Distinct rows distinct) pass (every_free rows),
          picked,
          signed,
        )
        refl
