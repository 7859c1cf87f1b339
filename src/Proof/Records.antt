-- ===== src/Proof/Records.antt =====
-- What `gate_record` writes passes `validate_gate`, its digest included.
use changebridge_cdc_migrati.Base.{String, some, [], ◌∷◌, ◌++◌, ◌≡◌, refl, ap, ◌∙◌, arith, inl, inr}
use changebridge_cdc_migrati.Base.Key.{==_refl, text_key}
use changebridge_cdc_migrati.Base.Result.{ok, ◌>>◌, require_all, >>=-eq-ok, Result-cases}
use changebridge_cdc_migrati.Json.{Json, Codec, dict, str}
use changebridge_cdc_migrati.Json.Access.{get, lookup}
use changebridge_cdc_migrati.Json.Contracts.{semantic_digest}
use changebridge_cdc_migrati.Proof.Gates.{
  GateInputs, without, gate_guards, check_digest, validate_gate, gate_fields, gate_record,
}

module _ (c : Codec) (g : GateInputs) where
  gate_record-eq-ok :
      (gate : Json)
      → gate_record c g ≡ ok gate
      → (digest : String) × (validate_gate c (dict (gate_fields g)) ≡ ok tt)
        × (semantic_digest c (dict (gate_fields g)) "stage26-gate-result" ≡ ok digest)
        × (gate ≡ dict (gate_fields g ++ ("gate_digest", str digest) ∷ []))
  unfolding gate_record
  gate_record-eq-ok gate h =
      let body = dict (gate_fields g) in
      let (_, valid, more) = >>=-eq-ok (validate_gate c body) _ h in
      elim (Result-cases (semantic_digest c body "stage26-gate-result")) [
        | inl (digest, e) ↦ (digest, valid, e, ground (arith, more, e))
        | inr (x, e) ↦ absurd (ground (arith, more, e))
      ]

  check_digest-signed :
      (digest : String)
      → semantic_digest c (dict (gate_fields g)) "stage26-gate-result" ≡ ok digest
      → check_digest c
          (some (str digest))
          (dict (gate_fields g ++ ("gate_digest", str digest) ∷ []))
        ≡ ok tt
  unfolding check_digest without
  check_digest-signed digest e = rw (e, ==_refl digest) refl

  -- A record that `gate_record` returns passes `validate_gate` as it was written.
  pub validate_gate-gate_record :
      (gate : Json) → gate_record c g ≡ ok gate → validate_gate c gate ≡ ok tt
  unfolding validate_gate gate_guards get lookup
  validate_gate-gate_record gate h =
      let (digest, valid, e, written) = gate_record-eq-ok gate h in
      let (_, checked, _) = >>=-eq-ok (require_all (gate_guards (dict (gate_fields g)))) _ valid in
      let signed = dict (gate_fields g ++ ("gate_digest", str digest) ∷ []) in
      rw written (
        ap (λ r. r >> check_digest c (some (str digest)) signed) checked
        ∙ check_digest-signed digest e)
