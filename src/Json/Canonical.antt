-- ===== src/Json/Canonical.antt =====
-- src/changebridge/canonical.py: the encodings that replay and reconciliation compare.
use changebridge_cdc_migrati.Base.{String, false, List, ◌∷◌, [], map}
use changebridge_cdc_migrati.Base.Sort.{sort, text_le}
use changebridge_cdc_migrati.Json.{Json, Codec, str, list}

module _ (c : Codec) where
  -- ensure_ascii=False
  unfoldable pub canonical_json : Json → String
  canonical_json value = c.dumps false value

  unfoldable pub digest : Json → String
  unfolding canonical_json
  digest value = c.sha256 (canonical_json value)

  -- `sorted(rows.items())`: the keys of a mapping differ, so only they are compared
  unfoldable pub table_digest : List (String × Json) → String
  unfolding digest sort
  table_digest rows =
      digest (list (map (λ r. list (str r.0 ∷ r.1 ∷ [])) (sort (λ a b. text_le a.0 b.0) rows)))
