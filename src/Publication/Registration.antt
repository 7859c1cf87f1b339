-- ===== src/Publication/Registration.antt =====
-- src/changebridge/publication.py: `register_generation` and `set_eligibility`.
use mathlib.Core.Option
use changebridge_cdc_migrati.Base.{
  String, Bool, true, false, not, ◌&&◌, ◌||◌, Option, none, some, List, ◌∷◌,
}
use changebridge_cdc_migrati.Base.Tests.{is_some}
use changebridge_cdc_migrati.Base.Key.{◌==◌, text_key}
use changebridge_cdc_migrati.Base.Table.{find, insert, update}
use changebridge_cdc_migrati.Base.Exec.{pure, gets, or_raise, modify, raise_if, ◌>>=◌, ◌>>◌}
use changebridge_cdc_migrati.Json.{Json, Codec, dict, str}
use changebridge_cdc_migrati.Json.Contracts.{semantic_digest}
use changebridge_cdc_migrati.Publication.{
  Method, Generation, GenerationState, digest_or_raise, get_generation, binding_digest,
  generation_binding_conflict, unsupported_flag, integrity_error,
}

-- A publication binding manifest: the fields that registration reads, and the others of its body.
pub record Binding : Type 0 where
  pub generation_id : String
  pub frontier : Json
  pub schema_set_digest : String
  pub execution_proof_manifest_digest : String
  pub table_map : Json
  pub table_map_digest : String
  pub publication_binding_digest : String
  pub others : List (String × Json)

-- all of the manifest but its own digest
unfoldable pub binding_body : Binding → Json
binding_body b = dict (
    ("generation_id", str b.generation_id)
    ∷ ("frontier", b.frontier)
    ∷ ("schema_set_digest", str b.schema_set_digest)
    ∷ ("execution_proof_manifest_digest", str b.execution_proof_manifest_digest)
    ∷ ("table_map", b.table_map)
    ∷ ("table_map_digest", str b.table_map_digest)
    ∷ b.others)

-- comparable == values[1:8]
abbrev same_binding : Generation → Generation → Bool
same_binding a b =
    a.frontier_json == b.frontier_json
    && (a.schema_set_digest == b.schema_set_digest
        && (a.proof_manifest_digest == b.proof_manifest_digest
            && (a.publication_binding_digest == b.publication_binding_digest
                && (a.table_map_json == b.table_map_json
                    && (a.table_map_digest == b.table_map_digest
                        && a.consumer_contract == b.consumer_contract)))))

-- a registered generation is compared and returned, a new one is inserted
unfoldable pub insert_or_compare : String → Generation → Option Generation → Method Generation
insert_or_compare generation_id row (some existing) = do
  raise_if (not (same_binding existing row)) generation_binding_conflict
  pure existing
insert_or_compare generation_id row none = do
  generations ← gets (λ s. s.generations)
  inserted ← or_raise (insert generation_id row generations) integrity_error
  modify (λ s. record s { generations = inserted })
  get_generation generation_id

module _ (c : Codec) where
  -- `_json` escapes what is not ASCII
  unfoldable pub binding_row : Binding → String → Generation
  binding_row b consumer_contract = record {
    frontier_json = c.dumps true b.frontier;
    schema_set_digest = b.schema_set_digest;
    proof_manifest_digest = b.execution_proof_manifest_digest;
    publication_binding_digest = b.publication_binding_digest;
    table_map_json = c.dumps true b.table_map;
    table_map_digest = b.table_map_digest;
    consumer_contract = consumer_contract;
    state = GenerationState.proven;
    retained = true;
    readable = true;
    retired = false;
    evidence_valid = true;
    ever_published = false;
  }

  unfoldable pub register_generation : Binding → String → Method Generation
  register_generation b consumer_contract = do
    digest ← digest_or_raise (semantic_digest c (binding_body b) "stage27-publication-binding")
    raise_if (not (digest == b.publication_binding_digest)) binding_digest
    existing ← gets (λ s. find b.generation_id s.generations)
    insert_or_compare b.generation_id (binding_row b consumer_contract) existing

-- The keyword arguments of `set_eligibility`. It raises ValueError for any other name.
pub record Flags : Type 0 where
  pub retained : Option Bool
  pub readable : Option Bool
  pub retired : Option Bool
  pub evidence_valid : Option Bool

unfoldable pub set_flags : Flags → Generation → Generation
set_flags f g = record g {
  retained = Option.get_or f.retained g.retained;
  readable = Option.get_or f.readable g.readable;
  retired = Option.get_or f.retired g.retired;
  evidence_valid = Option.get_or f.evidence_valid g.evidence_valid;
}

unfoldable pub set_eligibility : String → Flags → Method (Unit {0})
unfolding set_flags
set_eligibility generation_id f = do
  raise_if
      (not (
        is_some f.retained
        || (is_some f.readable || (is_some f.retired || is_some f.evidence_valid))))
      unsupported_flag
  modify (λ s. record s { generations = update generation_id (set_flags f) s.generations })
