-- ===== src/Publication/Pins.antt =====
-- src/changebridge/publication.py: `pin`, the view of a product that a consumer fixes.
use mathlib.Core.Option
use changebridge_cdc_migrati.Base.{ℕ, String, true, not, Option, none, some, [], ◌∷◌}
use changebridge_cdc_migrati.Base.Key.{◌==◌, text_key}
use changebridge_cdc_migrati.Base.Table.{find, insert}
use changebridge_cdc_migrati.Base.Exec.{pure, gets, or_raise, modify, raise_if, ◌>>=◌, ◌>>◌}
use changebridge_cdc_migrati.Json.{Json, Codec, dict, str, nat, null}
use changebridge_cdc_migrati.Publication.{
  Method, Route, source_fallback, generation, Pointer, Pin, Current, current, get_generation,
  pin_conflict, integrity_error,
}
use changebridge_cdc_migrati.Publication.Receipts.{optional_text}

pub record PinBody : Type 0 where
  pub pin_id : String
  pub product_id : String
  pub revision : ℕ
  pub route : Route
  pub generation_id : Option String
  pub proof_manifest_digest : Option String
  pub table_map_digest : Option String
  pub table_map : Json

abbrev route_name : Route → String
route_name source_fallback = "SOURCE_FALLBACK"
route_name generation = "GENERATION"

unfoldable pub pin_json : PinBody → Json
pin_json b = dict (
    ("pin_id", str b.pin_id)
    ∷ ("product_id", str b.product_id)
    ∷ ("revision", nat b.revision)
    ∷ ("route", str (route_name b.route))
    ∷ ("generation_id", optional_text b.generation_id)
    ∷ ("proof_manifest_digest", optional_text b.proof_manifest_digest)
    ∷ ("table_map_digest", optional_text b.table_map_digest)
    ∷ ("table_map", b.table_map)
    ∷ [])

module _ (c : Codec) where
  unfoldable pub table_map_of : Option Pointer → Method Json
  table_map_of none = pure null
  table_map_of (some p) = do g ← get_generation p.generation_id; pure (c.loads g.table_map_json)

  unfoldable pub insert_pin : PinBody → Option Pin → Method PinBody
  insert_pin body (some existing) = do
    raise_if (not (existing.pin_json == c.dumps true (pin_json body))) pin_conflict
    pure body
  insert_pin body none = do
    pins ← gets (λ s. s.consumer_pins)
    inserted ←
        or_raise
          (insert body.pin_id
            (record {
              product_id = body.product_id;
              revision = body.revision;
              route = body.route;
              generation_id = body.generation_id;
              proof_manifest_digest = body.proof_manifest_digest;
              table_map_digest = body.table_map_digest;
              pin_json = c.dumps true (pin_json body);
            })
            pins)
          integrity_error
    modify (λ s. record s { consumer_pins = inserted })
    pure body

  unfoldable pub pin_body : String → String → Current → Json → PinBody
  pin_body product_id pin_id now table_map = record {
    pin_id = pin_id;
    product_id = product_id;
    revision = now.revision;
    route = now.route;
    generation_id = Option.map (λ (p : Pointer). p.generation_id) now.pointer;
    proof_manifest_digest = Option.map (λ (p : Pointer). p.proof_manifest_digest) now.pointer;
    table_map_digest = Option.map (λ (p : Pointer). p.table_map_digest) now.pointer;
    table_map = table_map;
  }

  unfoldable pub pin : String → String → Method PinBody
  pin product_id pin_id = do
    now ← current product_id
    table_map ← table_map_of now.pointer
    existing ← gets (λ s. find pin_id s.consumer_pins)
    insert_pin (pin_body product_id pin_id now table_map) existing
