-- ===== src/Engine/Readers.antt =====
-- src/changebridge/engine.py: `state` and `tombstones`, which read the rows of one generation in the
-- order of their table and key.
use changebridge_cdc_migrati.Base.{
  String, Bool, true, false, not, ◌&&◌, Option, none, some, List, [], ◌∷◌, map, ◌≡◌, refl,
}
use changebridge_cdc_migrati.Base.Tests.{if◌then◌else◌}
use changebridge_cdc_migrati.Base.Key.{◌==◌, text_key, triple_key}
use changebridge_cdc_migrati.Base.Int.{ℤ, pos}
use changebridge_cdc_migrati.Base.Exec.{gets, done, raised}
use changebridge_cdc_migrati.Base.Result.{Result, ok, err}
use changebridge_cdc_migrati.Base.Sort.{sort, insert_sorted, text_le}
use changebridge_cdc_migrati.Base.Table.{Table, find, replace}
use changebridge_cdc_migrati.Json.{Json, Codec}
use changebridge_cdc_migrati.Engine.{Action, Engine, empty, Error, type_error, Row}

abbrev Entry : Type 0
Entry = (String × String × String) × Row

-- WHERE generation_id = ? AND deleted = ?
unfoldable pub rows_where : String → Bool → Table (String × String × String) Row → List Entry
rows_where generation_id deleted [] = []
rows_where generation_id deleted ((k, row) ∷ t) =
    let rest = rows_where generation_id deleted t in
    if k.0 == generation_id && (if deleted then row.deleted else not row.deleted)
    then (k, row) ∷ rest
    else rest

-- ORDER BY table_name, record_key
abbrev pub entry_le : Entry → Entry → Bool
entry_le p q = if p.0.1 == q.0.1 then text_le p.0.2 q.0.2 else text_le p.0.1 q.0.1

unfoldable pub selected : String → Bool → Engine → List Entry
unfolding rows_where sort
selected generation_id deleted s = sort entry_le (rows_where generation_id deleted s.records)

-- result.setdefault(table, {})[key] = value
abbrev pub put :
    String → String → Json → Table String (Table String Json) → Table String (Table String Json)
unfolding find replace
put table key value result = elim (find table result) [
  | none ↦ replace table ((key, value) ∷ []) result
  | some rows ↦ replace table (replace key value rows) result
]

module _ (c : Codec) where
  -- json.loads of NULL is a type error
  unfoldable pub collect :
      List Entry
      → Table String (Table String Json)
      → Result Error (Table String (Table String Json))
  unfolding put
  collect [] result = ok result
  collect ((k, row) ∷ rows) result = elim row.payload_json [
    | none ↦ err type_error
    | some payload ↦ collect rows (put k.1 k.2 (c.loads payload) result)
  ]

  unfoldable pub state : String → Action (Table String (Table String Json))
  unfolding collect selected
  state generation_id s = elim (collect (selected generation_id false s) []) [
    | ok result ↦ done result s
    | err e ↦ raised e s
  ]

unfoldable pub tombstones : String → Action (List (String × String × ℤ))
unfolding selected
tombstones generation_id =
    gets (λ s. map (λ e. (e.0.1, e.0.2, e.1.source_lsn)) (selected generation_id true s))

-- two generations, one deleted row
abbrev sample_row : Option String → Bool → Row
sample_row payload deleted = record {
  payload_json = payload;
  source_lsn = pos 5;
  deleted = deleted;
}

abbrev sample_engine : Engine
sample_engine = record empty {
  records =
      (("g", "orders", "o-2"), sample_row (some "b") false)
      ∷ (("g", "customers", "c-1"), sample_row none true)
      ∷ (("g", "orders", "o-1"), sample_row (some "a") false)
      ∷ (("h", "orders", "o-1"), sample_row (some "c") false)
      ∷ [];
}

sample_state :
    (c : Codec)
    → state c "g" sample_engine
      ≡ done (("orders", ("o-1", c.loads "a") ∷ ("o-2", c.loads "b") ∷ []) ∷ []) sample_engine
unfolding state collect rows_where sort insert_sorted find replace
sample_state c = refl

sample_tombstones :
    tombstones "g" sample_engine ≡ done (("customers", "c-1", pos 5) ∷ []) sample_engine
unfolding tombstones selected sort insert_sorted
sample_tombstones = refl
