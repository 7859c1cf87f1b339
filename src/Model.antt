-- ===== src/Model.antt =====
-- src/changebridge/model.py: the CDC domain objects. The checks of `__post_init__` are the
-- functions `change_event` and `cdc_batch`, which build a value or raise ValueError.
use changebridge_cdc_migrati.Base.{
  String, Bool, true, false, not, ◌&&◌, Option, List, [], ◌∷◌, map, ◌≡◌, arith,
}
use changebridge_cdc_migrati.Base.Tests.{if◌then◌else◌, is_some}
use changebridge_cdc_migrati.Base.Int.{ℤ, leb_ℤ}
use changebridge_cdc_migrati.Base.Result.{Result, ok, err}
use changebridge_cdc_migrati.Json.{Json, str, num, list, dict, optional}

pub data Operation : Type 0 where
  insert update delete : Operation

abbrev pub is_delete : Operation → Bool
is_delete delete = true
is_delete _ = false

-- `operation.value`
abbrev pub value : Operation → String
value insert = "insert"
value update = "update"
value delete = "delete"

pub data ValueError : Type 0 where
  delete_with_after after_missing frontier_must_advance : ValueError

pub record ChangeEvent : Type 0 where
  pub table : String
  pub key : String
  pub operation : Operation
  pub before : Option Json
  pub after : Option Json

pub record CdcTransaction : Type 0 where
  pub transaction_id : String
  pub commit_lsn : ℤ
  pub committed_at : String
  pub events : List ChangeEvent

pub record CdcBatch : Type 0 where
  pub batch_id : String
  pub start_lsn_exclusive : ℤ
  pub end_lsn_inclusive : ℤ
  pub transactions : List CdcTransaction

unfoldable pub change_event :
    String → String → Operation → Option Json → Option Json → Result ValueError ChangeEvent
change_event table key operation before after =
    if is_delete operation && is_some after
    then err delete_with_after
    else if not (is_delete operation) && not (is_some after)
    then err after_missing
    else ok
        (record { table = table; key = key; operation = operation; before = before; after = after })

unfoldable pub cdc_batch : String → ℤ → ℤ → List CdcTransaction → Result ValueError CdcBatch
cdc_batch batch_id start stop transactions =
    if leb_ℤ stop start
    then err frontier_must_advance
    else ok (record {
      batch_id = batch_id;
      start_lsn_exclusive = start;
      end_lsn_inclusive = stop;
      transactions = transactions;
    })

unfoldable pub event_as_dict : ChangeEvent → Json
event_as_dict e = dict (
    ("after", optional e.after)
    ∷ ("before", optional e.before)
    ∷ ("key", str e.key)
    ∷ ("operation", str (value e.operation))
    ∷ ("table", str e.table)
    ∷ [])

unfoldable pub transaction_as_dict : CdcTransaction → Json
unfolding event_as_dict
transaction_as_dict t = dict (
    ("commit_lsn", num t.commit_lsn)
    ∷ ("committed_at", str t.committed_at)
    ∷ ("events", list (map event_as_dict t.events))
    ∷ ("transaction_id", str t.transaction_id)
    ∷ [])

unfoldable pub batch_as_dict : CdcBatch → Json
unfolding transaction_as_dict
batch_as_dict b = dict (
    ("batch_id", str b.batch_id)
    ∷ ("end_lsn_inclusive", num b.end_lsn_inclusive)
    ∷ ("start_lsn_exclusive", num b.start_lsn_exclusive)
    ∷ ("transactions", list (map transaction_as_dict b.transactions))
    ∷ [])

-- What `change_event` lets through: a delete has no after image, any other event has one.
abbrev pub HasImage : ChangeEvent → Type 0
HasImage e = is_some e.after ≡ not (is_delete e.operation)

pub change_event-HasImage :
    (table key : String) (operation : Operation) (before after : Option Json) (e : ChangeEvent)
    → change_event table key operation before after ≡ ok e
    → HasImage e
unfolding change_event
change_event-HasImage table key operation before after e h = ground arith
