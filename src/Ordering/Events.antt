-- ===== src/Ordering/Events.antt =====
-- src/changebridge/cdc_ordering.py: `event_lsn`, `event_order_key`, `admit_interval` and
-- `ordered_events`.
use changebridge_cdc_migrati.Base.{ℕ, String, Bool, ◌||◌, none, some, List, [], ◌∷◌, map}
use changebridge_cdc_migrati.Base.Tests.{if◌then◌else◌, ltb, leb}
use changebridge_cdc_migrati.Base.Int.{ℤ, pos, ltb_ℤ, integer_key}
use changebridge_cdc_migrati.Base.Key.{◌==◌, number_key, text_key, pair_key}
use changebridge_cdc_migrati.Base.Members.{distinct_from}
use changebridge_cdc_migrati.Base.Result.{Result, ok, err, ◌>>=◌}
use changebridge_cdc_migrati.Base.Sort.{sort, text_le}
use changebridge_cdc_migrati.Ordering.Lsn.{parse_lsn}

-- the codes CB24O001 to CB24O007
pub data OrderingError : Type 0 where
  invalid_lsn position_kind sequence_range interval_regression outside_interval : OrderingError
  duplicate_sequence : OrderingError

-- the fields of an envelope that are read here; `position_kind` and `position` are its
-- source_position
pub record Event : Type 0 where
  pub event_id : String
  pub transaction_id : String
  pub position_kind : String
  pub position : String
  pub transaction_sequence : ℤ
  pub event_sequence : ℤ

pub record OrderKey : Type 0 where
  pub lsn : ℕ
  pub transaction_sequence : ℤ
  pub event_sequence : ℤ
  pub event_id : String

abbrev pub position_of : String → Result OrderingError ℕ
position_of value = elim (parse_lsn value) [ none ↦ err invalid_lsn | some n ↦ ok n ]

unfoldable pub event_lsn : Event → Result OrderingError ℕ
event_lsn event =
    if event.position_kind == "postgres_lsn" then position_of event.position else err position_kind

unfoldable pub event_order_key : Event → Result OrderingError OrderKey
unfolding event_lsn
event_order_key event =
    if ltb_ℤ event.transaction_sequence (pos 0) || ltb_ℤ event.event_sequence (pos 1)
    then err sequence_range
    else event_lsn event >>= λ lsn. ok record {
      lsn = lsn;
      transaction_sequence = event.transaction_sequence;
      event_sequence = event.event_sequence;
      event_id = event.event_id;
    }

unfoldable pub admit_events : ℕ → ℕ → List Event → Result OrderingError (Unit {0})
unfolding event_lsn
admit_events lower upper [] = ok tt
admit_events lower upper (event ∷ events) =
    let rest = admit_events lower upper events in
    event_lsn event >>= λ position.
    if leb position lower || ltb upper position then err outside_interval else rest

unfoldable pub admit_interval : List Event → String → String → Result OrderingError (Unit {0})
unfolding admit_events
admit_interval events previous terminal = position_of previous >>= λ lower.
    position_of terminal >>= λ upper.
    if leb upper lower then err interval_regression else admit_events lower upper events

-- the order of the keys as tuples
unfoldable pub key_le : OrderKey → OrderKey → Bool
key_le a b =
    if a.lsn == b.lsn
    then if a.transaction_sequence == b.transaction_sequence
      then if a.event_sequence == b.event_sequence
        then text_le a.event_id b.event_id
        else ltb_ℤ a.event_sequence b.event_sequence
      else ltb_ℤ a.transaction_sequence b.transaction_sequence
    else ltb a.lsn b.lsn

abbrev pub keyed_le : OrderKey × Event → OrderKey × Event → Bool
keyed_le p q = key_le p.0 q.0

-- `sorted` computes the key of every element before it compares any.
unfoldable pub keyed_events : List Event → Result OrderingError (List (OrderKey × Event))
unfolding event_order_key
keyed_events [] = ok []
keyed_events (event ∷ events) =
    let rest = keyed_events events in
    event_order_key event >>= λ key. rest >>= λ others. ok ((key, event) ∷ others)

abbrev pub identity : Event → String × ℤ
identity event = (event.transaction_id, event.event_sequence)

unfoldable pub ordered_events : List Event → Result OrderingError (List Event)
unfolding keyed_events distinct_from
ordered_events events = keyed_events events >>= λ keyed.
    let ordered = map (λ p. p.1) (sort keyed_le keyed) in
    if distinct_from [] (map identity ordered) then ok ordered else err duplicate_sequence
