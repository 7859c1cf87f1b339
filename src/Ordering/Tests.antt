-- ===== src/Ordering/Tests.antt =====
-- Positions and a batch of events, and the theorems at them.
use Prim.Native.Nat.{◌^◌}
use mathlib.Core.List.{Perm, Nodup}
use changebridge_cdc_migrati.Base.{ℕ, ◌<◌, ◌≤◌, String, some, List, [], ◌∷◌, map, ◌≡◌, ◌↔◌, refl}
use changebridge_cdc_migrati.Base.Tests.{All}
use changebridge_cdc_migrati.Base.Int.{pos, negsuc}
use changebridge_cdc_migrati.Base.Result.{ok, err}
use changebridge_cdc_migrati.Base.Sort.{sort}
use changebridge_cdc_migrati.Ordering.Lsn.{parse_lsn, normalize_lsn}
use changebridge_cdc_migrati.Ordering.Position.{parse_lsn-lt, parse_lsn-normalize_lsn}
use changebridge_cdc_migrati.Ordering.Events.{
  Event, OrderKey, sequence_range, outside_interval, duplicate_sequence, event_lsn, event_order_key,
  admit_interval, key_le, keyed_events, identity, ordered_events,
}
use changebridge_cdc_migrati.Ordering.Sorted.{
  IsOrdered, ordered_events-IsOrdered, ordered_events_iff, admit_interval-eq-ok,
}

abbrev event : String → String → ℕ → Event
event id position n = record {
  event_id = id;
  transaction_id = "t1";
  position_kind = "postgres_lsn";
  position = position;
  transaction_sequence = pos 7;
  event_sequence = pos n;
}

abbrev first : Event
first = event "a" "0/194fb20" 1

abbrev second : Event
second = event "b" "0/194FB20" 2

abbrev third : Event
third = event "c" "1/0" 3

abbrev key : Event → ℕ → OrderKey
key e n = record {
  lsn = n;
  transaction_sequence = e.transaction_sequence;
  event_sequence = e.event_sequence;
  event_id = e.event_id;
}

repeated : ordered_events (first ∷ third ∷ first ∷ []) ≡ err duplicate_sequence
unfolding ordered_events sort parse_lsn key_le
repeated = refl

outside : admit_interval (first ∷ third ∷ []) "0/0" "0/FFFFFFFF" ≡ err outside_interval
unfolding admit_interval parse_lsn
outside = refl

negative :
    event_order_key (record {
      event_id = "a";
      transaction_id = "t1";
      position_kind = "postgres_lsn";
      position = "0/1";
      transaction_sequence = negsuc 0;
      event_sequence = pos 1;
    })
    ≡ err sequence_range
unfolding event_order_key
negative = refl

parse_lsn-lt_example : 26540832 < 2 ^ 64
unfolding parse_lsn
parse_lsn-lt_example = parse_lsn-lt "0/194fb20" 26540832 refl

parse_lsn-normalize_lsn_example :
    (t : String) × (normalize_lsn "0/194fb20" ≡ some t) × (parse_lsn t ≡ some 26540832)
unfolding parse_lsn
parse_lsn-normalize_lsn_example = parse_lsn-normalize_lsn "0/194fb20" 26540832 refl

ordered_events-IsOrdered_example :
    Perm (first ∷ second ∷ third ∷ []) (third ∷ second ∷ first ∷ [])
    × IsOrdered (first ∷ second ∷ third ∷ [])
    × Nodup (map identity (first ∷ second ∷ third ∷ []))
unfolding ordered_events sort parse_lsn key_le
ordered_events-IsOrdered_example =
    ordered_events-IsOrdered (third ∷ second ∷ first ∷ []) (first ∷ second ∷ third ∷ []) refl

ordered_events_iff_example :
    ((ordered : List Event) × (ordered_events (third ∷ first ∷ []) ≡ ok ordered))
    ↔ Nodup (map identity (third ∷ first ∷ []))
unfolding keyed_events parse_lsn
ordered_events_iff_example =
    ordered_events_iff (third ∷ first ∷ [])
      ((key third 4294967296, third) ∷ (key first 26540832, first) ∷ []) refl

admit_interval-eq-ok_example :
    (lower upper : ℕ) × (parse_lsn "0/0" ≡ some lower)
    × (parse_lsn "1/0" ≡ some upper)
    × (lower < upper)
    × All (λ e. (n : ℕ) × (event_lsn e ≡ ok n) × (lower < n) × (n ≤ upper)) (first ∷ third ∷ [])
unfolding admit_interval parse_lsn
admit_interval-eq-ok_example = admit_interval-eq-ok (first ∷ third ∷ []) "0/0" "1/0" refl
