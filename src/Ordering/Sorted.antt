-- ===== src/Ordering/Sorted.antt =====
-- What an accepted batch of events satisfies: its interval, its order, and its identities.
use mathlib.Core.List.{Perm, Nodup}
use mathlib.Core.List.Perm
use mathlib.Core.Path.{subst}
use changebridge_cdc_migrati.Base.Int.{integer_key}
use changebridge_cdc_migrati.Base.Key.{text_key, pair_key}
use changebridge_cdc_migrati.Base.{
  ℕ, ◌<◌, ◌≤◌, String, true, false, some, List, [], ◌∷◌, map, ◌≡◌, ◌↔◌, ◌||◌, refl, sym, ap, inl,
  inr, arith,
}
use changebridge_cdc_migrati.Base.Tests.{Bool-cases, All, leb, ltb}
use changebridge_cdc_migrati.Base.Members.{distinct_from, distinct_iff}
use changebridge_cdc_migrati.Base.Result.{ok, >>=-eq-ok}
use changebridge_cdc_migrati.Base.Sort.{
  sort, sort-perm, sort-All, IsAscending, sort-IsAscending, text_le_total,
}
use changebridge_cdc_migrati.Ordering.Lsn.{parse_lsn}
use changebridge_cdc_migrati.Ordering.Events.{
  Event, OrderKey, position_of, event_lsn, event_order_key, admit_events, admit_interval, key_le,
  keyed_le, keyed_events, identity, ordered_events,
}

key_le_total : (a b : OrderKey) → key_le a b ≡ false → key_le b a ≡ true
unfolding key_le
key_le_total a b h = ground (arith, text_le_total a.event_id b.event_id)

-- every event beside its own key
abbrev pub Keys : List (OrderKey × Event) → Type 0
Keys = All (λ p. event_order_key p.1 ≡ ok p.0)

-- the events, in the order of their keys: position, transaction, event, identifier
abbrev pub IsOrdered : List Event → Type 0
IsOrdered events =
    (keyed : List (OrderKey × Event)) × (map (λ p. p.1) keyed ≡ events)
    × Keys keyed
    × IsAscending keyed_le keyed

keyed_events-eq-ok :
    (events : List Event) (keyed : List (OrderKey × Event))
    → keyed_events events ≡ ok keyed
    → (map (λ p. p.1) keyed ≡ events) × Keys keyed
unfolding keyed_events
keyed_events-eq-ok [] keyed h = let e : keyed ≡ [] = ground (arith, h) in rw e (refl, tt)
keyed_events-eq-ok (event ∷ events) keyed h =
    let (key, first, more) = >>=-eq-ok (event_order_key event) _ h in
    let (others, second, last) = >>=-eq-ok (keyed_events events) _ more in
    let e : keyed ≡ (key, event) ∷ others = ground (arith, last) in
    let (same, keys) = keyed_events-eq-ok events others second in
    rw e (ap (◌∷◌ event) same, (first, keys))

ordered_events-eq-ok :
    (events ordered : List Event)
    → ordered_events events ≡ ok ordered
    → (keyed : List (OrderKey × Event)) × (keyed_events events ≡ ok keyed)
      × (ordered ≡ map (λ p. p.1) (sort keyed_le keyed))
      × (distinct_from [] (map identity ordered) ≡ true)
unfolding ordered_events
ordered_events-eq-ok events ordered h =
    let (keyed, e, more) = >>=-eq-ok (keyed_events events) _ h in
    elim (Bool-cases (distinct_from [] (map identity (map (λ p. p.1) (sort keyed_le keyed))))) [
      | inl fresh ↦
          let same : ordered ≡ map (λ p. p.1) (sort keyed_le keyed) = ground (arith, more, fresh) in
          (keyed, e, same, rw same fresh)
      | inr repeated ↦ ground (arith, more, repeated)
    ]

-- When `ordered_events` returns, it returns the events that it was given, each once, in the order
-- of their keys, and no two of them are the same event of the same transaction.
pub ordered_events-IsOrdered :
    (events ordered : List Event)
    → ordered_events events ≡ ok ordered
    → Perm ordered events × IsOrdered ordered × Nodup (map identity ordered)
ordered_events-IsOrdered events ordered h =
    let (keyed, e, same, fresh) = ordered_events-eq-ok events ordered h in
    let (given, keys) = keyed_events-eq-ok events keyed e in
    (
      subst (λ es. Perm es events) (sym same)
          (subst (λ es. Perm (map (λ p. p.1) (sort keyed_le keyed)) es) given
            (Perm.map (λ p. p.1) (sort-perm keyed_le keyed))),
      (
        sort keyed_le keyed,
        sym same,
        sort-All keyed_le (λ p. event_order_key p.1 ≡ ok p.0) keyed keys,
        sort-IsAscending keyed_le (λ p q. key_le_total p.0 q.0) keyed,
      ),
      (distinct_iff (map identity ordered)).0 fresh,
    )

ordered_events-distinct :
    (events : List Event) (keyed : List (OrderKey × Event))
    → keyed_events events ≡ ok keyed
    → distinct_from [] (map identity (map (λ p. p.1) (sort keyed_le keyed))) ≡ true
    → ordered_events events ≡ ok (map (λ p. p.1) (sort keyed_le keyed))
unfolding ordered_events
ordered_events-distinct events keyed e fresh = ground (arith, e, fresh)

-- Events whose keys can be computed are accepted exactly when no two of them are the same event of
-- the same transaction.
pub ordered_events_iff :
    (events : List Event) (keyed : List (OrderKey × Event))
    → keyed_events events ≡ ok keyed
    → ((ordered : List Event) × (ordered_events events ≡ ok ordered)) ↔ Nodup (map identity events)
ordered_events_iff events keyed h =
    let sorted = map (λ p. p.1) (sort keyed_le keyed) in
    let perm : Perm sorted events =
      subst (λ es. Perm sorted es) (keyed_events-eq-ok events keyed h).0
        (Perm.map (λ p. p.1) (sort-perm keyed_le keyed)) in
    (
      λ accepted.
          let (moved, _, nodup) = ordered_events-IsOrdered events accepted.0 accepted.1 in
          Perm.nodup (Perm.map identity moved) nodup,
      λ nodup.
          let nodup' = Perm.nodup (Perm.map identity (Perm.symm perm)) nodup in
          (
            sorted,
            ordered_events-distinct events keyed h ((distinct_iff (map identity sorted)).1 nodup'),
          ),
    )

admit_events-eq-ok :
    (lower upper : ℕ) (events : List Event)
    → admit_events lower upper events ≡ ok tt
    → All (λ e. (n : ℕ) × (event_lsn e ≡ ok n) × (lower < n) × (n ≤ upper)) events
unfolding admit_events
admit_events-eq-ok lower upper [] h = tt
admit_events-eq-ok lower upper (event ∷ events) h =
    let (n, e, more) = >>=-eq-ok (event_lsn event) _ h in
    elim (Bool-cases (leb n lower || ltb upper n)) [
      | inl outside ↦ ground (arith, more, outside)
      | inr inside ↦ (
        (n, e, ground arith, ground arith),
        admit_events-eq-ok lower upper events (rw inside at more),
      )
    ]

-- When `admit_interval` returns, both bounds are positions, the second after the first, and every
-- event lies after the first and not after the second.
pub admit_interval-eq-ok :
    (events : List Event) (previous terminal : String)
    → admit_interval events previous terminal ≡ ok tt
    → (lower upper : ℕ) × (parse_lsn previous ≡ some lower)
      × (parse_lsn terminal ≡ some upper)
      × (lower < upper)
      × All (λ e. (n : ℕ) × (event_lsn e ≡ ok n) × (lower < n) × (n ≤ upper)) events
unfolding admit_interval
admit_interval-eq-ok events previous terminal h =
    let (lower, a, more) = >>=-eq-ok (position_of previous) _ h in
    let (upper, b, last) = >>=-eq-ok (position_of terminal) _ more in
    elim (Bool-cases (leb upper lower)) [
      | inl regressed ↦ ground (arith, last, regressed)
      | inr forward ↦ (
        lower,
        upper,
        ground (arith, a),
        ground (arith, b),
        ground arith,
        admit_events-eq-ok lower upper events (rw forward at last),
      )
    ]
