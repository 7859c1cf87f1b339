-- ===== src/Base/Dict.antt =====
-- Dictionaries, as tables that hold each key once.
use mathlib.Core.Path.{◌≡◌, refl, subst₂}
use mathlib.Core.Logic.{inl, inr, ◌⊎◌, ◌↔◌}
use mathlib.Core.Option.{none, some, none-ne-some}
use mathlib.Core.List.{List, [], ◌∷◌}
use native.Mathlib.Omega.{arith}
use changebridge_cdc_migrati.Base.Tests.{if◌then◌else◌, Bool-cases, All}
use changebridge_cdc_migrati.Base.Key.{Keyed, ◌==◌, ==_refl}
use changebridge_cdc_migrati.Base.Table.{Table, find, replace, find-replace}

module _ {K V : Type 0} ⦃e : Keyed K⦄ where
  -- {k: v for k, v in entries}, beside the keys that a dictionary has already
  unfoldable pub with_entries : Table K V → List (K × V) → Table K V
  with_entries t [] = t
  with_entries t ((k, v) ∷ entries) = with_entries (replace k v t) entries

  unfoldable pub IsDict : Table K V → Type 0
  IsDict [] = Unit
  IsDict ((k, v) ∷ t) = (find k t ≡ none) × IsDict t

  replace-IsDict : (k : K) (v : V) (t : Table K V) → IsDict t → IsDict (replace k v t)
  unfolding replace IsDict find
  replace-IsDict k v [] h = (refl, tt)
  replace-IsDict k v ((j, w) ∷ t) h = elim (Bool-cases (j == k)) [
    | inl same ↦
        let same' : j ≡ k = (e.equals_iff j k).0 same in
        rw (same, if◌then◌else◌) (rw same' at h.0, h.1)
    | inr other ↦
        rw (other, if◌then◌else◌)
          (
            ground (arith, find-replace k j v t, e.equals_iff j k, e.equals_iff k j, h.0),
            replace-IsDict k v t h.1,
          )
  ]

  pub with_entries-IsDict :
      (t : Table K V) (entries : List (K × V)) → IsDict t → IsDict (with_entries t entries)
  unfolding with_entries
  with_entries-IsDict t [] h = h
  with_entries-IsDict t ((k, v) ∷ entries) h =
      with_entries-IsDict (replace k v t) entries (replace-IsDict k v t h)

  find-cons-eq-some :
      (j k : K) (w v : V) (t : Table K V)
      → find k ((j, w) ∷ t) ≡ some v
      → ((j ≡ k) × (w ≡ v)) ⊎ (find k t ≡ some v)
  unfolding find
  find-cons-eq-some j k w v t h = ground (arith, h, e.equals_iff j k)

  find-head : (j : K) (w : V) (t : Table K V) → find j ((j, w) ∷ t) ≡ some w
  unfolding find
  find-head j w t = rw (==_refl j) refl

  find-tail :
      (j k : K) (w v : V) (t : Table K V)
      → find j t ≡ none
      → find k t ≡ some v
      → find k ((j, w) ∷ t) ≡ some v
  unfolding find
  find-tail j k w v t fresh h = ground (arith, h, fresh, e.equals_iff j k)

  -- What every entry satisfies is what every row found by its key satisfies.
  pub All-find_iff :
      (P : K → V → Type 0) (t : Table K V)
      → IsDict t
      → All (λ r. P r.0 r.1) t ↔ ((k : K) (v : V) → find k t ≡ some v → P k v)
  unfolding IsDict find
  All-find_iff P [] h = (λ _ k v found. absurd (none-ne-some v found), λ _. tt)
  All-find_iff P ((j, w) ∷ t) h =
      let later = All-find_iff P t h.1 in
      (
        λ ps k v found. elim (find-cons-eq-some j k w v t found) [
          | inl (same, same') ↦ subst₂ P same same' ps.0
          | inr below ↦ later.0 ps.1 k v below
        ],
        λ f.
            (f j w (find-head j w t), later.1 (λ k v found. f k v (find-tail j k w v t h.0 found))),
      )
