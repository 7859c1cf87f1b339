-- ===== src/Base/Table.antt =====
-- A table of the store with its primary key, as an association list in the order of insertion.
-- The operations are the statements that the program runs: a row by its key, INSERT, INSERT OR
-- REPLACE, UPDATE and DELETE of the row with a key.
use mathlib.Core.Path.{◌≡◌, refl}
use mathlib.Core.Logic.{◌⊎◌, ◌≢◌}
use mathlib.Core.Option
use mathlib.Core.Option.{Option, none, some}
use mathlib.Core.List.{List, [], ◌∷◌, ◌++◌}
use native.Mathlib.Omega.{arith}
use changebridge_cdc_migrati.Base.Tests.{if◌then◌else◌}
use changebridge_cdc_migrati.Base.Key.{Keyed, ◌==◌}

abbrev pub Table : Type 0 → Type 0 → Type 0
Table K V = List (K × V)

module _ {K V : Type 0} ⦃e : Keyed K⦄ where
  -- SELECT … WHERE key = k
  unfoldable pub find : K → Table K V → Option V
  find k [] = none
  find k ((j, v) ∷ t) = if j == k then some v else find k t

  -- INSERT OR REPLACE; INSERT … ON CONFLICT DO UPDATE
  unfoldable pub replace : K → V → Table K V → Table K V
  replace k v [] = (k, v) ∷ []
  replace k v ((j, w) ∷ t) = if j == k then (k, v) ∷ t else (j, w) ∷ replace k v t

  -- UPDATE … WHERE key = k, which writes no row where there is none
  unfoldable pub update : K → (V → V) → Table K V → Table K V
  update k f [] = []
  update k f ((j, w) ∷ t) = if j == k then (j, f w) ∷ t else (j, w) ∷ update k f t

  -- DELETE … WHERE key = k
  unfoldable pub delete : K → Table K V → Table K V
  delete k [] = []
  delete k ((j, w) ∷ t) = let rest = delete k t in if j == k then rest else (j, w) ∷ rest

  -- INSERT: `none` is the violated primary key
  unfoldable pub insert : K → V → Table K V → Option (Table K V)
  insert k v t = elim (find k t) [ none ↦ some (t ++ (k, v) ∷ []) | some _ ↦ none ]

  pub find-replace :
      (k j : K) (v : V) (t : Table K V)
      → find j (replace k v t) ≡ (if k == j then some v else find j t)
  unfolding find replace
  find-replace k j v [] = refl
  find-replace k j v ((i, w) ∷ t) =
      ground (arith, e.equals_iff k j, e.equals_iff i k, e.equals_iff i j, find-replace k j v t)

  pub find-delete :
      (k j : K) (t : Table K V) → find j (delete k t) ≡ (if k == j then none else find j t)
  unfolding find delete
  find-delete k j [] = ground arith
  find-delete k j ((i, w) ∷ t) =
      ground (arith, e.equals_iff k j, e.equals_iff i k, e.equals_iff i j, find-delete k j t)

  pub find-update :
      (k j : K) (f : V → V) (t : Table K V)
      → find j (update k f t) ≡ (if k == j then Option.map f (find j t) else find j t)
  unfolding find update
  find-update k j f [] = ground arith
  find-update k j f ((i, w) ∷ t) =
      ground (arith, e.equals_iff k j, e.equals_iff i k, e.equals_iff i j, find-update k j f t)

  pub find-append :
      (k j : K) (v : V) (t : Table K V)
      → find k t ≡ none
      → find j (t ++ (k, v) ∷ []) ≡ (if k == j then some v else find j t)
  unfolding find
  find-append k j v [] h = refl
  find-append k j v ((i, w) ∷ t) h =
      ground (arith, e.equals_iff k j, e.equals_iff i k, e.equals_iff i j, find-append k j v t)

  -- A successful INSERT: the key was free, and is the only one whose row changes.
  pub insert-eq-some :
      (k : K) (v : V) (t t' : Table K V)
      → insert k v t ≡ some t'
      → (find k t ≡ none) × (t' ≡ t ++ (k, v) ∷ [])
  unfolding insert
  insert-eq-some k v t t' h = ground arith

  pub find-insert :
      (k : K) (v : V) (t t' : Table K V) (j : K)
      → insert k v t ≡ some t'
      → find j t' ≡ (if k == j then some v else find j t)
  find-insert k v t t' j h = ground (arith, insert-eq-some k v t t', find-append k j v t)

  pub insert_free :
      (k : K) (v : V) (t : Table K V) → find k t ≡ none → insert k v t ≡ some (t ++ (k, v) ∷ [])
  unfolding insert
  insert_free k v t h = ground arith

  pub insert_taken : (k : K) (v w : V) (t : Table K V) → find k t ≡ some w → insert k v t ≡ none
  unfolding insert
  insert_taken k v w t h = ground arith

  -- INSERT OR IGNORE
  unfoldable pub insert_or_ignore : K → V → Table K V → Table K V
  insert_or_ignore k v t = elim (find k t) [ none ↦ t ++ (k, v) ∷ [] | some w ↦ t ]

  -- A row after INSERT OR IGNORE stood there before, or is the new one, whose key was free.
  pub find-insert_or_ignore :
      (k j : K) (v w : V) (t : Table K V)
      → find j (insert_or_ignore k v t) ≡ some w
      → (find j t ≡ some w) ⊎ ((k ≡ j) × (find j t ≡ none) × (w ≡ v))
  unfolding insert_or_ignore
  find-insert_or_ignore k j v w t h = ground (arith, find-append k j v t, e.equals_iff k j)

  pub find-insert_or_ignore_kept :
      (k j : K) (v w : V) (t : Table K V)
      → find j t ≡ some w
      → find j (insert_or_ignore k v t) ≡ some w
  unfolding insert_or_ignore
  find-insert_or_ignore_kept k j v w t h = ground (arith, h, find-append k j v t, e.equals_iff k j)

  -- A row after UPDATE is a row from before, changed if the key is its own.
  pub find-update-eq-some :
      (k j : K) (f : V → V) (w : V) (t : Table K V)
      → find j (update k f t) ≡ some w
      → (v : V) × (find j t ≡ some v) × (((k ≡ j) × (w ≡ f v)) ⊎ ((k ≢ j) × (w ≡ v)))
  find-update-eq-some k j f w t h = ground (arith, h, find-update k j f t, e.equals_iff k j)
