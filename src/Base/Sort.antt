-- ===== src/Base/Sort.antt =====
-- ORDER BY and `sorted`: a stable insertion sort.
use Prim.Native.Nat.{Ordering}
use Prim.Native.String.{String, compare}
use Prim.Native.String.compare as Compare
use native.Mathlib.Omega.{arith}
use mathlib.Core.Path.{◌≡◌}
use mathlib.Core.Logic.{inl, inr}
use mathlib.Core.Bool.{Bool, true, false}
use mathlib.Core.List.{List, [], ◌∷◌}
use mathlib.Core.List.{Perm}
use mathlib.Core.List.Perm
use changebridge_cdc_migrati.Base.Tests.{if◌then◌else◌, Bool-cases, All}

abbrev pub text_le : String → String → Bool
text_le s t = elim (compare s t) [ Ordering.gt ↦ false | _ ↦ true ]

module _ {A : Type 0} (le : A → A → Bool) where
  unfoldable pub insert_sorted : A → List A → List A
  insert_sorted x [] = x ∷ []
  insert_sorted x (y ∷ ys) = if le x y then x ∷ y ∷ ys else y ∷ insert_sorted x ys

  unfoldable pub sort : List A → List A
  unfolding insert_sorted
  sort [] = []
  sort (x ∷ xs) = insert_sorted x (sort xs)

  insert_sorted-perm : (x : A) (xs : List A) → Perm (insert_sorted x xs) (x ∷ xs)
  unfolding insert_sorted
  insert_sorted-perm x [] = Perm.refl (x ∷ [])
  insert_sorted-perm x (y ∷ ys) = elim (Bool-cases (le x y)) [
    | inl first ↦ rw first (Perm.refl (x ∷ y ∷ ys))
    | inr later ↦ rw later (Perm.trans (Perm.cons y (insert_sorted-perm x ys)) (Perm.swap x y ys))
  ]

  -- Sorting only reorders.
  pub sort-perm : (xs : List A) → Perm (sort xs) xs
  unfolding sort
  sort-perm [] = Perm.refl []
  sort-perm (x ∷ xs) = Perm.trans (insert_sorted-perm x (sort xs)) (Perm.cons x (sort-perm xs))

  module _ (P : A → Type 0) where
    insert_sorted-All : (x : A) (xs : List A) → P x → All P xs → All P (insert_sorted x xs)
    unfolding insert_sorted
    insert_sorted-All x [] h hs = (h, tt)
    insert_sorted-All x (y ∷ ys) h hs = elim (Bool-cases (le x y)) [
      | inl first ↦ rw first (h, hs)
      | inr later ↦ rw later (hs.0, insert_sorted-All x ys h hs.1)
    ]

    pub sort-All : (xs : List A) → All P xs → All P (sort xs)
    unfolding sort
    sort-All [] hs = tt
    sort-All (x ∷ xs) hs = insert_sorted-All x (sort xs) hs.0 (sort-All xs hs.1)

  -- every element is at or before the next one
  unfoldable pub IsAscending : List A → Type 0
  IsAscending [] = Unit
  IsAscending (x ∷ []) = Unit
  IsAscending (x ∷ y ∷ ys) = (le x y ≡ true) × IsAscending (y ∷ ys)

  IsAscending-tail : (x : A) (xs : List A) → IsAscending (x ∷ xs) → IsAscending xs
  unfolding IsAscending
  IsAscending-tail x [] h = tt
  IsAscending-tail x (y ∷ ys) h = h.1

  module _ (total : (x y : A) → le x y ≡ false → le y x ≡ true) where
    insert_sorted-cons :
        (w x : A) (xs : List A)
        → le w x ≡ true
        → IsAscending (w ∷ xs)
        → IsAscending (insert_sorted x xs)
        → IsAscending (w ∷ insert_sorted x xs)
    unfolding insert_sorted IsAscending
    insert_sorted-cons w x [] h _ _ = (h, tt)
    insert_sorted-cons w x (y ∷ ys) h before after = elim (Bool-cases (le x y)) [
      | inl first ↦ rw first (h, (first, before.1))
      | inr later ↦ rw later (before.0, rw later at after)
    ]

    insert_sorted-IsAscending :
        (x : A) (xs : List A) → IsAscending xs → IsAscending (insert_sorted x xs)
    unfolding insert_sorted IsAscending
    insert_sorted-IsAscending x [] h = tt
    insert_sorted-IsAscending x (y ∷ ys) h = elim (Bool-cases (le x y)) [
      | inl first ↦ rw first (first, h)
      | inr later ↦ rw later (
          insert_sorted-cons y x ys (total x y later) h
            (insert_sorted-IsAscending x ys (IsAscending-tail y ys h)))
    ]

    -- Sorting puts every element at or before the next.
    pub sort-IsAscending : (xs : List A) → IsAscending (sort xs)
    unfolding sort IsAscending
    sort-IsAscending [] = tt
    sort-IsAscending (x ∷ xs) = insert_sorted-IsAscending x (sort xs) (sort-IsAscending xs)

compare_back : (s t : String) → compare s t ≡ Ordering.gt → text_le t s ≡ true
compare_back String.[] String.[] h = ground (arith, h, Compare.nil-nil)
compare_back String.[] (String.◌∷◌ d t) h = ground (arith, h, Compare.nil-cons d t)
compare_back (String.◌∷◌ c s) String.[] h = ground (arith, h, Compare.nil-cons c s)
compare_back (String.◌∷◌ c s) (String.◌∷◌ d t) h =
    ground (arith, h, Compare.cons-cons c d s t, Compare.cons-cons d c t s, compare_back s t)

pub text_le_total : (s t : String) → text_le s t ≡ false → text_le t s ≡ true
text_le_total s t h = ground (arith, compare_back s t)
