-- ===== src/Base/Members.antt =====
-- Sets of keys that a loop fills and tests, as lists.
use mathlib.Core.Path.{◌≡◌, refl, sym, subst}
use mathlib.Core.Logic.{◌↔◌, ◌⊎◌, inl, inr}
use mathlib.Core.Logic.Or
use mathlib.Core.Bool.{Bool, Bool-set, true, false, ◌||◌}
use mathlib.Core.List.{
  List, [], ◌∷◌, Mem, Mem-prop, mem-cons, mem-cons_self, mem-cons_of_mem, mem-cast, not-mem-nil,
  Nodup, Nodup-nil, Nodup-cons,
}
use native.Mathlib.Omega.{arith}
use changebridge_cdc_migrati.Base.Tests.{if◌then◌else◌, Bool-cases}
use changebridge_cdc_migrati.Base.Key.{Keyed, ◌==◌}

module _ {K : Type 0} ⦃keyed : Keyed K⦄ where
  -- whether a key stands in a list
  unfoldable pub seen : K → List K → Bool
  seen i [] = false
  seen i (j ∷ js) = i == j || seen i js

  seen-cons : (i j : K) (js : List K) → (seen i (j ∷ js) ≡ true) ↔ ((i ≡ j) ⊎ (seen i js ≡ true))
  unfolding seen
  seen-cons i j js = ground (arith, keyed.equals_iff i j)

  pub seen_iff : (i : K) (js : List K) → (seen i js ≡ true) ↔ Mem i js
  unfolding seen
  seen_iff i [] = (λ e. absurd (ground (arith, e)), λ m. absurd (not-mem-nil m))
  seen_iff i (j ∷ js) = (
    λ e. mem-cons.1 (elim ((seen-cons i j js).0 e) [
      | inl same ↦ Or.inl same
      | inr later ↦ Or.inr ((seen_iff i js).0 later)
    ]),
    λ m.
        Or.elim (Bool-set (seen i (j ∷ js)) true) (mem-cons.0 m)
          (λ same. (seen-cons i j js).1 (inl same))
          (λ later. (seen-cons i j js).1 (inr ((seen_iff i js).1 later))),
  )

  seen-cons-false :
      (i j : K) (js : List K) → (seen i (j ∷ js) ≡ false) ↔ ((¬ (i ≡ j)) × (seen i js ≡ false))
  unfolding seen
  seen-cons-false i j js = ground (arith, keyed.equals_iff i j)

  -- whether no key repeats, in the list or among the known ones
  unfoldable pub distinct_from : List K → List K → Bool
  unfolding seen
  distinct_from known [] = true
  distinct_from known (i ∷ is) =
      let rest = distinct_from (i ∷ known) is in if seen i known then false else rest

  distinct_from-cons :
      (known : List K) (i : K) (is : List K)
      → (distinct_from known (i ∷ is) ≡ true)
        ↔ ((seen i known ≡ false) × (distinct_from (i ∷ known) is ≡ true))
  unfolding distinct_from
  distinct_from-cons known i is = ground arith

  distinct_from_iff :
      (known is : List K)
      → (distinct_from known is ≡ true) ↔ (Nodup is × ((i : K) → Mem i is → seen i known ≡ false))
  unfolding distinct_from
  distinct_from_iff known [] = (λ e. (Nodup-nil, λ i m. absurd (not-mem-nil m)), λ h. refl)
  distinct_from_iff known (i ∷ is) =
      let later = distinct_from_iff (i ∷ known) is in
      (
        λ e.
            let (fresh, rest) = (distinct_from-cons known i is).0 e in
            let (nodup, away) = later.0 rest in
            (
              Nodup-cons.1 (λ m. ((seen-cons-false i i known).0 (away i m)).0 refl, nodup),
              λ j m.
                  Or.elim (Bool-set (seen j known) false) (mem-cons.0 m)
                    (λ same. subst (λ k. seen k known ≡ false) (sym same) fresh)
                    (λ below. ((seen-cons-false j i known).0 (away j below)).1),
            ),
        λ h. (distinct_from-cons known i is).1 (
          h.1 i mem-cons_self,
          later.1 (
            (Nodup-cons.0 h.0).1,
            λ j m.
                (seen-cons-false j i known).1 (
                  λ same. (Nodup-cons.0 h.0).0 (mem-cast (sym same) m),
                  h.1 j (mem-cons_of_mem i m),
                ),
          ),
        ),
      )

  pub distinct_iff : (is : List K) → (distinct_from [] is ≡ true) ↔ Nodup is
  unfolding seen
  distinct_iff is = (
    λ e. ((distinct_from_iff [] is).0 e).0,
    λ nodup. (distinct_from_iff [] is).1 (nodup, λ i m. refl),
  )

  -- set(keys), with the last of its equal elements kept
  unfoldable pub distinct : List K → List K
  unfolding seen
  distinct [] = []
  distinct (n ∷ ns) = let rest = distinct ns in if seen n ns then rest else n ∷ rest

  pub distinct-mem_iff : (t : K) (ns : List K) → Mem t (distinct ns) ↔ Mem t ns
  unfolding distinct
  distinct-mem_iff t [] = (λ m. m, λ m. m)
  distinct-mem_iff t (n ∷ ns) = elim (Bool-cases (seen n ns)) [
    | inl repeated ↦
        let inside = (seen_iff n ns).0 repeated in
        rw (repeated, if◌then◌else◌)
          (
            λ m. mem-cons_of_mem n ((distinct-mem_iff t ns).0 m),
            λ m. (distinct-mem_iff t ns).1 (
                Or.elim (Mem-prop {a = t} {l = ns}) (mem-cons.0 m) (λ same. mem-cast same inside)
                  (λ below. below)),
          )
    | inr fresh ↦
        rw (fresh, if◌then◌else◌)
          (
            λ m. mem-cons.1 (Or.imp (λ e. e) (distinct-mem_iff t ns).0 (mem-cons.0 m)),
            λ m. mem-cons.1 (Or.imp (λ e. e) (distinct-mem_iff t ns).1 (mem-cons.0 m)),
          )
  ]
