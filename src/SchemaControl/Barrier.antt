-- ===== src/SchemaControl/Barrier.antt =====
-- When the schema control store admits a schema, and when it never does again.
use mathlib.Core.Option.{none-ne-some}
use mathlib.Core.Path.{subst}
use mathlib.Core.List.{Mem, mem-cons_self, mem-cons_of_mem}
use changebridge_cdc_migrati.Base.{
  String, Bool, true, false, ◌&&◌, Option, none, some, List, [], ◌∷◌, ◌≡◌, ◌⊎◌, refl, sym, ◌∙◌, inl,
  inr, arith,
}
use changebridge_cdc_migrati.Base.Tests.{Option-cases, Bool-cases}
use changebridge_cdc_migrati.Base.Key.{◌==◌, text_key}
use changebridge_cdc_migrati.Base.Exec.{done, raised}
use changebridge_cdc_migrati.Base.Table.{Table, find}
use changebridge_cdc_migrati.Base.Sort.{sort, insert_sorted, text_le}
use changebridge_cdc_migrati.Json.{Codec}
use changebridge_cdc_migrati.SchemaControl.Decision.{
  Verdict, compatible, incompatible, unknown, is_compatible,
}
use changebridge_cdc_migrati.SchemaControl.{
  Error, generation_rejected, generation_quarantined, Store, Receipt, Decided, Quarantine,
  Rejection,
}
use changebridge_cdc_migrati.SchemaControl.Admission.{
  select, admits, is_open, opens, open_quarantines, is_nonempty, require_admission,
}
use changebridge_cdc_migrati.SchemaControl.Change.{Call, run_all, run_all-Grows}

-- a generation that is rejected, or has an open quarantine
abbrev pub IsBarred : String → Store → Type 0
IsBarred g s =
    ((r : Rejection) × (find g s.schema_generation_rejections ≡ some r))
    ⊎ ((q : String) × (row : Quarantine) × (find q s.schema_quarantines ≡ some row)
        × (is_open g row ≡ true))

insert_sorted-nonempty :
    (x : String × Quarantine) (xs : List (String × Quarantine))
    → is_nonempty (insert_sorted (λ p q. text_le p.0 q.0) x xs) ≡ true
unfolding insert_sorted
insert_sorted-nonempty x [] = refl
insert_sorted-nonempty x (y ∷ ys) = ground arith

sort-nonempty :
    (xs : List (String × Quarantine))
    → is_nonempty (sort (λ p q. text_le p.0 q.0) xs) ≡ is_nonempty xs
unfolding sort
sort-nonempty [] = refl
sort-nonempty (x ∷ xs) = insert_sorted-nonempty x (sort (λ p q. text_le p.0 q.0) xs)

opens-nonempty :
    (g q : String) (row : Quarantine) (t : Table String Quarantine)
    → find q t ≡ some row
    → is_open g row ≡ true
    → is_nonempty (opens g t) ≡ true
unfolding find opens
opens-nonempty g q row [] h e = absurd (none-ne-some row h)
opens-nonempty g q row ((k, v) ∷ t) h e = elim (Bool-cases (is_open g v)) [
  | inl opened ↦ rw opened refl
  | inr closed ↦ elim (Bool-cases (k == q)) [
    | inl same ↦ ground (arith, h, e, closed, same)
    | inr other ↦ rw closed (opens-nonempty g q row t (rw other at h) e)
  ]
]

open_quarantines-nonempty :
    (g q : String) (row : Quarantine) (s : Store)
    → find q s.schema_quarantines ≡ some row
    → is_open g row ≡ true
    → is_nonempty (open_quarantines g s) ≡ true
unfolding open_quarantines
open_quarantines-nonempty g q row s h e =
    sort-nonempty (opens g s.schema_quarantines) ∙ opens-nonempty g q row s.schema_quarantines h e

module _ (g table candidate policy : String) where
  require_admission-IsBarred :
      (s : Store)
      → IsBarred g s
      → (e : Error) × (require_admission g table candidate policy s ≡ raised e s)
  unfolding require_admission
  require_admission-IsBarred s (inl (r, h)) = (generation_rejected, rw h refl)
  require_admission-IsBarred s (inr (q, row, h, e)) =
      let opened = open_quarantines-nonempty g q row s h e in
      elim (Option-cases (find g s.schema_generation_rejections)) [
        | inl none_yet ↦ (generation_quarantined, rw (none_yet, opened) refl)
        | inr (r, rejected) ↦ (generation_rejected, rw rejected refl)
      ]

module _ (c : Codec) where
  run_all-IsBarred :
      (calls : List Call) (g : String) (s : Store) → IsBarred g s → IsBarred g (run_all c calls s)
  run_all-IsBarred calls g s (inl (r, h)) = inl (r, (run_all-Grows c calls s).rejections g r h)
  run_all-IsBarred calls g s (inr (q, row, h, e)) =
      inr (q, row, (run_all-Grows c calls s).quarantines q row h, e)

  -- A generation that is rejected, or has an open quarantine, is refused every admission from then
  -- on, whatever calls come between.
  pub barred_forever :
      (calls : List Call) (g table candidate policy : String) (s : Store)
      → IsBarred g s
      → (e : Error) × (require_admission g table candidate policy (run_all c calls s)
          ≡ raised e (run_all c calls s))
  barred_forever calls g table candidate policy s h =
      require_admission-IsBarred g table candidate policy (run_all c calls s)
        (run_all-IsBarred calls g s h)

select-eq-some :
    {V : Type 0} (test : V → Bool) (t : Table String V) (r : String × V)
    → select test t ≡ some r
    → Mem r t × (test r.1 ≡ true)
unfolding select
select-eq-some test [] r h = absurd (none-ne-some r h)
select-eq-some test ((k, v) ∷ t) r h = elim (Bool-cases (test v)) [
  | inl found ↦
      let e : (k, v) ≡ r = ground (arith, h, found) in
      (subst (λ x. Mem x ((k, v) ∷ t)) e mem-cons_self, subst (λ x. test x.1 ≡ true) e found)
  | inr other ↦
      let (m, e) = select-eq-some test t r (rw other at h) in (mem-cons_of_mem (k, v) m, e)
]

-- what an admission rests on: a receipt of the schema, whose decision is compatible
abbrev pub IsAdmitted : String → String → String → String → Store → Receipt → Type 0
IsAdmitted g table candidate policy s r =
    (r.generation_id ≡ g)
    × (r.source_table ≡ table)
    × (r.candidate_digest ≡ candidate)
    × (r.policy_digest ≡ policy)
    × ((row : Decided) × (find r.decision_id s.schema_decisions ≡ some row)
        × (row.verdict ≡ compatible))

is_compatible-eq : (v : Verdict) → is_compatible v ≡ true → v ≡ compatible
is_compatible-eq compatible h = refl
is_compatible-eq incompatible h = absurd (ground (arith, h))
is_compatible-eq unknown h = absurd (ground (arith, h))

verdict-eq :
    (found : Option Decided)
    → (elim found [ none ↦ false | some row ↦ is_compatible row.verdict ]) ≡ true
    → (row : Decided) × (found ≡ some row) × (row.verdict ≡ compatible)
verdict-eq none h = absurd (ground (arith, h))
verdict-eq (some row) h = (row, refl, is_compatible-eq row.verdict h)

and-true : (a b : Bool) → (a && b) ≡ true → (a ≡ true) × (b ≡ true)
and-true a b h = ground (arith, h)

module _ (g table candidate policy : String) where
  admits-IsAdmitted :
      (s : Store) (r : Receipt)
      → admits g table candidate policy s.schema_decisions r ≡ true
      → IsAdmitted g table candidate policy s r
  admits-IsAdmitted s r h =
      let (a, h1) = and-true (r.generation_id == g) _ h in
      let (b, h2) = and-true (r.source_table == table) _ h1 in
      let (c, h3) = and-true (r.candidate_digest == candidate) _ h2 in
      let (d, h4) = and-true (r.policy_digest == policy) _ h3 in
      (
        (text_key.equals_iff r.generation_id g).0 a,
        (text_key.equals_iff r.source_table table).0 b,
        (text_key.equals_iff r.candidate_digest candidate).0 c,
        (text_key.equals_iff r.policy_digest policy).0 d,
        verdict-eq (find r.decision_id s.schema_decisions) h4,
      )

  -- An admission changes nothing. It is given on a recorded receipt for the generation, table,
  -- schema and policy, whose decision is recorded as compatible, and only to a generation that is
  -- neither rejected nor in an open quarantine.
  pub require_admission-IsAdmitted :
      (s s' : Store) (answer : String × Receipt)
      → require_admission g table candidate policy s ≡ done answer s'
      → (s' ≡ s)
        × (¬ IsBarred g s)
        × Mem answer s.schema_apply_receipts
        × IsAdmitted g table candidate policy s answer.1
  unfolding require_admission
  require_admission-IsAdmitted s s' answer h =
      let unbarred : ¬ IsBarred g s = λ b.
        let (e, refused) = require_admission-IsBarred g table candidate policy s b in
        absurd (ground (arith, h, refused)) in
      let test = admits g table candidate policy s.schema_decisions in
      elim (Option-cases (find g s.schema_generation_rejections)) [
        | inr (r, rejected) ↦ absurd (unbarred (inl (r, rejected)))
        | inl accepted ↦ elim (Bool-cases (is_nonempty (open_quarantines g s))) [
          | inl opened ↦ absurd (ground (arith, h, accepted, opened))
          | inr clear ↦ elim (Option-cases (select test s.schema_apply_receipts)) [
            | inl missing ↦ absurd (ground (arith, h, accepted, clear, missing))
            | inr (row, found) ↦
                let e : answer ≡ row = ground (arith, h, accepted, clear, found) in
                let same : s' ≡ s = ground (arith, h, accepted, clear, found) in
                let (listed, admitted) = select-eq-some test s.schema_apply_receipts row found in
                (
                  same,
                  unbarred,
                  subst (λ r. Mem r s.schema_apply_receipts) (sym e) listed,
                  subst (λ r. IsAdmitted g table candidate policy s r.1) (sym e)
                      (admits-IsAdmitted s row.1 admitted),
                )
          ]
        ]
      ]
