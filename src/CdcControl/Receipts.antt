-- ===== src/CdcControl/Receipts.antt =====
-- The table receipts of a transaction: what `receipts` reads is what the table holds.
use mathlib.Core.List.{Mem}
use changebridge_cdc_migrati.Base.{
  String, true, ◌||◌, Option, none, some, List, [], ◌∷◌, map, ◌≡◌, ◌↔◌, refl, sym, ap, ◌∙◌, arith,
}
use changebridge_cdc_migrati.Base.Tests.{is_some}
use changebridge_cdc_migrati.Base.Key.{◌==◌, text_key, triple_key}
use changebridge_cdc_migrati.Base.Members.{seen, seen_iff}
use changebridge_cdc_migrati.Base.Sort.{sort, insert_sorted}
use changebridge_cdc_migrati.Base.Table.{Table, find}
use changebridge_cdc_migrati.CdcControl.{Receipt}
use changebridge_cdc_migrati.CdcControl.Finalize.{of_transaction, by_table, receipts}

abbrev names : List (String × Receipt) → List String
names rows = map (λ row. row.0) rows

insert_sorted-seen :
    (t : String) (x : String × Receipt) (rows : List (String × Receipt))
    → seen t (names (insert_sorted by_table x rows)) ≡ (t == x.0 || seen t (names rows))
unfolding insert_sorted seen
insert_sorted-seen t x [] = refl
insert_sorted-seen t x (y ∷ rows) = ground (arith, insert_sorted-seen t x rows)

sort-seen :
    (t : String) (rows : List (String × Receipt))
    → seen t (names (sort by_table rows)) ≡ seen t (names rows)
unfolding sort seen
sort-seen t [] = refl
sort-seen t (x ∷ rows) =
    insert_sorted-seen t x (sort by_table rows) ∙ ap (λ b. t == x.0 || b) (sort-seen t rows)

of_transaction-seen :
    (g id t : String) (rows : Table (String × String × String) Receipt)
    → seen t (names (of_transaction g id rows)) ≡ is_some (find (g, id, t) rows)
unfolding of_transaction seen find
of_transaction-seen g id t [] = refl
of_transaction-seen g id t (((h, i, table), row) ∷ rows) = ground (
  arith,
  of_transaction-seen g id t rows,
  text_key.equals_iff t table,
  text_key.equals_iff table t,
)

is_some-row : (o : Option Receipt) → is_some o ≡ true → (row : Receipt) × (o ≡ some row)
is_some-row none e = absurd (ground (arith, e))
is_some-row (some row) e = (row, refl)

-- A table is among the receipts of a transaction exactly when it has a receipt.
pub receipts-mem_iff :
    (g id t : String) (rows : Table (String × String × String) Receipt)
    → Mem t (map (λ row. row.0) (receipts g id rows))
      ↔ ((row : Receipt) × (find (g, id, t) rows ≡ some row))
unfolding receipts
receipts-mem_iff g id t rows =
    let listed = seen_iff t (names (receipts g id rows)) in
    let same = sort-seen t (of_transaction g id rows) ∙ of_transaction-seen g id t rows in
    (
      λ m. is_some-row (find (g, id, t) rows) (sym same ∙ listed.1 m),
      λ h. listed.0 (same ∙ ap is_some h.1),
    )
