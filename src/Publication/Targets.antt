-- ===== src/Publication/Targets.antt =====
-- The generation that a move has found eligible, and the one whose row it has written.
use changebridge_cdc_migrati.Base.{String, Bool, true, false, some, ◌≡◌, refl, ap, ◌∙◌, arith}
use changebridge_cdc_migrati.Base.Key.{◌==◌, text_key, ==_refl}
use changebridge_cdc_migrati.Base.Table.{find, update, find-update}
use changebridge_cdc_migrati.Publication.{Store, Generation, GenerationState}
use changebridge_cdc_migrati.Publication.Moves.{is_eligible, rollback}

-- The target may be read: it is retained, readable, not retired, and its evidence is valid.
pub record IsUsable (g : Generation) : Type 0 where
  pub retained : g.retained ≡ true
  pub readable : g.readable ≡ true
  pub retired : g.retired ≡ false
  pub evidence_valid : g.evidence_valid ≡ true

pub is_eligible-IsUsable :
    (rollback : Bool) (g : Generation) → is_eligible rollback g ≡ true → IsUsable g
is_eligible-IsUsable rollback g e = record {
  retained = ground arith;
  readable = ground arith;
  retired = ground arith;
  evidence_valid = ground arith;
}

pub is_eligible-proven :
    (state : GenerationState) (g : Generation)
    → g.state ≡ state
    → is_eligible false g ≡ true
    → g.state ≡ GenerationState.proven
is_eligible-proven GenerationState.proven g is e = is
is_eligible-proven GenerationState.published g is e = absurd (ground arith)
is_eligible-proven GenerationState.rolled_back g is e = absurd (ground arith)

-- The row of one generation has been written, and no other.
abbrev pub Became : String → Generation → Store → Store → Type 0
Became g row s s' =
    (find g s'.generations ≡ some row)
    × ((other : String)
        → (g == other) ≡ false
        → find other s'.generations ≡ find other s.generations)

pub update-Became :
    (g : String) (f : Generation → Generation) (row : Generation) (s s' : Store)
    → s'.generations ≡ update g f s.generations
    → find g s.generations ≡ some row
    → Became g (f row) s s'
update-Became g f row s s' wrote found = (
  ground (arith, found, ap (find g) wrote, ==_refl g, find-update g g f s.generations),
  λ other e. ap (find other) wrote ∙ rw (find-update g other f s.generations, e) refl,
)
