-- ===== src/Publication/Progress.antt =====
-- A step of an orchestration run.
use changebridge_cdc_migrati.Base.{
  ℕ, ◌+◌, String, true, false, Option, some, ◌≡◌, inl, inr, refl, ap, ◌∙◌, arith,
}
use changebridge_cdc_migrati.Base.Tests.{Option-cases, Bool-cases, nat_eq_iff}
use changebridge_cdc_migrati.Base.Key.{◌==◌, text_key, number_key, ==_refl}
use changebridge_cdc_migrati.Base.Table.{find, update, find-update}
use changebridge_cdc_migrati.Base.Exec.{done}
use changebridge_cdc_migrati.Json.{Json, Codec}
use changebridge_cdc_migrati.Publication.{
  Store, Run, RunState, planned, eligible, publishing, verifying, active, incident, recovering,
  source_fallback_verified, rollback_verified,
}
use changebridge_cdc_migrati.Publication.Runs.{allowed, enter, get_run, transition_run}

-- The transitions of an orchestration run.
pub data MayEnter : RunState → RunState → Type 0 where
  accept : MayEnter planned eligible
  start : MayEnter eligible publishing
  verify : MayEnter publishing verifying
  settle : MayEnter verifying active
  fail_verification : MayEnter verifying incident
  fail_active : MayEnter active incident
  recover : MayEnter incident recovering
  fall_back : MayEnter recovering source_fallback_verified
  roll_back : MayEnter recovering rollback_verified

allowed-MayEnter : (a b : RunState) → allowed a b ≡ true → MayEnter a b
unfolding allowed
allowed-MayEnter planned eligible _ = accept
allowed-MayEnter eligible publishing _ = start
allowed-MayEnter publishing verifying _ = verify
allowed-MayEnter verifying active _ = settle
allowed-MayEnter verifying incident _ = fail_verification
allowed-MayEnter active incident _ = fail_active
allowed-MayEnter incident recovering _ = recover
allowed-MayEnter recovering source_fallback_verified _ = fall_back
allowed-MayEnter recovering rollback_verified _ = roll_back
allowed-MayEnter _ _ e = absurd (ground (arith, e))

-- A transition of a run that returns found the run at the expected revision in a state from which
-- the target may be entered; it returns the run of the same product in the target state at the next
-- revision, with the attempt and the printed detail, which is what the store holds then, other runs
-- stay, and no clock, pointer or attempt changes.
pub transition_run_effect :
    (c : Codec) (id : String) (n : ℕ) (to_state : RunState) (attempt : Option String)
    (detail : Json) (r : Run) (s s' : Store)
    → transition_run c id n to_state attempt detail s ≡ done r s'
    → (old : Run) × (find id s.orchestration_runs ≡ some old)
      × (old.revision ≡ n)
      × MayEnter old.state to_state
      × (r ≡ record {
        product_id = old.product_id;
        state = to_state;
        revision = n + 1;
        last_attempt_id = attempt;
        detail_json = c.dumps true detail;
      })
      × (find id s'.orchestration_runs ≡ some r)
      × ((other : String)
          → (id == other) ≡ false
          → find other s'.orchestration_runs ≡ find other s.orchestration_runs)
      × (s'.publication_clock ≡ s.publication_clock)
      × (s'.active_pointer ≡ s.active_pointer)
      × (s'.attempts ≡ s.attempts)
unfolding transition_run get_run
transition_run_effect c id n to_state attempt detail r s s' h =
    elim (Option-cases (find id s.orchestration_runs)) [
      | inl missing ↦ absurd (ground arith)
      | inr (old, found) ↦ elim (Bool-cases (allowed old.state to_state)) [
        | inr refused ↦ absurd (ground (arith, found))
        | inl may ↦
            let wrote : s'.orchestration_runs
                ≡ update id (enter c to_state attempt detail) s.orchestration_runs =
              ground (arith, found) in
            let now : find id s'.orchestration_runs ≡ some r = ground (arith, found) in
            (
              old,
              found,
              ground (arith, found, nat_eq_iff old.revision n),
              allowed-MayEnter old.state to_state may,
              ground (
                arith,
                found,
                now,
                nat_eq_iff old.revision n,
                ap (find id) wrote,
                ==_refl id,
                find-update id id (enter c to_state attempt detail) s.orchestration_runs,
              ),
              now,
              λ other e.
                  ap (find other) wrote
                  ∙ rw
                      (
                        find-update id other (enter c to_state attempt detail) s.orchestration_runs,
                        e,
                      )
                      refl,
              ground (arith, found),
              ground (arith, found),
              ground (arith, found),
            )
      ]
    ]
