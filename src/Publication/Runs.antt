-- ===== src/Publication/Runs.antt =====
-- src/changebridge/publication.py: `start_run`, `transition_run` and `run`, the state machine of an
-- orchestration run. A text that names no state is never the target of an allowed transition.
use changebridge_cdc_migrati.Base.{ℕ, ◌+◌, String, Bool, true, false, not, Option, none, some}
use changebridge_cdc_migrati.Base.Key.{◌==◌, text_key, number_key}
use changebridge_cdc_migrati.Base.Table.{find, insert, update}
use changebridge_cdc_migrati.Base.Exec.{or_raise, modify, raise_if, ◌>>=◌, ◌>>◌}
use changebridge_cdc_migrati.Json.{Json, Codec}
use changebridge_cdc_migrati.Publication.{
  Method, Run, RunState, planned, eligible, publishing, verifying, active, incident, recovering,
  source_fallback_verified, rollback_verified, stale_run_revision, illegal_run_transition,
  run_unknown,
}

-- (state, to_state) in allowed
unfoldable pub allowed : RunState → RunState → Bool
allowed planned eligible = true
allowed eligible publishing = true
allowed publishing verifying = true
allowed verifying active = true
allowed verifying incident = true
allowed active incident = true
allowed incident recovering = true
allowed recovering source_fallback_verified = true
allowed recovering rollback_verified = true
allowed _ _ = false

unfoldable pub get_run : String → Method Run
get_run run_id s = or_raise (find run_id s.orchestration_runs) run_unknown s

-- INSERT OR IGNORE
unfoldable pub start_run : String → String → Method Run
unfolding get_run
start_run run_id product_id = do
  modify (λ s. record s {
    orchestration_runs =
        elim (insert run_id
          (record {
            product_id = product_id;
            state = planned;
            revision = 0;
            last_attempt_id = none;
            detail_json = "{}";
          })
          s.orchestration_runs) [ some t ↦ t | none ↦ s.orchestration_runs ];
  })
  get_run run_id

module _ (c : Codec) where
  abbrev pub enter : RunState → Option String → Json → Run → Run
  enter to_state attempt_id detail r = record r {
    state = to_state;
    revision = r.revision + 1;
    last_attempt_id = attempt_id;
    detail_json = c.dumps true detail;
  }

  -- the row was read at the expected revision, so the UPDATE writes it
  unfoldable pub transition_run : String → ℕ → RunState → Option String → Json → Method Run
  unfolding get_run allowed
  transition_run run_id expected_revision to_state attempt_id detail = do
    run ← get_run run_id
    raise_if (not (run.revision == expected_revision)) stale_run_revision
    raise_if (not (allowed run.state to_state)) illegal_run_transition
    modify (λ s. record s {
      orchestration_runs = update run_id (enter to_state attempt_id detail) s.orchestration_runs;
    })
    get_run run_id
