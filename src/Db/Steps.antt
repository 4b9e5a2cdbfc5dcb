-- ===== src/Db/Steps.antt =====
-- The statements on `pipeline_step_runs` (src/db/run_queries.rs).
use ingest_pipeline.Prelude.{
  ℕ, ◌+◌, ◌*◌, Bool, not, ◌&&◌, ◌||◌, Option, none, some, [], ◌∷◌, ◌++◌, ltb, ◌==◌, if◌then◌else◌,
  any, select, length, update_where, unwrap_or,
}
use ingest_pipeline.Prelude.Text.{Text, text}
use ingest_pipeline.Schema.{PipelineStepRun, StepName, StepStatus, is_running_step}
use ingest_pipeline.Store.{M, statement, checked_statement, draw, seconds, ◌>>=◌}

unfoldable pub start_run_step : ℕ → StepName → Option ℕ → M PipelineStepRun
start_run_step run_id step_name items_count = do
  id ← draw
  checked_statement (text "start_run_step: failed to insert pipeline_step_run") (λ now w.
      let step : PipelineStepRun = record {
        id = id;
        run_id = run_id;
        step_name = step_name;
        status = StepStatus.running;
        started_at = now;
        completed_at = none;
        error_message = none;
        items_count = unwrap_or 0 items_count;
        items_processed = 0;
        items_failed = 0;
        created_at = now;
      } in
      if not (any (λ r. r.id == run_id) w.runs) || any (λ s. s.id == id) w.steps
      then none
      else some (step, record w { steps = w.steps ++ step ∷ [] }))

unfoldable pub record_run_step_progress : ℕ → ℕ → ℕ → M (Unit {0})
record_run_step_progress step_run_id items_processed items_failed =
    statement (text "record_run_step_progress: failed to update pipeline_step_run") (λ now w. (
      tt,
      record w {
        steps =
            update_where (λ s. s.id == step_run_id)
              (λ s. record s { items_processed = items_processed; items_failed = items_failed })
              w.steps;
      },
    ))

unfoldable pub complete_run_step : ℕ → M (Unit {0})
complete_run_step step_run_id =
    statement (text "complete_run_step: failed to update pipeline_step_run") (λ now w. (
      tt,
      record w {
        steps =
            update_where (λ s. s.id == step_run_id)
              (λ s. record s { status = StepStatus.completed; completed_at = some now }) w.steps;
      },
    ))

unfoldable pub fail_run_step : ℕ → Text → M (Unit {0})
fail_run_step step_run_id error =
    statement (text "fail_run_step: failed to update pipeline_step_run") (λ now w. (
      tt,
      record w {
        steps =
            update_where (λ s. s.id == step_run_id)
              (λ s. record s {
                status = StepStatus.failed;
                error_message = some error;
                completed_at = some now;
              })
              w.steps;
      },
    ))

unfoldable pub started_before : ℕ → ℕ → PipelineStepRun → Bool
started_before now age s = is_running_step s.status && ltb (s.started_at + seconds age) now

unfoldable pub mark_stale_step_runs_completed : ℕ → M ℕ
mark_stale_step_runs_completed minutes =
    statement (text "mark_stale_step_runs_completed: failed to update pipeline_step_runs") (λ now w.
      let stale = started_before now (minutes * 60) in
      (
        length (select stale w.steps),
        record w {
          steps =
              update_where stale
                (λ s. record s { status = StepStatus.completed; completed_at = some now }) w.steps;
        },
      ))

unfoldable pub mark_zombie_step_runs_failed : ℕ → M ℕ
mark_zombie_step_runs_failed hours env =
    let msg = text "Zombie step: no activity for " ++ (env.decimal hours ++ text " hours") in
    statement (text "mark_zombie_step_runs_failed: failed to update pipeline_step_runs")
      (λ now w.
        let zombie = started_before now (hours * 3600) in
        (
          length (select zombie w.steps),
          record w {
            steps =
                update_where zombie
                  (λ s. record s {
                    status = StepStatus.failed;
                    error_message = some msg;
                    completed_at = some now;
                  })
                  w.steps;
          },
        ))
      env
