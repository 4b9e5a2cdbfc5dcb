-- ===== src/System/Consistent.antt =====
-- What holds of the tables at all times (src/workers, src/queue).
use ingest_pipeline.Prelude.{ℕ, Option, if-elim}
use ingest_pipeline.Prelude.Text.{Text, text, text_eq}
use ingest_pipeline.Config.{Config}
use ingest_pipeline.Queue.Worker.{Handler, settle, run_handler, process_job, new_worker}
use ingest_pipeline.Schema.{Job}
use ingest_pipeline.Store.{Env, World, Result, ok, err}
use ingest_pipeline.System.{Step, Steps, schedules, picks, works_on, stays, then_steps}
use ingest_pipeline.System.Scheduled.{handle_scheduled_run-IsConsistent}
use ingest_pipeline.System.Statements.{
  IsConsistent, create_job-IsConsistent, update_cursor-IsConsistent, pick_jobs-IsConsistent,
  complete_job-IsConsistent, fail_job-IsConsistent, process_ingest_step-IsConsistent,
  process_content_step-IsConsistent,
}
use ingest_pipeline.Workers.Handlers.{fetch_feed, process_article, handlers, start_worker}
use ingest_pipeline.Workers.Handlers.Keeps.{handle_ingest_job_keeps, handle_content_job_keeps}

module _ (env : Env) where
  settle-IsConsistent :
      (id : ℕ) (r : Result (Unit {0})) (w : World)
      → IsConsistent w
      → IsConsistent (settle id r env w).1
  unfolding settle
  settle-IsConsistent id (ok done) w h = complete_job-IsConsistent env id w h
  settle-IsConsistent id (err e) w h = fail_job-IsConsistent env id e w h

  run_handler-IsConsistent :
      (config : Option Config) (job : Job) (w : World)
      → IsConsistent w
      → IsConsistent (run_handler (handlers config job.job_type) job env w).1
  unfolding handlers run_handler
  run_handler-IsConsistent config job w h =
      let P = λ (o : Option Handler). IsConsistent (run_handler o job env w).1 in
      let ingest =
        handle_ingest_job_keeps IsConsistent env (create_job-IsConsistent env)
          (update_cursor-IsConsistent env) (process_ingest_step-IsConsistent env)
          (process_content_step-IsConsistent env) in
      let content =
        handle_content_job_keeps IsConsistent env (create_job-IsConsistent env)
          (update_cursor-IsConsistent env) (process_ingest_step-IsConsistent env)
          (process_content_step-IsConsistent env) in
      if-elim P (text_eq job.job_type fetch_feed)
        (λ e. settle-IsConsistent job.id _ _ (ingest job.payload w h))
        (λ e.
          if-elim P (text_eq job.job_type process_article)
            (λ e'. settle-IsConsistent job.id _ _ (content config job.payload w h))
            (λ e'. fail_job-IsConsistent env job.id (text "no_handler") w h))

  process_job-IsConsistent :
      (worker_id : Text) (config : Option Config) (job : Job) (w : World)
      → IsConsistent w
      → IsConsistent (process_job (start_worker worker_id config) job env w).1
  unfolding process_job start_worker new_worker
  process_job-IsConsistent worker_id config job w h = run_handler-IsConsistent config job w h

Step-IsConsistent : {w v : World} → Step w v → IsConsistent w → IsConsistent v
Step-IsConsistent (schedules env w) h = handle_scheduled_run-IsConsistent env w h
Step-IsConsistent (picks env worker_id limit w) h = pick_jobs-IsConsistent env worker_id limit w h
Step-IsConsistent (works_on env worker_id config job w) h =
    process_job-IsConsistent env worker_id config job w h

-- The ids of the jobs stay distinct, no two articles get the same URL and feed, and at most one run is
-- in progress, through any scheduled runs, picks of jobs and work on jobs in any order, whichever
-- statements fail and whatever the network answers; if this was so before them.
pub Steps-IsConsistent : {w v : World} → Steps w v → IsConsistent w → IsConsistent v
Steps-IsConsistent (stays w) h = h
Steps-IsConsistent (then_steps w v u step steps) h =
    Steps-IsConsistent steps (Step-IsConsistent step h)
