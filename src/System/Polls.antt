-- ===== src/System/Polls.antt =====
-- A poll as a sequence of steps (src/queue/worker.rs).
use ingest_pipeline.Prelude.{Option, List, [], ◌∷◌}
use ingest_pipeline.Prelude.Text.{Text}
use ingest_pipeline.Config.{Config}
use ingest_pipeline.Queue.Worker.{process_job, process_all, process_batch, poll}
use ingest_pipeline.Schema.{Job}
use ingest_pipeline.Store.{Env, World, run_keeps, Result, ok, err}
use ingest_pipeline.System.{Step, Steps, stays, then_steps, picks, works_on}
use ingest_pipeline.Workers.Handlers.{start_worker}

-- One step more.
extended : {w v u : World} → Steps w v → Step v u → Steps w u
extended {u = u} (stays w) step = then_steps w u u step (stays u)
extended {u = u} (then_steps w v t first rest) step = then_steps w v u first (extended rest step)

module _ (env : Env) (worker_id : Text) (config : Option Config) (w : World) where
  process_all-Steps :
      (jobs : List Job) (v : World)
      → Steps w v
      → Steps w (process_all (start_worker worker_id config) jobs env v).1
  unfolding process_all
  process_all-Steps [] v h = h
  process_all-Steps (job ∷ jobs) v h =
      run_keeps (Steps w) (process_job (start_worker worker_id config) job env v) _
        (extended h (works_on env worker_id config job v))
        (λ done v' h'. process_all-Steps jobs v' h')

  process_batch-Steps :
      (batch : Result (List Job)) (v : World)
      → Steps w v
      → Steps w (process_batch (start_worker worker_id config) batch env v).1
  unfolding process_batch
  process_batch-Steps (ok jobs) v h = process_all-Steps jobs v h
  process_batch-Steps (err e) v h = h

  -- A poll of a worker is a pick and the work on the picked jobs, one after the other.
  pub poll-Steps : Steps w (poll (start_worker worker_id config) env w).1
  unfolding poll
  poll-Steps =
      let worker = start_worker worker_id config in
      process_batch-Steps _ _ (extended (stays w) (picks env worker.worker_id worker.batch_size w))
