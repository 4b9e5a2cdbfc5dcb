-- ===== src/System.antt =====
-- The program: its scheduler, its workers and the database between them (src/workers, src/queue). A
-- scheduled run, a pick of jobs and the work on one job are each one step; the steps of all
-- processes come in any order, with any failures of statements and any answers of the network.
pub mod Consistent
pub mod Polls
pub mod Scheduled
pub mod Statements
use ingest_pipeline.Prelude.{
  ℕ, zero, suc, ◌+◌, ◌-◌, ◌*◌, ◌/◌, ◌≤◌, ◌<◌, ◌≡◌, refl, sym, ap, subst, ◌∙◌, ◌⊎◌, inl, inr, Bool,
  true, false, not, ◌&&◌, ◌||◌, Option, none, some, List, [], ◌∷◌, ◌++◌, map, append_assoc,
  append-nil, arith, length, take, select, find, any, All, update_where, ltb, leb, ◌==◌,
  if◌then◌else◌, Bool-cases, Option-cases, unwrap_or, if-elim, All-implies, All-select, All-append,
  All-map, All-take, Pairwise, is_some, or_else, length-append, length-map,
}
use ingest_pipeline.Prelude.Text.{Text}
use ingest_pipeline.Config.{Config}
use ingest_pipeline.Queue.Jobs.{pick_jobs}
use ingest_pipeline.Queue.Worker.{process_job}
use ingest_pipeline.Schema.{Job}
use ingest_pipeline.Store.{Env, World}
use ingest_pipeline.Workers.Handlers.{start_worker}
use ingest_pipeline.Workers.Scheduler.{handle_scheduled_run}

-- One step of the scheduler or of a worker.
pub data Step : World → World → Type 0 where
  schedules : (env : Env) (w : World) → Step w (handle_scheduled_run env w).1
  picks :
      (env : Env) (worker_id : Text) (limit : ℕ) (w : World)
      → Step w (pick_jobs worker_id limit env w).1
  works_on :
      (env : Env) (worker_id : Text) (config : Option Config) (job : Job) (w : World)
      → Step w (process_job (start_worker worker_id config) job env w).1

pub data Steps : World → World → Type 0 where
  stays : (w : World) → Steps w w
  then_steps : (w v u : World) → Step w v → Steps v u → Steps w u
