-- ===== src/Queue/Worker.antt =====
-- The worker (src/queue/worker.rs): dispatch of a job to its handler, and the polling loop over the
-- events that wake it. The handlers stand in a map from job types.
pub mod Dispatch
use ingest_pipeline.Prelude.{ℕ, Bool, true, false, Option, none, some, List, [], ◌∷◌}
use ingest_pipeline.Prelude.Text.{Text, text}
use ingest_pipeline.Queue.Jobs.{pick_jobs, complete_job, fail_job}
use ingest_pipeline.Schema.{Job}
use ingest_pipeline.Store.{M, Result, ok, err, pure, attempt, ignore, ◌>>=◌, ◌>>◌}

abbrev pub Handler : Type 0
Handler = Job → M (Unit {0})

pub record Worker : Type 0 where
  pub worker_id : Text
  pub handlers : Text → Option Handler
  pub poll_interval : ℕ  -- milliseconds
  pub batch_size : ℕ

unfoldable pub new_worker : Text → (Text → Option Handler) → Worker
new_worker worker_id handlers = record {
  worker_id = worker_id;
  handlers = handlers;
  poll_interval = 1000;
  batch_size = 10;
}

unfoldable pub with_poll_interval : ℕ → Worker → Worker
with_poll_interval interval worker = record worker { poll_interval = interval }

unfoldable pub with_batch_size : ℕ → Worker → Worker
with_batch_size size worker = record worker { batch_size = size }

unfoldable pub settle : ℕ → Result (Unit {0}) → M (Unit {0})
settle id (ok done) = ignore (complete_job id)
settle id (err e) = ignore (fail_job id e)

unfoldable pub run_handler : Option Handler → Job → M (Unit {0})
run_handler (some handler) job = do outcome ← attempt (handler job); settle job.id outcome
run_handler none job = ignore (fail_job job.id (text "no_handler"))

unfoldable pub process_job : Worker → Job → M (Unit {0})
process_job worker job = run_handler (worker.handlers job.job_type) job

unfoldable pub process_all : Worker → List Job → M (Unit {0})
process_all worker [] = pure tt
process_all worker (job ∷ jobs) = do process_job worker job; process_all worker jobs

unfoldable pub process_batch : Worker → Result (List Job) → M (Unit {0})
process_batch worker (ok jobs) = process_all worker jobs
process_batch worker (err e) = pure tt

unfoldable pub poll : Worker → M (Unit {0})
poll worker = do
  batch ← attempt (pick_jobs worker.worker_id worker.batch_size)
  process_batch worker batch

-- What wakes `tokio::select!`: the signal, a notification or the loss of the LISTEN connection, the
-- timer.
pub data Wake : Type 0 where
  ctrl_c timer : Wake
  notification : Bool → Wake

-- The loop over a sequence of wake-ups; the flag says that there is a LISTEN connection. Without
-- one the branch of notifications never fires.
unfoldable pub run_loop : Worker → Bool → List Wake → M (Unit {0})
run_loop worker listening [] = pure tt
run_loop worker listening (ctrl_c ∷ events) = pure tt
run_loop worker listening (timer ∷ events) = do poll worker; run_loop worker listening events
run_loop worker true (notification received ∷ events) = do
  poll worker
  run_loop worker received events
run_loop worker false (notification received ∷ events) = run_loop worker false events

-- Whether there is a LISTEN connection at the start: `connect_with`, and then `listen`, may fail.
unfoldable pub connect_listener : Result (Result (Unit {0})) → Bool
connect_listener (ok (ok done)) = true
connect_listener (ok (err e)) = false
connect_listener (err e) = false

unfoldable pub run : Worker → Result (Result (Unit {0})) → List Wake → M (Unit {0})
run worker listener events = run_loop worker (connect_listener listener) events
