-- ===== src/Tests/Worker.antt =====
-- The tests of src/queue/worker.rs, on an empty table of jobs; an `expect` that fails is the error of
-- the test. The payload is a JSON value.
use ingest_pipeline.Prelude.{
  ℕ, ◌≡◌, refl, Bool, true, false, none, some, List, [], ◌∷◌, length, find, ◌==◌, if◌then◌else◌,
  unwrap_or,
}
use ingest_pipeline.Prelude.Int.{pos}
use ingest_pipeline.Prelude.Sort.{sort}
use ingest_pipeline.Prelude.Text.{Text, text, text_eq}
use ingest_pipeline.Queue.Jobs.{
  create_job, pick_jobs, complete_job, fail_job, insert_job, new_job, pick_rows, selected, eligible,
  start, complete_rows, fail_rows, fail_row,
}
use ingest_pipeline.Queue.Worker.{Worker, Handler, new_worker, process_job, run_handler, settle}
use ingest_pipeline.Samples.{env, world}
use ingest_pipeline.Schema.{Job, JobStatus, is_pending}
use ingest_pipeline.Store.{M, ok, err, pure, fail_with, checked_statement, ◌>>=◌, ◌>>◌}
use ingest_pipeline.Tests.{all_hold}

-- A worker with the handler of one type of jobs, and one with none.
abbrev make_worker : Text → Handler → Worker
make_worker job_type handler =
    new_worker (text "test-worker") (λ s. if text_eq s job_type then some handler else none)

abbrev without_handlers : Worker
without_handlers = new_worker (text "test-worker") (λ s. none)

-- `picked.into_iter().next().unwrap()`; a panic is an error.
abbrev first_of : List Job → M Job
first_of [] = fail_with (text "called `Option::unwrap()` on a `None` value")
first_of (job ∷ jobs) = pure job

-- SELECT * FROM jobs WHERE id = $1, with fetch_one.
abbrev fetch_one : ℕ → M Job
fetch_one id =
    checked_statement (text "no rows returned")
      (λ now w. elim (find (λ j. j.id == id) w.jobs) [ none ↦ none | some j ↦ some (j, w) ])

abbrev is_completed : JobStatus → Bool
is_completed JobStatus.completed = true
is_completed _ = false

abbrev pub test_worker_dispatch_success : Text → M Bool
test_worker_dispatch_success payload = do
  let worker = make_worker (text "test_success") (λ job. pure tt)
  job ← create_job (text "test_success") payload (pos 0)
  picked ← pick_jobs worker.worker_id 1
  next ← first_of picked
  process_job worker next
  updated ← fetch_one job.id
  pure (all_hold ((length picked == 1) ∷ is_completed updated.status ∷ []))

abbrev pub test_worker_dispatch_failure : Text → M Bool
test_worker_dispatch_failure payload = do
  let worker = make_worker (text "test_failure") (λ job. fail_with (text "handler error"))
  job ← create_job (text "test_failure") payload (pos 0)
  picked ← pick_jobs worker.worker_id 1
  next ← first_of picked
  process_job worker next
  updated ← fetch_one job.id
  pure (
      all_hold (
        (length picked == 1)
        ∷ is_pending updated.status
        ∷ (updated.attempts == 1)
        ∷ text_eq (unwrap_or [] updated.last_error) (text "handler error")
        ∷ []))

abbrev pub test_worker_no_handler : Text → M Bool
test_worker_no_handler payload = do
  job ← create_job (text "unknown_type") payload (pos 0)
  picked ← pick_jobs without_handlers.worker_id 1
  next ← first_of picked
  process_job without_handlers next
  updated ← fetch_one job.id
  pure (
      all_hold (
        (length picked == 1)
        ∷ is_pending updated.status
        ∷ text_eq (unwrap_or [] updated.last_error) (text "no_handler")
        ∷ []))

abbrev passes : (Text → M Bool) → Bool
passes test = elim (test (text "{}") env (record world { jobs = [] })).0 [
  | ok b ↦ b
  | err e ↦ false
]

dispatch_tests :
    all_hold (
      passes test_worker_dispatch_success
      ∷ passes test_worker_dispatch_failure
      ∷ passes test_worker_no_handler
      ∷ [])
    ≡ true
unfolding create_job insert_job new_job pick_jobs pick_rows selected sort eligible start new_worker
    process_job run_handler settle complete_job complete_rows fail_job fail_rows fail_row text_eq
dispatch_tests = refl
