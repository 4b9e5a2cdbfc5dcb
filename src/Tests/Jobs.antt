-- ===== src/Tests/Jobs.antt =====
-- The tests of src/queue/jobs.rs, on an empty table of jobs; an `expect` that fails is the error of the
-- test. The payload is a JSON value.
use ingest_pipeline.Prelude.{
  ℕ, ◌+◌, ◌-◌, ◌≡◌, refl, Bool, true, false, ◌&&◌, Option, none, some, List, [], ◌∷◌, length,
  select, find, update_where, ltb, ◌==◌,
}
use ingest_pipeline.Prelude.Int.{ℤ, pos, negsuc}
use ingest_pipeline.Prelude.Sort.{sort}
use ingest_pipeline.Prelude.Text.{Text, text, text_eq}
use ingest_pipeline.Queue.Jobs.{
  create_job, pick_jobs, complete_job, fail_job, mark_dead, retry_job, cleanup_dead_jobs,
  insert_job, new_job, pick_rows, selected, before, eligible, start, complete_rows, fail_rows,
  fail_row, is_old_dead,
}
use ingest_pipeline.Samples.{env, world}
use ingest_pipeline.Schema.{Job, JobStatus, is_pending, is_running, is_dead}
use ingest_pipeline.Store.{
  M, Env, World, ok, err, pure, statement, checked_statement, days, ◌>>=◌, ◌>>◌,
}
use ingest_pipeline.Tests.{all_hold}

-- SELECT * FROM jobs WHERE id = $1, with fetch_one.
abbrev fetch_one : ℕ → M Job
fetch_one id =
    checked_statement (text "no rows returned")
      (λ now w. elim (find (λ j. j.id == id) w.jobs) [ none ↦ none | some j ↦ some (j, w) ])

abbrev is_text : Text → Option Text → Bool
is_text expected none = false
is_text expected (some e) = text_eq e expected

abbrev has_priority : ℕ → ℤ → Bool
has_priority n (pos p) = p == n
has_priority n (negsuc p) = false

abbrev is_completed : JobStatus → Bool
is_completed JobStatus.completed = true
is_completed _ = false

abbrev pub test_create_job : Text → M Bool
test_create_job payload = do
  job ← create_job (text "test_type") payload (pos 5)
  pure (
      all_hold (
        text_eq job.job_type (text "test_type")
        ∷ text_eq job.payload payload
        ∷ has_priority 5 job.priority
        ∷ is_pending job.status
        ∷ (job.attempts == 0)
        ∷ (job.max_attempts == 3)
        ∷ []))

-- Both jobs are picked, the one of higher priority first, and it is locked by the worker.
abbrev picked_in_order : List Job → Bool
picked_in_order (first ∷ second ∷ []) = all_hold (
    text_eq first.job_type (text "high")
    ∷ text_eq second.job_type (text "low")
    ∷ is_running first.status
    ∷ is_text (text "worker-1") first.locked_by
    ∷ [])
picked_in_order _ = false

abbrev pub test_pick_jobs : Text → M Bool
test_pick_jobs payload = do
  low ← create_job (text "low") payload (pos 1)
  high ← create_job (text "high") payload (pos 10)
  jobs ← pick_jobs (text "worker-1") 5
  empty ← pick_jobs (text "worker-2") 5
  pure (all_hold (picked_in_order jobs ∷ (length empty == 0) ∷ []))

abbrev pub test_complete_job : Text → M Bool
test_complete_job payload = do
  job ← create_job (text "task") payload (pos 0)
  complete_job job.id
  updated ← fetch_one job.id
  pure (is_completed updated.status)

abbrev pub test_fail_job_with_retry : Text → M Bool
test_fail_job_with_retry payload = do
  job ← create_job (text "retry-task") payload (pos 0)
  fail_job job.id (text "temporary error")
  updated ← fetch_one job.id
  pure (
      all_hold (
        is_pending updated.status
        ∷ (updated.attempts == 1)
        ∷ is_text (text "temporary error") updated.last_error
        ∷ ltb job.created_at updated.run_at
        ∷ []))

abbrev pub test_fail_job_to_dead : Text → M Bool
test_fail_job_to_dead payload = do
  job ← create_job (text "doomed-task") payload (pos 0)
  fail_job job.id (text "error 1")
  fail_job job.id (text "error 2")
  fail_job job.id (text "error 3")
  updated ← fetch_one job.id
  pure (all_hold (is_dead updated.status ∷ (updated.attempts == 3) ∷ []))

-- UPDATE jobs SET updated_at = now() - interval '31 days' WHERE id = $1
abbrev set_old : ℕ → M (Unit {0})
set_old id = statement (text "error returned from database") (λ now w. (
  tt,
  record w {
    jobs = update_where (λ j. j.id == id) (λ j. record j { updated_at = now - days 31 }) w.jobs;
  },
))

-- SELECT * FROM jobs WHERE …, with fetch_all.
abbrev fetch_all : (Job → Bool) → M (List Job)
fetch_all p = statement (text "error returned from database") (λ now w. (select p w.jobs, w))

abbrev pub test_cleanup_dead_jobs : Text → M Bool
test_cleanup_dead_jobs payload = do
  job ← create_job (text "doomed") payload (pos 0)
  mark_dead job.id
  set_old job.id
  deleted ← cleanup_dead_jobs 30
  remaining ← fetch_all (λ j. j.id == job.id)
  pure (all_hold ((deleted == 1) ∷ (length remaining == 0) ∷ []))

abbrev pub test_mark_dead : Text → M Bool
test_mark_dead payload = do
  job ← create_job (text "kill-me") payload (pos 0)
  mark_dead job.id
  updated ← fetch_one job.id
  pure (is_dead updated.status)

abbrev pub test_retry_job : Text → M Bool
test_retry_job payload = do
  job ← create_job (text "requeue") payload (pos 0)
  retry_job job.id 60
  updated ← fetch_one job.id
  pure (is_pending updated.status)

abbrev picked_one : List Job → Bool
picked_one (job ∷ []) = is_running job.status && is_text (text "worker-1") job.locked_by
picked_one _ = false

abbrev pub test_pick_jobs_skip_locked : Text → M Bool
test_pick_jobs_skip_locked payload = do
  first ← create_job (text "batch") payload (pos 0)
  second ← create_job (text "batch") payload (pos 0)
  third ← create_job (text "batch") payload (pos 0)
  picked ← pick_jobs (text "worker-1") 1
  remaining ← fetch_all (λ j. is_pending j.status)
  pure (all_hold (picked_one picked ∷ (length remaining == 2) ∷ []))

-- An empty table of jobs, a clock that moves on, and rows that are returned in the order in which they
-- were picked.
abbrev test_env : Env
test_env = record env { now = λ n. 4000000000000000 + n }

abbrev empty_table : World
empty_table = record world { jobs = [] }

abbrev passes : (Text → M Bool) → Bool
passes test = elim (test (text "{}") test_env empty_table).0 [ ok b ↦ b | err e ↦ false ]

create_tests :
    all_hold (
      passes test_create_job
      ∷ passes test_complete_job
      ∷ passes test_mark_dead
      ∷ passes test_retry_job
      ∷ [])
    ≡ true
unfolding create_job insert_job text_eq new_job complete_job complete_rows mark_dead retry_job
create_tests = refl

pick_tests : all_hold (passes test_pick_jobs ∷ passes test_pick_jobs_skip_locked ∷ []) ≡ true
unfolding create_job insert_job new_job pick_jobs pick_rows selected sort eligible before text_eq
    start
pick_tests = refl

fail_tests : all_hold (passes test_fail_job_with_retry ∷ passes test_fail_job_to_dead ∷ []) ≡ true
unfolding create_job insert_job fail_job fail_rows new_job fail_row text_eq
fail_tests = refl

cleanup_test : passes test_cleanup_dead_jobs ≡ true
unfolding create_job insert_job mark_dead cleanup_dead_jobs is_old_dead new_job
cleanup_test = refl
