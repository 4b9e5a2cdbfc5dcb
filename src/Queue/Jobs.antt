-- ===== src/Queue/Jobs.antt =====
-- The statements on the table of jobs (src/queue/jobs.rs): the change of the rows as a function,
-- and the statement that makes it.
pub mod Picking
pub mod Abandoned
pub mod Creating
pub mod Rows
pub mod Order
pub mod Failing
use ingest_pipeline.Prelude.{
  ℕ, ◌+◌, ◌^◌, Bool, not, ◌&&◌, ◌||◌, Option, none, some, List, [], ◌∷◌, ◌++◌, map, ltb, leb, ◌==◌,
  if◌then◌else◌, any, take, select, length, update_where, try_update_where,
}
use ingest_pipeline.Prelude.Int.{ℤ, ltb_ℤ}
use ingest_pipeline.Prelude.Sort.{sort}
use ingest_pipeline.Prelude.Text.{Text, text}
use ingest_pipeline.Schema.{Job, JobStatus, is_pending, is_dead}
use ingest_pipeline.Store.{M, statement, checked_statement, draw, pure, seconds, days, ◌>>=◌, ◌>>◌}

abbrev pub has_id : ℕ → List Job → Bool
has_id i jobs = any (λ j. j.id == i) jobs

-- The column defaults of `jobs`.
unfoldable pub new_job : ℕ → ℕ → Text → Text → ℤ → Job
new_job now id job_type payload priority = record {
  id = id;
  job_type = job_type;
  payload = payload;
  status = JobStatus.pending;
  priority = priority;
  attempts = 0;
  max_attempts = 3;
  run_at = now;
  locked_at = none;
  locked_by = none;
  last_error = none;
  created_at = now;
  updated_at = now;
}

-- The primary key refuses an id that is taken.
unfoldable pub insert_job : Job → List Job → Option (List Job)
insert_job j jobs = if has_id j.id jobs then none else some (jobs ++ j ∷ [])

unfoldable pub create_job : Text → Text → ℤ → M Job
create_job job_type payload priority = do
  id ← draw
  job ← checked_statement (text "create_job: failed to insert job") (λ now w.
      let j = new_job now id job_type payload priority in
      elim (insert_job j w.jobs) [ none ↦ none | some jobs ↦ some (j, record w { jobs = jobs }) ])
  statement (text "create_job: failed to send NOTIFY") (λ now w. (tt, w))
  pure job

-- WHERE status = 'pending' AND run_at <= now(), SKIP LOCKED.
unfoldable pub eligible : ℕ → (ℕ → Bool) → Job → Bool
eligible now held j = is_pending j.status && leb j.run_at now && not (held j.id)

-- ORDER BY priority DESC, created_at ASC.
unfoldable pub before : Job → Job → Bool
before a b =
    ltb_ℤ b.priority a.priority
    || (not (ltb_ℤ a.priority b.priority) && ltb a.created_at b.created_at)

unfoldable pub selected : ℕ → (ℕ → Bool) → ℕ → List Job → List Job
selected now held limit jobs = take limit (sort before (select (eligible now held) jobs))

unfoldable pub start : ℕ → Text → Job → Job
start now worker j = record j {
  status = JobStatus.running;
  locked_at = some now;
  locked_by = some worker;
  updated_at = now;
}

unfoldable pub pick_rows : ℕ → (ℕ → Bool) → Text → ℕ → List Job → List Job × List Job
pick_rows now held worker limit jobs =
    let chosen = selected now held limit jobs in
    (map (start now worker) chosen, update_where (λ j. has_id j.id chosen) (start now worker) jobs)

unfoldable pub pick_jobs : Text → ℕ → M (List Job)
pick_jobs worker limit env w =
    statement (text "pick_jobs: failed to pick jobs")
      (λ now v.
        let (picked, jobs) = pick_rows now (env.held w.statements) worker limit v.jobs in
        (env.returned w.statements picked, record v { jobs = jobs }))
      env w

unfoldable pub complete_rows : ℕ → ℕ → List Job → List Job
complete_rows now id =
    update_where (λ j. j.id == id)
      (λ j. record j { status = JobStatus.completed; updated_at = now })

unfoldable pub complete_job : ℕ → M (Unit {0})
complete_job id =
    statement (text "complete_job: failed to update job status")
      (λ now w. (tt, record w { jobs = complete_rows now id w.jobs }))

-- The largest value of the type INTEGER; a larger one is an error of the statement.
abbrev pub i32_max : ℕ
i32_max = 2147483647

unfoldable pub fail_row : ℕ → Text → Job → Option Job
fail_row now error j =
    if ltb i32_max (j.attempts + 1)
    then none
    else if leb j.max_attempts (j.attempts + 1)
    then some (record j {
      status = JobStatus.dead;
      attempts = j.attempts + 1;
      last_error = some error;
      updated_at = now;
    })
    else if ltb i32_max (2 ^ j.attempts)
    then none
    else some (record j {
      status = JobStatus.pending;
      attempts = j.attempts + 1;
      run_at = now + seconds (2 ^ j.attempts);
      last_error = some error;
      updated_at = now;
    })

unfoldable pub fail_rows : ℕ → ℕ → Text → List Job → Option (List Job)
fail_rows now id error = try_update_where (λ j. j.id == id) (fail_row now error)

unfoldable pub fail_job : ℕ → Text → M (Unit {0})
fail_job id error = checked_statement (text "fail_job: failed to update job") (λ now w.
    elim (fail_rows now id error w.jobs) [
      | none ↦ none
      | some jobs ↦ some (tt, record w { jobs = jobs })
    ])

unfoldable pub mark_dead : ℕ → M (Unit {0})
mark_dead id = statement (text "mark_dead: failed to update job status") (λ now w. (
  tt,
  record w {
    jobs =
        update_where (λ j. j.id == id) (λ j. record j { status = JobStatus.dead; updated_at = now })
          w.jobs;
  },
))

unfoldable pub retry_job : ℕ → ℕ → M (Unit {0})
retry_job id backoff_secs = statement (text "retry_job: failed to requeue job") (λ now w. (
  tt,
  record w {
    jobs =
        update_where (λ j. j.id == id)
          (λ j. record j {
            status = JobStatus.pending;
            run_at = now + seconds backoff_secs;
            updated_at = now;
          })
          w.jobs;
  },
))

-- WHERE status = 'dead' AND updated_at < now() - n days.
unfoldable pub is_old_dead : ℕ → ℕ → Job → Bool
is_old_dead now older_than_days j =
    is_dead j.status && ltb (j.updated_at + days older_than_days) now

unfoldable pub cleanup_dead_jobs : ℕ → M ℕ
cleanup_dead_jobs older_than_days =
    statement (text "cleanup_dead_jobs: failed to delete dead jobs") (λ now w.
      let old = is_old_dead now older_than_days in
      (length (select old w.jobs), record w { jobs = select (λ j. not (old j)) w.jobs }))
