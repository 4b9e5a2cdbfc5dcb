-- ===== src/Queue/Jobs/Abandoned.antt =====
-- A job whose worker never settles it, under the statements for other jobs (src/queue/jobs.rs).
use ingest_pipeline.Prelude.{
  inr, inl, Option-cases, update_where, try_update_where, if◌then◌else◌, select, ℕ, ◌≡◌, Bool, true,
  false, List, [], ◌∷◌, ◌++◌, arith, any, Option, some, not, ◌&&◌, ◌==◌,
}
use ingest_pipeline.Prelude.Text.{Text}
use ingest_pipeline.Queue.Jobs.{
  fail_row, selected, has_id, insert_job, pick_rows, complete_rows, fail_rows, is_old_dead, start,
}
use ingest_pipeline.Schema.{Job, is_running, JobStatus}

abbrev pub is_stuck : ℕ → Job → Bool
is_stuck id j = (j.id == id) && is_running j.status

-- The statements that the workers and the scheduler send while no worker completes or fails the job
-- `id`: any picks and clean-ups, new jobs, and the outcomes of other jobs.
pub data Step (id : ℕ) : List Job → List Job → Type 0 where
  picked :
      (now : ℕ) (held : ℕ → Bool) (worker : Text) (limit : ℕ) (jobs : List Job)
      → Step id jobs (pick_rows now held worker limit jobs).1
  completed :
      (now other : ℕ) (jobs : List Job)
      → (other == id) ≡ false
      → Step id jobs (complete_rows now other jobs)
  failed :
      (now other : ℕ) (error : Text) (jobs jobs' : List Job)
      → (other == id) ≡ false
      → fail_rows now other error jobs ≡ some jobs'
      → Step id jobs jobs'
  created : (j : Job) (jobs jobs' : List Job) → insert_job j jobs ≡ some jobs' → Step id jobs jobs'
  cleaned :
      (now n : ℕ) (jobs : List Job) → Step id jobs (select (λ j. not (is_old_dead now n j)) jobs)

pub data Steps (id : ℕ) : List Job → List Job → Type 0 where
  none_left : (jobs : List Job) → Steps id jobs jobs
  then_steps : (a b c : List Job) → Step id a b → Steps id b c → Steps id a c

any-update :
    (p q : Job → Bool) (f : Job → Job) (jobs : List Job)
    → ((j : Job) → p j ≡ true → p (if q j then f j else j) ≡ true)
    → any p jobs ≡ true
    → any p (update_where q f jobs) ≡ true
any-update p q f [] k h = h
any-update p q f (j ∷ jobs) k h = ground (arith, k j, any-update p q f jobs k)

any-try_update :
    (p q : Job → Bool) (f : Job → Option Job) (jobs jobs' : List Job)
    → ((j : Job) → p j ≡ true → q j ≡ false)
    → try_update_where q f jobs ≡ some jobs'
    → any p jobs ≡ true
    → any p jobs' ≡ true
any-try_update p q f [] jobs' k e h = ground arith
any-try_update p q f (j ∷ jobs) jobs' k e h = elim (Option-cases (try_update_where q f jobs)) [
  | inl r ↦ ground (arith, k j)
  | inr (rest, r) ↦ ground (arith, k j, any-try_update p q f jobs rest k r)
]

any-select :
    (p q : Job → Bool) (jobs : List Job)
    → ((j : Job) → p j ≡ true → q j ≡ true)
    → any p jobs ≡ true
    → any p (select q jobs) ≡ true
any-select p q [] k h = h
any-select p q (j ∷ jobs) k h = ground (arith, k j, any-select p q jobs k)

any-append :
    (p : Job → Bool) (jobs more : List Job) → any p jobs ≡ true → any p (jobs ++ more) ≡ true
any-append p [] more h = ground arith
any-append p (j ∷ jobs) more h = ground (arith, any-append p jobs more)

pub Step-is_stuck :
    {id : ℕ} {jobs jobs' : List Job}
    → Step id jobs jobs'
    → any (is_stuck id) jobs ≡ true
    → any (is_stuck id) jobs' ≡ true
unfolding pick_rows start complete_rows fail_rows insert_job is_old_dead
Step-is_stuck {id = id} (picked now held worker limit jobs) h =
    any-update (is_stuck id) (λ j. has_id j.id (selected now held limit jobs)) (start now worker)
      jobs (λ j k. ground arith) h
Step-is_stuck {id = id} (completed now other jobs n) h =
    any-update (is_stuck id) (λ j. j.id == other)
      (λ j. record j { status = JobStatus.completed; updated_at = now }) jobs (λ j k. ground arith)
      h
Step-is_stuck {id = id} (failed now other error jobs jobs' n e) h =
    any-try_update (is_stuck id) (λ j. j.id == other) (fail_row now error) jobs jobs'
      (λ j k. ground arith) e h
Step-is_stuck {id = id} (created j jobs jobs' e) h =
    ground (arith, any-append (is_stuck id) jobs (j ∷ []) h)
Step-is_stuck {id = id} (cleaned now n jobs) h =
    any-select (is_stuck id) (λ j. not (is_old_dead now n j)) jobs (λ j k. ground arith) h

-- A job that is running stays running, and in the table, through all picks, clean-ups, new jobs, and
-- outcomes of other jobs.
pub Steps-is_stuck :
    {id : ℕ} {jobs jobs' : List Job}
    → Steps id jobs jobs'
    → any (is_stuck id) jobs ≡ true
    → any (is_stuck id) jobs' ≡ true
Steps-is_stuck (none_left jobs) h = h
Steps-is_stuck (then_steps a b c s rest) h = Steps-is_stuck rest (Step-is_stuck s h)
