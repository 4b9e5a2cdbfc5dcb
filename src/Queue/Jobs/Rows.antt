-- ===== src/Queue/Jobs/Rows.antt =====
-- What the settling of jobs does to their rows (src/queue/jobs.rs).
use ingest_pipeline.Prelude.{
  join, ℕ, suc, Bool, ltb, leb, ◌≡◌, ◌≤◌, ◌+◌, true, false, Option, none, some, List, [], ◌∷◌,
  arith, All, if◌then◌else◌, ◌==◌,
}
use ingest_pipeline.Prelude.Text.{Text}
use ingest_pipeline.Queue.Jobs.{has_id, i32_max, complete_rows, fail_row, fail_rows}
use ingest_pipeline.Queue.Jobs.Failing.{power_bound}
use ingest_pipeline.Schema.{Job, JobStatus}

-- What a job is once it has been worked on: completed, to be tried again while it has attempts left,
-- or dead when they are used up.
abbrev pub is_settled : Job → Bool
is_settled j = elim j.status [
  | JobStatus.completed ↦ true
  | JobStatus.pending ↦ ltb j.attempts j.max_attempts
  | JobStatus.dead ↦ leb j.max_attempts j.attempts
  | JobStatus.running ↦ false
  | JobStatus.failed ↦ false
]

-- A row after the jobs `done` have been worked on and while n more are to be: it is settled if it is
-- one of them, and its counters are such that no failure overflows.
abbrev pub IsKept : List Job → ℕ → Job → Type 0
IsKept done n j =
    (has_id j.id done ≡ true → is_settled j ≡ true)
    × (j.max_attempts ≤ 31)
    × (j.attempts + n ≤ i32_max)

module _ (done : List Job) (n : ℕ) (x : Job) where
  completed-IsKept :
      (now : ℕ) (j : Job)
      → IsKept done (suc n) j
      → IsKept
          (x ∷ done)
          n
          (if j.id == x.id then record j { status = JobStatus.completed; updated_at = now } else j)
  completed-IsKept now j h = ground arith

  pub complete_rows-IsKept :
      (now : ℕ) (jobs : List Job)
      → All (IsKept done (suc n)) jobs
      → All (IsKept (x ∷ done) n) (complete_rows now x.id jobs)
  unfolding complete_rows
  complete_rows-IsKept now [] h = tt
  complete_rows-IsKept now (j ∷ jobs) (h, hs) =
      (completed-IsKept now j h, complete_rows-IsKept now jobs hs)

  abbrev IsKeptRow : Option Job → Type 0
  IsKeptRow none = ⊥
  IsKeptRow (some j) = IsKept (x ∷ done) n j

  abbrev pub AreKept : Option (List Job) → Type 0
  AreKept none = ⊥
  AreKept (some jobs) = All (IsKept (x ∷ done) n) jobs

  failed-IsKept :
      (now : ℕ) (error : Text) (j : Job)
      → IsKept done (suc n) j
      → IsKeptRow (if j.id == x.id then fail_row now error j else some j)
  unfolding fail_row
  failed-IsKept now error j h = ground (arith, power_bound j.attempts)

  join-AreKept :
      (j : Option Job) (jobs : Option (List Job))
      → IsKeptRow j
      → AreKept jobs
      → AreKept (join j jobs)
  join-AreKept none jobs h hs = h
  join-AreKept (some j) none h hs = hs
  join-AreKept (some j) (some jobs) h hs = (h, hs)

  pub fail_rows-AreKept :
      (now : ℕ) (error : Text) (jobs : List Job)
      → All (IsKept done (suc n)) jobs
      → AreKept (fail_rows now x.id error jobs)
  unfolding fail_rows
  fail_rows-AreKept now error [] h = tt
  fail_rows-AreKept now error (j ∷ jobs) (h, hs) =
      join-AreKept _ _ (failed-IsKept now error j h) (fail_rows-AreKept now error jobs hs)
