-- ===== src/Queue/Jobs/Order.antt =====
-- Which of the eligible jobs `pick_jobs` takes (src/queue/jobs.rs).
use ingest_pipeline.Prelude.{
  not, ◌&&◌, All-implies, ℕ, ◌≡◌, Bool, true, List, [], ◌∷◌, arith, All, select,
}
use ingest_pipeline.Queue.Jobs.{eligible, selected, has_id}
use ingest_pipeline.Schema.{Job}

-- An entry of a list has its id in the list.
pub All-has_id : (jobs : List Job) → All (λ j. has_id j.id jobs ≡ true) jobs
All-has_id [] = tt
All-has_id (j ∷ jobs) = (
  ground arith,
  All-implies (λ k. has_id k.id jobs ≡ true) (λ k. has_id k.id (j ∷ jobs) ≡ true)
      (λ k h. ground arith) jobs (All-has_id jobs),
)

-- The eligible jobs that a pick leaves.
abbrev pub passed_over : ℕ → (ℕ → Bool) → ℕ → List Job → List Job
passed_over now held limit jobs =
    select (λ j. eligible now held j && not (has_id j.id (selected now held limit jobs))) jobs
