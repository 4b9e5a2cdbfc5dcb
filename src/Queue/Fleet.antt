-- ===== src/Queue/Fleet.antt =====
-- Several workers at one table of jobs (src/queue/worker.rs and jobs.rs): each statement is one step,
-- and the steps of the workers come in any order. A worker holds a claim on a job from the pick that
-- gives it the job until it has sent the outcome.
pub mod Keys
pub mod Owned
use ingest_pipeline.Prelude.{
  ℕ, zero, suc, ◌+◌, ◌-◌, ◌*◌, ◌≤◌, ◌<◌, ◌≡◌, refl, sym, ap, subst, ◌∙◌, ◌⊎◌, inl, inr, Bool, true,
  false, not, ◌&&◌, ◌||◌, Option, none, some, List, [], ◌∷◌, ◌++◌, map, append_assoc, append-nil,
  arith, length, take, select, find, any, All, update_where, ltb, leb, ◌==◌, if◌then◌else◌,
  Bool-cases, Option-cases, unwrap_or, if-elim, All-implies, All-select,
}
use ingest_pipeline.Prelude.Text.{Text}
use ingest_pipeline.Queue.Jobs.{pick_rows, complete_rows, fail_rows, insert_job, is_old_dead}
use ingest_pipeline.Schema.{Job}

pub record Claim : Type 0 where
  pub holder : Text
  pub job_id : ℕ

pub record Fleet : Type 0 where
  pub jobs : List Job
  pub claims : List Claim

abbrev pub claim_of : Text → Job → Claim
claim_of worker j = record { holder = worker; job_id = j.id }

-- One statement of any worker, of a handler or of the clean-up. A claim also ends when the statement
-- for its outcome fails or its worker dies; the row then stays as it is.
pub data Move : Fleet → Fleet → Type 0 where
  picks :
      (now : ℕ) (held : ℕ → Bool) (worker : Text) (limit : ℕ) (f : Fleet)
      → Move f (record {
        jobs = (pick_rows now held worker limit f.jobs).1;
        claims = f.claims ++ map (claim_of worker) (pick_rows now held worker limit f.jobs).0;
      })
  completes :
      (now : ℕ) (jobs : List Job) (earlier : List Claim) (c : Claim) (later : List Claim)
      → Move
          (record { jobs = jobs; claims = earlier ++ c ∷ later })
          (record { jobs = complete_rows now c.job_id jobs; claims = earlier ++ later })
  fails :
      (now : ℕ) (error : Text) (jobs jobs' : List Job) (earlier : List Claim) (c : Claim)
      (later : List Claim)
      → fail_rows now c.job_id error jobs ≡ some jobs'
      → Move
          (record { jobs = jobs; claims = earlier ++ c ∷ later })
          (record { jobs = jobs'; claims = earlier ++ later })
  loses :
      (jobs : List Job) (earlier : List Claim) (c : Claim) (later : List Claim)
      → Move
          (record { jobs = jobs; claims = earlier ++ c ∷ later })
          (record { jobs = jobs; claims = earlier ++ later })
  creates :
      (j : Job) (jobs' : List Job) (f : Fleet)
      → insert_job j f.jobs ≡ some jobs'
      → Move f (record f { jobs = jobs' })
  cleans :
      (now n : ℕ) (f : Fleet)
      → Move f (record f { jobs = select (λ j. not (is_old_dead now n j)) f.jobs })

pub data Moves : Fleet → Fleet → Type 0 where
  stays : (f : Fleet) → Moves f f
  then_moves : (f g h : Fleet) → Move f g → Moves g h → Moves f h
