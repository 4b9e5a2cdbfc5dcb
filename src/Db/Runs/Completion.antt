-- ===== src/Db/Runs/Completion.antt =====
-- When a run is finished (`check_run_completion` of src/db/run_queries.rs).
use ingest_pipeline.Prelude.{
  is_some, ℕ, suc, ◌+◌, ◌≡◌, refl, Bool, false, not, Option, none, some, List, [], ◌∷◌, arith,
  length, select, any, All, update_where, ltb, ◌==◌, if◌then◌else◌,
}
use ingest_pipeline.Prelude.Text.{Text, text}
use ingest_pipeline.Db.Runs.{running_of, failed_of, fail_run, complete_run, check_run_completion}
use ingest_pipeline.Schema.{PipelineStepRun, PipelineRun, RunStatus}
use ingest_pipeline.Store.{Env, World, ok, effected, Result}

-- The state that the steps of a run give it: none while one of them is running, failed if one has
-- failed, and else completed.
abbrev pub outcome_of : ℕ → List PipelineStepRun → Option RunStatus
outcome_of run_id steps =
    if any (running_of run_id) steps
    then none
    else if any (failed_of run_id) steps
    then some RunStatus.failed
    else some RunStatus.completed

-- The rows of the run have this state, if there is one, and the other rows are the same.
abbrev pub HasOutcome : ℕ → Option RunStatus → List PipelineRun → List PipelineRun → Type 0
HasOutcome run_id none runs runs' = runs' ≡ runs
HasOutcome run_id (some status) runs runs' =
    All (λ r. r.status ≡ status) (select (λ r. r.id == run_id) runs')
    × (select (λ r. not (r.id == run_id)) runs' ≡ select (λ r. not (r.id == run_id)) runs)

counted : {A : Type 0} (p : A → Bool) (xs : List A) → ltb 0 (length (select p xs)) ≡ any p xs
counted p [] = refl
counted p (x ∷ xs) = ground (arith, counted p xs)

updated-HasOutcome :
    (run_id : ℕ) (status : RunStatus) (f : PipelineRun → PipelineRun) (runs : List PipelineRun)
    → ((r : PipelineRun) → ((f r).status ≡ status) × ((f r).id ≡ r.id))
    → HasOutcome run_id (some status) runs (update_where (λ r. r.id == run_id) f runs)
updated-HasOutcome run_id status f [] h = (tt, refl)
updated-HasOutcome run_id status f (r ∷ runs) h =
    let (same, others) = updated-HasOutcome run_id status f runs h in
    ground (arith, h r, same, others)

-- The answer and the state that a computation gives to a run.
abbrev Gives : ℕ → Option RunStatus → Bool → World → Result Bool × World → Type 0
Gives run_id status answer w (r, v) = (r ≡ ok answer) × HasOutcome run_id status w.runs v.runs

module _ (run_id : ℕ) (env : Env) (works : (n : ℕ) → env.fails n ≡ false) where
  abbrev Ends : RunStatus → List PipelineRun → Result (Unit {0}) × World → Type 0
  Ends status runs (r, v) = (r ≡ ok tt) × HasOutcome run_id (some status) runs v.runs

  fail_run-Ends :
      (error : Text) (w : World) → Ends RunStatus.failed w.runs (fail_run run_id error env w)
  unfolding fail_run
  fail_run-Ends error w =
      let now = env.now w.statements in
      let fail : PipelineRun → PipelineRun = λ r. record r {
        status = RunStatus.failed;
        error_message = some error;
        completed_at = some now;
        updated_at = now;
      } in
      effected (Ends RunStatus.failed w.runs) (env.fails w.statements) _ _ (works w.statements)
        (refl, updated-HasOutcome run_id RunStatus.failed fail w.runs (λ r. (refl, refl)))

  complete_run-Ends : (w : World) → Ends RunStatus.completed w.runs (complete_run run_id env w)
  unfolding complete_run
  complete_run-Ends w =
      let now = env.now w.statements in
      let complete : PipelineRun → PipelineRun =
        λ r. record r { status = RunStatus.completed; completed_at = some now; updated_at = now } in
      effected (Ends RunStatus.completed w.runs) (env.fails w.statements) _ _ (works w.statements)
        (refl, updated-HasOutcome run_id RunStatus.completed complete w.runs (λ r. (refl, refl)))

  -- The check answers whether the run is finished, and gives its row the state that its steps call
  -- for: nothing changes while a step is running, then the run has failed if one of them has, and is
  -- completed otherwise. The rows of other runs stay as they are. (No statement fails.)
  pub check_run_completion-HasOutcome :
      (w : World)
      → ((check_run_completion run_id env w).0 ≡ ok (is_some (outcome_of run_id w.steps)))
        × HasOutcome run_id
            (outcome_of run_id w.steps)
            w.runs
            (check_run_completion run_id env w).1.runs
  unfolding check_run_completion
  check_run_completion-HasOutcome w =
      let n = w.statements in
      let queried = record w { statements = 2 + n } in
      ground (
        arith,
        works n,
        works (suc n),
        counted (running_of run_id) w.steps,
        counted (failed_of run_id) w.steps,
        fail_run-Ends (text "One or more steps failed") queried,
        complete_run-Ends queried,
      )
