-- ===== src/Workers/Scheduler/Guard.antt =====
-- The guard of the scheduled run against a run in progress (src/workers/scheduler.rs).
use ingest_pipeline.Prelude.{
  some, ◌++◌, suc, ap, update_where, select, ltb, ℕ, ◌≡◌, Bool, true, List, [], ◌∷◌, arith, refl,
  any, ◌&&◌, not, length,
}
use ingest_pipeline.Prelude.Text.{text}
use ingest_pipeline.Db.Runs.{
  is_zombie, mark_zombie_runs_failed, clean_orphaned_articles_from_failed_runs,
}
use ingest_pipeline.Schema.{PipelineRun, RunStatus, is_running_run}
use ingest_pipeline.Store.{run_both, Result, Env, World, err, ok}
use ingest_pipeline.Workers.Scheduler.{handle_scheduled_run, count_running}

-- A run that is running and had activity in the last two hours.
abbrev pub is_active : ℕ → PipelineRun → Bool
is_active now r = is_running_run r.status && not (is_zombie now 2 r)

marked-running :
    (now : ℕ) (f : PipelineRun → PipelineRun) (runs : List PipelineRun)
    → any (is_active now) runs ≡ true
    → ltb 0 (length (select (λ r. is_running_run r.status) (update_where (is_zombie now 2) f runs)))
      ≡ true
marked-running now f [] h = ground arith
marked-running now f (r ∷ runs) h = ground (arith, marked-running now f runs)

length-update_where :
    (p : PipelineRun → Bool) (f : PipelineRun → PipelineRun) (runs : List PipelineRun)
    → length (update_where p f runs) ≡ length runs
length-update_where p f [] = refl
length-update_where p f (r ∷ runs) = ap suc (length-update_where p f runs)

abbrev pub running : World → ℕ
running w = length (select (λ r. is_running_run r.status) w.runs)

-- As many runs, and the same steps and jobs.
abbrev pub AreKept : World → World → Type 0
AreKept w w' = (length w'.runs ≡ length w.runs) × (w'.steps ≡ w.steps) × (w'.jobs ≡ w.jobs)

-- After a step that succeeds, a run is still running.
abbrev IsGuarded : World → Result ℕ × World → Type 0
IsGuarded w (err e, w') = AreKept w w'
IsGuarded w (ok n, w') = AreKept w w' × (ltb 0 (running w') ≡ true)

mark-IsGuarded :
    (env : Env) (w : World)
    → any (is_active (env.now w.statements)) w.runs ≡ true
    → IsGuarded w (mark_zombie_runs_failed 2 env w)
unfolding mark_zombie_runs_failed
mark-IsGuarded env w h =
    let now = env.now w.statements in
    let msg = text "Zombie run: no activity for " ++ (env.decimal 2 ++ text " hours") in
    let fail : PipelineRun → PipelineRun = λ r. record r {
      status = RunStatus.failed;
      error_message = some msg;
      completed_at = some now;
      updated_at = now;
    } in
    ground
      (arith, marked-running now fail w.runs h, length-update_where (is_zombie now 2) fail w.runs)

clean-IsGuarded :
    (env : Env) (w w' : World)
    → IsGuarded w (ok 0, w')
    → IsGuarded w (clean_orphaned_articles_from_failed_runs env w')
unfolding clean_orphaned_articles_from_failed_runs
clean-IsGuarded env w w' h = ground arith

-- The number of running runs, as the guard reads it.
abbrev IsSeen : World → Result ℕ × World → Type 0
IsSeen w (err e, w') = AreKept w w'
IsSeen w (ok n, w') = AreKept w w' × (ltb 0 n ≡ true)

count-IsSeen : (env : Env) (w w' : World) → IsGuarded w (ok 0, w') → IsSeen w (count_running env w')
unfolding count_running
count-IsSeen env w w' h = ground arith

-- While another run is active, a scheduled run creates no run, no step and no job, and removes
-- nothing from these tables, whichever of its statements fail. (A run is active if it is running
-- and was updated in the last two hours.)
pub handle_scheduled_run-guard :
    (env : Env) (w : World)
    → any (is_active (env.now w.statements)) w.runs ≡ true
    → AreKept w (handle_scheduled_run env w).1
unfolding handle_scheduled_run
handle_scheduled_run-guard env w h =
    run_both (IsGuarded w) (λ r. AreKept w r.1) (mark_zombie_runs_failed 2 env w) _
      (mark-IsGuarded env w h) (λ e w' k. k)
      (λ zombies w' k.
        run_both (IsGuarded w) (λ r. AreKept w r.1)
          (clean_orphaned_articles_from_failed_runs env w') _ (clean-IsGuarded env w w' k)
          (λ e w'' l. l)
          (λ orphans w'' l.
            run_both (IsSeen w) (λ r. AreKept w r.1) (count_running env w'') _
              (count-IsSeen env w w'' l) (λ e v m. m) (λ n v m. rw (m.1) (m.0))))
