-- ===== src/Workers/Scheduler/Single.antt =====
-- That at most one run is in progress (src/workers/scheduler.rs).
use ingest_pipeline.Prelude.{
  ℕ, suc, ◌≤◌, ◌≡◌, refl, false, Option, some, List, [], ◌∷◌, ◌++◌, arith, length, select,
  update_where, ltb, if◌then◌else◌, if-elim,
}
use ingest_pipeline.Prelude.Int.{ℤ}
use ingest_pipeline.Prelude.Text.{text, Text}
use ingest_pipeline.Db.Articles.{cleanup_old_duplicates}
use ingest_pipeline.Db.Feeds.{get_active_feeds, get_active_tier1_feeds}
use ingest_pipeline.Db.Runs.{
  is_zombie, new_run, clean_orphaned_articles_from_failed_runs, mark_zombie_runs_failed, start_run,
}
use ingest_pipeline.Db.Steps.{start_run_step}
use ingest_pipeline.Queue.Jobs.{create_job}
use ingest_pipeline.Schema.{
  RunStatus, RunTriggerType, is_running_run, StepName, FeedSource, PipelineRun,
}
use ingest_pipeline.Store.{
  decided, ok, err, Result, then_run, run_both, run_keeps, World, Env, M, pure, ◌>>=◌, ◌>>◌,
}
use ingest_pipeline.Workers.Scheduler.{
  launch_run, count_running, handle_scheduled_run, create_feed_jobs, choose_feeds,
}

-- The table of runs is this one.
abbrev pub HasRuns : List PipelineRun → World → Type 0
HasRuns runs w = w.runs ≡ runs

module _ (runs : List PipelineRun) (env : Env) where
  pub create_job-HasRuns :
      (job_type payload : Text) (priority : ℤ) (w : World)
      → HasRuns runs w
      → HasRuns runs (create_job job_type payload priority env w).1
  unfolding create_job
  create_job-HasRuns job_type payload priority w h = ground arith

  pub create_feed_jobs-HasRuns :
      (run_id : ℕ) (feeds : List FeedSource) (w : World)
      → HasRuns runs w
      → HasRuns runs (create_feed_jobs run_id feeds env w).1
  unfolding create_feed_jobs
  create_feed_jobs-HasRuns run_id [] w h = h
  create_feed_jobs-HasRuns run_id (feed ∷ feeds) w h =
      run_keeps (HasRuns runs) (create_job _ _ feed.priority env w) _
        (create_job-HasRuns _ _ feed.priority w h)
        (λ job w' h'. create_feed_jobs-HasRuns run_id feeds w' h')

  choose_feeds-HasRuns : (w : World) → HasRuns runs w → HasRuns runs (choose_feeds env w).1
  unfolding choose_feeds get_active_feeds get_active_tier1_feeds
  choose_feeds-HasRuns w h = ground arith

  pub start_run_step-HasRuns :
      (run_id : ℕ) (name : StepName) (items : Option ℕ) (w : World)
      → HasRuns runs w
      → HasRuns runs (start_run_step run_id name items env w).1
  unfolding start_run_step
  start_run_step-HasRuns run_id name items w h = ground arith

  pub cleanup_old_duplicates-HasRuns :
      (n : ℕ) (w : World) → HasRuns runs w → HasRuns runs (cleanup_old_duplicates n env w).1
  unfolding cleanup_old_duplicates
  cleanup_old_duplicates-HasRuns n w h = ground arith

abbrev pub count : List PipelineRun → ℕ
count runs = length (select (λ r. is_running_run r.status) runs)

count-append :
    (runs : List PipelineRun) (r : PipelineRun) → count (runs ++ r ∷ []) ≤ suc (count runs)
count-append [] r = ground arith
count-append (x ∷ runs) r = ground (arith, count-append runs r)

-- A new run is one more that is running, and an error adds none.
start_run-running :
    (n : ℕ) (trigger_type : RunTriggerType) (feeds_count : Option ℕ) (env : Env) (w : World)
    → count w.runs ≤ n
    → count (start_run trigger_type feeds_count env w).1.runs ≤ suc n
unfolding start_run new_run
start_run-running n trigger_type feeds_count env w h =
    let now = env.now w.statements in
    ground (arith, count-append w.runs (new_run now (env.fresh w.draws) trigger_type feeds_count))

-- The first three steps of a scheduled run.
marked-count :
    (now : ℕ) (f : PipelineRun → PipelineRun) (runs : List PipelineRun)
    → ((r : PipelineRun) → is_running_run (f r).status ≡ false)
    → count (update_where (is_zombie now 2) f runs) ≤ count runs
marked-count now f [] h = omega arith
marked-count now f (r ∷ runs) h = ground (arith, h r, marked-count now f runs h)

-- At most one run is in progress.
abbrev pub HasOneRun : World → Type 0
HasOneRun w = count w.runs ≤ 1

module _ (env : Env) where
  mark_zombie_runs_failed-HasOneRun :
      (w : World) → HasOneRun w → HasOneRun (mark_zombie_runs_failed 2 env w).1
  unfolding mark_zombie_runs_failed
  mark_zombie_runs_failed-HasOneRun w h =
      let now = env.now w.statements in
      let msg = text "Zombie run: no activity for " ++ (env.decimal 2 ++ text " hours") in
      let fail : PipelineRun → PipelineRun = λ r. record r {
        status = RunStatus.failed;
        error_message = some msg;
        completed_at = some now;
        updated_at = now;
      } in
      ground (arith, marked-count now fail w.runs (λ r. refl))

  clean-HasRuns : (w : World) → HasRuns w.runs (clean_orphaned_articles_from_failed_runs env w).1
  unfolding clean_orphaned_articles_from_failed_runs
  clean-HasRuns w = ground arith

  -- What follows the new run in `launch_run`.
  launched-HasRuns :
      (run : PipelineRun) (feeds : List FeedSource) (runs : List PipelineRun) (w : World)
      → HasRuns runs w
      → HasRuns runs
          ((do
            step ← start_run_step run.id StepName.ingest (some (length feeds))
            create_feed_jobs run.id feeds
            cleaned ← cleanup_old_duplicates 7
            pure tt)
            env w).1
  launched-HasRuns run feeds runs w h =
      let items = some (length feeds) in
      run_keeps (HasRuns runs) (start_run_step run.id StepName.ingest items env w) _
        (start_run_step-HasRuns runs env run.id StepName.ingest items w h)
        (λ step w' h'.
          run_keeps (HasRuns runs) (create_feed_jobs run.id feeds env w') _
            (create_feed_jobs-HasRuns runs env run.id feeds w' h')
            (λ done v k.
              run_keeps (HasRuns runs) (cleanup_old_duplicates 7 env v) _
                (cleanup_old_duplicates-HasRuns runs env 7 v k) (λ n v' l. l)))

  launch_run-HasOneRun : (w : World) → count w.runs ≡ 0 → HasOneRun (launch_run env w).1
  unfolding launch_run
  launch_run-HasOneRun w h =
      run_both (λ r. count r.1.runs ≤ 0) (λ r. HasOneRun r.1) (choose_feeds env w) _
        (rw (choose_feeds-HasRuns w.runs env w refl, h) (omega arith)) (λ e w' k. omega (arith, k))
        (λ feeds w' k.
          run_keeps HasOneRun (start_run RunTriggerType.scheduled (some (length feeds)) env w') _
            (start_run-running 0 RunTriggerType.scheduled (some (length feeds)) env w' k)
            (λ run v l. rw (launched-HasRuns run feeds v.runs v refl) l))

  -- The number that the guard reads is that of the runs in progress.
  count_running-IsCount :
      (w : World) (P : Result ℕ × World → Type 0)
      → ((e : Text) (w' : World) → HasRuns w.runs w' → P (err e, w'))
      → ((w' : World) → HasRuns w.runs w' → P (ok (count w.runs), w'))
      → P (count_running env w)
  unfolding count_running
  count_running-IsCount w P fails goes =
      decided P (env.fails w.statements) _ _ (fails _ _ refl) (goes _ refl)

  -- At most one run is in progress after a scheduled run, if this was so before it, whichever of
  -- its statements fail.
  pub handle_scheduled_run-HasOneRun :
      (w : World) → HasOneRun w → HasOneRun (handle_scheduled_run env w).1
  unfolding handle_scheduled_run
  handle_scheduled_run-HasOneRun w h =
      run_keeps HasOneRun (mark_zombie_runs_failed 2 env w) _
        (mark_zombie_runs_failed-HasOneRun w h)
        (λ zombies w' k.
          run_keeps HasOneRun (clean_orphaned_articles_from_failed_runs env w') _
            (rw (clean-HasRuns w') k)
            (λ orphans v l.
              count_running-IsCount v
                (λ r.
                  HasOneRun
                    (then_run r (λ n v'. (if ltb 0 n then pure tt else launch_run) env v')).1)
                (λ e v' same. rw same l)
                (λ v' same.
                  if-elim (λ (m : M (Unit {0})). HasOneRun (m env v').1) (ltb 0 (count v.runs))
                    (λ e. rw same l) (λ e. launch_run-HasOneRun v' (rw same (ground (arith, e)))))))
