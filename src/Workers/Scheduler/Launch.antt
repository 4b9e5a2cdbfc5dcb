-- ===== src/Workers/Scheduler/Launch.antt =====
-- The jobs that a scheduled run creates (src/workers/scheduler.rs).
use ingest_pipeline.Prelude.{
  ℕ, ◌≡◌, ◌⊎◌, inl, inr, refl, ap, subst, ◌∙◌, Bool, true, ◌&&◌, Option, some, List, [], ◌∷◌, ◌++◌,
  arith, length, any, ◌==◌,
}
use ingest_pipeline.Prelude.Text.{text}
use ingest_pipeline.Db.Articles.{cleanup_old_duplicates}
use ingest_pipeline.Db.Feeds.{get_active_feeds, get_active_tier1_feeds}
use ingest_pipeline.Db.Runs.{new_run, start_run}
use ingest_pipeline.Db.Steps.{start_run_step}
use ingest_pipeline.Libs.{Libs}
use ingest_pipeline.Queue.Jobs.{create_job}
use ingest_pipeline.Queue.Jobs.Creating.{
  create_job-AddsOne, IsAsked, HasCreated, create_each, kept-HasCreated,
}
use ingest_pipeline.Schema.{Job, RunTriggerType, is_running_run, StepName, FeedSource, PipelineRun}
use ingest_pipeline.Store.{World, Env, Result, ok, err, HasJobs, ◌>>=◌, ◌>>◌, run_both, pure}
use ingest_pipeline.Workers.Scheduler.{launch_run, feed_payload, create_feed_jobs, choose_feeds}
use ingest_pipeline.Workers.Scheduler.Single.{
  start_run_step-HasRuns, create_feed_jobs-HasRuns, cleanup_old_duplicates-HasRuns,
}

-- The job for one feed of a run.
abbrev pub IsFeedJob : Libs → ℕ → FeedSource → Job → Type 0
IsFeedJob libs run_id feed =
    IsAsked (text "fetch_feed") (feed_payload libs run_id feed) feed.priority

-- The run of this id is in progress.
abbrev pub is_in_progress : ℕ → List PipelineRun → Bool
is_in_progress run_id = any (λ r. (r.id == run_id) && is_running_run r.status)

module _ (env : Env) where
  create_feed_jobs-HasCreated :
      (run_id : ℕ) (feeds : List FeedSource) (w : World)
      → HasCreated (IsFeedJob env.libs run_id) feeds w.jobs (create_feed_jobs run_id feeds env w)
  unfolding create_feed_jobs
  create_feed_jobs-HasCreated run_id =
      create_each (IsFeedJob env.libs run_id)
        (λ feed w.
          create_job (text "fetch_feed") (feed_payload env.libs run_id feed) feed.priority env w)
        (λ feeds w. create_feed_jobs run_id feeds env w)
        (λ feed w.
          create_job-AddsOne (text "fetch_feed") (feed_payload env.libs run_id feed) feed.priority
            env w)
        (λ w. refl) (λ feed feeds w. refl)

  -- A run is in progress, and the chosen feeds have got jobs of it: all of them, or the first after
  -- an error.
  abbrev pub HasFeedJobs : World → Result (Unit {0}) × World → Type 0
  HasFeedJobs w (r, v) =
      (run_id : ℕ) × (feeds : List FeedSource) × ((choose_feeds env w).0 ≡ ok feeds)
      × (is_in_progress run_id v.runs ≡ true)
      × HasCreated (IsFeedJob env.libs run_id) feeds w.jobs (r, v)

  -- What a launch leaves: the run in progress and a job for each of the chosen feeds, or, after an
  -- error, the run in progress and jobs for the first of the chosen feeds, or else no new job.
  abbrev pub IsLaunched : World → Result (Unit {0}) × World → Type 0
  IsLaunched w (ok done, v) = HasFeedJobs w (ok done, v)
  IsLaunched w (err e, v) = HasFeedJobs w (err e, v) ⊎ (v.jobs ≡ w.jobs)

  choose_feeds-HasJobs : (w : World) → HasJobs w.jobs (choose_feeds env w).1
  unfolding choose_feeds get_active_feeds get_active_tier1_feeds
  choose_feeds-HasJobs w = ground arith

  in_progress-append :
      (runs : List PipelineRun) (r : PipelineRun)
      → is_running_run r.status ≡ true
      → is_in_progress r.id (runs ++ r ∷ []) ≡ true
  in_progress-append [] r h = ground arith
  in_progress-append (x ∷ runs) r h = ground (arith, in_progress-append runs r h)

  -- A run that has been started.
  abbrev IsStarted : World → Result PipelineRun × World → Type 0
  IsStarted w (ok run, v) = (is_in_progress run.id v.runs ≡ true) × (v.jobs ≡ w.jobs)
  IsStarted w (err e, v) = v.jobs ≡ w.jobs

  start_run-IsStarted :
      (trigger_type : RunTriggerType) (feeds_count : Option ℕ) (w : World)
      → IsStarted w (start_run trigger_type feeds_count env w)
  unfolding start_run new_run
  start_run-IsStarted trigger_type feeds_count w =
      let run = new_run (env.now w.statements) (env.fresh w.draws) trigger_type feeds_count in
      ground (arith, in_progress-append w.runs run refl)

  start_run_step-HasJobs :
      (run_id : ℕ) (name : StepName) (items : Option ℕ) (w : World)
      → HasJobs w.jobs (start_run_step run_id name items env w).1
  unfolding start_run_step
  start_run_step-HasJobs run_id name items w = ground arith

  cleanup_old_duplicates-HasJobs :
      (n : ℕ) (w : World) → HasJobs w.jobs (cleanup_old_duplicates n env w).1
  unfolding cleanup_old_duplicates
  cleanup_old_duplicates-HasJobs n w = ground arith

  rest-IsLaunched :
      (run : PipelineRun) (feeds : List FeedSource) (w v : World)
      → (choose_feeds env w).0 ≡ ok feeds
      → is_in_progress run.id v.runs ≡ true
      → v.jobs ≡ w.jobs
      → IsLaunched w (
          (do
            step ← start_run_step run.id StepName.ingest (some (length feeds))
            create_feed_jobs run.id feeds
            cleaned ← cleanup_old_duplicates 7
            pure tt)
            env v)
  rest-IsLaunched run feeds w v chosen active same =
      let P = IsFeedJob env.libs run.id in
      let items = some (length feeds) in
      let active' = λ (u : World) (m : u.runs ≡ v.runs). ap (is_in_progress run.id) m ∙ active in
      run_both (λ r. (r.1.runs ≡ v.runs) × (r.1.jobs ≡ v.jobs)) (IsLaunched w)
        (start_run_step run.id StepName.ingest items env v) _
        (
          start_run_step-HasRuns v.runs env run.id StepName.ingest items v refl,
          start_run_step-HasJobs run.id StepName.ingest items v,
        )
        (λ e v1 k. inr (k.1 ∙ same))
        (λ step v1 k.
          run_both (λ r. (r.1.runs ≡ v.runs) × HasCreated P feeds w.jobs r) (IsLaunched w)
            (create_feed_jobs run.id feeds env v1) _
            (
              create_feed_jobs-HasRuns v.runs env run.id feeds v1 k.0,
              subst (λ js. HasCreated P feeds js (create_feed_jobs run.id feeds env v1))
                  (k.1 ∙ same) (create_feed_jobs-HasCreated run.id feeds v1),
            )
            (λ e v2 l. inl (run.id, feeds, chosen, active' v2 l.0, l.1))
            (λ done v2 l.
              run_both (λ r. (r.1.runs ≡ v.runs) × (r.1.jobs ≡ v2.jobs)) (IsLaunched w)
                (cleanup_old_duplicates 7 env v2) _
                (
                  cleanup_old_duplicates-HasRuns v.runs env 7 v2 l.0,
                  cleanup_old_duplicates-HasJobs 7 v2,
                )
                (λ e v3 m. inl (
                  run.id,
                  feeds,
                  chosen,
                  active' v3 m.0,
                  kept-HasCreated P feeds w.jobs v2 (err e, v3) m.1 l.1,
                ))
                (λ n v3 m. (
                  run.id,
                  feeds,
                  chosen,
                  active' v3 m.0,
                  kept-HasCreated P feeds w.jobs v2 (ok tt, v3) m.1 l.1,
                ))))

  -- A launch that succeeds leaves a run in progress and has added one pending job of type fetch_feed
  -- for each of the chosen feeds, in their order, with the feed and this run in the payload and the
  -- priority of the feed; one that fails has left a run in progress and added such jobs for the first
  -- of the chosen feeds, in their order, or it has added no job.
  pub launch_run-IsLaunched : (w : World) → IsLaunched w (launch_run env w)
  unfolding launch_run
  launch_run-IsLaunched w =
      run_both (λ r. ((choose_feeds env w).0 ≡ r.0) × (r.1.jobs ≡ w.jobs)) (IsLaunched w)
        (choose_feeds env w) _ (refl, choose_feeds-HasJobs w) (λ e v k. inr k.1)
        (λ feeds v k.
          run_both (IsStarted v) (IsLaunched w)
            (start_run RunTriggerType.scheduled (some (length feeds)) env v) _
            (start_run-IsStarted RunTriggerType.scheduled (some (length feeds)) v)
            (λ e v1 l. inr (l ∙ k.1))
            (λ run v1 l. rest-IsLaunched run feeds w v1 k.0 l.0 (l.1 ∙ k.1)))
