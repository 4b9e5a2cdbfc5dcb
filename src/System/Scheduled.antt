-- ===== src/System/Scheduled.antt =====
-- The keys of the tables through a scheduled run (src/workers/scheduler.rs).
use ingest_pipeline.Prelude.{
  ℕ, ◌≡◌, refl, inl, inr, Bool, false, not, Option, some, List, [], ◌∷◌, arith, select, any, ltb,
  Option-cases, if-elim,
}
use ingest_pipeline.Db.Articles.{
  same_key, delete_articles, cleanup_old_duplicates, is_old_duplicate,
}
use ingest_pipeline.Db.Articles.Keys.{HasUniqueKeys}
use ingest_pipeline.Db.Feeds.{get_active_feeds, get_active_tier1_feeds}
use ingest_pipeline.Db.Runs.{
  is_orphan, clean_orphaned_articles_from_failed_runs, mark_zombie_runs_failed, start_run,
}
use ingest_pipeline.Db.Steps.{start_run_step}
use ingest_pipeline.Queue.Jobs.{create_job}
use ingest_pipeline.Schema.{RawArticle, RejectedArticle, FeedSource, StepName, RunTriggerType}
use ingest_pipeline.Store.{Env, World, run_keeps, branch_keeps, pure}
use ingest_pipeline.System.Statements.{HasTables, IsConsistent, create_job-HasTables}
use ingest_pipeline.Workers.Scheduler.{
  launch_run, count_running, handle_scheduled_run, create_feed_jobs, choose_feeds,
}
use ingest_pipeline.Workers.Scheduler.Single.{handle_scheduled_run-HasOneRun}

any-select :
    (p q : RawArticle → Bool) (rows : List RawArticle)
    → any p rows ≡ false
    → any p (select q rows) ≡ false
any-select p q [] h = refl
any-select p q (a ∷ rows) h = ground (arith, any-select p q rows)

select-HasUniqueKeys :
    (q : RawArticle → Bool) (rows : List RawArticle)
    → HasUniqueKeys rows
    → HasUniqueKeys (select q rows)
select-HasUniqueKeys q [] h = tt
select-HasUniqueKeys q (a ∷ rows) (h, hs) =
    let rest = select-HasUniqueKeys q rows hs in
    if-elim HasUniqueKeys (q a) (λ e. (any-select (same_key a.url a.source_id) q rows h, rest))
      (λ e. rest)

delete_articles-HasUniqueKeys :
    (gone : RawArticle → Bool) (rows : List RawArticle) (rejections : List RejectedArticle) (n : ℕ)
    (kept : List RawArticle)
    → delete_articles gone rows rejections ≡ some (n, kept)
    → HasUniqueKeys rows
    → HasUniqueKeys kept
unfolding delete_articles
delete_articles-HasUniqueKeys gone rows rejections n kept e h =
    ground (arith, select-HasUniqueKeys (λ a. not (gone a)) rows h)

module _ (env : Env) where
  mark_zombie_runs_failed-HasTables :
      (n : ℕ) (w : World) → HasTables w → HasTables (mark_zombie_runs_failed n env w).1
  unfolding mark_zombie_runs_failed
  mark_zombie_runs_failed-HasTables n w h = ground arith

  clean_orphans-HasTables :
      (w : World) → HasTables w → HasTables (clean_orphaned_articles_from_failed_runs env w).1
  unfolding clean_orphaned_articles_from_failed_runs
  clean_orphans-HasTables w h =
      let gone = is_orphan (env.now w.statements) w.runs w.articles in
      elim (Option-cases (delete_articles gone w.articles w.rejections)) [
        | inl p ↦ ground arith
        | inr ((n, kept), p) ↦
            ground (arith, delete_articles-HasUniqueKeys gone w.articles w.rejections n kept p)
      ]

  cleanup_old_duplicates-HasTables :
      (days : ℕ) (w : World) → HasTables w → HasTables (cleanup_old_duplicates days env w).1
  unfolding cleanup_old_duplicates
  cleanup_old_duplicates-HasTables days w h =
      let gone = is_old_duplicate (env.now w.statements) days in
      elim (Option-cases (delete_articles gone w.articles w.rejections)) [
        | inl p ↦ ground arith
        | inr ((n, kept), p) ↦
            ground (arith, delete_articles-HasUniqueKeys gone w.articles w.rejections n kept p)
      ]

  count_running-HasTables : (w : World) → HasTables w → HasTables (count_running env w).1
  unfolding count_running
  count_running-HasTables w h = ground arith

  choose_feeds-HasTables : (w : World) → HasTables w → HasTables (choose_feeds env w).1
  unfolding choose_feeds get_active_feeds get_active_tier1_feeds
  choose_feeds-HasTables w h = ground arith

  start_run-HasTables :
      (trigger : RunTriggerType) (feeds_count : Option ℕ) (w : World)
      → HasTables w
      → HasTables (start_run trigger feeds_count env w).1
  unfolding start_run
  start_run-HasTables trigger feeds_count w h = ground arith

  start_run_step-HasTables :
      (run_id : ℕ) (name : StepName) (items : Option ℕ) (w : World)
      → HasTables w
      → HasTables (start_run_step run_id name items env w).1
  unfolding start_run_step
  start_run_step-HasTables run_id name items w h = ground arith

  create_feed_jobs-HasTables :
      (run_id : ℕ) (feeds : List FeedSource) (w : World)
      → HasTables w
      → HasTables (create_feed_jobs run_id feeds env w).1
  unfolding create_feed_jobs
  create_feed_jobs-HasTables run_id [] w h = h
  create_feed_jobs-HasTables run_id (feed ∷ feeds) w h =
      run_keeps HasTables (create_job _ _ feed.priority env w) _
        (create_job-HasTables env _ _ feed.priority w h)
        (λ job w' h'. create_feed_jobs-HasTables run_id feeds w' h')

  launch_run-HasTables : (w : World) → HasTables w → HasTables (launch_run env w).1
  unfolding launch_run
  launch_run-HasTables w h =
      run_keeps HasTables (choose_feeds env w) _ (choose_feeds-HasTables w h) (λ feeds w1 h1.
        run_keeps HasTables (start_run _ _ env w1) _ (start_run-HasTables _ _ w1 h1) (λ run w2 h2.
          run_keeps HasTables (start_run_step run.id _ _ env w2) _
            (start_run_step-HasTables run.id _ _ w2 h2)
            (λ step w3 h3.
              run_keeps HasTables (create_feed_jobs run.id feeds env w3) _
                (create_feed_jobs-HasTables run.id feeds w3 h3)
                (λ done w4 h4.
                  run_keeps HasTables (cleanup_old_duplicates 7 env w4) _
                    (cleanup_old_duplicates-HasTables 7 w4 h4) (λ n w5 h5. h5)))))

  pub handle_scheduled_run-IsConsistent :
      (w : World) → IsConsistent w → IsConsistent (handle_scheduled_run env w).1
  unfolding handle_scheduled_run
  handle_scheduled_run-IsConsistent w (tables, one) = (
    run_keeps HasTables (mark_zombie_runs_failed 2 env w) _
        (mark_zombie_runs_failed-HasTables 2 w tables)
        (λ zombies w1 h1.
          run_keeps HasTables (clean_orphaned_articles_from_failed_runs env w1) _
            (clean_orphans-HasTables w1 h1)
            (λ orphans w2 h2.
              run_keeps HasTables (count_running env w2) _ (count_running-HasTables w2 h2)
                (λ active w3 h3.
                  branch_keeps HasTables (ltb 0 active) (pure tt) launch_run env w3 h3
                    (launch_run-HasTables w3 h3)))),
    handle_scheduled_run-HasOneRun env w one,
  )
