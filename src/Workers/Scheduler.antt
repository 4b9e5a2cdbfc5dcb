-- ===== src/Workers/Scheduler.antt =====
-- The scheduled run (`handle_scheduled_run` of src/workers/scheduler.rs).
pub mod Guard
pub mod Launch
pub mod Single
use ingest_pipeline.Prelude.{ℕ, some, List, [], ◌∷◌, ltb, if◌then◌else◌, select, length}
use ingest_pipeline.Prelude.Text.{Text, text}
use ingest_pipeline.Db.Articles.{cleanup_old_duplicates}
use ingest_pipeline.Db.Feeds.{get_active_feeds, get_active_tier1_feeds}
use ingest_pipeline.Db.Runs.{
  clean_orphaned_articles_from_failed_runs, mark_zombie_runs_failed, start_run,
}
use ingest_pipeline.Db.Steps.{start_run_step}
use ingest_pipeline.Libs.{Libs}
use ingest_pipeline.Queue.Jobs.{create_job}
use ingest_pipeline.Schema.{FeedSource, RunTriggerType, StepName, is_running_run}
use ingest_pipeline.Store.{M, statement, pure, ◌>>=◌, ◌>>◌}

unfoldable pub feed_payload : Libs → ℕ → FeedSource → Text
feed_payload libs run_id feed =
    libs.json_object
      ((text "feed_id", some feed.id) ∷ (text "run_id", some (libs.uuid_text run_id)) ∷ [])

unfoldable pub create_feed_jobs : ℕ → List FeedSource → M (Unit {0})
create_feed_jobs run_id [] env w = pure tt env w
create_feed_jobs run_id (feed ∷ feeds) env w =
    ◌>>=◌ (create_job (text "fetch_feed") (feed_payload env.libs run_id feed) feed.priority)
      (λ job. create_feed_jobs run_id feeds) env w

unfoldable pub choose_feeds : M (List FeedSource)
choose_feeds = do
  tier1 ← get_active_tier1_feeds
  elim tier1 [ [] ↦ get_active_feeds | feed ∷ feeds ↦ pure (feed ∷ feeds) ]

-- Steps 4 to 8.
unfoldable pub launch_run : M (Unit {0})
launch_run = do
  feeds ← choose_feeds
  run ← start_run RunTriggerType.scheduled (some (length feeds))
  step ← start_run_step run.id StepName.ingest (some (length feeds))
  create_feed_jobs run.id feeds
  cleaned ← cleanup_old_duplicates 7
  pure tt

-- The text of an error of this query is the driver's own, and is only logged.
unfoldable pub count_running : M ℕ
count_running =
    statement (text "error returned from database")
      (λ now w. (length (select (λ r. is_running_run r.status) w.runs), w))

unfoldable pub handle_scheduled_run : M (Unit {0})
handle_scheduled_run = do
  zombie_count ← mark_zombie_runs_failed 2
  orphan_count ← clean_orphaned_articles_from_failed_runs
  active_runs ← count_running
  (if ltb 0 active_runs then pure tt else launch_run)
