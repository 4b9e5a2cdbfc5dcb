-- ===== src/Witnesses/Scheduled.antt =====
-- The theorems on scheduled runs and on the jobs that they and the feeds give rise to.
use ingest_pipeline.Prelude.{◌≡◌, refl, true, false, none, some, [], ◌∷◌, arith}
use ingest_pipeline.Prelude.Int.{pos}
use ingest_pipeline.Prelude.Text.{text}
use ingest_pipeline.Db.Runs.{check_run_completion}
use ingest_pipeline.Db.Runs.Completion.{HasOutcome, check_run_completion-HasOutcome}
use ingest_pipeline.Pipeline.Ingest.{IngestStepResult}
use ingest_pipeline.Queue.Jobs.{new_job}
use ingest_pipeline.Queue.Jobs.Creating.{HasCreated}
use ingest_pipeline.Samples.{env, world, feed}
use ingest_pipeline.Samples.Json.{json_env}
use ingest_pipeline.Schema.{RunStatus, Job}
use ingest_pipeline.Store.{ok}
use ingest_pipeline.Workers.Handlers.{after_ingest, content_payload, process_article}
use ingest_pipeline.Workers.Handlers.Created.{IsContentJob, after_ingest-HasCreated}
use ingest_pipeline.Workers.Loop.{run_scheduler}
use ingest_pipeline.Workers.Loop.Regular.{AreShort, run_scheduler-AreShort, run_scheduler-HasOneRun}
use ingest_pipeline.Workers.Scheduler.{launch_run, feed_payload}
use ingest_pipeline.Workers.Scheduler.Launch.{IsLaunched, launch_run-IsLaunched}
use ingest_pipeline.Workers.Scheduler.Single.{HasOneRun}

launch_run-IsLaunched_example : IsLaunched env world (launch_run env world)
launch_run-IsLaunched_example = launch_run-IsLaunched env world

abbrev report : IngestStepResult
report = record {
  feed_id = text "feed";
  new_article_ids = 7 ∷ 8 ∷ [];
  feed_name = text "Example";
  duplicate_count = 0;
  inserted_count = 2;
  total_items = 2;
  max_pub_date = none;
  error = none;
  retryable = false;
}

after_ingest-HasCreated_example :
    HasCreated
      (IsContentJob env.libs (some 1))
      (7 ∷ 8 ∷ [])
      world.jobs
      (after_ingest (text "feed") (some 1) report env world)
after_ingest-HasCreated_example = after_ingest-HasCreated env (some 1) (text "feed") report world

-- A job for the feed, and one for an article.
abbrev feed_job : Job
feed_job = new_job 5 30 (text "fetch_feed") (feed_payload json_env.libs 1 feed) feed.priority

abbrev article_job : Job
article_job = new_job 5 31 process_article (content_payload json_env.libs (some 1) 7) (pos 0)

run_scheduler-HasOneRun_example : HasOneRun (run_scheduler none 3 env world).1
run_scheduler-HasOneRun_example = run_scheduler-HasOneRun env none 3 world (omega arith)

run_scheduler-AreShort_example : AreShort 3 (run_scheduler none 3 env world).0
run_scheduler-AreShort_example = run_scheduler-AreShort env 3 world

check_run_completion-HasOutcome_example :
    ((check_run_completion 1 env world).0 ≡ ok true)
    × HasOutcome 1 (some RunStatus.completed) world.runs (check_run_completion 1 env world).1.runs
check_run_completion-HasOutcome_example = check_run_completion-HasOutcome 1 env (λ n. refl) world
