-- ===== src/Tests/Runs.antt =====
-- The tests of src/db/run_queries.rs and of the scheduled run (src/workers/scheduler.rs), on empty
-- tables of runs, steps and jobs; an `expect` that fails is the error of the test.
use ingest_pipeline.Prelude.{
  ℕ, ◌+◌, ◌-◌, ◌*◌, ◌≡◌, refl, Bool, true, false, not, Option, none, some, [], ◌∷◌, ◌++◌, length,
  select, find, any, update_where, ◌==◌, if◌then◌else◌, unwrap_or, is_some,
}
use ingest_pipeline.Prelude.Int.{pos}
use ingest_pipeline.Prelude.Sort.{sort}
use ingest_pipeline.Prelude.Text.{Text, text, text_eq, contains_text}
use ingest_pipeline.Db.Articles.{delete_articles, cleanup_old_duplicates}
use ingest_pipeline.Db.Feeds.{get_active_tier1_feeds}
use ingest_pipeline.Db.Runs.{
  clean_orphaned_articles_from_failed_runs, start_run, new_run, fail_run, mark_zombie_runs_failed,
  is_zombie, check_run_completion, running_of, failed_of,
}
use ingest_pipeline.Db.Steps.{
  start_run_step, record_run_step_progress, complete_run_step, fail_run_step,
}
use ingest_pipeline.Queue.Jobs.{create_job, insert_job, new_job}
use ingest_pipeline.Samples.{env, world, feed}
use ingest_pipeline.Schema.{
  Job, FeedSource, PipelineRun, PipelineStepRun, RunStatus, RunTriggerType, StepName, StepStatus,
  is_running_run, is_running_step,
}
use ingest_pipeline.Store.{
  M, Env, World, ok, err, pure, statement, checked_statement, seconds, ◌>>=◌, ◌>>◌,
}
use ingest_pipeline.Tests.{all_hold}
use ingest_pipeline.Workers.Scheduler.{
  handle_scheduled_run, count_running, launch_run, choose_feeds, create_feed_jobs,
}

-- SELECT * FROM pipeline_runs WHERE id = $1, with fetch_one.
abbrev fetch_run : ℕ → M PipelineRun
fetch_run id =
    checked_statement (text "no rows returned")
      (λ now w. elim (find (λ r. r.id == id) w.runs) [ none ↦ none | some r ↦ some (r, w) ])

abbrev fetch_step : ℕ → M PipelineStepRun
fetch_step id =
    checked_statement (text "no rows returned")
      (λ now w. elim (find (λ s. s.id == id) w.steps) [ none ↦ none | some s ↦ some (s, w) ])

abbrev has_count : ℕ → Option ℕ → Bool
has_count n none = false
has_count n (some m) = m == n

abbrev has_failed : RunStatus → Bool
has_failed RunStatus.failed = true
has_failed _ = false

abbrev is_scheduled : RunTriggerType → Bool
is_scheduled RunTriggerType.scheduled = true
is_scheduled _ = false

abbrev is_manual : RunTriggerType → Bool
is_manual RunTriggerType.manual = true
is_manual _ = false

abbrev pub test_start_run : M Bool
test_start_run = do
  run ← start_run RunTriggerType.scheduled (some 10)
  run2 ← start_run RunTriggerType.manual none
  pure (
      all_hold (
        is_running_run run.status
        ∷ is_scheduled run.trigger_type
        ∷ has_count 10 run.feeds_count
        ∷ not (is_some run.completed_at)
        ∷ not (is_some run.error_message)
        ∷ is_manual run2.trigger_type
        ∷ not (is_some run2.feeds_count)
        ∷ []))

abbrev pub test_fail_run : M Bool
test_fail_run = do
  run ← start_run RunTriggerType.scheduled none
  fail_run run.id (text "connection timeout")
  updated ← fetch_run run.id
  pure (
      all_hold (
        has_failed updated.status
        ∷ text_eq (unwrap_or [] updated.error_message) (text "connection timeout")
        ∷ is_some updated.completed_at
        ∷ []))

-- UPDATE pipeline_runs SET updated_at = now() - interval '48 hours' WHERE id = $1
abbrev backdate : ℕ → M (Unit {0})
backdate id = statement (text "error returned from database") (λ now w. (
  tt,
  record w {
    runs =
        update_where (λ r. r.id == id) (λ r. record r { updated_at = now - seconds (48 * 3600) })
          w.runs;
  },
))

abbrev pub test_mark_zombie_runs : M Bool
test_mark_zombie_runs = do
  run ← start_run RunTriggerType.scheduled none
  backdate run.id
  affected ← mark_zombie_runs_failed 24
  updated ← fetch_run run.id
  pure (
      all_hold (
        (affected == 1)
        ∷ has_failed updated.status
        ∷ contains_text (text "Zombie run") (unwrap_or [] updated.error_message)
        ∷ []))

abbrev is_ingest : StepName → Bool
is_ingest StepName.ingest = true
is_ingest _ = false

abbrev pub test_start_run_step : M Bool
test_start_run_step = do
  run ← start_run RunTriggerType.manual none
  step ← start_run_step run.id StepName.ingest (some 42)
  pure (
      all_hold (
        (step.run_id == run.id)
        ∷ is_ingest step.step_name
        ∷ is_running_step step.status
        ∷ (step.items_count == 42)
        ∷ (step.items_processed == 0)
        ∷ not (is_some step.completed_at)
        ∷ []))

abbrev is_completed : StepStatus → Bool
is_completed StepStatus.completed = true
is_completed _ = false

abbrev pub test_complete_run_step : M Bool
test_complete_run_step = do
  run ← start_run RunTriggerType.manual none
  step ← start_run_step run.id StepName.content (some 10)
  record_run_step_progress step.id 8 2
  complete_run_step step.id
  updated ← fetch_step step.id
  pure (
      all_hold (
        is_completed updated.status
        ∷ is_some updated.completed_at
        ∷ (updated.items_processed == 8)
        ∷ (updated.items_failed == 2)
        ∷ []))

abbrev pub test_check_run_completion : M Bool
test_check_run_completion = do
  run ← start_run RunTriggerType.manual none
  step1 ← start_run_step run.id StepName.ingest none
  step2 ← start_run_step run.id StepName.content none
  first ← check_run_completion run.id
  complete_run_step step1.id
  second ← check_run_completion run.id
  fail_run_step step2.id (text "boom")
  third ← check_run_completion run.id
  updated ← fetch_run run.id
  pure (
      all_hold (
        not first
        ∷ not second
        ∷ third
        ∷ has_failed updated.status
        ∷ is_some updated.error_message
        ∷ []))

-- INSERT INTO pipeline_runs (status, trigger_type) VALUES ('running', 'scheduled'), whose columns are
-- those of a new run.
abbrev pub test_handle_scheduled_run_guard_skips_when_run_active : M Bool
test_handle_scheduled_run_guard_skips_when_run_active = do
  run ← start_run RunTriggerType.scheduled none
  handle_scheduled_run
  count ← statement (text "error returned from database") (λ now w. (length w.runs, w))
  pure (count == 1)

-- INSERT INTO feed_sources … ON CONFLICT (id) DO NOTHING.
abbrev insert_feed : FeedSource → M (Unit {0})
insert_feed feed = statement (text "error returned from database") (λ now w. (
  tt,
  record w {
    feeds = if any (λ f. text_eq f.id feed.id) w.feeds then w.feeds else w.feeds ++ feed ∷ [];
  },
))

abbrev test_feed : Text → Text → Text → ℕ → FeedSource
test_feed id feed_url name priority = record feed {
  id = id;
  feed_url = feed_url;
  name = name;
  priority = pos priority;
}

abbrev is_fetch_feed : Job → Bool
is_fetch_feed j = text_eq j.job_type (text "fetch_feed")

abbrev pub test_handle_scheduled_run_creates_jobs : M Bool
test_handle_scheduled_run_creates_jobs = do
  insert_feed (test_feed (text "feed-1") (text "https://example.com/feed1") (text "Feed 1") 1)
  insert_feed (test_feed (text "feed-2") (text "https://example.com/feed2") (text "Feed 2") 2)
  handle_scheduled_run
  run_count ← statement (text "error returned from database") (λ now w. (length w.runs, w))
  job_count ←
      statement (text "error returned from database")
        (λ now w. (length (select is_fetch_feed w.jobs), w))
  step_count ← statement (text "error returned from database") (λ now w. (length w.steps, w))
  pure (all_hold ((run_count == 1) ∷ (job_count == 2) ∷ (step_count == 1) ∷ []))

-- Empty tables and a clock that moves on.
abbrev test_env : Env
test_env = record env { now = λ n. 4000000000000000 + n }

abbrev empty_tables : World
empty_tables = record world {
  feeds = [];
  articles = [];
  runs = [];
  steps = [];
  rejections = [];
  jobs = [];
}

abbrev passes : M Bool → Bool
passes test = elim (test test_env empty_tables).0 [ ok b ↦ b | err e ↦ false ]

run_tests : all_hold (passes test_start_run ∷ passes test_fail_run ∷ []) ≡ true
unfolding start_run new_run fail_run text_eq
run_tests = refl

zombie_test : passes test_mark_zombie_runs ≡ true
unfolding start_run new_run mark_zombie_runs_failed is_zombie contains_text
zombie_test = refl

step_tests : all_hold (passes test_start_run_step ∷ passes test_complete_run_step ∷ []) ≡ true
unfolding start_run new_run start_run_step record_run_step_progress complete_run_step
step_tests = refl

completion_test : passes test_check_run_completion ≡ true
unfolding start_run new_run start_run_step complete_run_step fail_run_step check_run_completion
    running_of failed_of fail_run
completion_test = refl

scheduled_tests :
    all_hold (
      passes test_handle_scheduled_run_guard_skips_when_run_active
      ∷ passes test_handle_scheduled_run_creates_jobs
      ∷ [])
    ≡ true
unfolding handle_scheduled_run start_run mark_zombie_runs_failed
    clean_orphaned_articles_from_failed_runs delete_articles count_running is_zombie new_run
    launch_run choose_feeds get_active_tier1_feeds start_run_step create_feed_jobs create_job
    insert_job new_job cleanup_old_duplicates text_eq sort
scheduled_tests = refl
