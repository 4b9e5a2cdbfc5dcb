-- ===== src/Witnesses.antt =====
-- The theorems at concrete inputs: one feed, two articles, three jobs, a run in progress, a network
-- whose pages all have the same text.
pub mod Articles
pub mod Jobs
pub mod Scheduled
pub mod Steps
use Prim.Native.Nat.{suc, min}
use ingest_pipeline.Prelude.{
  not, any, select, length, All, ℕ, ◌≡◌, true, false, none, some, List, [], ◌∷◌, arith, refl, ◌≤◌,
}
use ingest_pipeline.Prelude.Text.{Text, text, text_eq}
use ingest_pipeline.Db.Articles.{insert_batch, is_old_duplicate, cleanup_old_duplicates}
use ingest_pipeline.Db.Articles.Cleanup.{cleanup_old_duplicates-refused}
use ingest_pipeline.Db.Articles.Keys.{HasUniqueKeys, insert_batch-HasUniqueKeys}
use ingest_pipeline.Db.Runs.{is_zombie}
use ingest_pipeline.Dedup.Check.{check_duplicate, url_exact_match, duplicate_result}
use ingest_pipeline.Dedup.Check.Reasons.{
  check_duplicate-lem, check_duplicate-no_words, check_duplicate-same_title,
}
use ingest_pipeline.Dedup.Normalize.{normalize_url}
use ingest_pipeline.Dedup.Similarity.{jaccard_of, tokenize}
use ingest_pipeline.Dedup.Similarity.Bounds.{jaccard_of-bound}
use ingest_pipeline.Pipeline.Content.{
  ContentStepStatus, settled, extraction_error, process_content_step, validate,
}
use ingest_pipeline.Pipeline.Content.Accepted.{process_content_step-IsStored}
use ingest_pipeline.Pipeline.Content.Retry.{retry_skips}
use ingest_pipeline.Pipeline.Content.Stored.{IsStored}
use ingest_pipeline.Pipeline.Ingest.{process_ingest_step, store_items}
use ingest_pipeline.Pipeline.Ingest.Counts.{
  IsReport, IsFinished, process_ingest_step-IsReport, store_items-IsFinished,
}
use ingest_pipeline.Pipeline.Ingest.Keys.{process_ingest_step-HasUniqueKeys}
use ingest_pipeline.Queue.Jobs.{is_old_dead, pick_rows, fail_row, has_id, eligible}
use ingest_pipeline.Queue.Jobs.Abandoned.{
  is_stuck, picked, cleaned, none_left, then_steps, Steps-is_stuck,
}
use ingest_pipeline.Queue.Jobs.Failing.{
  HasFailed, IsCounted, fail_times, fail_row-HasFailed, fail_times-IsCounted,
}
use ingest_pipeline.Queue.Jobs.Picking.{IsStarted, pick_rows-IsStarted, pick_rows-disjoint}
use ingest_pipeline.Queue.Worker.{Worker, Wake, run_loop, new_worker}
use ingest_pipeline.Queue.Worker.Dispatch.{poll_times, run_loop-polls, run_loop-IsTotal}
use ingest_pipeline.Resolver.{is_shortener_domain, resolve_source_url, resolve_recursive}
use ingest_pipeline.Resolver.Bounds.{resolve_source_url-Sends, resolve_recursive-fuel}
use ingest_pipeline.Samples.{env, world, one_article, feed, article, job, existing, item}
use ingest_pipeline.Schema.{Job, JobStatus}
use ingest_pipeline.Store.{World, is_ok, ok, err}
use ingest_pipeline.Workers.Cron.{next_default, next_minutes}
use ingest_pipeline.Workers.Cron.Future.{
  IsNext, IsDefaultTime, IsMinuteTime, IsSoon, IsAfterHour, next_default-IsNext,
  next_minutes-IsNext, next_minutes-IsSoon, next_minutes_late,
}
use ingest_pipeline.Workers.Scheduler.{handle_scheduled_run}
use ingest_pipeline.Workers.Scheduler.Guard.{AreKept, handle_scheduled_run-guard}

process_content_step-IsStored_example : IsStored 7 (process_content_step 7 none env world)
process_content_step-IsStored_example = process_content_step-IsStored 7 none env world

pick_rows-disjoint_example :
    let (first, rows) = pick_rows 5 (env.held 0) (text "a") 2 world.jobs in
    let (second, _) = pick_rows 6 (env.held 1) (text "b") 2 rows in
    All (λ j. has_id j.id first ≡ false) second
pick_rows-disjoint_example =
    pick_rows-disjoint 5 6 (env.held 0) (env.held 1) (text "a") (text "b") 2 2 world.jobs

pick_rows-IsStarted_example :
    (length (pick_rows 5 (env.held 0) (text "a") 2 world.jobs).0
      ≡ min 2 (length (select (eligible 5 (env.held 0)) world.jobs)))
    × All (IsStarted 5 (text "a")) (pick_rows 5 (env.held 0) (text "a") 2 world.jobs).0
pick_rows-IsStarted_example = pick_rows-IsStarted 5 (env.held 0) (text "a") 2 world.jobs

abbrev failures : List (ℕ × Text)
failures = (10, text "timeout") ∷ (20, text "timeout") ∷ (30, text "timeout") ∷ []

fail_times-IsCounted_example : IsCounted 3 (job 1) (fail_times failures (job 1))
fail_times-IsCounted_example =
    fail_times-IsCounted failures (job 1) refl (omega arith) (omega arith) (omega arith)

fail_row-HasFailed_example :
    HasFailed 10 (text "timeout") (job 1) (fail_row 10 (text "timeout") (job 1))
fail_row-HasFailed_example =
    fail_row-HasFailed 10 (text "timeout") (job 1) (omega arith) (omega arith)

check_duplicate-lem_example :
    check_duplicate env.lowercase article.url none article.title (existing ∷ [])
    ≡ duplicate_result (text "8") url_exact_match
unfolding text_eq normalize_url
check_duplicate-lem_example =
    check_duplicate-lem env.lowercase article.url none article.title (existing ∷ [])

check_duplicate-no_words_example :
    ((check_duplicate env.lowercase
        (text "https://example.com")
        none
        []
        ((record existing { title = text "the" }) ∷ [])).is_duplicate
      ≡ true)
    × ((check_duplicate env.lowercase
          (text "https://example.com")
          none
          []
          ((record existing { title = text "the" }) ∷ [])).duplicate_of
        ≡ some (text "8"))
unfolding tokenize
check_duplicate-no_words_example =
    check_duplicate-no_words env.lowercase (text "https://example.com") none []
      (record existing { title = text "the" }) [] refl refl

process_ingest_step-IsReport_example : IsReport (process_ingest_step (text "feed") env world).0
process_ingest_step-IsReport_example = process_ingest_step-IsReport (text "feed") env world

store_items-IsFinished_example : IsFinished (store_items feed (text "feed") (item ∷ []) env world).0
store_items-IsFinished_example = store_items-IsFinished feed (text "feed") (item ∷ []) env world

handle_scheduled_run-guard_example : AreKept world (handle_scheduled_run env world).1
unfolding is_zombie
handle_scheduled_run-guard_example = handle_scheduled_run-guard env world refl

cleanup_old_duplicates-refused_example : cleanup_old_duplicates 7 env world ≡ (
  err (text "cleanup_old_duplicates: failed to clean raw_articles"),
  record world { statements = 1 },
)
unfolding is_old_duplicate
cleanup_old_duplicates-refused_example = cleanup_old_duplicates-refused 7 env world refl

resolve_recursive-fuel_example :
    resolve_recursive 3 (text "https://bit.ly/a") 1
    ≡ resolve_recursive 5 (text "https://bit.ly/a") 1
resolve_recursive-fuel_example =
    resolve_recursive-fuel 3 5 (text "https://bit.ly/a") 1 (omega arith) (omega arith)

abbrev worker : Worker
worker = new_worker (text "a") (λ job_type. none)

abbrev events : List Wake
events =
    Wake.timer ∷ Wake.notification false ∷ Wake.notification true ∷ Wake.ctrl_c ∷ Wake.timer ∷ []

run_loop-polls_example : run_loop worker true events env world ≡ poll_times worker 2 env world
run_loop-polls_example = run_loop-polls worker true events env world

next_default-IsNext_example : IsNext IsDefaultTime 1000000 (next_default 1000000)
next_default-IsNext_example = next_default-IsNext 1000000

next_minutes-IsNext_example : IsNext (IsMinuteTime 15) 1000000 (next_minutes 1000000 15)
next_minutes-IsNext_example = next_minutes-IsNext 1000000 15 refl

next_minutes_late_example : IsAfterHour 1000000 (next_minutes 1000000 45) × IsMinuteTime 45 1000800
next_minutes_late_example = next_minutes_late 1000000 45 (omega arith) (omega arith)

abbrev short_url : Text
short_url = text "https://bit.ly/a"

resolve_source_url-Sends_example :
    (is_ok (resolve_source_url short_url env world).0 ≡ true)
    × ((resolve_source_url short_url env world).1
        ≡ record world { requests = (resolve_source_url short_url env world).1.requests })
    × ((resolve_source_url short_url env world).1.requests ≤ 6)
    × (is_shortener_domain env.libs short_url ≡ false
        → resolve_source_url short_url env world ≡ (ok none, world))
resolve_source_url-Sends_example = resolve_source_url-Sends short_url env world

retry_skips_example :
    let (r, failed) = validate article [] none env world in
    (r ≡ ok (extraction_error 7 (text "all_strategies_failed") true))
    × (process_content_step 7 none env failed ≡ (
      ok (settled 7 ContentStepStatus.extracted none none),
      record failed { statements = suc failed.statements },
    ))
retry_skips_example = retry_skips article [] none env world refl refl refl

abbrev running_jobs : List Job
running_jobs = record (job 9) { status = JobStatus.running } ∷ world.jobs

Steps-is_stuck_example :
    any (is_stuck 9) (
      select
        (λ j. not (is_old_dead 50 30 j))
        (pick_rows 5 (env.held 0) (text "b") 10 running_jobs).1)
    ≡ true
Steps-is_stuck_example =
    Steps-is_stuck
      (then_steps running_jobs _ _ (picked 5 (env.held 0) (text "b") 10 running_jobs)
        (then_steps _ _ _ (cleaned 50 30 _) (none_left _)))
      refl
