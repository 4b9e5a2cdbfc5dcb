-- ===== src/Db/Runs.antt =====
-- The statements on `pipeline_runs` and `pipeline_step_runs`, and those on orphaned articles
-- (src/db/run_queries.rs).
pub mod Completion
use ingest_pipeline.Prelude.{
  ℕ, ◌+◌, ◌*◌, Bool, true, false, not, ◌&&◌, Option, none, some, List, [], ◌∷◌, ◌++◌, map, ltb,
  ◌==◌, if◌then◌else◌, any, select, length, update_where,
}
use ingest_pipeline.Prelude.Text.{Text, text, text_eq}
use ingest_pipeline.Db.Articles.{delete_articles}
use ingest_pipeline.Schema.{
  PipelineRun, PipelineStepRun, RawArticle, RunStatus, RunTriggerType, is_ingested, is_running_run,
  is_running_step, is_failed_step,
}
use ingest_pipeline.Store.{M, statement, checked_statement, draw, pure, seconds, days, ◌>>=◌, ◌>>◌}

unfoldable pub new_run : ℕ → ℕ → RunTriggerType → Option ℕ → PipelineRun
new_run now id trigger_type feeds_count = record {
  id = id;
  status = RunStatus.running;
  trigger_type = trigger_type;
  started_at = now;
  completed_at = none;
  error_message = none;
  feeds_count = feeds_count;
  articles_ingested = 0;
  articles_qualified = 0;
  articles_rejected = 0;
  articles_duplicate = 0;
  created_at = now;
  updated_at = now;
}

unfoldable pub start_run : RunTriggerType → Option ℕ → M PipelineRun
start_run trigger_type feeds_count = do
  id ← draw
  checked_statement (text "start_run: failed to insert pipeline_run") (λ now w.
      let run = new_run now id trigger_type feeds_count in
      if any (λ r. r.id == id) w.runs
      then none
      else some (run, record w { runs = w.runs ++ run ∷ [] }))

unfoldable pub fail_run : ℕ → Text → M (Unit {0})
fail_run run_id error = statement (text "fail_run: failed to update pipeline_run") (λ now w. (
  tt,
  record w {
    runs =
        update_where (λ r. r.id == run_id)
          (λ r. record r {
            status = RunStatus.failed;
            error_message = some error;
            completed_at = some now;
            updated_at = now;
          })
          w.runs;
  },
))

unfoldable pub complete_run : ℕ → M (Unit {0})
complete_run run_id = statement (text "complete_run: failed to update pipeline_run") (λ now w. (
  tt,
  record w {
    runs =
        update_where (λ r. r.id == run_id)
          (λ r. record r {
            status = RunStatus.completed;
            completed_at = some now;
            updated_at = now;
          })
          w.runs;
  },
))

unfoldable pub is_zombie : ℕ → ℕ → PipelineRun → Bool
is_zombie now hours r = is_running_run r.status && ltb (r.updated_at + seconds (hours * 3600)) now

unfoldable pub mark_zombie_runs_failed : ℕ → M ℕ
mark_zombie_runs_failed hours env =
    let msg = text "Zombie run: no activity for " ++ (env.decimal hours ++ text " hours") in
    statement (text "mark_zombie_runs_failed: failed to update pipeline_runs")
      (λ now w. (
        length (select (is_zombie now hours) w.runs),
        record w {
          runs =
              update_where (is_zombie now hours)
                (λ r. record r {
                  status = RunStatus.failed;
                  error_message = some msg;
                  completed_at = some now;
                  updated_at = now;
                })
                w.runs;
        },
      ))
      env

unfoldable pub running_of : ℕ → PipelineStepRun → Bool
running_of run_id s = s.run_id == run_id && is_running_step s.status

unfoldable pub failed_of : ℕ → PipelineStepRun → Bool
failed_of run_id s = s.run_id == run_id && is_failed_step s.status

unfoldable pub check_run_completion : ℕ → M Bool
check_run_completion run_id = do
  running_count ←
      statement (text "check_run_completion: failed to count running steps")
        (λ now w. (length (select (running_of run_id) w.steps), w))
  let failed_branch : M Bool = do
    failed_count ←
        statement (text "check_run_completion: failed to count failed steps")
          (λ now w. (length (select (failed_of run_id) w.steps), w))
    (if ltb 0 failed_count
        then fail_run run_id (text "One or more steps failed")
        else complete_run run_id)
    pure true
  if ltb 0 running_count then pure false else failed_branch

unfoldable pub reclaim_orphaned_articles : M (List Text)
reclaim_orphaned_articles env =
    statement (text "reclaim_orphaned_articles: failed to query raw_articles")
      (λ now w. (
        map (λ a. env.uuid_text a.id)
            (select (λ a. is_ingested a.processing_status && ltb now (a.created_at + days 1))
              w.articles),
        w,
      ))
      env

-- source_id IN (the sources of the articles older than the start of a running run).
unfoldable pub in_running_run : List PipelineRun → List RawArticle → Text → Bool
in_running_run runs articles source_id =
    any
      (λ a.
        text_eq a.source_id source_id
        && any (λ r. is_running_run r.status && ltb a.created_at r.started_at) runs)
      articles

unfoldable pub is_orphan : ℕ → List PipelineRun → List RawArticle → RawArticle → Bool
is_orphan now runs articles a =
    is_ingested a.processing_status
    && ltb (a.created_at + days 7) now
    && not (in_running_run runs articles a.source_id)

unfoldable pub clean_orphaned_articles_from_failed_runs : M ℕ
clean_orphaned_articles_from_failed_runs =
    checked_statement
      (text "clean_orphaned_articles_from_failed_runs: failed to delete raw_articles")
      (λ now w. elim (delete_articles (is_orphan now w.runs w.articles) w.articles w.rejections) [
        | none ↦ none
        | some (count, kept) ↦ some (count, record w { articles = kept })
      ])
