-- ===== src/Tests/Handlers.antt =====
-- The tests of src/workers/ingest_worker.rs and content_worker.rs, on empty tables of feeds and
-- articles. A test says whether the handler's result is the one it expects.
use ingest_pipeline.Prelude.{
  ◌≡◌, refl, Bool, true, false, ◌&&◌, Option, none, some, List, [], ◌∷◌, ◌++◌, any, if◌then◌else◌,
}
use ingest_pipeline.Prelude.Int.{pos}
use ingest_pipeline.Prelude.Text.{Text, text, text_eq, contains_text}
use ingest_pipeline.Config.{for_tests}
use ingest_pipeline.Db.Feeds.{get_by_id}
use ingest_pipeline.Pipeline.Content.{process_content_step, with_article}
use ingest_pipeline.Pipeline.Ingest.{process_ingest_step, with_feed, failed_step}
use ingest_pipeline.Samples.{world, feed}
use ingest_pipeline.Samples.Json.{json_env}
use ingest_pipeline.Store.{
  M, Result, is_ok, ok, err, pure, attempt, draw, checked_statement, ◌>>=◌, ◌>>◌,
}
use ingest_pipeline.Tests.{all_hold}
use ingest_pipeline.Workers.Handlers.{
  handle_ingest_job, handle_content_job, after_ingest, after_content,
}
use ingest_pipeline.Db.Articles

abbrev is_err : {A : Type 0} → Result A → Bool
is_err (ok a) = false
is_err (err e) = true

abbrev fails_with : {A : Type 0} → Text → Result A → Bool
fails_with part (ok a) = false
fails_with part (err e) = contains_text part e

-- A payload with the fields of `json!({…})`.
abbrev ingest_job_with : List (Text × Option Text) → M (Result (Unit {0}))
ingest_job_with fields env = attempt (handle_ingest_job (env.json_object fields)) env

abbrev content_job_with : List (Text × Option Text) → M (Result (Unit {0}))
content_job_with fields env =
    attempt (handle_content_job (some for_tests) (env.json_object fields)) env

abbrev pub test_handle_ingest_job_invalid_payload : M Bool
test_handle_ingest_job_invalid_payload = do
  result ← ingest_job_with []
  pure (is_err result && fails_with (text "Missing feed_id") result)

abbrev pub test_handle_ingest_job_missing_feed_id_field : M Bool
test_handle_ingest_job_missing_feed_id_field = do
  result ← ingest_job_with ((text "other_field", some (text "value")) ∷ [])
  pure (is_err result)

abbrev pub test_handle_ingest_job_feed_not_found : M Bool
test_handle_ingest_job_feed_not_found = do
  result ← ingest_job_with ((text "feed_id", some (text "nonexistent-feed")) ∷ [])
  pure (is_ok result)

-- INSERT INTO feed_sources (id, feed_url, name, enabled, tier) VALUES ($1, $2, $3, false, 'free')
abbrev insert_disabled : Text → Text → Text → M (Unit {0})
insert_disabled id feed_url name = checked_statement (text "error returned from database") (λ now w.
    if any (λ f. text_eq f.id id) w.feeds
    then none
    else some (
      tt,
      record w {
        feeds =
            w.feeds
            ++ record feed {
              id = id;
              feed_url = feed_url;
              name = name;
              enabled = false;
              tier = some (text "free");
              priority = pos 0;
              created_at = now;
              updated_at = now;
            }
              ∷ [];
      },
    ))

abbrev pub test_handle_ingest_job_disabled_feed : M Bool
test_handle_ingest_job_disabled_feed = do
  insert_disabled (text "disabled-feed") (text "https://example.com/feed/disabled-feed")
      (text "Disabled Feed")
  result ← ingest_job_with ((text "feed_id", some (text "disabled-feed")) ∷ [])
  pure (is_ok result)

abbrev pub test_handle_ingest_job_with_run_id : M Bool
test_handle_ingest_job_with_run_id env =
    (do
      run_id ← draw
      result ← ingest_job_with (
          (text "feed_id", some (text "some-feed"))
          ∷ (text "run_id", some (env.uuid_text run_id))
          ∷ [])
      pure (is_ok result))
      env

abbrev pub test_handle_content_job_article_not_found : M Bool
test_handle_content_job_article_not_found env =
    (do
      fake_id ← draw
      run_id ← draw
      result ← content_job_with (
          (text "article_id", some (env.uuid_text fake_id))
          ∷ (text "run_id", some (env.uuid_text run_id))
          ∷ [])
      pure (is_ok result))
      env

abbrev passes : M Bool → Bool
passes test = elim (test json_env (record world { feeds = []; articles = [] })).0 [
  | ok b ↦ b
  | err e ↦ false
]

handler_tests :
    all_hold (
      passes test_handle_ingest_job_invalid_payload
      ∷ passes test_handle_ingest_job_missing_feed_id_field
      ∷ passes test_handle_ingest_job_feed_not_found
      ∷ passes test_handle_ingest_job_disabled_feed
      ∷ passes test_handle_ingest_job_with_run_id
      ∷ passes test_handle_content_job_article_not_found
      ∷ [])
    ≡ true
unfolding handle_ingest_job handle_content_job process_ingest_step process_content_step
    contains_text text_eq with_feed get_by_id after_ingest failed_step with_article
    Articles.get_by_id after_content
handler_tests = refl
