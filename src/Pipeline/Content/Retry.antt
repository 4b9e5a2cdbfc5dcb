-- ===== src/Pipeline/Content/Retry.antt =====
-- What a retry of the content step does (src/pipeline/content_step.rs).
use ingest_pipeline.Prelude.{ℕ, suc, ◌≡◌, false, Option, none, some, List, arith, refl, true}
use ingest_pipeline.Prelude.Text.{text}
use ingest_pipeline.Config.{Config}
use ingest_pipeline.Db.Articles.{update_processing_status, get_by_id}
use ingest_pipeline.Db.Comparable.{ComparableArticle}
use ingest_pipeline.Pipeline.Content.{
  extraction_error, ContentStepStatus, settled, is_open, with_article, validate,
  process_content_step,
}
use ingest_pipeline.Pipeline.Content.Stored.{find_article, find-set_article}
use ingest_pipeline.Schema.{RawArticle, ProcessingStatus}
use ingest_pipeline.Store.{Env, World, ok}

abbrev pub failed_article : RawArticle → ℕ → RawArticle
failed_article a now = record a {
  processing_status = ProcessingStatus.extraction_failed;
  updated_at = now;
}

pub find_article-validate :
    (article : RawArticle) (others : List ComparableArticle) (env : Env) (w : World)
    → find_article article.id w ≡ some article
    → env.fails w.statements ≡ false
    → find_article article.id (validate article others none env w).1
      ≡ some (failed_article article (env.now w.statements))
unfolding validate update_processing_status
find_article-validate article others env w h f = ground (
  arith,
  find-set_article article.id (λ a. failed_article a (env.now w.statements)) w.articles article refl
      h,
)

-- The step on an article that is no longer open: it is reported as extracted, without an error, and
-- nothing is fetched or changed.
process_content_step_skip :
    (id : ℕ) (article : RawArticle) (config : Option Config) (env : Env) (w : World)
    → find_article id w ≡ some article
    → is_open article.processing_status ≡ false
    → env.fails w.statements ≡ false
    → process_content_step id config env w ≡ (
      ok (settled id ContentStepStatus.extracted article.content_length none),
      record w { statements = suc w.statements },
    )
unfolding process_content_step get_by_id with_article
process_content_step_skip id article config env w h o f = ground arith

-- When every way to a text has failed, the step reports an error that may be retried, and marks the
-- article as failed. The retry then does not fetch anything: it finds the article no longer open,
-- reports it as extracted without an error, and changes nothing. (Both statements are taken to
-- succeed.)
pub retry_skips :
    (article : RawArticle) (others : List ComparableArticle) (config : Option Config) (env : Env)
    (w : World)
    → find_article article.id w ≡ some article
    → env.fails w.statements ≡ false
    → env.fails (suc w.statements) ≡ false
    → let (r, failed) = validate article others none env w in
      (r ≡ ok (extraction_error article.id (text "all_strategies_failed") true))
      × (process_content_step article.id config env failed ≡ (
        ok (settled article.id ContentStepStatus.extracted article.content_length none),
        record failed { statements = suc failed.statements },
      ))
unfolding validate update_processing_status
retry_skips article others config env w h f g = (
  ground arith,
  process_content_step_skip article.id (failed_article article (env.now w.statements)) config env
      (validate article others none env w).1 (find_article-validate article others env w h f)
      (unfold is_open in refl) (ground arith),
)
