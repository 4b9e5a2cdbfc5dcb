-- ===== src/Pipeline/Content/Short.antt =====
-- What becomes of an article whose pages give too short a text (src/pipeline/content_step.rs).
use ingest_pipeline.Prelude.{
  ℕ, suc, ◌+◌, ◌≡◌, refl, true, false, Option, none, some, List, [], ◌∷◌, map, arith,
}
use ingest_pipeline.Prelude.Text.{Text, text}
use ingest_pipeline.Config.{Config}
use ingest_pipeline.Db.Articles.{update_processing_status}
use ingest_pipeline.Db.Comparable.{ComparableArticle, comparable_of}
use ingest_pipeline.Pipeline.Content.{
  process_content_step, extraction_error, is_open, validate, after_first_check, first_check,
}
use ingest_pipeline.Pipeline.Content.Complete.{is_duplicate_among}
use ingest_pipeline.Pipeline.Content.Mutual.{comparable_rows, process_content_step-first_check}
use ingest_pipeline.Pipeline.Content.Retry.{failed_article, find_article-validate}
use ingest_pipeline.Pipeline.Content.Stored.{find_article}
use ingest_pipeline.Pipeline.Fetch.{
  strategies, extract_article, or_hetzner, try_hetzner, extraction_of, is_long_enough,
}
use ingest_pipeline.Pipeline.Fetch.Order.{
  AreTooShort, IsTooShort, first_text, try_strategies-first_text,
}
use ingest_pipeline.Rss.Fields.{and_then}
use ingest_pipeline.Schema.{RawArticle}
use ingest_pipeline.Store.{Env, World, Result, ok, err}

module _ (env : Env) (url : Text) where
  too_short-extraction_of :
      (answer : Result Text) → IsTooShort env url answer → extraction_of env.libs url answer ≡ none
  unfolding extraction_of is_long_enough
  too_short-extraction_of (err e) h = refl
  too_short-extraction_of (ok html) h = ground arith

  first_text-none :
      (n : ℕ) (names : List Text)
      → AreTooShort env url n names
      → (first_text env url n names).0 ≡ none
  first_text-none n [] h = refl
  first_text-none n (strategy ∷ names) (h, hs) =
      rw (first_text, too_short-extraction_of _ h) (first_text-none (suc n) names hs)

  -- With no extraction service there is no text.
  extract_article-none :
      (config : Option Config) (w : World)
      → AreTooShort env url w.requests strategies
      → and_then config (λ c. c.hetzner_extract_url) ≡ none
      → extract_article url config env w
        ≡ (ok none, record w { requests = (first_text env url w.requests strategies).1 })
  unfolding extract_article or_hetzner try_hetzner
  extract_article-none none w short h =
      rw
        (
          try_strategies-first_text env url strategies w,
          first_text-none w.requests strategies short,
        )
        refl
  extract_article-none (some config) w short h =
      rw
        (
          try_strategies-first_text env url strategies w,
          first_text-none w.requests strategies short,
        )
        (ground arith)

validate-rejections :
    (a : RawArticle) (others : List ComparableArticle) (env : Env) (w : World)
    → let (outcome, v) = validate a others none env w in
      (outcome ≡ ok (extraction_error a.id (text "all_strategies_failed") true))
      × (v.rejections ≡ w.rejections)
unfolding validate update_processing_status
validate-rejections a others env w = ground arith

module _ (env : Env) (works : (n : ℕ) → env.fails n ≡ false) where
  -- An open article that is no duplicate, and whose pages all give a text of less than 300 bytes or
  -- less than 350 words, is not rejected: the step reports a failed extraction that may be retried, the
  -- table marks the article as one, and no row is added to the rejected articles. (No statement fails,
  -- and no extraction service is configured.)
  pub process_content_step-too_short :
      (a : RawArticle) (config : Option Config) (w : World)
      → find_article a.id w ≡ some a
      → is_open a.processing_status ≡ true
      → is_duplicate_among env works a none a.title (comparable_rows env works a.id w) ≡ false
      → AreTooShort env a.url w.requests strategies
      → and_then config (λ c. c.hetzner_extract_url) ≡ none
      → let (outcome, v) = process_content_step a.id config env w in
        (outcome ≡ ok (extraction_error a.id (text "all_strategies_failed") true))
        × (find_article a.id v ≡ some (failed_article a (env.now (2 + w.statements))))
        × (v.rejections ≡ w.rejections)
  unfolding first_check after_first_check
  process_content_step-too_short a config w found opened first short alone =
      let others = map comparable_of (comparable_rows env works a.id w) in
      let sent = record w { statements = 2 + w.statements } in
      let fetched = record sent { requests = (first_text env a.url w.requests strategies).1 } in
      let (outcome, same) = validate-rejections a others env fetched in
      let marked = find_article-validate a others env fetched found (works fetched.statements) in
      rw
        (
          process_content_step-first_check env works a config w found opened,
          first,
          extract_article-none env a.url config sent short alone,
        )
        (outcome, marked, same)
