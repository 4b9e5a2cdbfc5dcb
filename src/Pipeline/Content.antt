-- ===== src/Pipeline/Content.antt =====
-- The content step (src/pipeline/content_step.rs): an article is loaded, compared with the others by
-- URL and title, fetched by one strategy after another, compared again under its clean title, and
-- stored.
pub mod Outcomes
pub mod Stored
pub mod Complete
pub mod Mutual
pub mod Retry
pub mod Short
pub mod Untouched
pub mod Accepted
use ingest_pipeline.Prelude.{
  ℕ, Bool, true, false, ◌&&◌, ◌||◌, Option, none, some, List, [], ◌∷◌, ◌++◌, map, ltb, leb,
  if◌then◌else◌, unwrap_or, or_else,
}
use ingest_pipeline.Prelude.Text.{Text, text, text_eq, byte_len}
use ingest_pipeline.Config.{Config}
use ingest_pipeline.Db.Articles.{
  get_by_id, update_processing_status, update_quality_status, update_duplicate_and_processing,
  update_extraction, enrich_from_duplicate,
}
use ingest_pipeline.Db.Comparable.{
  ComparableArticle, get_comparable_articles, find_similar_articles,
}
use ingest_pipeline.Db.Rejected.{insert_from_article}
use ingest_pipeline.Dedup.Check.{Existing, DedupResult, check_duplicate}
use ingest_pipeline.Extract.Html.{ExtractionResult, extract_text, clean_with_trafilatura}
use ingest_pipeline.Extract.Title.{count_words, min_article_word_count}
use ingest_pipeline.Libs.{Libs, json_str}
use ingest_pipeline.Pipeline.Fetch.{min_text_length, extract_article}
use ingest_pipeline.Resolver.{is_success}
use ingest_pipeline.Rss.Fields.{and_then}
use ingest_pipeline.Schema.{
  RawArticle, ProcessingStatus, QualityStatus, DuplicateStatus, is_ingested, is_extracted,
}
use ingest_pipeline.Store.{
  M, Result, ok, err, Method, Request, Response, pure, attempt, ignore, request, ◌>>=◌, ◌>>◌,
}

pub data ContentStepStatus : Type 0 where
  extracted extraction_failed rejected_duplicate pending_qualification rejected : ContentStepStatus

pub record ContentStepResult : Type 0 where
  pub article_id : ℕ
  pub status : ContentStepStatus
  pub content_length : Option ℕ
  pub duplicate_reason : Option Text
  pub error : Option Text
  pub retryable : Bool

abbrev pub extraction_error : ℕ → Text → Bool → ContentStepResult
extraction_error article_id error retryable = record {
  article_id = article_id;
  status = ContentStepStatus.extraction_failed;
  content_length = none;
  duplicate_reason = none;
  error = some error;
  retryable = retryable;
}

abbrev pub settled : ℕ → ContentStepStatus → Option ℕ → Option Text → ContentStepResult
settled article_id status content_length duplicate_reason = record {
  article_id = article_id;
  status = status;
  content_length = content_length;
  duplicate_reason = duplicate_reason;
  error = none;
  retryable = false;
}

-- format!("text_len={}, word_count={}"), with the decimal digits as the library prints them.
abbrev length_details : Libs → Text → Text
length_details libs s =
    text "text_len="
    ++ (libs.decimal (byte_len s) ++ (text ", word_count=" ++ libs.decimal (count_words s)))

unfoldable pub existing_of : Libs → ComparableArticle → Existing
existing_of libs c = record {
  id = libs.uuid_text c.id;
  url = c.url;
  canonical_url = c.canonical_url;
  title = c.title;
}

-- `enrich_from_duplicate` and `insert_from_article`, whose results are not looked at; nothing is
-- written if the id of the other article does not parse.
unfoldable pub record_duplicate : RawArticle → Option ℕ → Text → M (Unit {0})
record_duplicate article none details = pure tt
record_duplicate article (some dup_id) details = do
  ignore (enrich_from_duplicate article.id dup_id)
  ignore (
      insert_from_article article.id article.source_id article.title article.url (text "duplicate")
        (some details))

unfoldable pub reject_duplicate : RawArticle → DedupResult → Text → Option ℕ → M ContentStepResult
reject_duplicate article dup prefix content_length env =
    (do
      record_duplicate article (and_then dup.duplicate_of env.parse_uuid) (prefix ++ dup.reason)
      pure (
          settled article.id ContentStepStatus.rejected_duplicate content_length (some dup.reason)))
      env

-- Phase 7.
unfoldable pub save : RawArticle → Text → Text → Option Text → M (Result (Unit {0}))
save article body title_clean canonical_url = attempt (do
  update_extraction article.id (some body) (some (byte_len body)) (some title_clean) canonical_url
  update_quality_status article.id QualityStatus.qualified
  update_duplicate_and_processing article.id DuplicateStatus.distinct
      ProcessingStatus.pending_qualification)

abbrev pub saved : ℕ → ℕ → Result (Unit {0}) → ContentStepResult
saved article_id content_length (ok done) =
    settled article_id ContentStepStatus.pending_qualification (some content_length) none
saved article_id content_length (err e) = extraction_error article_id (text "DB error: " ++ e) true

unfoldable pub qualify : RawArticle → Text → Text → Option Text → M ContentStepResult
qualify article body title_clean canonical_url = do
  outcome ← save article body title_clean canonical_url
  pure (saved article.id (byte_len body) outcome)

-- Phase 6: the articles with a similar clean title, or all comparable ones if that query fails.
abbrev or_comparable :
    List ComparableArticle → Result (List ComparableArticle) → List ComparableArticle
or_comparable comparable (ok similar) = similar
or_comparable comparable (err e) = comparable

unfoldable pub after_final_check :
    RawArticle → Text → Text → Option Text → DedupResult → M ContentStepResult
after_final_check article body title_clean canonical_url dup =
    if dup.is_duplicate
    then reject_duplicate article dup (text "title_dup: ") (some (byte_len body))
    else qualify article body title_clean canonical_url

unfoldable pub final_check :
    RawArticle → List ComparableArticle → Text → Text → Option Text → M ContentStepResult
final_check article comparable body title_clean canonical_url env =
    (do
      similar ← attempt (find_similar_articles title_clean article.id 20)
      after_final_check article body title_clean canonical_url (
          check_duplicate env.lowercase article.url canonical_url title_clean
            (map (existing_of env.libs) (or_comparable comparable similar))))
      env

unfoldable pub reject_short : RawArticle → Text → Text → M ContentStepResult
reject_short article body details = do
  ignore (update_processing_status article.id ProcessingStatus.rejected)
  ignore (
      insert_from_article article.id article.source_id article.title article.url
        (text "content_too_short") (some details))
  pure (settled article.id ContentStepStatus.rejected (some (byte_len body)) none)

-- Phase 5.
unfoldable pub validate :
    RawArticle → List ComparableArticle → Option ExtractionResult → M ContentStepResult
validate article comparable none env =
    (do
      ignore (update_processing_status article.id ProcessingStatus.extraction_failed)
      pure (extraction_error article.id (text "all_strategies_failed") true))
      env
validate article comparable (some extraction) env =
    (if ltb (byte_len extraction.text) min_text_length
          || ltb (count_words extraction.text) min_article_word_count
        then reject_short article extraction.text (length_details env.libs extraction.text)
        else final_check article comparable extraction.text
            (unwrap_or article.title extraction.title_clean) extraction.canonical_url)
      env

-- Phases 3 and 4 between the two checks for duplicates.
unfoldable pub after_first_check :
    RawArticle → Option Config → List ComparableArticle → DedupResult → M ContentStepResult
after_first_check article config comparable dup =
    if dup.is_duplicate
    then reject_duplicate article dup (text "url_dup: ") none
    else extract_article article.url config >>= validate article comparable

unfoldable pub first_check :
    RawArticle → Option Config → Result (List ComparableArticle) → M ContentStepResult
first_check article config (err e) env =
    pure (extraction_error article.id (text "DB error: " ++ e) true) env
first_check article config (ok comparable) env =
    after_first_check article config comparable
      (check_duplicate env.lowercase article.url none article.title
        (map (existing_of env.libs) comparable))
      env

-- Only an ingested or extracted article is worked on.
unfoldable pub is_open : ProcessingStatus → Bool
is_open status = is_ingested status || is_extracted status

unfoldable pub with_open_article : RawArticle → Option Config → M ContentStepResult
with_open_article article config =
    attempt (get_comparable_articles article.id 500) >>= first_check article config

unfoldable pub with_article : ℕ → Option Config → Result (Option RawArticle) → M ContentStepResult
with_article article_id config (err e) =
    pure (extraction_error article_id (text "DB error: " ++ e) true)
with_article article_id config (ok none) =
    pure (extraction_error article_id (text "not_found") false)
with_article article_id config (ok (some article)) =
    if is_open article.processing_status
    then with_open_article article config
    else pure (settled article_id ContentStepStatus.extracted article.content_length none)

unfoldable pub process_content_step : ℕ → Option Config → M ContentStepResult
process_content_step article_id config =
    attempt (get_by_id article_id) >>= with_article article_id config
