-- ===== src/Pipeline/Ingest.antt =====
-- The ingest step (src/pipeline/ingest_step.rs): a feed is loaded, fetched and parsed, its recent
-- items become articles, and these are inserted in one batch.
pub mod Counts
pub mod Exact
pub mod Keys
pub mod Phantom
pub mod Selected
pub mod Stores
pub mod Untouched
use ingest_pipeline.Prelude.{
  ℕ, suc, Bool, true, false, not, ◌&&◌, ◌||◌, Option, none, some, List, [], ◌∷◌, ◌++◌, map, ltb,
  ◌==◌, if◌then◌else◌, unwrap_or, or_else, length, take,
}
use ingest_pipeline.Prelude.Sort.{sort}
use ingest_pipeline.Prelude.Text.{Text, text, byte_len, byte_prefix, char_at_byte}
use ingest_pipeline.Db.Articles.{get_by_url, insert_batch}
use ingest_pipeline.Db.Feeds.{get_by_id, get_last_ingested_pub_date, update_fetch_status}
use ingest_pipeline.Libs.{Libs}
use ingest_pipeline.Pipeline.Items.{cutoff_of, max_date, process_items, recent_items}
use ingest_pipeline.Resolver.{is_success, resolve_source_url}
use ingest_pipeline.Rss.Feed.{RssItem, parse_feed}
use ingest_pipeline.Schema.{
  FeedSource, RawArticle, FeedFetchStatus, ProcessingStatus, QualityStatus, DuplicateStatus,
}
use ingest_pipeline.Store.{
  M, Result, ok, err, Method, Request, Response, pure, attempt, ignore, request, draw, clock, ◌>>=◌,
  ◌>>◌,
}

pub record IngestStepResult : Type 0 where
  pub feed_id : Text
  pub feed_name : Text
  pub new_article_ids : List ℕ
  pub duplicate_count : ℕ
  pub inserted_count : ℕ
  pub total_items : ℕ
  pub max_pub_date : Option ℕ
  pub error : Option Text
  pub retryable : Bool

-- The result of a return before any item is looked at.
unfoldable pub failed_step : Text → Text → Text → Bool → IngestStepResult
failed_step feed_id feed_name error retryable = record {
  feed_id = feed_id;
  feed_name = feed_name;
  new_article_ids = [];
  duplicate_count = 0;
  inserted_count = 0;
  total_items = 0;
  max_pub_date = none;
  error = some error;
  retryable = retryable;
}

-- A failure of the fetch is also written to the feed.
unfoldable pub fetch_failed : FeedSource → Text → Text → Bool → M IngestStepResult
fetch_failed feed feed_id message retryable = do
  ignore (update_fetch_status feed_id FeedFetchStatus.failed (some message))
  pure (failed_step feed_id feed.name message retryable)

abbrev count_or_zero : Result ℕ → ℕ
count_or_zero (ok count) = count
count_or_zero (err e) = 0

unfoldable pub store_items : FeedSource → Text → List RssItem → M IngestStepResult
store_items feed feed_id parsed env =
    (do
      let items = recent_items parsed
      cutoff_text ← attempt (get_last_ingested_pub_date feed_id)
      now ← clock
      found ← process_items feed_id (cutoff_of env.libs cutoff_text) now items
      inserted ← attempt (insert_batch found.1)
      ignore (update_fetch_status feed_id FeedFetchStatus.success none)
      pure (record {
        feed_id = feed_id;
        feed_name = feed.name;
        new_article_ids = map (λ a. a.id) found.1;
        duplicate_count = found.0;
        inserted_count = count_or_zero inserted;
        total_items = length items;
        max_pub_date = max_date items;
        error = none;
        retryable = false;
      }))
      env

abbrev feed_request : Text → Request
feed_request url = record {
  method = Method.get;
  target = url;
  headers =
      (text "Accept", text "application/rss+xml, application/atom+xml, application/xml, text/xml")
      ∷ [];
  json = none;
}

unfoldable pub use_items : FeedSource → Text → Result (List RssItem) → M IngestStepResult
use_items feed feed_id (err e) = fetch_failed feed feed_id (text "Parse error: " ++ e) false
use_items feed feed_id (ok items) = store_items feed feed_id items

unfoldable pub use_body : FeedSource → Text → Result Text → M IngestStepResult
use_body feed feed_id (err e) env =
    fetch_failed feed feed_id (text "Failed to read response body: " ++ e) true env
use_body feed feed_id (ok body) env =
    use_items feed feed_id (parse_feed env.libs body feed.feed_url) env

unfoldable pub use_response : FeedSource → Text → Result Response → M IngestStepResult
use_response feed feed_id (err e) =
    fetch_failed feed feed_id (text "Network error fetching feed: " ++ e) true
use_response feed feed_id (ok response) =
    if is_success response.status
    then use_body feed feed_id response.payload
    else fetch_failed feed feed_id (text "HTTP " ++ (response.status_text ++ text " fetching feed"))
        (not (response.status == 404))

unfoldable pub with_feed : Text → Result (Option FeedSource) → M IngestStepResult
with_feed feed_id (err e) = pure (failed_step feed_id [] (text "DB error: " ++ e) true)
with_feed feed_id (ok none) = pure (failed_step feed_id [] (text "Feed not found") false)
with_feed feed_id (ok (some feed)) =
    if feed.enabled
    then attempt (request (feed_request feed.feed_url)) >>= use_response feed feed_id
    else pure (failed_step feed_id [] (text "Feed is disabled") false)

unfoldable pub process_ingest_step : Text → M IngestStepResult
process_ingest_step feed_id = attempt (get_by_id feed_id) >>= with_feed feed_id
