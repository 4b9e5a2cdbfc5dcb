-- ===== src/Pipeline/Items.antt =====
-- The items of a feed (src/pipeline/ingest_step.rs): which are kept, and what the loop makes of each.
use ingest_pipeline.Prelude.{
  ℕ, suc, Bool, true, false, ◌&&◌, ◌||◌, Option, none, some, List, [], ◌∷◌, ltb, ◌==◌,
  if◌then◌else◌, unwrap_or, or_else, take,
}
use ingest_pipeline.Prelude.Sort.{sort}
use ingest_pipeline.Prelude.Text.{Text, text, byte_len, byte_prefix, char_at_byte}
use ingest_pipeline.Db.Articles.{get_by_url}
use ingest_pipeline.Libs.{Libs}
use ingest_pipeline.Resolver.{resolve_source_url}
use ingest_pipeline.Rss.Feed.{RssItem}
use ingest_pipeline.Schema.{RawArticle, ProcessingStatus, QualityStatus, DuplicateStatus}
use ingest_pipeline.Store.{M, Result, ok, err, pure, attempt, draw, ◌>>=◌}

abbrev pub max_recent_items : ℕ
max_recent_items = 30

-- The order of `b.pub_date.cmp(&a.pub_date)`: newest first, items without a date last.
unfoldable pub newer : Option ℕ → Option ℕ → Bool
newer none b = false
newer (some a) none = true
newer (some a) (some b) = ltb b a

unfoldable pub recent_items : List RssItem → List RssItem
recent_items items = take max_recent_items (sort (λ a b. newer a.pub_date b.pub_date) items)

unfoldable pub latest : Option ℕ → Option ℕ → Option ℕ
latest a b = if newer a b then a else b

unfoldable pub max_date : List RssItem → Option ℕ
max_date [] = none
max_date (item ∷ items) = latest item.pub_date (max_date items)

-- The text of a timestamp without its offset, if a sign stands behind the seconds.
unfoldable pub is_sign : Option ℕ → Bool
is_sign none = false
is_sign (some c) = c == b'+' || c == b'-'

unfoldable pub date_part : Text → Text
date_part date_str =
    if ltb 19 (byte_len date_str) && is_sign (char_at_byte 19 date_str)
    then byte_prefix 19 date_str
    else date_str

unfoldable pub parse_cutoff_date : Libs → Text → Option ℕ
parse_cutoff_date libs date_str =
    or_else (libs.parse_from_rfc3339 date_str)
      (libs.parse_naive (date_part date_str) (text "%Y-%m-%d %H:%M:%S"))

unfoldable pub cutoff_of : Libs → Result (Option Text) → Option ℕ
cutoff_of libs (ok (some date_str)) = parse_cutoff_date libs date_str
cutoff_of libs (ok none) = none
cutoff_of libs (err e) = none

-- if item_date < cutoff { continue; }
unfoldable pub is_before_cutoff : Option ℕ → Option ℕ → Bool
is_before_cutoff (some cutoff) (some item_date) = ltb item_date cutoff
is_before_cutoff _ _ = false

unfoldable pub article_of : ℕ → ℕ → Text → Text → RssItem → RawArticle
article_of id now feed_id resolved_url item = record {
  id = id;
  source_id = feed_id;
  title = unwrap_or [] item.title;
  url = resolved_url;
  description = item.description;
  image_url = item.image_url;
  author = item.author;
  pub_date = item.pub_date;
  body = none;
  content_length = none;
  content_hash = none;
  title_clean = none;
  canonical_url = none;
  processing_status = ProcessingStatus.ingested;
  quality_status = QualityStatus.pending;
  duplicate_status = DuplicateStatus.pending;
  duplicate_of = none;
  preferred_extraction_method = none;
  extraction_attempts = 0;
  last_extraction_error = none;
  last_extraction_at = none;
  created_at = now;
  updated_at = now;
}

-- What the loop makes of one item.
pub data Outcome : Type 0 where
  skipped duplicate : Outcome
  fresh_article : RawArticle → Outcome

-- `Ok(Some(_))` of the search for the URL; an error is passed over.
abbrev pub is_found : Result (Option RawArticle) → Bool
is_found (ok (some a)) = true
is_found _ = false

unfoldable pub with_link : Text → Option ℕ → ℕ → RssItem → Text → M Outcome
with_link feed_id cutoff now item link = do
  resolved ← resolve_source_url link
  let resolved_url = unwrap_or link resolved
  existing ← attempt (get_by_url resolved_url feed_id)
  let new_article : M Outcome = do
    id ← draw
    pure (fresh_article (article_of id now feed_id resolved_url item))
  (if is_found existing
      then pure duplicate
      else if is_before_cutoff cutoff item.pub_date
      then pure skipped
      else new_article)

unfoldable pub process_item : Text → Option ℕ → ℕ → RssItem → M Outcome
process_item feed_id cutoff now item = elim item.link [
  | none ↦ pure skipped
  | some link ↦ with_link feed_id cutoff now item link
]

abbrev pub add_outcome : Outcome → ℕ × List RawArticle → ℕ × List RawArticle
add_outcome skipped rest = rest
add_outcome duplicate (count, articles) = (suc count, articles)
add_outcome (fresh_article a) (count, articles) = (count, a ∷ articles)

-- The loop: the number of duplicates, and the articles to insert in the order of the items.
unfoldable pub process_items : Text → Option ℕ → ℕ → List RssItem → M (ℕ × List RawArticle)
process_items feed_id cutoff now [] = pure (0, [])
process_items feed_id cutoff now (item ∷ items) = do
  outcome ← process_item feed_id cutoff now item
  rest ← process_items feed_id cutoff now items
  pure (add_outcome outcome rest)
