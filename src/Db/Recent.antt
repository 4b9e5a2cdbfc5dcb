-- ===== src/Db/Recent.antt =====
-- The recent articles of a feed (src/db/article_queries.rs), which nothing in the pipeline asks for.
use ingest_pipeline.Prelude.{
  ℕ, Bool, true, false, not, ◌&&◌, ◌||◌, Option, none, some, List, take, select, ltb,
}
use ingest_pipeline.Prelude.Sort.{sort}
use ingest_pipeline.Prelude.Text.{Text, text, text_eq}
use ingest_pipeline.Schema.{RawArticle, is_ingested}
use ingest_pipeline.Store.{M, statement}

-- ORDER BY pub_date DESC NULLS LAST, created_at DESC.
abbrev newer_date : Option ℕ → Option ℕ → Bool
newer_date none b = false
newer_date (some a) none = true
newer_date (some a) (some b) = ltb b a

unfoldable pub more_recent : RawArticle → RawArticle → Bool
more_recent a b =
    newer_date a.pub_date b.pub_date
    || (not (newer_date b.pub_date a.pub_date) && ltb b.created_at a.created_at)

unfoldable pub get_recent_ingested_by_feed : Text → ℕ → M (List RawArticle)
unfolding sort text_eq more_recent
get_recent_ingested_by_feed feed_id limit =
    statement (text "get_recent_ingested_by_feed: failed to query raw_articles") (λ now w. (
      take limit (
          sort more_recent (
            select (λ a. text_eq a.source_id feed_id && is_ingested a.processing_status)
              w.articles)),
      w,
    ))
