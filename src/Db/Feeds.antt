-- ===== src/Db/Feeds.antt =====
-- The statements on `feed_sources` (src/db/feed_queries.rs).
use ingest_pipeline.Prelude.{
  Bool, false, not, ◌&&◌, ◌||◌, Option, none, some, List, find, select, update_where,
}
use ingest_pipeline.Prelude.Int.{ltb_ℤ}
use ingest_pipeline.Prelude.Sort.{sort}
use ingest_pipeline.Prelude.Text.{Text, text, text_eq}
use ingest_pipeline.Schema.{FeedSource, FeedFetchStatus}
use ingest_pipeline.Store.{pure, M, statement, checked_statement}

unfoldable pub get_by_id : Text → M (Option FeedSource)
unfolding text_eq
get_by_id id =
    statement (text "get_by_id: failed to query feed_sources")
      (λ now w. (find (λ f. text_eq f.id id) w.feeds, w))

-- ORDER BY priority DESC, name ASC.
abbrev by_priority_and_name : (Text → Text → Bool) → FeedSource → FeedSource → Bool
by_priority_and_name collate a b =
    ltb_ℤ b.priority a.priority || (not (ltb_ℤ a.priority b.priority) && collate a.name b.name)

unfoldable pub get_active_feeds : M (List FeedSource)
unfolding sort
get_active_feeds env =
    statement (text "get_active_feeds: failed to query feed_sources")
      (λ now w. (sort (by_priority_and_name env.collate) (select (λ f. f.enabled) w.feeds), w)) env

abbrev is_tier1 : Option Text → Bool
is_tier1 none = false
is_tier1 (some tier) = text_eq tier (text "tier1_keep")

unfoldable pub get_active_tier1_feeds : M (List FeedSource)
unfolding sort text_eq
get_active_tier1_feeds =
    statement (text "get_active_tier1_feeds: failed to query feed_sources") (λ now w. (
      sort (λ a b. ltb_ℤ b.priority a.priority)
          (select (λ f. f.enabled && is_tier1 f.tier) w.feeds),
      w,
    ))

unfoldable pub update_fetch_status : Text → FeedFetchStatus → Option Text → M (Unit {0})
unfolding text_eq
update_fetch_status feed_id status error =
    statement (text "update_fetch_status: failed to update feed_sources") (λ now w. (
      tt,
      record w {
        feeds =
            update_where (λ f. text_eq f.id feed_id)
              (λ f. record f {
                fetch_status = status;
                last_fetch_error = error;
                last_fetch_at = some now;
                updated_at = now;
              })
              w.feeds;
      },
    ))

-- The cast of the text to a timestamp may fail, and then the statement does.
unfoldable pub update_last_ingested_pub_date : Text → Text → M (Unit {0})
unfolding text_eq
update_last_ingested_pub_date feed_id date env =
    checked_statement (text "update_last_ingested_pub_date: failed to update feed_sources")
      (λ now w. elim (env.timestamp_of date) [
        | none ↦ none
        | some at ↦ some (
          tt,
          record w {
            feeds =
                update_where (λ f. text_eq f.id feed_id)
                  (λ f. record f { last_ingested_pub_date = some at; updated_at = now }) w.feeds;
          },
        )
      ])
      env

-- A row is decoded as a `String`: one whose date is NULL is an error, no row is `None`.
unfoldable pub get_last_ingested_pub_date : Text → M (Option Text)
unfolding text_eq
get_last_ingested_pub_date feed_id env =
    checked_statement (text "get_last_ingested_pub_date: failed to query feed_sources")
      (λ now w. elim (find (λ f. text_eq f.id feed_id) w.feeds) [
        | none ↦ some (none, w)
        | some f ↦ elim f.last_ingested_pub_date [
          | none ↦ none
          | some at ↦ some (some (env.timestamp_text at), w)
        ]
      ])
      env

-- No feed has a preferred method yet.
unfoldable pub get_feed_preferred_method : Text → M (Option Text)
get_feed_preferred_method feed_id = pure none
