-- ===== src/Tests/Feeds.antt =====
-- The tests of src/db/feed_queries.rs, on an empty table of feeds; an `expect` that fails is the error
-- of the test. PostgreSQL's reading and writing of a timestamp is a pair of functions.
use ingest_pipeline.Prelude.{
  ℕ, ◌+◌, ◌≡◌, refl, Bool, true, false, not, ◌&&◌, Option, none, some, List, [], ◌∷◌, ◌++◌, any,
  update_where, ◌==◌, if◌then◌else◌, unwrap_or, is_some,
}
use ingest_pipeline.Prelude.Int.{ℤ, pos, negsuc}
use ingest_pipeline.Prelude.Text.{Text, text, text_eq, contains_text}
use ingest_pipeline.Db.Feeds.{
  get_by_id, get_active_feeds, get_active_tier1_feeds, update_fetch_status,
  update_last_ingested_pub_date, get_last_ingested_pub_date, get_feed_preferred_method,
}
use ingest_pipeline.Samples.{env, world, feed}
use ingest_pipeline.Schema.{FeedSource, FeedFetchStatus}
use ingest_pipeline.Store.{M, Env, ok, err, pure, fail_with, statement, ◌>>=◌, ◌>>◌}
use ingest_pipeline.Tests.{all_hold}

-- INSERT INTO feed_sources … ON CONFLICT (id) DO UPDATE SET feed_url = EXCLUDED.feed_url.
abbrev pub insert_test_feed : Text → Text → Bool → Text → ℕ → M (Unit {0})
insert_test_feed id name enabled tier priority =
    statement (text "error returned from database") (λ now w.
      let feed_url = text "https://example.com/feed/" ++ id in
      (
        tt,
        record w {
          feeds =
              if any (λ f. text_eq f.id id) w.feeds
              then update_where (λ f. text_eq f.id id) (λ f. record f { feed_url = feed_url })
                  w.feeds
              else w.feeds
                ++ record feed {
                  id = id;
                  feed_url = feed_url;
                  name = name;
                  enabled = enabled;
                  tier = some tier;
                  priority = pos priority;
                  created_at = now;
                  updated_at = now;
                }
                  ∷ [];
        },
      ))

-- `unwrap()` of a feed that was found; a panic is an error.
abbrev unwrapped : Option FeedSource → M FeedSource
unwrapped none = fail_with (text "called `Option::unwrap()` on a `None` value")
unwrapped (some f) = pure f

abbrev has_priority : ℕ → ℤ → Bool
has_priority n (pos p) = p == n
has_priority n (negsuc p) = false

abbrev pub test_get_by_id : M Bool
test_get_by_id = do
  insert_test_feed (text "feed-1") (text "Test Feed") true (text "free") 5
  found ← get_by_id (text "feed-1")
  f ← unwrapped found
  missing ← get_by_id (text "nonexistent")
  pure (
      all_hold (
        text_eq f.id (text "feed-1")
        ∷ text_eq f.name (text "Test Feed")
        ∷ f.enabled
        ∷ has_priority 5 f.priority
        ∷ not (is_some missing)
        ∷ []))

-- The feeds have these ids, in order.
abbrev have_ids : List Text → List FeedSource → Bool
have_ids [] [] = true
have_ids [] (f ∷ feeds) = false
have_ids (id ∷ ids) [] = false
have_ids (id ∷ ids) (f ∷ feeds) = text_eq f.id id && have_ids ids feeds

abbrev pub test_get_active_feeds : M Bool
test_get_active_feeds = do
  insert_test_feed (text "a1") (text "Alpha") true (text "free") 10
  insert_test_feed (text "a2") (text "Beta") true (text "free") 5
  insert_test_feed (text "a3") (text "Gamma") false (text "free") 1
  feeds ← get_active_feeds
  pure (have_ids (text "a1" ∷ text "a2" ∷ []) feeds)

abbrev pub test_get_active_tier1_feeds : M Bool
test_get_active_tier1_feeds = do
  insert_test_feed (text "t1") (text "Tier1 Feed") true (text "tier1_keep") 10
  insert_test_feed (text "t2") (text "Free Feed") true (text "free") 5
  insert_test_feed (text "t3") (text "Tier1 Disabled") false (text "tier1_keep") 1
  feeds ← get_active_tier1_feeds
  pure (have_ids (text "t1" ∷ []) feeds)

abbrev is_fetching : FeedFetchStatus → Bool
is_fetching FeedFetchStatus.fetching = true
is_fetching _ = false

abbrev has_failed : FeedFetchStatus → Bool
has_failed FeedFetchStatus.failed = true
has_failed _ = false

abbrev pub test_update_fetch_status : M Bool
test_update_fetch_status = do
  insert_test_feed (text "fs-1") (text "Status Feed") true (text "free") 0
  update_fetch_status (text "fs-1") FeedFetchStatus.fetching none
  first ← get_by_id (text "fs-1")
  fetching ← unwrapped first
  update_fetch_status (text "fs-1") FeedFetchStatus.failed (some (text "connection timeout"))
  second ← get_by_id (text "fs-1")
  failed ← unwrapped second
  pure (
      all_hold (
        is_fetching fetching.fetch_status
        ∷ is_some fetching.last_fetch_at
        ∷ not (is_some fetching.last_fetch_error)
        ∷ has_failed failed.fetch_status
        ∷ text_eq (unwrap_or [] failed.last_fetch_error) (text "connection timeout")
        ∷ []))

abbrev pub test_update_last_ingested_pub_date : M Bool
test_update_last_ingested_pub_date = do
  insert_test_feed (text "ip-1") (text "Ingest Feed") true (text "free") 0
  first ← get_by_id (text "ip-1")
  before ← unwrapped first
  update_last_ingested_pub_date (text "ip-1") (text "2025-01-15T10:30:00Z")
  second ← get_by_id (text "ip-1")
  after ← unwrapped second
  date_str ← get_last_ingested_pub_date (text "ip-1")
  pure (
      all_hold (
        not (is_some before.last_ingested_pub_date)
        ∷ is_some after.last_ingested_pub_date
        ∷ contains_text (text "2025-01-15") (unwrap_or [] date_str)
        ∷ []))

abbrev pub test_get_feed_preferred_method : M Bool
test_get_feed_preferred_method = do
  result ← get_feed_preferred_method (text "any-id")
  pure (not (is_some result))

-- A clock that moves on, and the one timestamp of the tests with its text.
abbrev test_env : Env
test_env = record env {
  now = λ n. 4000000000000000 + n;
  libs = record env.libs {
    timestamp_of = λ s. some 1736937000000000;
    timestamp_text = λ t. text "2025-01-15 10:30:00+00";
  };
}

abbrev passes : M Bool → Bool
passes test = elim (test test_env (record world { feeds = []; articles = [] })).0 [
  | ok b ↦ b
  | err e ↦ false
]

read_tests :
    all_hold (
      passes test_get_by_id
      ∷ passes test_get_active_feeds
      ∷ passes test_get_active_tier1_feeds
      ∷ passes test_get_feed_preferred_method
      ∷ [])
    ≡ true
unfolding get_by_id get_active_feeds get_active_tier1_feeds get_feed_preferred_method text_eq
read_tests = refl

status_test : passes test_update_fetch_status ≡ true
unfolding get_by_id update_fetch_status text_eq
status_test = refl

cursor_test : passes test_update_last_ingested_pub_date ≡ true
unfolding get_by_id update_last_ingested_pub_date get_last_ingested_pub_date text_eq contains_text
cursor_test = refl
