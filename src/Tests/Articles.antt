-- ===== src/Tests/Articles.antt =====
-- The tests of src/db/article_queries.rs, on an empty table of articles; an `expect` that fails is the
-- error of the test.
use ingest_pipeline.Prelude.{
  ℕ, ◌+◌, ◌-◌, ◌≡◌, refl, Bool, true, false, not, Option, none, some, [], ◌∷◌, ◌++◌, length, any,
  ◌==◌, if◌then◌else◌, is_some,
}
use ingest_pipeline.Prelude.Int.{pos}
use ingest_pipeline.Prelude.Sort.{sort}
use ingest_pipeline.Prelude.Text.{Text, text, text_eq}
use ingest_pipeline.Db.Articles.{
  get_by_id, get_by_url, insert, refused, same_key, has_feed, set_article, update_processing_status,
  update_extraction, cleanup_old_duplicates, is_old_duplicate, delete_articles, is_referenced,
}
use ingest_pipeline.Db.Comparable.{get_comparable_articles, is_comparable, comparable_of}
use ingest_pipeline.Samples.{env, world, feed}
use ingest_pipeline.Schema.{RawArticle, ProcessingStatus, QualityStatus, DuplicateStatus}
use ingest_pipeline.Store.{
  M, Env, ok, err, pure, fail_with, draw, clock, statement, days, ◌>>=◌, ◌>>◌,
}
use ingest_pipeline.Tests.{all_hold}

-- INSERT INTO feed_sources … ON CONFLICT (id) DO NOTHING.
abbrev pub ensure_feed_source : Text → M (Unit {0})
ensure_feed_source id = statement (text "error returned from database") (λ now w. (
  tt,
  record w {
    feeds =
        if has_feed id w.feeds
        then w.feeds
        else w.feeds
          ++ record feed {
            id = id;
            feed_url = text "https://example.com/" ++ id;
            name = id;
            priority = pos 0;
            tier = some (text "free");
            created_at = now;
            updated_at = now;
          }
            ∷ [];
  },
))

abbrev pub test_article : ℕ → Text → Text → Text → ℕ → RawArticle
test_article id source_id title url now = record {
  id = id;
  source_id = source_id;
  title = title;
  url = url;
  description = none;
  image_url = none;
  author = none;
  pub_date = some now;
  body = none;
  content_length = none;
  content_hash = none;
  title_clean = none;
  canonical_url = none;
  processing_status = ProcessingStatus.ingested;
  quality_status = QualityStatus.pending;
  duplicate_status = DuplicateStatus.pending;
  duplicate_of = none;
  preferred_extraction_method = none;
  extraction_attempts = 0;
  last_extraction_error = none;
  last_extraction_at = none;
  created_at = now;
  updated_at = now;
}

abbrev is_text : Text → Option Text → Bool
is_text expected none = false
is_text expected (some s) = text_eq s expected

abbrev is_number : ℕ → Option ℕ → Bool
is_number n none = false
is_number n (some m) = m == n

abbrev is_ingested : ProcessingStatus → Bool
is_ingested ProcessingStatus.ingested = true
is_ingested _ = false

abbrev is_extracted : ProcessingStatus → Bool
is_extracted ProcessingStatus.extracted = true
is_extracted _ = false

-- `unwrap()` of an article that was found; a panic is an error.
abbrev unwrapped : Option RawArticle → M RawArticle
unwrapped none = fail_with (text "called `Option::unwrap()` on a `None` value")
unwrapped (some a) = pure a

abbrev pub test_insert_and_get_by_id : M Bool
test_insert_and_get_by_id = do
  ensure_feed_source (text "src-insert")
  id ← draw
  now ← clock
  insert
      (test_article id (text "src-insert") (text "Test Article") (text "https://example.com/1") now)
  fetched ← get_by_id id
  a ← unwrapped fetched
  pure (
      all_hold (
        (a.id == id)
        ∷ text_eq a.title (text "Test Article")
        ∷ text_eq a.url (text "https://example.com/1")
        ∷ text_eq a.source_id (text "src-insert")
        ∷ is_ingested a.processing_status
        ∷ []))

abbrev pub test_get_by_url : M Bool
test_get_by_url = do
  ensure_feed_source (text "src-url")
  id ← draw
  now ← clock
  insert (
      test_article id (text "src-url") (text "URL Test") (text "https://example.com/unique-url")
        now)
  found ← get_by_url (text "https://example.com/unique-url") (text "src-url")
  a ← unwrapped found
  missing ← get_by_url (text "https://example.com/unique-url") (text "other-source")
  pure (all_hold ((a.id == id) ∷ not (is_some missing) ∷ []))

abbrev pub test_update_processing_status : M Bool
test_update_processing_status = do
  ensure_feed_source (text "src-proc")
  id ← draw
  now ← clock
  insert (
      test_article id (text "src-proc") (text "Processing Test")
        (text "https://example.com/processing") now)
  update_processing_status id ProcessingStatus.extracted
  found ← get_by_id id
  updated ← unwrapped found
  pure (is_extracted updated.processing_status)

abbrev pub test_update_extraction : M Bool
test_update_extraction = do
  ensure_feed_source (text "src-extract")
  id ← draw
  now ← clock
  insert (
      test_article id (text "src-extract") (text "Extraction Test")
        (text "https://example.com/extract") now)
  update_extraction id (some (text "Article content here")) (some 20) (some (text "Clean Title"))
      (some (text "https://example.com/canonical"))
  found ← get_by_id id
  updated ← unwrapped found
  pure (
      all_hold (
        is_text (text "Article content here") updated.body
        ∷ is_number 20 updated.content_length
        ∷ is_text (text "Clean Title") updated.title_clean
        ∷ is_text (text "https://example.com/canonical") updated.canonical_url
        ∷ (updated.extraction_attempts == 1)
        ∷ is_some updated.last_extraction_at
        ∷ []))

abbrev pub test_get_comparable_articles : M Bool
test_get_comparable_articles = do
  ensure_feed_source (text "src-comp")
  id1 ← draw
  id2 ← draw
  id3 ← draw
  now ← clock
  let a1 =
      test_article id1 (text "src-comp") (text "Article One") (text "https://example.com/one") now
  let a2 =
      test_article id2 (text "src-comp") (text "Article Two") (text "https://example.com/two") now
  let a3 =
      test_article id3 (text "src-comp") (text "Article Three") (text "https://example.com/three")
        now
  insert a1
  insert (record a2 { processing_status = ProcessingStatus.extracted })
  insert (record a3 { processing_status = ProcessingStatus.qualified })
  comparable ← get_comparable_articles id1 10
  pure (
      all_hold (
        (length comparable == 2)
        ∷ any (λ c. c.id == id2) comparable
        ∷ any (λ c. c.id == id3) comparable
        ∷ not (any (λ c. c.id == id1) comparable)
        ∷ []))

abbrev pub test_cleanup_old_duplicates : M Bool
test_cleanup_old_duplicates = do
  ensure_feed_source (text "src-cleanup")
  id ← draw
  now ← clock
  let article =
      test_article id (text "src-cleanup") (text "Duplicate Article")
        (text "https://example.com/dup") now
  insert (record article {
    duplicate_status = DuplicateStatus.duplicate;
    created_at = now - days 90;
    updated_at = now - days 90;
  })
  deleted ← cleanup_old_duplicates 30
  after ← get_by_id id
  pure (all_hold ((deleted == 1) ∷ not (is_some after) ∷ []))

-- Empty tables and a clock that moves on.
abbrev test_env : Env
test_env = record env { now = λ n. 10000000000000000 + n }

abbrev passes : M Bool → Bool
passes test = elim (test test_env (record world { feeds = []; articles = []; rejections = [] })).0 [
  | ok b ↦ b
  | err e ↦ false
]

insert_tests : all_hold (passes test_insert_and_get_by_id ∷ passes test_get_by_url ∷ []) ≡ true
unfolding insert refused get_by_id get_by_url same_key text_eq
insert_tests = refl

update_tests :
    all_hold (passes test_update_processing_status ∷ passes test_update_extraction ∷ []) ≡ true
unfolding insert refused get_by_id same_key text_eq update_processing_status update_extraction
    set_article
update_tests = refl

comparable_test : passes test_get_comparable_articles ≡ true
unfolding insert refused same_key text_eq get_comparable_articles is_comparable sort comparable_of
comparable_test = refl

cleanup_test : passes test_cleanup_old_duplicates ≡ true
unfolding insert refused get_by_id same_key text_eq cleanup_old_duplicates is_old_duplicate
    delete_articles is_referenced
cleanup_test = refl
