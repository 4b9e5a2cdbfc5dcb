-- ===== src/Db/Articles.antt =====
-- The statements on `raw_articles` (src/db/article_queries.rs), with the constraints of the
-- migrations: the primary key, UNIQUE (url, source_id), and the foreign keys to `feed_sources`, from
-- `duplicate_of` and from `rejected_articles`.
pub mod Batch
pub mod Cleanup
pub mod Keys
pub mod Updates
use ingest_pipeline.Prelude.{
  ℕ, ◌+◌, ◌-◌, Bool, true, false, not, ◌&&◌, ◌||◌, Option, none, some, List, [], ◌∷◌, ◌++◌, map,
  ltb, ◌==◌, if◌then◌else◌, any, find, take, select, length, update_where,
}
use ingest_pipeline.Prelude.Sort.{sort}
use ingest_pipeline.Prelude.Text.{Text, text, text_eq}
use ingest_pipeline.Schema.{
  RawArticle, FeedSource, RejectedArticle, ProcessingStatus, QualityStatus, DuplicateStatus,
  is_duplicate_status,
}
use ingest_pipeline.Store.{M, statement, checked_statement, pure, days}

unfoldable pub get_by_id : ℕ → M (Option RawArticle)
get_by_id id =
    statement (text "get_by_id: failed to query raw_articles")
      (λ now w. (find (λ a. a.id == id) w.articles, w))

unfoldable pub same_key : Text → Text → RawArticle → Bool
same_key url source_id a = text_eq a.url url && text_eq a.source_id source_id

unfoldable pub get_by_url : Text → Text → M (Option RawArticle)
get_by_url url source_id =
    statement (text "get_by_url: failed to query raw_articles")
      (λ now w. (find (same_key url source_id) w.articles, w))

abbrev pub has_article : ℕ → List RawArticle → Bool
has_article id = any (λ a. a.id == id)

abbrev pub has_feed : Text → List FeedSource → Bool
has_feed id = any (λ f. text_eq f.id id)

-- One row of an INSERT: the foreign key and the primary key refuse it.
unfoldable pub refused : List FeedSource → List RawArticle → RawArticle → Bool
refused feeds table a = not (has_feed a.source_id feeds) || has_article a.id table

unfoldable pub insert : RawArticle → M (Unit {0})
insert a = checked_statement (text "insert: failed to insert into raw_articles") (λ now w.
    if refused w.feeds w.articles a || any (same_key a.url a.source_id) w.articles
    then none
    else some (tt, record w { articles = w.articles ++ a ∷ [] }))

-- The columns that `insert_batch` does not name take their defaults; both dates are its own `now`.
unfoldable pub batch_row : ℕ → RawArticle → RawArticle
batch_row now a = record a {
  body = none;
  content_length = none;
  content_hash = none;
  title_clean = none;
  canonical_url = none;
  duplicate_of = none;
  preferred_extraction_method = none;
  extraction_attempts = 0;
  last_extraction_error = none;
  last_extraction_at = none;
  created_at = now;
  updated_at = now;
}

-- ON CONFLICT (url, source_id) DO NOTHING skips a row, with those inserted before it counted.
unfoldable pub insert_rows :
    List FeedSource → List RawArticle → List RawArticle → Option (List RawArticle)
insert_rows feeds table [] = some table
insert_rows feeds table (a ∷ rows) = elim (any (same_key a.url a.source_id) table) [
  | true ↦ insert_rows feeds table rows
  | false ↦ elim (refused feeds table a) [
    | true ↦ none
    | false ↦ insert_rows feeds (table ++ a ∷ []) rows
  ]
]

unfoldable pub insert_batch : List RawArticle → M ℕ
insert_batch [] = pure 0
insert_batch (a ∷ rows) = checked_statement (text "Failed to batch insert articles") (λ now w.
    elim (insert_rows w.feeds w.articles (map (batch_row now) (a ∷ rows))) [
      | none ↦ none
      | some table ↦ some (length table - length w.articles, record w { articles = table })
    ])

unfoldable pub set_article : ℕ → (RawArticle → RawArticle) → List RawArticle → List RawArticle
set_article id = update_where (λ a. a.id == id)

unfoldable pub update_processing_status : ℕ → ProcessingStatus → M (Unit {0})
update_processing_status id status =
    statement (text "update_processing_status: failed to update raw_articles") (λ now w. (
      tt,
      record w {
        articles =
            set_article id (λ a. record a { processing_status = status; updated_at = now })
              w.articles;
      },
    ))

unfoldable pub update_quality_status : ℕ → QualityStatus → M (Unit {0})
update_quality_status id status =
    statement (text "update_quality_status: failed to update raw_articles") (λ now w. (
      tt,
      record w {
        articles =
            set_article id (λ a. record a { quality_status = status; updated_at = now }) w.articles;
      },
    ))

unfoldable pub update_duplicate_and_processing :
    ℕ → DuplicateStatus → ProcessingStatus → M (Unit {0})
update_duplicate_and_processing id dup_status proc_status =
    statement (text "update_duplicate_and_processing: failed to update raw_articles") (λ now w. (
      tt,
      record w {
        articles =
            set_article id
              (λ a. record a {
                duplicate_status = dup_status;
                processing_status = proc_status;
                updated_at = now;
              })
              w.articles;
      },
    ))

unfoldable pub update_extraction :
    ℕ → Option Text → Option ℕ → Option Text → Option Text → M (Unit {0})
update_extraction id content content_length title_clean canonical_url =
    statement (text "update_extraction: failed to update raw_articles") (λ now w. (
      tt,
      record w {
        articles =
            set_article id
              (λ a. record a {
                body = content;
                content_length = content_length;
                title_clean = title_clean;
                canonical_url = canonical_url;
                extraction_attempts = a.extraction_attempts + 1;
                last_extraction_at = some now;
                updated_at = now;
              })
              w.articles;
      },
    ))

-- A DELETE is refused if a row that stays, or a rejected article, refers to one that goes.
unfoldable pub refers_to : ℕ → RawArticle → Bool
refers_to id a = elim a.duplicate_of [ none ↦ false | some other ↦ other == id ]

unfoldable pub is_referenced : List RawArticle → List RejectedArticle → RawArticle → Bool
is_referenced kept rejections a =
    any (λ r. r.article_id == a.id) rejections || any (refers_to a.id) kept

unfoldable pub delete_articles :
    (RawArticle → Bool) → List RawArticle → List RejectedArticle → Option (ℕ × List RawArticle)
delete_articles gone articles rejections =
    let kept = select (λ a. not (gone a)) articles in
    if any (is_referenced kept rejections) (select gone articles)
    then none
    else some (length (select gone articles), kept)

unfoldable pub is_old_duplicate : ℕ → ℕ → RawArticle → Bool
is_old_duplicate now n a = is_duplicate_status a.duplicate_status && ltb (a.created_at + days n) now

unfoldable pub cleanup_old_duplicates : ℕ → M ℕ
cleanup_old_duplicates n =
    checked_statement (text "cleanup_old_duplicates: failed to clean raw_articles") (λ now w.
      elim (delete_articles (is_old_duplicate now n) w.articles w.rejections) [
        | none ↦ none
        | some (count, kept) ↦ some (count, record w { articles = kept })
      ])

unfoldable pub enrich_from_duplicate : ℕ → ℕ → M (Unit {0})
enrich_from_duplicate id duplicate_of_id =
    checked_statement (text "enrich_from_duplicate: failed to update raw_articles") (λ now w.
      if has_article id w.articles && not (has_article duplicate_of_id w.articles)
      then none
      else some (
        tt,
        record w {
          articles =
              set_article id
                (λ a. record a {
                  duplicate_of = some duplicate_of_id;
                  duplicate_status = DuplicateStatus.duplicate;
                  processing_status = ProcessingStatus.qualified;
                  updated_at = now;
                })
                w.articles;
        },
      ))
