-- ===== src/Db/Comparable.antt =====
-- The articles that a new one is compared with (src/db/article_queries.rs).
use ingest_pipeline.Prelude.{
  ℕ, Bool, true, false, not, ◌&&◌, Option, none, some, List, map, ltb, ◌==◌, take, select,
}
use ingest_pipeline.Prelude.Sort.{sort}
use ingest_pipeline.Prelude.Text.{Text, text}
use ingest_pipeline.Schema.{RawArticle, ProcessingStatus}
use ingest_pipeline.Store.{M, statement}

pub record ComparableArticle : Type 0 where
  pub id : ℕ
  pub url : Text
  pub canonical_url : Option Text
  pub title : Text
  pub title_clean : Option Text

unfoldable pub comparable_of : RawArticle → ComparableArticle
comparable_of a = record {
  id = a.id;
  url = a.url;
  canonical_url = a.canonical_url;
  title = a.title;
  title_clean = a.title_clean;
}

-- processing_status IN ('ingested', 'extracted', 'pending_qualification', 'qualified').
abbrev pub is_comparable_status : ProcessingStatus → Bool
is_comparable_status ProcessingStatus.ingested = true
is_comparable_status ProcessingStatus.extracted = true
is_comparable_status ProcessingStatus.pending_qualification = true
is_comparable_status ProcessingStatus.qualified = true
is_comparable_status _ = false

unfoldable pub is_comparable : ℕ → RawArticle → Bool
is_comparable exclude_id a = not (a.id == exclude_id) && is_comparable_status a.processing_status

unfoldable pub get_comparable_articles : ℕ → ℕ → M (List ComparableArticle)
get_comparable_articles exclude_id limit =
    statement (text "get_comparable_articles: failed to query raw_articles") (λ now w. (
      map comparable_of (
          take limit (
            sort (λ a b. ltb b.created_at a.created_at)
              (select (is_comparable exclude_id) w.articles))),
      w,
    ))

abbrev pub is_similar : (Text → Text → Bool) → Text → Option Text → Bool
is_similar similar title none = false
is_similar similar title (some other) = similar other title

abbrev pub score : (Text → Text → ℕ) → Text → Option Text → ℕ
score similarity title none = 0
score similarity title (some other) = similarity other title

unfoldable pub find_similar_articles : Text → ℕ → ℕ → M (List ComparableArticle)
find_similar_articles title_clean exclude_id limit env =
    statement (text "find_similar_articles: failed to query raw_articles")
      (λ now w. (
        map comparable_of (
            take limit (
              sort
                (λ a b.
                  ltb (score env.similarity title_clean b.title_clean)
                    (score env.similarity title_clean a.title_clean))
                (select
                  (λ a.
                    is_comparable exclude_id a && is_similar env.similar title_clean a.title_clean)
                  w.articles))),
        w,
      ))
      env
