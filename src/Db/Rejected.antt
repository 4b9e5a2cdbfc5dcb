-- ===== src/Db/Rejected.antt =====
-- The statements on `rejected_articles` (src/db/rejected_queries.rs). `article_id` is a foreign key.
use ingest_pipeline.Prelude.{
  ℕ, ◌+◌, ◌||◌, not, Option, none, some, [], ◌∷◌, ◌++◌, ltb, ◌==◌, if◌then◌else◌, any, find, select,
  length,
}
use ingest_pipeline.Prelude.Text.{Text, text}
use ingest_pipeline.Db.Articles.{has_article}
use ingest_pipeline.Schema.{RejectedArticle}
use ingest_pipeline.Store.{M, statement, checked_statement, draw, days, ◌>>=◌}

unfoldable pub insert_from_article : ℕ → Text → Text → Text → Text → Option Text → M (Unit {0})
insert_from_article article_id source_id title url reason details = do
  id ← draw
  checked_statement (text "insert_from_article: failed to insert rejected_article") (λ now w.
      if not (has_article article_id w.articles) || any (λ r. r.id == id) w.rejections
      then none
      else some (
        tt,
        record w {
          rejections =
              w.rejections
              ++ record {
                id = id;
                article_id = article_id;
                source_id = source_id;
                title = title;
                url = url;
                reason = reason;
                details = details;
                created_at = now;
              }
                ∷ [];
        },
      ))

unfoldable pub get_by_article_id : ℕ → M (Option RejectedArticle)
get_by_article_id article_id =
    statement (text "get_by_article_id: failed to query rejected_articles")
      (λ now w. (find (λ r. r.article_id == article_id) w.rejections, w))

unfoldable pub cleanup_old_rejected : ℕ → M ℕ
cleanup_old_rejected n =
    statement (text "cleanup_old_rejected: failed to delete old rejected_articles") (λ now w.
      let old = λ (r : RejectedArticle). ltb (r.created_at + days n) now in
      (
        length (select old w.rejections),
        record w { rejections = select (λ r. not (old r)) w.rejections },
      ))
