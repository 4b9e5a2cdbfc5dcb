-- ===== src/Db/Articles/Cleanup.antt =====
-- When old duplicates may be deleted (src/db/article_queries.rs).
use ingest_pipeline.Prelude.{
  suc, ◌==◌, ℕ, ◌≡◌, Bool, true, List, [], ◌∷◌, arith, any, ◌&&◌, none, not, select,
}
use ingest_pipeline.Prelude.Text.{text}
use ingest_pipeline.Db.Articles.{
  delete_articles, is_old_duplicate, is_referenced, cleanup_old_duplicates,
}
use ingest_pipeline.Schema.{RawArticle, RejectedArticle}
use ingest_pipeline.Store.{Env, World, err}

abbrev pub has_rejection : List RejectedArticle → RawArticle → Bool
has_rejection rejections a = any (λ r. r.article_id == a.id) rejections

any-select :
    (p q : RawArticle → Bool) (xs : List RawArticle)
    → any (λ x. p x && q x) xs ≡ true
    → any q (select p xs) ≡ true
any-select p q [] h = ground arith
any-select p q (x ∷ xs) h = ground (arith, any-select p q xs)

any-implies :
    (p q : RawArticle → Bool) (xs : List RawArticle)
    → ((x : RawArticle) → p x ≡ true → q x ≡ true)
    → any p xs ≡ true
    → any q xs ≡ true
any-implies p q [] f h = ground arith
any-implies p q (x ∷ xs) f h = ground (arith, f x, any-implies p q xs f)

delete_articles-refused :
    (gone : RawArticle → Bool) (articles : List RawArticle) (rejections : List RejectedArticle)
    → any (λ a. gone a && has_rejection rejections a) articles ≡ true
    → delete_articles gone articles rejections ≡ none
unfolding delete_articles is_referenced
delete_articles-refused gone articles rejections h =
    let kept = select (λ a. not (gone a)) articles in
    ground (
      arith,
      any-implies (has_rejection rejections) (is_referenced kept rejections) (select gone articles)
          (λ x e. ground arith) (any-select gone (has_rejection rejections) articles h),
    )

-- Nothing is cleaned up, and an error is returned, if one old duplicate has a row in the table of
-- rejected articles.
pub cleanup_old_duplicates-refused :
    (n : ℕ) (env : Env) (w : World)
    → any
        (λ a. is_old_duplicate (env.now w.statements) n a && has_rejection w.rejections a)
        w.articles
      ≡ true
    → cleanup_old_duplicates n env w ≡ (
      err (text "cleanup_old_duplicates: failed to clean raw_articles"),
      record w { statements = suc w.statements },
    )
unfolding cleanup_old_duplicates
cleanup_old_duplicates-refused n env w h = ground (
  arith,
  delete_articles-refused (is_old_duplicate (env.now w.statements) n) w.articles w.rejections h,
)
