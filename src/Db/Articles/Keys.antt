-- ===== src/Db/Articles/Keys.antt =====
-- The key (url, source_id) under insertions (src/db/article_queries.rs).
use ingest_pipeline.Prelude.{
  subst, Option-cases, inr, inl, Bool-cases, ◌≡◌, Bool, false, List, [], ◌∷◌, ◌++◌, arith, refl,
  any, Option, none, some, map,
}
use ingest_pipeline.Prelude.Text.{Text, text_eq}
use ingest_pipeline.Db.Articles.{refused, same_key, insert_rows, insert_batch, batch_row}
use ingest_pipeline.Schema.{RawArticle, FeedSource}
use ingest_pipeline.Store.{Env, World}

-- No two rows have the same URL and the same feed.
abbrev pub HasUniqueKeys : List RawArticle → Type 0
HasUniqueKeys [] = Unit
HasUniqueKeys (a ∷ rows) = (any (same_key a.url a.source_id) rows ≡ false) × HasUniqueKeys rows

pub text_eq_sym : (s t : Text) → text_eq s t ≡ text_eq t s
unfolding text_eq
text_eq_sym [] [] = refl
text_eq_sym [] (y ∷ ys) = refl
text_eq_sym (x ∷ xs) [] = refl
text_eq_sym (x ∷ xs) (y ∷ ys) = ground (arith, text_eq_sym xs ys)

any-append :
    (p : RawArticle → Bool) (xs : List RawArticle) (a : RawArticle)
    → any p xs ≡ false
    → p a ≡ false
    → any p (xs ++ a ∷ []) ≡ false
any-append p [] a h k = ground arith
any-append p (x ∷ xs) a h k = ground (arith, any-append p xs a)

append-HasUniqueKeys :
    (rows : List RawArticle) (a : RawArticle)
    → HasUniqueKeys rows
    → any (same_key a.url a.source_id) rows ≡ false
    → HasUniqueKeys (rows ++ a ∷ [])
unfolding same_key
append-HasUniqueKeys [] a h k = (refl, tt)
append-HasUniqueKeys (x ∷ rows) a (h, hs) k = (
  any-append (same_key x.url x.source_id) rows a h
      (ground (arith, text_eq_sym x.url a.url, text_eq_sym x.source_id a.source_id)),
  append-HasUniqueKeys rows a hs (ground arith),
)

abbrev UniqueOrNone : Option (List RawArticle) → Type 0
UniqueOrNone none = Unit {0}
UniqueOrNone (some rows) = HasUniqueKeys rows

insert_rows-HasUniqueKeys :
    (feeds : List FeedSource) (table rows : List RawArticle)
    → HasUniqueKeys table
    → UniqueOrNone (insert_rows feeds table rows)
unfolding insert_rows
insert_rows-HasUniqueKeys feeds table [] h = h
insert_rows-HasUniqueKeys feeds table (a ∷ rows) h =
    elim (Bool-cases (any (same_key a.url a.source_id) table)) [
      | inl p ↦ rw (p, insert_rows) (insert_rows-HasUniqueKeys feeds table rows h)
      | inr p ↦ elim (Bool-cases (refused feeds table a)) [
        | inl q ↦ rw (p, q, insert_rows) tt
        | inr q ↦
            rw (p, q, insert_rows)
              (insert_rows-HasUniqueKeys feeds (table ++ a ∷ []) rows
                (append-HasUniqueKeys table a h p))
      ]
    ]

-- The batch insertion keeps the key: if no two rows of the table have the same URL and feed before
-- it, none have after it, whatever is inserted, and whether or not the database fails.
pub insert_batch-HasUniqueKeys :
    (articles : List RawArticle) (env : Env) (w : World)
    → HasUniqueKeys w.articles
    → HasUniqueKeys (insert_batch articles env w).1.articles
unfolding insert_batch
insert_batch-HasUniqueKeys [] env w h = h
insert_batch-HasUniqueKeys (a ∷ rows) env w h =
    let new = map (batch_row (env.now w.statements)) (a ∷ rows) in
    let fact = insert_rows-HasUniqueKeys w.feeds w.articles new h in
    elim (Option-cases (insert_rows w.feeds w.articles new)) [
      | inl p ↦ ground arith
      | inr (table, p) ↦ let unique = subst UniqueOrNone p fact in ground (arith, unique)
    ]
