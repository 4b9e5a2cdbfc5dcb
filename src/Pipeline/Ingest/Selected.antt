-- ===== src/Pipeline/Ingest/Selected.antt =====
-- Which items of a feed become articles (src/pipeline/ingest_step.rs).
use ingest_pipeline.Prelude.{
  ℕ, suc, ◌≡◌, refl, ◌∙◌, inl, inr, Bool, false, not, ◌&&◌, Option, none, some, List, [], ◌∷◌,
  arith, length, select, find, any, All, if◌then◌else◌, Bool-cases, Option-cases, unwrap_or,
}
use ingest_pipeline.Prelude.Text.{Text}
use ingest_pipeline.Db.Articles.{same_key, get_by_url}
use ingest_pipeline.Libs.{Libs}
use ingest_pipeline.Pipeline.Items.{
  is_found, Outcome, skipped, duplicate, fresh_article, with_link, process_item, process_items,
  article_of, add_outcome, is_before_cutoff,
}
use ingest_pipeline.Resolver.{is_shortener_domain}
use ingest_pipeline.Resolver.Bounds.{resolve_source_url-Sends}
use ingest_pipeline.Rss.Feed.{RssItem}
use ingest_pipeline.Schema.{RawArticle}
use ingest_pipeline.Store.{Env, World, ok}

-- The tests of an item against the table, without the loop: the link is its URL.
abbrev pub is_known : List RawArticle → Text → RssItem → Bool
is_known table feed_id item = elim item.link [
  | none ↦ false
  | some link ↦ any (same_key link feed_id) table
]

abbrev pub is_wanted : List RawArticle → Text → Option ℕ → RssItem → Bool
is_wanted table feed_id cutoff item = elim item.link [
  | none ↦ false
  | some link ↦
      not (any (same_key link feed_id) table) && not (is_before_cutoff cutoff item.pub_date)
]

-- No link is on a shortener, so that each is its own URL.
abbrev pub IsDirect : Libs → RssItem → Type 0
IsDirect libs item = is_shortener_domain libs (unwrap_or [] item.link) ≡ false

module _ (env : Env) (feed_id : Text) (cutoff : Option ℕ) (now : ℕ) where
  -- Articles with one id after the other.
  abbrev pub articles_of : ℕ → List RssItem → List RawArticle
  articles_of n [] = []
  articles_of n (item ∷ items) =
      article_of (env.fresh n) now feed_id (unwrap_or [] item.link) item ∷ articles_of (suc n) items

  found_by_key :
      (p : RawArticle → Bool) (rows : List RawArticle) → is_found (ok (find p rows)) ≡ any p rows
  found_by_key p [] = refl
  found_by_key p (a ∷ rows) = ground (arith, found_by_key p rows)

  module _ (works : (n : ℕ) → env.fails n ≡ false) where
    with_link-direct :
        (item : RssItem) (link : Text) (w : World)
        → is_shortener_domain env.libs link ≡ false
        → let queried = record w { statements = suc w.statements } in
          with_link feed_id cutoff now item link env w ≡ (
            if any (same_key link feed_id) w.articles
            then (ok duplicate, queried)
            else if is_before_cutoff cutoff item.pub_date
            then (ok skipped, queried)
            else (
              ok (fresh_article (article_of (env.fresh w.draws) now feed_id link item)),
              record queried { draws = suc w.draws },
            ))
    unfolding with_link get_by_url article_of
    with_link-direct item link w direct =
        let (answered, same, bound, unresolved) = resolve_source_url-Sends link env w in
        rw (unresolved direct)
          (ground (arith, works w.statements, found_by_key (same_key link feed_id) w.articles))

    process_items-step :
        (item : RssItem) (items : List RssItem) (w w' : World) (outcome : Outcome)
        (rest : ℕ × List RawArticle)
        → process_item feed_id cutoff now item env w ≡ (ok outcome, w')
        → (process_items feed_id cutoff now items env w').0 ≡ ok rest
        → (process_items feed_id cutoff now (item ∷ items) env w).0 ≡ ok (add_outcome outcome rest)
    unfolding process_items
    process_items-step item items w w' outcome rest h k = ground (arith, h, k)

    -- The loop is a selection: its count is of the items whose link the table knows for this feed, and
    -- its articles are those of the items with an unknown link and a date not before the cutoff, in
    -- their order, with the next ids. (No link is on a shortener, and no statement fails.)
    pub process_items-selected :
        (items : List RssItem) (w : World)
        → All (IsDirect env.libs) items
        → (process_items feed_id cutoff now items env w).0
          ≡ ok (
            length (select (is_known w.articles feed_id) items),
            articles_of w.draws (select (is_wanted w.articles feed_id cutoff) items),
          )
    unfolding process_items process_item with_link article_of
    process_items-selected [] w h = refl
    process_items-selected (item ∷ items) w (h, hs) = elim (Option-cases item.link) [
      | inl p ↦
          let step : process_item feed_id cutoff now item env w ≡ (ok skipped, w) =
            ground (arith, p) in
          ground (
            arith,
            p,
            process_items-step item items w w skipped _ step (process_items-selected items w hs),
          )
      | inr (link, p) ↦
          let direct : is_shortener_domain env.libs link ≡ false = ground (arith, p, h) in
          let step : process_item feed_id cutoff now item env w
              ≡ with_link feed_id cutoff now item link env w =
            rw (p, process_item) refl in
          let run = step ∙ with_link-direct item link w direct in
          let queried = record w { statements = suc w.statements } in
          let ih = process_items-selected items queried hs in
          elim (Bool-cases (any (same_key link feed_id) w.articles)) [
            | inl q ↦ ground (
              arith,
              p,
              q,
              process_items-step item items w queried duplicate _ (ground (arith, run, q)) ih,
            )
            | inr q ↦ elim (Bool-cases (is_before_cutoff cutoff item.pub_date)) [
              | inl r ↦ ground (
                arith,
                p,
                q,
                r,
                process_items-step item items w queried skipped _ (ground (arith, run, q, r)) ih,
              )
              | inr r ↦ ground (
                arith,
                p,
                q,
                r,
                process_items-step item items w (record queried { draws = suc w.draws })
                    (fresh_article (article_of (env.fresh w.draws) now feed_id link item)) _
                    (ground (arith, run, q, r))
                    (process_items-selected items (record queried { draws = suc w.draws }) hs),
              )
            ]
          ]
    ]
