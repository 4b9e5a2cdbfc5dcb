-- ===== src/Pipeline/Ingest/Exact.antt =====
-- What the ingest step stores when no statement fails (src/pipeline/ingest_step.rs).
use ingest_pipeline.Prelude.{
  ℕ, suc, ◌≡◌, refl, sym, subst, ◌∙◌, inl, inr, Bool, true, false, Option, none, some, List, [],
  ◌∷◌, ◌++◌, map, append-nil, arith, length, find, any, Option-cases, unwrap_or, length-append,
}
use ingest_pipeline.Prelude.Text.{Text}
use ingest_pipeline.Db.Articles.{
  same_key, has_feed, insert_rows, insert_batch, batch_row, get_by_url,
}
use ingest_pipeline.Db.Articles.Batch.{AreNew, IsUnused, IsFreshSupply, firsts, insert_rows-firsts}
use ingest_pipeline.Pipeline.Items.{
  Outcome, skipped, duplicate, fresh_article, with_link, process_item, process_items, article_of,
  add_outcome,
}
use ingest_pipeline.Resolver.{resolve_source_url}
use ingest_pipeline.Resolver.Bounds.{resolve_source_url-Sends}
use ingest_pipeline.Rss.Feed.{RssItem}
use ingest_pipeline.Schema.{RawArticle}
use ingest_pipeline.Store.{Env, World, Result, ok, err, run_both, is_ok}

module _ (env : Env) (works : (n : ℕ) → env.fails n ≡ false) where
  -- One item: an article with the next id and a key that the table does not have, or none.
  abbrev IsNewOutcome : Text → World → Result Outcome × World → Type 0
  IsNewOutcome feed_id w (err e, w') = ⊥
  IsNewOutcome feed_id w (ok (fresh_article a), w') =
      (a.id ≡ env.fresh w.draws)
      × (a.source_id ≡ feed_id)
      × (any (same_key a.url a.source_id) w.articles ≡ false)
      × (w'.draws ≡ suc w.draws)
      × (w'.articles ≡ w.articles)
      × (w'.feeds ≡ w.feeds)
  IsNewOutcome feed_id w (ok _, w') =
      (w'.draws ≡ w.draws) × (w'.articles ≡ w.articles) × (w'.feeds ≡ w.feeds)

  -- What a search finds.
  any-find :
      (p : RawArticle → Bool) (rows : List RawArticle) → find p rows ≡ none → any p rows ≡ false
  any-find p [] h = refl
  any-find p (a ∷ rows) h = ground (arith, any-find p rows)

  abbrev IsResolved : World → Result (Option Text) × World → Type 0
  IsResolved w r = (is_ok r.0 ≡ true) × (r.1 ≡ record w { requests = r.1.requests })

  with_link-IsNewOutcome :
      (feed_id : Text) (cutoff : Option ℕ) (now : ℕ) (item : RssItem) (link : Text) (w : World)
      → IsNewOutcome feed_id w (with_link feed_id cutoff now item link env w)
  unfolding with_link get_by_url article_of
  with_link-IsNewOutcome feed_id cutoff now item link w =
      run_both (IsResolved w) (IsNewOutcome feed_id w) (resolve_source_url link env w) _
        (ground (arith, resolve_source_url-Sends link env w)) (λ e w' h. absurd (ground arith))
        (λ resolved w' h. ground (
          arith,
          works w'.statements,
          any-find (same_key (unwrap_or link resolved) feed_id) w'.articles,
        ))

  process_item-IsNewOutcome :
      (feed_id : Text) (cutoff : Option ℕ) (now : ℕ) (item : RssItem) (w : World)
      → IsNewOutcome feed_id w (process_item feed_id cutoff now item env w)
  unfolding process_item
  process_item-IsNewOutcome feed_id cutoff now item w = elim (Option-cases item.link) [
    | inl p ↦ rw (p, process_item) (refl, refl, refl)
    | inr (link, p) ↦ rw (p, process_item) (with_link-IsNewOutcome feed_id cutoff now item link w)
  ]

  abbrev pub AreNewArticles : Text → World → Result (ℕ × List RawArticle) × World → Type 0
  AreNewArticles feed_id w (err e, w') = ⊥
  AreNewArticles feed_id w (ok (count, articles), w') =
      AreNew env feed_id w.articles w.draws articles
      × (w'.articles ≡ w.articles)
      × (w'.feeds ≡ w.feeds)

  pub same-AreNew :
      (feed_id : Text) (rows : List RawArticle) (table table' : List RawArticle) (n n' : ℕ)
      → table' ≡ table
      → n' ≡ n
      → AreNew env feed_id table' n' rows
      → AreNew env feed_id table n rows
  same-AreNew feed_id rows table table' n n' p q h =
      subst (λ t. AreNew env feed_id t n rows) p (subst (λ k. AreNew env feed_id table' k rows) q h)

  add_outcome-AreNewArticles :
      (feed_id : Text) (outcome : Outcome) (rest : ℕ × List RawArticle) (w w' w'' : World)
      → IsNewOutcome feed_id w (ok outcome, w')
      → AreNewArticles feed_id w' (ok rest, w'')
      → AreNewArticles feed_id w (ok (add_outcome outcome rest), w'')
  add_outcome-AreNewArticles feed_id skipped rest w w' w'' (d, t, f) (h, t', f') =
      (same-AreNew feed_id rest.1 _ _ _ _ t d h, t' ∙ t, f' ∙ f)
  add_outcome-AreNewArticles feed_id duplicate rest w w' w'' (d, t, f) (h, t', f') =
      (same-AreNew feed_id rest.1 _ _ _ _ t d h, t' ∙ t, f' ∙ f)
  add_outcome-AreNewArticles feed_id (fresh_article a) rest w w' w'' (id, source, new, d, t, f)
        (h, t', f') =
      ((id, source, new, same-AreNew feed_id rest.1 _ _ _ _ t d h), t' ∙ t, f' ∙ f)

  pub process_items-AreNewArticles :
      (feed_id : Text) (cutoff : Option ℕ) (now : ℕ) (items : List RssItem) (w : World)
      → AreNewArticles feed_id w (process_items feed_id cutoff now items env w)
  unfolding process_items
  process_items-AreNewArticles feed_id cutoff now [] w = (tt, refl, refl)
  process_items-AreNewArticles feed_id cutoff now (item ∷ items) w =
      run_both (IsNewOutcome feed_id w) (AreNewArticles feed_id w)
        (process_item feed_id cutoff now item env w) _
        (process_item-IsNewOutcome feed_id cutoff now item w) (λ e w' h. absurd h)
        (λ outcome w' h.
          run_both (AreNewArticles feed_id w') (AreNewArticles feed_id w)
            (process_items feed_id cutoff now items env w') _
            (process_items-AreNewArticles feed_id cutoff now items w') (λ e w'' k. absurd k)
            (λ rest w'' k. add_outcome-AreNewArticles feed_id outcome rest w w' w'' h k))

  batch_row-AreNew :
      (feed_id : Text) (now n : ℕ) (table rows : List RawArticle)
      → AreNew env feed_id table n rows
      → AreNew env feed_id table n (map (batch_row now) rows)
  unfolding batch_row
  batch_row-AreNew feed_id now n table [] h = tt
  batch_row-AreNew feed_id now n table (a ∷ rows) (id, source, new, h) =
      (id, source, new, batch_row-AreNew feed_id now (suc n) table rows h)

  -- The rows that the batch gives to the database: it is sent at a time of its own.
  abbrev pub batch_of : World → List RawArticle → List RawArticle
  batch_of w articles = map (batch_row (env.now w.statements)) articles

  pub insert_batch-firsts :
      (feed_id : Text) (articles : List RawArticle) (n : ℕ) (w : World)
      → IsFreshSupply env
      → has_feed feed_id w.feeds ≡ true
      → IsUnused env n w.articles
      → AreNew env feed_id w.articles n articles
      → let (r, v) = insert_batch articles env w in
        (r ≡ ok (length (firsts [] (batch_of w articles))))
        × (v.articles ≡ w.articles ++ firsts [] (batch_of w articles))
  unfolding insert_batch firsts
  insert_batch-firsts feed_id [] n w supply known unused h = (refl, sym (append-nil w.articles))
  insert_batch-firsts feed_id (a ∷ articles) n w supply known unused h =
      let rows = batch_of w (a ∷ articles) in
      let free = subst (IsUnused env n) (sym (append-nil w.articles)) unused in
      let new = batch_row-AreNew feed_id (env.now w.statements) n w.articles (a ∷ articles) h in
      let stored =
        subst (λ t. insert_rows w.feeds t rows ≡ some (t ++ firsts [] rows)) (append-nil w.articles)
          (insert_rows-firsts env feed_id w.feeds w.articles n [] rows supply known free new) in
      ground (arith, works w.statements, stored, length-append w.articles (firsts [] rows))
