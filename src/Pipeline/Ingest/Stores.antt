-- ===== src/Pipeline/Ingest/Stores.antt =====
-- What the ingest step stores of a feed that it can read (src/pipeline/ingest_step.rs).
use ingest_pipeline.Prelude.{
  ℕ, suc, ◌≡◌, refl, sym, ap, subst, ◌∙◌, true, false, none, some, List, [], ◌∷◌, ◌++◌, map, arith,
  length, find,
}
use ingest_pipeline.Prelude.Text.{Text, text_eq}
use ingest_pipeline.Db.Articles.{has_feed, insert_batch}
use ingest_pipeline.Db.Articles.Batch.{AreNew, IsUnused, IsFreshSupply, firsts}
use ingest_pipeline.Db.Feeds.{get_by_id, get_last_ingested_pub_date}
use ingest_pipeline.Pipeline.Ingest.{
  store_items, process_ingest_step, with_feed, use_response, use_body, use_items, IngestStepResult,
  feed_request, count_or_zero,
}
use ingest_pipeline.Pipeline.Ingest.Exact.{
  same-AreNew, AreNewArticles, batch_of, process_items-AreNewArticles, insert_batch-firsts,
}
use ingest_pipeline.Pipeline.Ingest.Keys.{fetch_status-articles}
use ingest_pipeline.Pipeline.Items.{process_items, recent_items, cutoff_of}
use ingest_pipeline.Resolver.{is_success}
use ingest_pipeline.Rss.Feed.{RssItem, parse_feed}
use ingest_pipeline.Schema.{RawArticle, FeedSource, FeedFetchStatus}
use ingest_pipeline.Store.{run_pair, Env, World, Result, ok, Response}

module _ (env : Env) (works : (n : ℕ) → env.fails n ≡ false) where
  -- The feed has been read and fetched.
  abbrev pub fetched : World → World
  fetched w = record w { statements = suc w.statements; requests = suc w.requests }

  -- The loop over the recent items of the feed, which starts when its cursor has been read.
  abbrev pub loop_of : Text → List RssItem → World → Result (ℕ × List RawArticle) × World
  loop_of feed_id parsed w =
      let (cutoff_text, started) = get_last_ingested_pub_date feed_id env (fetched w) in
      process_items feed_id (cutoff_of env.libs cutoff_text) (env.now started.statements)
        (recent_items parsed) env started

  -- All articles of the loop are reported as new; their ids are the next ones, and their keys are not
  -- in the table. Of those with one key the first is stored, and these are the rows that are counted.
  abbrev pub IsStored :
      Text → World → Result (ℕ × List RawArticle) × World → Result IngestStepResult × World → Type 0
  IsStored feed_id w (ok (count, articles), u) (ok r, v) =
      let rows = firsts [] (batch_of env works u articles) in
      (r.new_article_ids ≡ map (λ a. a.id) articles)
      × (r.duplicate_count ≡ count)
      × (r.inserted_count ≡ length rows)
      × (v.articles ≡ w.articles ++ rows)
      × (r.error ≡ none)
      × AreNew env feed_id w.articles w.draws articles
  IsStored feed_id w loop outcome = ⊥

  cursor-tables :
      (feed_id : Text) (w : World)
      → let v = (get_last_ingested_pub_date feed_id env w).1 in
        (v.articles ≡ w.articles) × (v.feeds ≡ w.feeds) × (v.draws ≡ w.draws)
  unfolding get_last_ingested_pub_date
  cursor-tables feed_id w = ground arith

  store_items-IsStored :
      (feed : FeedSource) (feed_id : Text) (parsed : List RssItem) (w : World)
      → IsFreshSupply env
      → has_feed feed_id w.feeds ≡ true
      → IsUnused env w.draws w.articles
      → IsStored feed_id w
          (loop_of feed_id parsed w)
          (store_items feed feed_id parsed env (fetched w))
  unfolding store_items
  store_items-IsStored feed feed_id parsed w supply known unused =
      let (cutoff_text, started) = get_last_ingested_pub_date feed_id env (fetched w) in
      let (t, f, d) = cursor-tables feed_id (fetched w) in
      run_pair (AreNewArticles env works feed_id started) (IsStored feed_id w)
        (loop_of feed_id parsed w) _
        (process_items-AreNewArticles env works feed_id _ _ (recent_items parsed) started)
        (λ e u h. absurd h)
        (λ found u h.
          let (new, t', f') = h in
          let known' = subst (λ feeds. has_feed feed_id feeds ≡ true) (sym (f' ∙ f)) known in
          let unused' = subst (IsUnused env w.draws) (sym (t' ∙ t)) unused in
          let new' = same-AreNew env works feed_id found.1 _ _ _ _ (sym t') d new in
          let (count, rows) =
            insert_batch-firsts env works feed_id found.1 w.draws u supply known' unused' new' in
          (
            refl,
            refl,
            ap count_or_zero count,
            fetch_status-articles feed_id FeedFetchStatus.success none env
                  (insert_batch found.1 env u).1
                ∙ rows
                ∙ ap (λ table. table ++ firsts [] (batch_of env works u found.1)) (t' ∙ t),
            refl,
            same-AreNew env works feed_id found.1 _ _ _ _ t d new,
          ))

  known_feed :
      (feed_id : Text) (feed : FeedSource) (feeds : List FeedSource)
      → find (λ f. text_eq f.id feed_id) feeds ≡ some feed
      → has_feed feed_id feeds ≡ true
  known_feed feed_id feed [] h = absurd (ground arith)
  known_feed feed_id feed (f ∷ feeds) h = ground (arith, known_feed feed_id feed feeds)

  get_by_id-found :
      (feed : FeedSource) (feed_id : Text) (w : World)
      → find (λ f. text_eq f.id feed_id) w.feeds ≡ some feed
      → get_by_id feed_id env w ≡ (ok (some feed), record w { statements = suc w.statements })
  unfolding get_by_id
  get_by_id-found feed feed_id w h = ground (arith, works w.statements)

  with_feed-store_items :
      (feed : FeedSource) (feed_id : Text) (response : Response) (body : Text)
      (parsed : List RssItem) (w : World)
      → feed.enabled ≡ true
      → env.send w.requests (feed_request feed.feed_url) ≡ ok response
      → is_success response.status ≡ true
      → response.payload ≡ ok body
      → parse_feed env.libs body feed.feed_url ≡ ok parsed
      → with_feed feed_id (ok (some feed)) env w
        ≡ store_items feed feed_id parsed env (record w { requests = suc w.requests })
  unfolding with_feed use_response use_body use_items
  with_feed-store_items feed feed_id response body parsed w enabled sent success read items =
      rw (enabled, sent, success, read, items) refl

  -- An enabled feed that can be fetched and parsed is ingested: the step reports the articles that the
  -- loop over its recent items made, in their order; it adds to the table those with the first
  -- occurrence of their URL, with the defaults of the insertion, and counts them. (No statement fails,
  -- and no id is drawn that was drawn before or that the table has.)
  pub process_ingest_step-IsStored :
      (feed : FeedSource) (feed_id : Text) (response : Response) (body : Text)
      (parsed : List RssItem) (w : World)
      → find (λ f. text_eq f.id feed_id) w.feeds ≡ some feed
      → feed.enabled ≡ true
      → env.send w.requests (feed_request feed.feed_url) ≡ ok response
      → is_success response.status ≡ true
      → response.payload ≡ ok body
      → parse_feed env.libs body feed.feed_url ≡ ok parsed
      → IsFreshSupply env
      → IsUnused env w.draws w.articles
      → IsStored feed_id w (loop_of feed_id parsed w) (process_ingest_step feed_id env w)
  unfolding process_ingest_step
  process_ingest_step-IsStored feed feed_id response body parsed w found enabled sent success read
        items supply unused =
      let read_feed = get_by_id-found feed feed_id w found in
      let run =
        with_feed-store_items feed feed_id response body parsed _ enabled sent success read items in
      subst (IsStored feed_id w (loop_of feed_id parsed w))
        (sym (ap (λ r. with_feed feed_id r.0 env r.1) read_feed ∙ run))
        (store_items-IsStored feed feed_id parsed w supply (known_feed feed_id feed w.feeds found)
          unused)
