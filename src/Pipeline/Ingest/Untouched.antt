-- ===== src/Pipeline/Ingest/Untouched.antt =====
-- The ingest step and the tables of jobs and of runs (src/pipeline/ingest_step.rs).
use ingest_pipeline.Prelude.{
  refl, inr, inl, Option-cases, ℕ, Bool, Option, none, some, List, [], ◌∷◌, arith, false, true,
}
use ingest_pipeline.Prelude.Text.{Text}
use ingest_pipeline.Db.Articles.{get_by_url, insert_batch}
use ingest_pipeline.Db.Feeds.{get_by_id, update_fetch_status, get_last_ingested_pub_date}
use ingest_pipeline.Pipeline.Ingest.{
  store_items, fetch_failed, use_items, use_body, use_response, with_feed, feed_request,
  process_ingest_step,
}
use ingest_pipeline.Pipeline.Items.{process_items, process_item, with_link, recent_items}
use ingest_pipeline.Resolver.{is_success}
use ingest_pipeline.Resolver.Bounds.{resolve_source_url-Sends}
use ingest_pipeline.Rss.Feed.{parse_feed, RssItem}
use ingest_pipeline.Schema.{Job, PipelineRun, FeedFetchStatus, FeedSource, RawArticle}
use ingest_pipeline.Store.{
  ◌>>=◌, Env, World, Result, ok, err, run_keeps, branch_keeps, HasJobs, HasQueue, request, attempt,
  Response,
}

module _ (jobs : List Job) (runs : List PipelineRun) (env : Env) where
  with_link-HasQueue :
      (feed_id : Text) (cutoff : Option ℕ) (now : ℕ) (item : RssItem) (link : Text) (w : World)
      → HasQueue jobs runs w
      → HasQueue jobs runs (with_link feed_id cutoff now item link env w).1
  unfolding with_link get_by_url
  with_link-HasQueue feed_id cutoff now item link w h =
      ground (arith, resolve_source_url-Sends link env w)

  process_item-HasQueue :
      (feed_id : Text) (cutoff : Option ℕ) (now : ℕ) (item : RssItem) (w : World)
      → HasQueue jobs runs w
      → HasQueue jobs runs (process_item feed_id cutoff now item env w).1
  unfolding process_item
  process_item-HasQueue feed_id cutoff now item w h = elim (Option-cases item.link) [
    | inl p ↦ rw (p, process_item) h
    | inr (link, p) ↦ rw (p, process_item) (with_link-HasQueue feed_id cutoff now item link w h)
  ]

  process_items-HasQueue :
      (feed_id : Text) (cutoff : Option ℕ) (now : ℕ) (items : List RssItem) (w : World)
      → HasQueue jobs runs w
      → HasQueue jobs runs (process_items feed_id cutoff now items env w).1
  unfolding process_items
  process_items-HasQueue feed_id cutoff now [] w h = h
  process_items-HasQueue feed_id cutoff now (item ∷ items) w h =
      run_keeps (HasQueue jobs runs) (process_item feed_id cutoff now item env w) _
        (process_item-HasQueue feed_id cutoff now item w h)
        (λ outcome w' h'.
          run_keeps (HasQueue jobs runs) (process_items feed_id cutoff now items env w') _
            (process_items-HasQueue feed_id cutoff now items w' h') (λ rest w'' h''. h''))

  update_fetch_status-HasQueue :
      (feed_id : Text) (status : FeedFetchStatus) (error : Option Text) (w : World)
      → HasQueue jobs runs w
      → HasQueue jobs runs (update_fetch_status feed_id status error env w).1
  unfolding update_fetch_status
  update_fetch_status-HasQueue feed_id status error w h = ground arith

  insert_batch-HasQueue :
      (articles : List RawArticle) (w : World)
      → HasQueue jobs runs w
      → HasQueue jobs runs (insert_batch articles env w).1
  unfolding insert_batch
  insert_batch-HasQueue [] w h = h
  insert_batch-HasQueue (a ∷ articles) w h = ground arith

  cursor-HasQueue :
      (feed_id : Text) (w : World)
      → HasQueue jobs runs w
      → HasQueue jobs runs (get_last_ingested_pub_date feed_id env w).1
  unfolding get_last_ingested_pub_date
  cursor-HasQueue feed_id w h = ground arith

  store_items-HasQueue :
      (feed : FeedSource) (feed_id : Text) (parsed : List RssItem) (w : World)
      → HasQueue jobs runs w
      → HasQueue jobs runs (store_items feed feed_id parsed env w).1
  unfolding store_items
  store_items-HasQueue feed feed_id parsed w h =
      run_keeps (HasQueue jobs runs) (process_items feed_id _ _ (recent_items parsed) env _) _
        (process_items-HasQueue feed_id _ _ (recent_items parsed) _ (cursor-HasQueue feed_id w h))
        (λ found w' h'.
          update_fetch_status-HasQueue feed_id FeedFetchStatus.success none _
            (insert_batch-HasQueue found.1 w' h'))

  fetch_failed-HasQueue :
      (feed : FeedSource) (feed_id message : Text) (retryable : Bool) (w : World)
      → HasQueue jobs runs w
      → HasQueue jobs runs (fetch_failed feed feed_id message retryable env w).1
  unfolding fetch_failed
  fetch_failed-HasQueue feed feed_id message retryable w h =
      update_fetch_status-HasQueue feed_id FeedFetchStatus.failed (some message) w h

  use_items-HasQueue :
      (feed : FeedSource) (feed_id : Text) (r : Result (List RssItem)) (w : World)
      → HasQueue jobs runs w
      → HasQueue jobs runs (use_items feed feed_id r env w).1
  unfolding use_items
  use_items-HasQueue feed feed_id (err e) w h = fetch_failed-HasQueue feed feed_id _ false w h
  use_items-HasQueue feed feed_id (ok items) w h = store_items-HasQueue feed feed_id items w h

  use_response-HasQueue :
      (feed : FeedSource) (feed_id : Text) (r : Result Response) (w : World)
      → HasQueue jobs runs w
      → HasQueue jobs runs (use_response feed feed_id r env w).1
  unfolding use_response use_body
  use_response-HasQueue feed feed_id (err e) w h = fetch_failed-HasQueue feed feed_id _ true w h
  use_response-HasQueue feed feed_id (ok response) w h =
      branch_keeps (HasQueue jobs runs) (is_success response.status)
        (use_body feed feed_id response.payload) _ env w (body response.payload)
        (fetch_failed-HasQueue feed feed_id _ _ w h)
    where
      body : (payload : Result Text) → HasQueue jobs runs (use_body feed feed_id payload env w).1
      body (err e) = fetch_failed-HasQueue feed feed_id _ true w h
      body (ok s) = use_items-HasQueue feed feed_id (parse_feed env.libs s feed.feed_url) w h

  with_feed-HasQueue :
      (feed_id : Text) (found : Result (Option FeedSource)) (w : World)
      → HasQueue jobs runs w
      → HasQueue jobs runs (with_feed feed_id found env w).1
  unfolding with_feed
  with_feed-HasQueue feed_id (err e) w h = h
  with_feed-HasQueue feed_id (ok none) w h = h
  with_feed-HasQueue feed_id (ok (some feed)) w h =
      branch_keeps (HasQueue jobs runs) feed.enabled
        (attempt (request (feed_request feed.feed_url)) >>= use_response feed feed_id) _ env w
        (use_response-HasQueue feed feed_id _ _ h) h

  -- The ingest step itself leaves the tables of jobs and of runs as they are.
  pub process_ingest_step-HasQueue :
      (feed_id : Text) (w : World)
      → HasQueue jobs runs w
      → HasQueue jobs runs (process_ingest_step feed_id env w).1
  unfolding process_ingest_step get_by_id
  process_ingest_step-HasQueue feed_id w h =
      let r = get_by_id feed_id env w in with_feed-HasQueue feed_id r.0 r.1 (ground arith)

pub process_ingest_step-HasJobs :
    (jobs : List Job) (env : Env) (feed_id : Text) (w : World)
    → HasJobs jobs w
    → HasJobs jobs (process_ingest_step feed_id env w).1
process_ingest_step-HasJobs jobs env feed_id w h =
    (process_ingest_step-HasQueue jobs w.runs env feed_id w (h, refl)).0
