-- ===== src/Pipeline/Ingest/Keys.antt =====
-- The key of the table of articles under the ingest step (src/pipeline/ingest_step.rs).
use ingest_pipeline.Prelude.{
  ◌∙◌, sym, subst, ◌≡◌, Bool, Option, none, some, List, arith, length, false, true,
}
use ingest_pipeline.Prelude.Text.{Text}
use ingest_pipeline.Db.Articles.Keys.{HasUniqueKeys, insert_batch-HasUniqueKeys}
use ingest_pipeline.Db.Feeds.{get_by_id, update_fetch_status, get_last_ingested_pub_date}
use ingest_pipeline.Pipeline.Ingest.{
  store_items, process_ingest_step, fetch_failed, use_items, use_body, use_response, with_feed,
  feed_request,
}
use ingest_pipeline.Pipeline.Ingest.Counts.{IsLoop, process_items-IsLoop}
use ingest_pipeline.Pipeline.Items.{process_items, cutoff_of, recent_items}
use ingest_pipeline.Resolver.{is_success}
use ingest_pipeline.Rss.Feed.{parse_feed, RssItem}
use ingest_pipeline.Schema.{FeedFetchStatus, FeedSource}
use ingest_pipeline.Store.{
  ◌>>=◌, Env, World, Result, ok, err, run_both, branch_both, request, Response, attempt,
}

abbrev KeepsKeys : {A : Type 0} → Result A × World → Type 0
KeepsKeys r = HasUniqueKeys r.1.articles

pub fetch_status-articles :
    (feed_id : Text) (status : FeedFetchStatus) (error : Option Text) (env : Env) (w : World)
    → (update_fetch_status feed_id status error env w).1.articles ≡ w.articles
unfolding update_fetch_status
fetch_status-articles feed_id status error env w = ground arith

cursor-articles :
    (feed_id : Text) (env : Env) (w : World)
    → (get_last_ingested_pub_date feed_id env w).1.articles ≡ w.articles
unfolding get_last_ingested_pub_date
cursor-articles feed_id env w = ground arith

store_items-KeepsKeys :
    (feed : FeedSource) (feed_id : Text) (parsed : List RssItem) (env : Env) (w : World)
    → HasUniqueKeys w.articles
    → KeepsKeys (store_items feed feed_id parsed env w)
unfolding store_items
store_items-KeepsKeys feed feed_id parsed env w h =
    let (cutoff_text, w') = get_last_ingested_pub_date feed_id env w in
    let items = recent_items parsed in
    let cutoff = cutoff_of env.libs cutoff_text in
    run_both (IsLoop (length items) feed_id cutoff w') KeepsKeys
      (process_items feed_id cutoff (env.now w'.statements) items env w') _
      (process_items-IsLoop feed_id cutoff (env.now w'.statements) items env w')
      (λ e w'' k. absurd k)
      (λ found w'' k.
        let (count, fresh, e) = k in
        subst HasUniqueKeys (sym (fetch_status-articles feed_id FeedFetchStatus.success none env _))
          (insert_batch-HasUniqueKeys found.1 env w''
            (subst HasUniqueKeys (sym (e ∙ cursor-articles feed_id env w)) h)))

fetch_failed-KeepsKeys :
    (feed : FeedSource) (feed_id message : Text) (retryable : Bool) (env : Env) (w : World)
    → HasUniqueKeys w.articles
    → KeepsKeys (fetch_failed feed feed_id message retryable env w)
unfolding fetch_failed update_fetch_status
fetch_failed-KeepsKeys feed feed_id message retryable env w h = ground arith

use_items-KeepsKeys :
    (feed : FeedSource) (feed_id : Text) (r : Result (List RssItem)) (env : Env) (w : World)
    → HasUniqueKeys w.articles
    → KeepsKeys (use_items feed feed_id r env w)
unfolding use_items
use_items-KeepsKeys feed feed_id (err e) env w h =
    fetch_failed-KeepsKeys feed feed_id _ false env w h
use_items-KeepsKeys feed feed_id (ok items) env w h =
    store_items-KeepsKeys feed feed_id items env w h

use_body-KeepsKeys :
    (feed : FeedSource) (feed_id : Text) (body : Result Text) (env : Env) (w : World)
    → HasUniqueKeys w.articles
    → KeepsKeys (use_body feed feed_id body env w)
unfolding use_body
use_body-KeepsKeys feed feed_id (err e) env w h = fetch_failed-KeepsKeys feed feed_id _ true env w h
use_body-KeepsKeys feed feed_id (ok body) env w h =
    use_items-KeepsKeys feed feed_id (parse_feed env.libs body feed.feed_url) env w h

use_response-KeepsKeys :
    (feed : FeedSource) (feed_id : Text) (r : Result Response) (env : Env) (w : World)
    → HasUniqueKeys w.articles
    → KeepsKeys (use_response feed feed_id r env w)
unfolding use_response
use_response-KeepsKeys feed feed_id (err e) env w h =
    fetch_failed-KeepsKeys feed feed_id _ true env w h
use_response-KeepsKeys feed feed_id (ok response) env w h =
    branch_both KeepsKeys (is_success response.status) (use_body feed feed_id response.payload) _
      env w (use_body-KeepsKeys feed feed_id response.payload env w h)
      (fetch_failed-KeepsKeys feed feed_id _ _ env w h)

with_feed-KeepsKeys :
    (feed_id : Text) (found : Result (Option FeedSource)) (env : Env) (w : World)
    → HasUniqueKeys w.articles
    → KeepsKeys (with_feed feed_id found env w)
unfolding with_feed
with_feed-KeepsKeys feed_id (err e) env w h = h
with_feed-KeepsKeys feed_id (ok none) env w h = h
with_feed-KeepsKeys feed_id (ok (some feed)) env w h =
    branch_both KeepsKeys feed.enabled
      (attempt (request (feed_request feed.feed_url)) >>= use_response feed feed_id) _ env w
      (use_response-KeepsKeys feed feed_id _ env _ h) h

-- The ingest step keeps the key of the table of articles: if no two articles have the same URL and
-- feed before it, none have after it, whatever the feed holds and whichever statements fail.
pub process_ingest_step-HasUniqueKeys :
    (feed_id : Text) (env : Env) (w : World)
    → HasUniqueKeys w.articles
    → HasUniqueKeys (process_ingest_step feed_id env w).1.articles
unfolding process_ingest_step get_by_id
process_ingest_step-HasUniqueKeys feed_id env w h =
    let r = get_by_id feed_id env w in with_feed-KeepsKeys feed_id r.0 env r.1 (ground arith)
