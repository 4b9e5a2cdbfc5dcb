-- ===== src/Pipeline/Ingest/Counts.antt =====
-- What the ingest step reports (src/pipeline/ingest_step.rs).
use ingest_pipeline.Prelude.{
  length-map, inr, length-append, inl, ◌++◌, Option-cases, length-take, ◌∙◌, All, ◌≤◌, ◌+◌, ℕ, ◌≡◌,
  Bool, true, false, Option, none, some, List, [], ◌∷◌, arith, refl, map, suc, length,
}
use ingest_pipeline.Prelude.Sort.{sort}
use ingest_pipeline.Prelude.Text.{Text}
use ingest_pipeline.Db.Articles.{batch_row, insert_rows, get_by_url, insert_batch}
use ingest_pipeline.Db.Feeds.{get_last_ingested_pub_date}
use ingest_pipeline.Pipeline.Ingest.{
  use_items, feed_request, use_response, fetch_failed, use_body, process_ingest_step, with_feed,
  failed_step, count_or_zero, IngestStepResult, store_items,
}
use ingest_pipeline.Pipeline.Items.{
  Outcome, cutoff_of, skipped, fresh_article, newer, recent_items, add_outcome, is_before_cutoff,
  article_of, process_items, process_item, with_link,
}
use ingest_pipeline.Resolver.{is_success}
use ingest_pipeline.Resolver.Bounds.{resolve_source_url-Sends}
use ingest_pipeline.Rss.Feed.{parse_feed, RssItem}
use ingest_pipeline.Schema.{FeedSource, ProcessingStatus, RawArticle}
use ingest_pipeline.Store.{
  ◌>>=◌, if_both, Env, World, Result, ok, err, run_both, request, attempt, Response,
}

-- An article that the loop makes: of this feed, not yet worked on, and not older than the cutoff.
abbrev pub IsFresh : Text → Option ℕ → RawArticle → Type 0
IsFresh feed_id cutoff a =
    (a.source_id ≡ feed_id)
    × (a.processing_status ≡ ProcessingStatus.ingested)
    × (is_before_cutoff cutoff a.pub_date ≡ false)

abbrev IsOutcome : Text → Option ℕ → World → Result Outcome × World → Type 0
IsOutcome feed_id cutoff w (err e, w') = ⊥
IsOutcome feed_id cutoff w (ok (fresh_article a), w') =
    IsFresh feed_id cutoff a × (w'.articles ≡ w.articles)
IsOutcome feed_id cutoff w (ok _, w') = w'.articles ≡ w.articles

with_link-IsOutcome :
    (feed_id : Text) (cutoff : Option ℕ) (now : ℕ) (item : RssItem) (link : Text) (env : Env)
    (w : World)
    → IsOutcome feed_id cutoff w (with_link feed_id cutoff now item link env w)
unfolding with_link get_by_url article_of
with_link-IsOutcome feed_id cutoff now item link env w =
    ground (arith, resolve_source_url-Sends link env w)

process_item-IsOutcome :
    (feed_id : Text) (cutoff : Option ℕ) (now : ℕ) (item : RssItem) (env : Env) (w : World)
    → IsOutcome feed_id cutoff w (process_item feed_id cutoff now item env w)
unfolding process_item
process_item-IsOutcome feed_id cutoff now item env w = elim (Option-cases item.link) [
  | inl p ↦ rw (p, process_item) refl
  | inr (link, p) ↦ rw (p, process_item) (with_link-IsOutcome feed_id cutoff now item link env w)
]

-- The loop over n items.
abbrev pub IsLoop : ℕ → Text → Option ℕ → World → Result (ℕ × List RawArticle) × World → Type 0
IsLoop n feed_id cutoff w (err e, w') = ⊥
IsLoop n feed_id cutoff w (ok (count, articles), w') =
    (count + length articles ≤ n)
    × All (IsFresh feed_id cutoff) articles
    × (w'.articles ≡ w.articles)

add_outcome-IsLoop :
    (n : ℕ) (feed_id : Text) (cutoff : Option ℕ) (outcome : Outcome) (rest : ℕ × List RawArticle)
    (w w' w'' : World)
    → IsOutcome feed_id cutoff w (ok outcome, w')
    → IsLoop n feed_id cutoff w' (ok rest, w'')
    → IsLoop (suc n) feed_id cutoff w (ok (add_outcome outcome rest), w'')
add_outcome-IsLoop n feed_id cutoff skipped rest w w' w'' h (c, a, e) = (omega arith, a, e ∙ h)
add_outcome-IsLoop n feed_id cutoff Outcome.duplicate rest w w' w'' h (c, a, e) =
    (omega arith, a, e ∙ h)
add_outcome-IsLoop n feed_id cutoff (fresh_article x) rest w w' w'' (f, h) (c, a, e) =
    (omega arith, (f, a), e ∙ h)

pub process_items-IsLoop :
    (feed_id : Text) (cutoff : Option ℕ) (now : ℕ) (items : List RssItem) (env : Env) (w : World)
    → IsLoop (length items) feed_id cutoff w (process_items feed_id cutoff now items env w)
unfolding process_items
process_items-IsLoop feed_id cutoff now [] env w = ground arith
process_items-IsLoop feed_id cutoff now (item ∷ items) env w =
    run_both (IsOutcome feed_id cutoff w) (IsLoop (suc (length items)) feed_id cutoff w)
      (process_item feed_id cutoff now item env w) _
      (process_item-IsOutcome feed_id cutoff now item env w) (λ e w' h. absurd h)
      (λ outcome w' h.
        run_both (IsLoop (length items) feed_id cutoff w')
          (IsLoop (suc (length items)) feed_id cutoff w)
          (process_items feed_id cutoff now items env w') _
          (process_items-IsLoop feed_id cutoff now items env w') (λ e w'' k. absurd k)
          (λ rest w'' k.
            add_outcome-IsLoop (length items) feed_id cutoff outcome rest w w' w'' h k))

-- A report: the items are counted once at most, there are at most 30 of them, and no more rows are
-- inserted than there are new articles.
abbrev pub IsReport : Result IngestStepResult → Type 0
IsReport (err e) = ⊥
IsReport (ok r) =
    (length r.new_article_ids + r.duplicate_count ≤ r.total_items)
    × (r.total_items ≤ 30)
    × (r.inserted_count ≤ length r.new_article_ids)

insert_rows-bound :
    (feeds : List FeedSource) (table rows : List RawArticle) (table' : List RawArticle)
    → insert_rows feeds table rows ≡ some table'
    → length table' ≤ length table + length rows
unfolding insert_rows
insert_rows-bound feeds table [] table' h = ground arith
insert_rows-bound feeds table (a ∷ rows) table' h = ground (
  arith,
  insert_rows-bound feeds table rows table',
  insert_rows-bound feeds (table ++ a ∷ []) rows table',
  length-append table (a ∷ []),
)

abbrev IsCount : ℕ → Result ℕ → Type 0
IsCount n (ok count) = count ≤ n
IsCount n (err e) = Unit {0}

insert_batch-bound :
    (articles : List RawArticle) (env : Env) (w : World)
    → IsCount (length articles) (insert_batch articles env w).0
unfolding insert_batch
insert_batch-bound [] env w = ground arith
insert_batch-bound (a ∷ rows) env w =
    let new = map (batch_row (env.now w.statements)) (a ∷ rows) in
    elim (Option-cases (insert_rows w.feeds w.articles new)) [
      | inl p ↦ ground arith
      | inr (table, p) ↦ ground (
        arith,
        insert_rows-bound w.feeds w.articles new table p,
        length-map (a ∷ rows) (batch_row (env.now w.statements)),
      )
    ]

recent_items-bound : (items : List RssItem) → length (recent_items items) ≤ 30
unfolding recent_items
recent_items-bound items =
    omega (arith, length-take 30 (sort (λ a b. newer a.pub_date b.pub_date) items))

count_or_zero-bound : (n : ℕ) (r : Result ℕ) → IsCount n r → count_or_zero r ≤ n
count_or_zero-bound n (ok count) h = h
count_or_zero-bound n (err e) h = omega arith

-- The report on a feed that could be read has no error.
abbrev pub IsFinished : Result IngestStepResult → Type 0
IsFinished (err e) = ⊥
IsFinished (ok r) = IsReport (ok r) × (r.error ≡ none) × (r.retryable ≡ false)

-- Once the feed is parsed, the report has no error and is not to be retried, and keeps the bounds of
-- a report, whatever the database does: also when the insertion of the new articles fails.
pub store_items-IsFinished :
    (feed : FeedSource) (feed_id : Text) (parsed : List RssItem) (env : Env) (w : World)
    → IsFinished (store_items feed feed_id parsed env w).0
unfolding store_items
store_items-IsFinished feed feed_id parsed env w =
    let (cutoff_text, w') = get_last_ingested_pub_date feed_id env w in
    let items = recent_items parsed in
    let cutoff = cutoff_of env.libs cutoff_text in
    run_both (IsLoop (length items) feed_id cutoff w') (λ r. IsFinished r.0)
      (process_items feed_id cutoff (env.now w'.statements) items env w') _
      (process_items-IsLoop feed_id cutoff (env.now w'.statements) items env w')
      (λ e w'' h. absurd h)
      (λ found w'' h. (
        (
          omega (arith, h.0, length-map found.1 (λ a. a.id)),
          recent_items-bound parsed,
          omega (
            arith,
            count_or_zero-bound (length found.1) (insert_batch found.1 env w'').0
                (insert_batch-bound found.1 env w''),
            length-map found.1 (λ a. a.id),
          ),
        ),
        refl,
        refl,
      ))

finished-IsReport : (r : Result IngestStepResult) → IsFinished r → IsReport r
finished-IsReport (ok r) h = h.0
finished-IsReport (err e) h = h

fetch_failed-IsReport :
    (feed : FeedSource) (feed_id message : Text) (retryable : Bool) (env : Env) (w : World)
    → IsReport (fetch_failed feed feed_id message retryable env w).0
unfolding fetch_failed failed_step
fetch_failed-IsReport feed feed_id message retryable env w = ground arith

use_items-IsReport :
    (feed : FeedSource) (feed_id : Text) (r : Result (List RssItem)) (env : Env) (w : World)
    → IsReport (use_items feed feed_id r env w).0
unfolding use_items
use_items-IsReport feed feed_id (err e) env w = fetch_failed-IsReport feed feed_id _ false env w
use_items-IsReport feed feed_id (ok items) env w =
    finished-IsReport _ (store_items-IsFinished feed feed_id items env w)

use_body-IsReport :
    (feed : FeedSource) (feed_id : Text) (body : Result Text) (env : Env) (w : World)
    → IsReport (use_body feed feed_id body env w).0
unfolding use_body
use_body-IsReport feed feed_id (err e) env w = fetch_failed-IsReport feed feed_id _ true env w
use_body-IsReport feed feed_id (ok body) env w =
    use_items-IsReport feed feed_id (parse_feed env.libs body feed.feed_url) env w

use_response-IsReport :
    (feed : FeedSource) (feed_id : Text) (r : Result Response) (env : Env) (w : World)
    → IsReport (use_response feed feed_id r env w).0
unfolding use_response
use_response-IsReport feed feed_id (err e) env w = fetch_failed-IsReport feed feed_id _ true env w
use_response-IsReport feed feed_id (ok response) env w =
    if_both IsReport (is_success response.status) (use_body feed feed_id response.payload) _ env w
      (use_body-IsReport feed feed_id response.payload env w)
      (fetch_failed-IsReport feed feed_id _ _ env w)

with_feed-IsReport :
    (feed_id : Text) (found : Result (Option FeedSource)) (env : Env) (w : World)
    → IsReport (with_feed feed_id found env w).0
unfolding with_feed failed_step
with_feed-IsReport feed_id (err e) env w = ground arith
with_feed-IsReport feed_id (ok none) env w = ground arith
with_feed-IsReport feed_id (ok (some feed)) env w =
    if_both IsReport feed.enabled
      (attempt (request (feed_request feed.feed_url)) >>= use_response feed feed_id) _ env w
      (use_response-IsReport feed feed_id _ env _) (ground arith)

-- The ingest step always gives a report, whatever the database and the network do: at most 30 items,
-- of which each is counted as new or as a duplicate at most once, and no more rows inserted than
-- there are new articles.
pub process_ingest_step-IsReport :
    (feed_id : Text) (env : Env) (w : World) → IsReport (process_ingest_step feed_id env w).0
unfolding process_ingest_step
process_ingest_step-IsReport feed_id env w = with_feed-IsReport feed_id _ env _
