-- ===== src/Pipeline/Ingest/Phantom.antt =====
-- Two items of a feed with one URL (src/pipeline/ingest_step.rs).

use ingest_pipeline.Prelude.{
  map-append, append_assoc, Bool, ℕ, suc, ◌≤◌, ◌<◌, ◌≡◌, refl, sym, ap, subst, ◌∙◌, true, false,
  ◌||◌, some, List, [], ◌∷◌, ◌++◌, map, arith, find, any, All, ◌==◌, All-map,
}
use ingest_pipeline.Prelude.Text.{text_eq, Text}
use ingest_pipeline.Db.Articles.{same_key, has_article, batch_row}
use ingest_pipeline.Db.Articles.Batch.{
  any-append, AreNew, IsUnused, IsFreshSupply, firsts, firsts-All_others,
}
use ingest_pipeline.Pipeline.Ingest.{process_ingest_step, IngestStepResult, feed_request}
use ingest_pipeline.Pipeline.Ingest.Stores.{IsStored, loop_of, process_ingest_step-IsStored}
use ingest_pipeline.Resolver.{is_success}
use ingest_pipeline.Rss.Feed.{RssItem, parse_feed}
use ingest_pipeline.Schema.{RawArticle, FeedSource}
use ingest_pipeline.Store.{Env, World, Result, ok, err, Response}

any-batch_row :
    (now : ℕ) (url source_id : Text) (xs : List RawArticle)
    → any (same_key url source_id) (map (batch_row now) xs) ≡ any (same_key url source_id) xs
unfolding batch_row same_key
any-batch_row now url source_id [] = refl
any-batch_row now url source_id (x ∷ xs) =
    ap (λ rest. same_key url source_id x || rest) (any-batch_row now url source_id xs)

reported_id :
    (xs : List RawArticle) (a : RawArticle) (ys : List RawArticle)
    → any (λ id. id == a.id) (map (λ x. x.id) (xs ++ a ∷ ys)) ≡ true
reported_id [] a ys = ground arith
reported_id (x ∷ xs) a ys = ground (arith, reported_id xs a ys)

any-here :
    (f : RawArticle → Bool) (xs : List RawArticle) (b : RawArticle) (ys : List RawArticle)
    → f b ≡ true
    → any f (xs ++ b ∷ ys) ≡ true
any-here f [] b ys h = ground arith
any-here f (x ∷ xs) b ys h = ground (arith, any-here f xs b ys h)

has_article-All :
    (id : ℕ) (rows : List RawArticle)
    → All (λ x. (x.id == id) ≡ false) rows
    → has_article id rows ≡ false
has_article-All id [] h = refl
has_article-All id (x ∷ rows) (h, hs) = ground (arith, has_article-All id rows hs)

module _ (env : Env) (feed_id : Text) (table : List RawArticle) (supply : IsFreshSupply env) where
  AreNew-later :
      (m n : ℕ) (rows : List RawArticle)
      → m < n
      → AreNew env feed_id table n rows
      → All (λ x. (x.id == env.fresh m) ≡ false) rows
  AreNew-later m n [] h new = tt
  AreNew-later m n (x ∷ rows) h (id, source, new, rest) =
      (ground (arith, supply m n h), AreNew-later m (suc n) rows (omega arith) rest)

  -- An entry has an id of its own.
  AreNew-apart :
      (n : ℕ) (xs : List RawArticle) (a : RawArticle) (ys : List RawArticle)
      → AreNew env feed_id table n (xs ++ a ∷ ys)
      → (k : ℕ) × (n ≤ k)
        × (a.id ≡ env.fresh k)
        × All (λ x. (x.id == a.id) ≡ false) xs
        × All (λ x. (x.id == a.id) ≡ false) ys
  AreNew-apart n [] a ys (id, source, new, rest) = (
    n,
    omega arith,
    id,
    tt,
    subst (λ i. All (λ x. (x.id == i) ≡ false) ys) (sym id)
        (AreNew-later n (suc n) ys (omega arith) rest),
  )
  AreNew-apart n (x ∷ xs) a ys (id, source, new, rest) =
      let (k, le, own, before, after) = AreNew-apart (suc n) xs a ys rest in
      (k, omega arith, own, (ground (arith, supply n k le), before), after)

  -- The second of two rows with one key is not stored.
  firsts-absent :
      (now n : ℕ) (xs : List RawArticle) (a : RawArticle) (ys : List RawArticle)
      → AreNew env feed_id table n (xs ++ a ∷ ys)
      → IsUnused env n table
      → any (same_key a.url a.source_id) xs ≡ true
      → has_article a.id (table ++ firsts [] (map (batch_row now) (xs ++ a ∷ ys))) ≡ false
  unfolding batch_row
  firsts-absent now n xs a ys new unused repeated =
      let (k, le, own, before, after) = AreNew-apart n xs a ys new in
      let Q = λ (x : RawArticle). (x.id == a.id) ≡ false in
      let known : any (same_key a.url a.source_id) (map (batch_row now) xs) ≡ true =
        any-batch_row now a.url a.source_id xs ∙ repeated in
      let others =
        firsts-All_others Q [] (map (batch_row now) xs) (batch_row now a) (map (batch_row now) ys)
          known (All-map Q (batch_row now) xs before) (All-map Q (batch_row now) ys after) in
      let stored =
        subst (λ rows. All Q (firsts [] rows)) (sym (map-append (batch_row now) xs (a ∷ ys)))
          others in
      let free : has_article a.id table ≡ false = rw (own) (unused k le) in
      any-append (λ x. x.id == a.id) table _ ∙ rw (free) (has_article-All a.id _ stored)

-- Two articles are reported as new, and no row has the id of the second.
abbrev pub IsPhantom : RawArticle → RawArticle → Result IngestStepResult × World → Type 0
IsPhantom b a (err e, v) = ⊥
IsPhantom b a (ok r, v) =
    (any (λ id. id == b.id) r.new_article_ids ≡ true)
    × (any (λ id. id == a.id) r.new_article_ids ≡ true)
    × (has_article a.id v.articles ≡ false)

module _ (env : Env) (works : (n : ℕ) → env.fails n ≡ false) (supply : IsFreshSupply env) where
  stored-IsPhantom :
      (feed_id : Text) (count : ℕ) (xs : List RawArticle) (b : RawArticle) (ys : List RawArticle)
      (a : RawArticle) (zs : List RawArticle) (w u : World)
      (outcome : Result IngestStepResult × World)
      → IsUnused env w.draws w.articles
      → same_key a.url a.source_id b ≡ true
      → IsStored env works feed_id w (ok (count, (xs ++ b ∷ ys) ++ a ∷ zs), u) outcome
      → IsPhantom b a outcome
  stored-IsPhantom feed_id count xs b ys a zs w u (err e, v) unused repeated h = h
  stored-IsPhantom feed_id count xs b ys a zs w u (ok r, v) unused repeated h =
      let (ids, duplicates, inserted, rows, error, new) = h in
      let now = env.now u.statements in
      let before : any (same_key a.url a.source_id) (xs ++ b ∷ ys) ≡ true =
        any-here (same_key a.url a.source_id) xs b ys repeated in
      let absent =
        firsts-absent env feed_id w.articles supply now w.draws (xs ++ b ∷ ys) a zs new unused
          before in
      (
        ap (any (λ id. id == b.id)) (ids ∙ ap (map (λ x. x.id)) (append_assoc xs (b ∷ ys) (a ∷ zs)))
            ∙ reported_id xs b (ys ++ a ∷ zs),
        ap (any (λ id. id == a.id)) ids ∙ reported_id (xs ++ b ∷ ys) a zs,
        ap (has_article a.id) rows ∙ absent,
      )

  -- Of two new items of a feed with one URL, both are reported as new articles, but the second is in no
  -- row. (The feed can be read, no statement fails, and no id is drawn that was drawn before or that
  -- the table has; the loop over the items makes two articles with one URL.)
  pub process_ingest_step-IsPhantom :
      (feed : FeedSource) (feed_id : Text) (response : Response) (body : Text)
      (parsed : List RssItem) (w : World)
      → find (λ f. text_eq f.id feed_id) w.feeds ≡ some feed
      → feed.enabled ≡ true
      → env.send w.requests (feed_request feed.feed_url) ≡ ok response
      → is_success response.status ≡ true
      → response.payload ≡ ok body
      → parse_feed env.libs body feed.feed_url ≡ ok parsed
      → IsUnused env w.draws w.articles
      → (count : ℕ) (xs : List RawArticle) (b : RawArticle) (ys : List RawArticle) (a : RawArticle)
        (zs : List RawArticle) (u : World)
      → loop_of env works feed_id parsed w ≡ (ok (count, (xs ++ b ∷ ys) ++ a ∷ zs), u)
      → same_key a.url a.source_id b ≡ true
      → IsPhantom b a (process_ingest_step feed_id env w)
  process_ingest_step-IsPhantom feed feed_id response body parsed w found enabled sent success read
        items unused count xs b ys a zs u loop repeated =
      stored-IsPhantom feed_id count xs b ys a zs w u _ unused repeated (
        subst (λ r. IsStored env works feed_id w r (process_ingest_step feed_id env w)) loop
          (process_ingest_step-IsStored env works feed feed_id response body parsed w found enabled
            sent success read items supply unused))
