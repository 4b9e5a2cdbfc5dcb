-- ===== src/Pipeline/Content/Accepted.antt =====
-- An article that the content step accepts (src/pipeline/content_step.rs).
use ingest_pipeline.Prelude.{
  sym, subst, ◌==◌, find, ◌∙◌, suc, ℕ, ◌≡◌, true, Option, none, some, List, [], ◌∷◌, arith, refl,
  map, unwrap_or,
}
use ingest_pipeline.Prelude.Text.{byte_len, text, Text}
use ingest_pipeline.Config.{Config}
use ingest_pipeline.Db.Articles.{get_by_id}
use ingest_pipeline.Db.Comparable.{
  ComparableArticle, find_similar_articles, get_comparable_articles,
}
use ingest_pipeline.Dedup.Check.{check_duplicate, DedupResult}
use ingest_pipeline.Extract.Html.{ExtractionResult}
use ingest_pipeline.Pipeline.Content.{
  ContentStepStatus, settled, is_open, qualify, or_comparable, existing_of, first_check,
  with_open_article, with_article, after_first_check, record_duplicate, after_final_check,
  final_check, validate, reject_duplicate, process_content_step,
}
use ingest_pipeline.Pipeline.Content.Outcomes.{IsLongOrNone, extract_article-IsLong, not_short}
use ingest_pipeline.Pipeline.Content.Stored.{IsStored, qualify-IsStored, find_article}
use ingest_pipeline.Pipeline.Fetch.{
  is_long_enough, strategies, or_hetzner, fetch_hetzner, fetch_with_strategy, try_hetzner,
  try_strategies, extract_article,
}
use ingest_pipeline.Schema.{RawArticle}
use ingest_pipeline.Store.{◌>>=◌, Env, World, Result, ok, err, run_both, branch_both, pure}

-- The table of articles is as it was.
abbrev Keeps : {A : Type 0} → World → Result A × World → Type 0
Keeps w (r, w') = w'.articles ≡ w.articles

try_strategies-Keeps :
    (url : Text) (names : List Text) (env : Env) (w : World)
    → Keeps w (try_strategies url names env w)
unfolding try_strategies fetch_with_strategy
try_strategies-Keeps url [] env w = refl
try_strategies-Keeps url (name ∷ names) env w =
    ground (arith, try_strategies-Keeps url names env (record w { requests = suc w.requests }))

try_hetzner-Keeps :
    (url : Text) (config : Option Config) (env : Env) (w : World)
    → Keeps w (try_hetzner url config env w)
unfolding try_hetzner fetch_hetzner
try_hetzner-Keeps url config env w = ground arith

or_hetzner-Keeps :
    (url : Text) (config : Option Config) (found : Option ExtractionResult) (env : Env) (w : World)
    → Keeps w (or_hetzner url config found env w)
unfolding or_hetzner
or_hetzner-Keeps url config none env w = try_hetzner-Keeps url config env w
or_hetzner-Keeps url config (some r) env w = refl

extract_article-Keeps :
    (url : Text) (config : Option Config) (env : Env) (w : World)
    → Keeps w (extract_article url config env w)
unfolding extract_article
extract_article-Keeps url config env w =
    run_both (Keeps w) (Keeps w) (try_strategies url strategies env w)
      (λ found w'. or_hetzner url config found env w') (try_strategies-Keeps url strategies env w)
      (λ e w' h. h) (λ found w' h. or_hetzner-Keeps url config found env w' ∙ h)

reject_duplicate-IsStored :
    (article : RawArticle) (dup : DedupResult) (prefix : Text) (n : Option ℕ) (id : ℕ) (env : Env)
    (w : World)
    → IsStored id (reject_duplicate article dup prefix n env w)
unfolding reject_duplicate record_duplicate
reject_duplicate-IsStored article dup prefix n id env w = ground arith

final_check-IsStored :
    (article : RawArticle) (others : List ComparableArticle) (body title : Text) (c : Option Text)
    (env : Env) (w : World)
    → find_article article.id w ≡ some article
    → is_long_enough body ≡ true
    → IsStored article.id (final_check article others body title c env w)
unfolding final_check after_final_check find_similar_articles
final_check-IsStored article others body title c env w h long =
    let similar = find_similar_articles title article.id 20 env w in
    let dup =
      check_duplicate env.lowercase article.url c title
        (map (existing_of env.libs) (or_comparable others similar.0)) in
    branch_both (IsStored article.id) dup.is_duplicate
      (reject_duplicate article dup (text "title_dup: ") (some (byte_len body)))
      (qualify article body title c) env similar.1
      (reject_duplicate-IsStored article dup (text "title_dup: ") (some (byte_len body)) article.id
        env similar.1)
      (qualify-IsStored article body title c env similar.1 (ground arith) long)

validate-IsStored :
    (article : RawArticle) (others : List ComparableArticle) (found : Option ExtractionResult)
    (env : Env) (w : World)
    → find_article article.id w ≡ some article
    → IsLongOrNone (ok found)
    → IsStored article.id (validate article others found env w)
unfolding validate
validate-IsStored article others none env w h long = ground arith
validate-IsStored article others (some r) env w h long =
    rw (not_short r.text long, validate)
      (final_check-IsStored article others r.text (unwrap_or article.title r.title_clean)
        r.canonical_url env w h long)

after_first_check-IsStored :
    (article : RawArticle) (config : Option Config) (others : List ComparableArticle)
    (dup : DedupResult) (env : Env) (w : World)
    → find_article article.id w ≡ some article
    → IsStored article.id (after_first_check article config others dup env w)
unfolding after_first_check
after_first_check-IsStored article config others dup env w h =
    branch_both (IsStored article.id) dup.is_duplicate
      (reject_duplicate article dup (text "url_dup: ") none)
      (extract_article article.url config >>= validate article others) env w
      (reject_duplicate-IsStored article dup (text "url_dup: ") none article.id env w)
      (run_both (λ r. IsLongOrNone r.0 × Keeps w r) (IsStored article.id)
        (extract_article article.url config env w)
        (λ found w'. validate article others found env w')
        (
          extract_article-IsLong article.url config env w,
          extract_article-Keeps article.url config env w,
        )
        (λ e w' p. absurd p.0)
        (λ found w' p. validate-IsStored article others found env w' (rw (p.1) h) p.0))

first_check-IsStored :
    (article : RawArticle) (config : Option Config) (found : Result (List ComparableArticle))
    (env : Env) (w : World)
    → find_article article.id w ≡ some article
    → IsStored article.id (first_check article config found env w)
unfolding first_check
first_check-IsStored article config (err e) env w h = ground arith
first_check-IsStored article config (ok others) env w h =
    after_first_check-IsStored article config others _ env w h

with_open_article-IsStored :
    (article : RawArticle) (config : Option Config) (env : Env) (w : World)
    → find_article article.id w ≡ some article
    → IsStored article.id (with_open_article article config env w)
unfolding with_open_article get_comparable_articles
with_open_article-IsStored article config env w h =
    let r = get_comparable_articles article.id 500 env w in
    first_check-IsStored article config r.0 env r.1 (ground arith)

with_article-IsStored :
    (id : ℕ) (config : Option Config) (article : RawArticle) (env : Env) (w : World)
    → find_article article.id w ≡ some article
    → article.id ≡ id
    → IsStored id (with_article id config (ok (some article)) env w)
unfolding with_article
with_article-IsStored id config article env w h e =
    branch_both (IsStored id) (is_open article.processing_status) (with_open_article article config)
      (pure (settled id ContentStepStatus.extracted article.content_length none)) env w
      (subst (λ k. IsStored k (with_open_article article config env w)) e
        (with_open_article-IsStored article config env w h))
      (ground arith)

-- The article that a search by its id finds has that id.
find_article-id :
    (id : ℕ) (articles : List RawArticle) (a : RawArticle)
    → find (λ x. x.id == id) articles ≡ some a
    → a.id ≡ id
find_article-id id [] a h = ground arith
find_article-id id (x ∷ xs) a h = ground (arith, find_article-id id xs a)

by_id-IsStored :
    (id : ℕ) (config : Option Config) (found : Option RawArticle) (env : Env) (w : World)
    → find_article id w ≡ found
    → IsStored id (with_article id config (ok found) env w)
unfolding with_article
by_id-IsStored id config none env w h = ground arith
by_id-IsStored id config (some a) env w h =
    let e = find_article-id id w.articles a h in
    with_article-IsStored id config a env w (subst (λ k. find_article k w ≡ some a) (sym e) h) e

looked_up-IsStored :
    (id : ℕ) (config : Option Config) (r : Result (Option RawArticle)) (env : Env) (w : World)
    → ((found : Option RawArticle) → r ≡ ok found → find_article id w ≡ found)
    → IsStored id (with_article id config r env w)
unfolding with_article
looked_up-IsStored id config (err e) env w h = ground arith
looked_up-IsStored id config (ok found) env w h =
    by_id-IsStored id config found env w (h found refl)

-- Whenever the content step reports an article as pending qualification, the table holds the
-- article of that id in that state, qualified and distinct, with a body of the reported length,
-- of at least 300 bytes and 350 words. This holds whatever the database and the network do.
pub process_content_step-IsStored :
    (id : ℕ) (config : Option Config) (env : Env) (w : World)
    → IsStored id (process_content_step id config env w)
unfolding process_content_step get_by_id
process_content_step-IsStored id config env w =
    let r = get_by_id id env w in looked_up-IsStored id config r.0 env r.1 (λ found e. ground arith)
