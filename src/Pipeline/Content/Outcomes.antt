-- ===== src/Pipeline/Content/Outcomes.antt =====
-- What the content step returns (src/pipeline/content_step.rs).
use ingest_pipeline.Prelude.{
  ◌||◌, inr, suc, inl, Option-cases, ℕ, ◌≡◌, Bool, true, false, Option, none, some, List, [], ◌∷◌,
  arith, refl, unwrap_or, ltb,
}
use ingest_pipeline.Prelude.Text.{Text, text, byte_len}
use ingest_pipeline.Config.{Config}
use ingest_pipeline.Db.Comparable.{ComparableArticle}
use ingest_pipeline.Dedup.Check.{DedupResult}
use ingest_pipeline.Extract.Html.{ExtractionResult}
use ingest_pipeline.Extract.Title.{min_article_word_count, count_words}
use ingest_pipeline.Libs.{Libs}
use ingest_pipeline.Pipeline.Content.{
  settled, is_open, with_open_article, first_check, after_first_check, process_content_step,
  with_article, after_final_check, final_check, record_duplicate, validate, save, ContentStepStatus,
  ContentStepResult, reject_duplicate, qualify,
}
use ingest_pipeline.Pipeline.Fetch.{
  fetch_hetzner, try_hetzner, strategies, or_hetzner, min_text_length, extract_article,
  strategy_request, body_of, fetch_with_strategy, is_long_enough, extraction_of, try_strategies,
}
use ingest_pipeline.Schema.{RawArticle}
use ingest_pipeline.Store.{◌>>=◌, then_run_rule, if_both, Env, World, Result, ok, err, pure}

-- A computation that gives an extraction gives one that is long enough; it never fails.
abbrev pub IsLongOrNone : Result (Option ExtractionResult) → Type 0
IsLongOrNone (ok none) = Unit
IsLongOrNone (ok (some r)) = is_long_enough r.text ≡ true
IsLongOrNone (err e) = ⊥

extraction_of-IsLong :
    (libs : Libs) (url : Text) (html : Result Text)
    → IsLongOrNone (ok (extraction_of libs url html))
unfolding extraction_of
extraction_of-IsLong libs url (err e) = tt
extraction_of-IsLong libs url (ok html) = ground arith

try_strategies-IsLong :
    (url : Text) (names : List Text) (env : Env) (w : World)
    → IsLongOrNone (try_strategies url names env w).0
unfolding try_strategies fetch_with_strategy extraction_of body_of
try_strategies-IsLong url [] env w = tt
try_strategies-IsLong url (name ∷ names) env w =
    let answer = body_of (env.send w.requests (strategy_request url name)) in
    elim (Option-cases (extraction_of env.libs url answer)) [
      | inl p ↦
          rw (p, try_strategies)
            (try_strategies-IsLong url names env (record w { requests = suc w.requests }))
      | inr (r, p) ↦ rw (p, try_strategies) (rw p at (extraction_of-IsLong env.libs url answer))
    ]

abbrev pub is_rejected : ContentStepStatus → Bool
is_rejected ContentStepStatus.rejected = true
is_rejected _ = false

abbrev pub IsNotRejected : Result ContentStepResult → Type 0
IsNotRejected (ok r) = is_rejected r.status ≡ false
IsNotRejected (err e) = ⊥

reject_duplicate-lem :
    (article : RawArticle) (dup : DedupResult) (prefix : Text) (n : Option ℕ) (env : Env)
    (w : World)
    → IsNotRejected (reject_duplicate article dup prefix n env w).0
unfolding reject_duplicate record_duplicate
reject_duplicate-lem article dup prefix n env w = ground arith

qualify-lem :
    (article : RawArticle) (body title : Text) (c : Option Text) (env : Env) (w : World)
    → IsNotRejected (qualify article body title c env w).0
unfolding qualify save
qualify-lem article body title c env w = ground arith

after_final_check-lem :
    (article : RawArticle) (body title : Text) (c : Option Text) (dup : DedupResult) (env : Env)
    (w : World)
    → IsNotRejected (after_final_check article body title c dup env w).0
unfolding after_final_check
after_final_check-lem article body title c dup env w =
    if_both IsNotRejected dup.is_duplicate
      (reject_duplicate article dup (text "title_dup: ") (some (byte_len body)))
      (qualify article body title c) env w
      (reject_duplicate-lem article dup (text "title_dup: ") (some (byte_len body)) env w)
      (qualify-lem article body title c env w)

final_check-lem :
    (article : RawArticle) (others : List ComparableArticle) (body title : Text) (c : Option Text)
    (env : Env) (w : World)
    → IsNotRejected (final_check article others body title c env w).0
unfolding final_check
final_check-lem article others body title c env w =
    after_final_check-lem article body title c _ env _

pub not_short :
    (s : Text)
    → is_long_enough s ≡ true
    → (ltb (byte_len s) min_text_length || ltb (count_words s) min_article_word_count) ≡ false
unfolding is_long_enough
not_short s h = ground arith

-- An extraction that is long enough is not too short.
validate-lem :
    (article : RawArticle) (others : List ComparableArticle) (found : Option ExtractionResult)
    (env : Env) (w : World)
    → IsLongOrNone (ok found)
    → IsNotRejected (validate article others found env w).0
unfolding validate
validate-lem article others none env w h = ground arith
validate-lem article others (some r) env w h =
    rw (not_short r.text h, validate)
      (final_check-lem article others r.text (unwrap_or article.title r.title_clean) r.canonical_url
        env w)

try_hetzner-IsLong :
    (url : Text) (config : Option Config) (env : Env) (w : World)
    → IsLongOrNone (try_hetzner url config env w).0
unfolding try_hetzner fetch_hetzner
try_hetzner-IsLong url none env w = tt
try_hetzner-IsLong url (some config) env w = elim (Option-cases config.hetzner_extract_url) [
  | inl p ↦ rw (p, try_hetzner) tt
  | inr (hetzner_url, p) ↦ elim (Option-cases config.hetzner_extract_secret) [
    | inl q ↦ rw (p, q, try_hetzner) tt
    | inr (secret, q) ↦ rw (p, q, try_hetzner) (extraction_of-IsLong env.libs url _)
  ]
]

or_hetzner-IsLong :
    (url : Text) (config : Option Config) (found : Option ExtractionResult) (env : Env) (w : World)
    → IsLongOrNone (ok found)
    → IsLongOrNone (or_hetzner url config found env w).0
unfolding or_hetzner
or_hetzner-IsLong url config none env w h = try_hetzner-IsLong url config env w
or_hetzner-IsLong url config (some r) env w h = h

-- Each way to a text gives one that is long enough, or none.
pub extract_article-IsLong :
    (url : Text) (config : Option Config) (env : Env) (w : World)
    → IsLongOrNone (extract_article url config env w).0
unfolding extract_article
extract_article-IsLong url config env w =
    then_run_rule IsLongOrNone IsLongOrNone (try_strategies url strategies env w)
      (λ found w'. or_hetzner url config found env w') (try_strategies-IsLong url strategies env w)
      (λ e h. h) (λ found w' h. or_hetzner-IsLong url config found env w' h)

after_first_check-lem :
    (article : RawArticle) (config : Option Config) (others : List ComparableArticle)
    (dup : DedupResult) (env : Env) (w : World)
    → IsNotRejected (after_first_check article config others dup env w).0
unfolding after_first_check
after_first_check-lem article config others dup env w =
    if_both IsNotRejected dup.is_duplicate (reject_duplicate article dup (text "url_dup: ") none)
      (extract_article article.url config >>= validate article others) env w
      (reject_duplicate-lem article dup (text "url_dup: ") none env w)
      (then_run_rule IsLongOrNone IsNotRejected (extract_article article.url config env w)
        (λ found w'. validate article others found env w')
        (extract_article-IsLong article.url config env w) (λ e h. absurd h)
        (λ found w' h. validate-lem article others found env w' h))

first_check-lem :
    (article : RawArticle) (config : Option Config) (found : Result (List ComparableArticle))
    (env : Env) (w : World)
    → IsNotRejected (first_check article config found env w).0
unfolding first_check
first_check-lem article config (err e) env w = refl
first_check-lem article config (ok others) env w =
    after_first_check-lem article config others _ env w

with_article-lem :
    (id : ℕ) (config : Option Config) (found : Result (Option RawArticle)) (env : Env) (w : World)
    → IsNotRejected (with_article id config found env w).0
unfolding with_article with_open_article
with_article-lem id config (err e) env w = refl
with_article-lem id config (ok none) env w = refl
with_article-lem id config (ok (some article)) env w =
    if_both IsNotRejected (is_open article.processing_status) (with_open_article article config)
      (pure (settled id ContentStepStatus.extracted article.content_length none)) env w
      (first_check-lem article config _ env _) refl

-- The content step always gives a result, whatever the database and the network do, and never the
-- status `rejected`.
pub process_content_step-IsNotRejected :
    (id : ℕ) (config : Option Config) (env : Env) (w : World)
    → IsNotRejected (process_content_step id config env w).0
unfolding process_content_step
process_content_step-IsNotRejected id config env w = with_article-lem id config _ env _
