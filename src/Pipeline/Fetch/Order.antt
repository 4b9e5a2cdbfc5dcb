-- ===== src/Pipeline/Fetch/Order.antt =====
-- Which page an article's text is taken from (src/pipeline/content_step.rs).
use ingest_pipeline.Prelude.{
  ℕ, suc, ◌+◌, ◌≤◌, ◌<◌, ◌≡◌, ◌⊎◌, refl, ap, subst, inl, inr, true, Option, none, some, List, [],
  ◌∷◌, ◌++◌, arith, Option-cases, length, unwrap_or,
}
use ingest_pipeline.Prelude.Text.{Text, byte_len}
use ingest_pipeline.Config.{Config}
use ingest_pipeline.Extract.Html.{ExtractionResult, extract_text, clean_with_trafilatura}
use ingest_pipeline.Extract.Title.{count_words}
use ingest_pipeline.Libs.{Libs}
use ingest_pipeline.Pipeline.Fetch.{
  try_strategies, extraction_of, body_of, strategy_request, fetch_with_strategy, is_long_enough,
  strategies, extract_article, or_hetzner,
}
use ingest_pipeline.Store.{err, Result, Env, World, ok}

module _ (env : Env) (url : Text) where
  -- The text that the page of a strategy gives, if its request is the n-th.
  abbrev pub text_by : ℕ → Text → Option ExtractionResult
  text_by n strategy =
      extraction_of env.libs url (body_of (env.send n (strategy_request url strategy)))

  -- The first strategy whose page gives a text, and the number of requests up to it.
  abbrev pub first_text : ℕ → List Text → Option ExtractionResult × ℕ
  first_text n [] = (none, n)
  first_text n (strategy ∷ rest) = elim (text_by n strategy) [
    | some result ↦ (some result, suc n)
    | none ↦ first_text (suc n) rest
  ]

  -- The strategies are tried in their order, with one request each, up to the first whose page gives
  -- a text that is long enough; no table is touched.
  pub try_strategies-first_text :
      (names : List Text) (w : World)
      → try_strategies url names env w ≡ (
        ok (first_text w.requests names).0,
        record w { requests = (first_text w.requests names).1 },
      )
  unfolding try_strategies fetch_with_strategy
  try_strategies-first_text [] w = refl
  try_strategies-first_text (strategy ∷ names) w =
      elim (Option-cases (text_by w.requests strategy)) [
        | inl e ↦
            ground (arith, try_strategies-first_text names (record w { requests = suc w.requests }))
        | inr (r, e) ↦ ground arith
      ]

  extraction_of-long :
      (page : Result Text) (r : ExtractionResult)
      → extraction_of env.libs url page ≡ some r
      → is_long_enough r.text ≡ true
  unfolding extraction_of
  extraction_of-long (err e) r h = absurd (ground arith)
  extraction_of-long (ok html) r h = ground arith

  pub first_text-long :
      (n : ℕ) (names : List Text) (r : ExtractionResult)
      → (first_text n names).0 ≡ some r
      → is_long_enough r.text ≡ true
  first_text-long n [] r h = absurd (ground arith)
  first_text-long n (strategy ∷ rest) r h = elim (Option-cases (text_by n strategy)) [
    | inl e ↦ ground (arith, first_text-long (suc n) rest r)
    | inr (s, e) ↦ ground (arith, extraction_of-long _ s e)
  ]

  -- With a text from a strategy the extraction service is not asked.
  pub extract_article-first_text :
      (config : Option Config) (r : ExtractionResult) (w : World)
      → (first_text w.requests strategies).0 ≡ some r
      → extract_article url config env w
        ≡ (ok (some r), record w { requests = (first_text w.requests strategies).1 })
  unfolding extract_article or_hetzner
  extract_article-first_text config r w h = rw (try_strategies-first_text strategies w, h) refl

-- What a page is turned into: what rs-trafilatura finds in it, or else what the patterns find.
abbrev pub result_of : Libs → Text → Text → ExtractionResult
result_of libs url html =
    unwrap_or (extract_text libs html) (clean_with_trafilatura libs html (some url))

module _ (env : Env) (url : Text) where
  -- The n-th request, sent for this strategy.
  abbrev pub page : ℕ → Text → Result Text
  page n strategy = body_of (env.send n (strategy_request url strategy))

  -- A page that gives this text, of 300 bytes and 350 words at least.
  abbrev pub IsLongText : ExtractionResult → Result Text → Type 0
  IsLongText r (err e) = ⊥
  IsLongText r (ok html) =
      (r ≡ result_of env.libs url html) × (300 ≤ byte_len r.text) × (350 ≤ count_words r.text)

  -- No page, or one whose text is shorter.
  abbrev pub IsTooShort : Result Text → Type 0
  IsTooShort (err e) = Unit
  IsTooShort (ok html) =
      let s = (result_of env.libs url html).text in (byte_len s < 300) ⊎ (count_words s < 350)

  -- None of the strategies, tried from the n-th request on, gives a long text.
  abbrev pub AreTooShort : ℕ → List Text → Type 0
  AreTooShort n [] = Unit
  AreTooShort n (strategy ∷ names) = IsTooShort (page n strategy) × AreTooShort (suc n) names

  -- The text of the first strategy that gives a long one, and the number of requests after it; or none,
  -- after a request for each.
  abbrev pub IsFirst : ℕ → List Text → Option ExtractionResult × ℕ → Type 0
  IsFirst n names (none, m) = AreTooShort n names × (m ≡ length names + n)
  IsFirst n names (some r, m) =
      (before : List Text) × (strategy : Text) × (after : List Text) × (names
        ≡ before ++ strategy ∷ after)
      × AreTooShort n before
      × IsLongText r (page (length before + n) strategy)
      × (m ≡ suc (length before + n))

  extraction_of-IsLongText :
      (answer : Result Text) (r : ExtractionResult)
      → extraction_of env.libs url answer ≡ some r
      → IsLongText r answer
  unfolding extraction_of is_long_enough
  extraction_of-IsLongText (err e) r h = absurd (ground arith)
  extraction_of-IsLongText (ok html) r h = ground arith

  extraction_of-IsTooShort :
      (answer : Result Text) → extraction_of env.libs url answer ≡ none → IsTooShort answer
  unfolding extraction_of is_long_enough
  extraction_of-IsTooShort (err e) h = tt
  extraction_of-IsTooShort (ok html) h = ground arith

  later-IsFirst :
      (n : ℕ) (strategy : Text) (names : List Text) (found : Option ExtractionResult) (m : ℕ)
      → IsTooShort (page n strategy)
      → IsFirst (suc n) names (found, m)
      → IsFirst n (strategy ∷ names) (found, m)
  later-IsFirst n strategy names none m short (rest, sent) = ((short, rest), omega arith)
  later-IsFirst n strategy names (some r) m short (before, s, after, split, rest, gives, sent) = (
    strategy ∷ before,
    s,
    after,
    ap (λ l. strategy ∷ l) split,
    (short, rest),
    subst (λ k. IsLongText r (page k s)) (omega arith) gives,
    omega arith,
  )

  tried-IsFirst :
      (n : ℕ) (strategy : Text) (names : List Text) (found : Option ExtractionResult)
      (rest : Option ExtractionResult × ℕ)
      → text_by env url n strategy ≡ found
      → IsFirst (suc n) names rest
      → IsFirst n
          (strategy ∷ names)
          (elim found [ some result ↦ (some result, suc n) | none ↦ rest ])
  tried-IsFirst n strategy names none rest e h =
      later-IsFirst n strategy names rest.0 rest.1 (extraction_of-IsTooShort (page n strategy) e) h
  tried-IsFirst n strategy names (some r) rest e h = (
    [],
    strategy,
    names,
    refl,
    tt,
    subst (λ k. IsLongText r (page k strategy)) (omega arith)
        (extraction_of-IsLongText (page n strategy) r e),
    omega arith,
  )

  first_text-IsFirst : (n : ℕ) (names : List Text) → IsFirst n names (first_text env url n names)
  first_text-IsFirst n [] = (tt, omega arith)
  first_text-IsFirst n (strategy ∷ names) =
      tried-IsFirst n strategy names _ _ refl (first_text-IsFirst (suc n) names)

  -- The strategies are tried in their order, with one request each, up to the first whose page gives a
  -- text of at least 300 bytes and 350 words, which is the result; there is none after all of them have
  -- been tried and none has given such a text. No table is touched.
  pub try_strategies-IsFirst :
      (names : List Text) (w : World)
      → (found : Option ExtractionResult) × (m : ℕ) × (try_strategies url names env w
          ≡ (ok found, record w { requests = m }))
        × IsFirst w.requests names (found, m)
  try_strategies-IsFirst names w =
      let (found, m) = first_text env url w.requests names in
      (found, m, try_strategies-first_text env url names w, first_text-IsFirst w.requests names)
