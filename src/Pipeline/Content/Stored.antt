-- ===== src/Pipeline/Content/Stored.antt =====
-- What the content step leaves in the table of articles (src/pipeline/content_step.rs).
use ingest_pipeline.Prelude.{
  ◌∙◌, inr, sym, inl, Option-cases, subst, ◌≤◌, ◌+◌, find-update_where, ℕ, ◌≡◌, Option, none, some,
  List, arith, refl, find, ◌==◌, true,
}
use ingest_pipeline.Prelude.Text.{byte_len, Text}
use ingest_pipeline.Db.Articles.{
  update_duplicate_and_processing, update_quality_status, update_extraction, set_article,
}
use ingest_pipeline.Extract.Title.{count_words}
use ingest_pipeline.Pipeline.Content.{saved, ContentStepResult, save, qualify, ContentStepStatus}
use ingest_pipeline.Pipeline.Fetch.{is_long_enough}
use ingest_pipeline.Schema.{RawArticle, ProcessingStatus, QualityStatus, DuplicateStatus}
use ingest_pipeline.Store.{run_both, decided, Env, World, ok, err, Result}

abbrev pub find_article : ℕ → World → Option RawArticle
find_article id w = find (λ a. a.id == id) w.articles

-- The first article with an id, after an update of the articles with that id.
pub find-set_article :
    (id : ℕ) (f : RawArticle → RawArticle) (articles : List RawArticle) (a : RawArticle)
    → (f a).id ≡ id
    → find (λ x. x.id == id) articles ≡ some a
    → find (λ x. x.id == id) (set_article id f articles) ≡ some (f a)
unfolding set_article
find-set_article id f articles a h e =
    find-update_where (λ x. x.id == id) f articles a (ground arith) e

abbrev HasLongBody : Option Text → Option ℕ → Type 0
HasLongBody none n = ⊥
HasLongBody (some body) n =
    (n ≡ some (byte_len body)) × (300 ≤ byte_len body) × (350 ≤ count_words body)

abbrev pub IsAccepted : Option RawArticle → Option ℕ → Type 0
IsAccepted none n = ⊥
IsAccepted (some a) n =
    (a.processing_status ≡ ProcessingStatus.pending_qualification)
    × (a.quality_status ≡ QualityStatus.qualified)
    × (a.duplicate_status ≡ DuplicateStatus.distinct)
    × (a.content_length ≡ n)
    × HasLongBody a.body n

-- A step that reports the article as accepted has left it so in the table.
abbrev pub IsStored : ℕ → Result ContentStepResult × World → Type 0
IsStored id (err e, w) = Unit {0}
IsStored id (ok r, w) =
    r.status ≡ ContentStepStatus.pending_qualification
    → IsAccepted (find_article id w) r.content_length

abbrev pub extracted_row : RawArticle → Text → Text → Option Text → ℕ → RawArticle
extracted_row a body title canonical now = record a {
  body = some body;
  content_length = some (byte_len body);
  title_clean = some title;
  canonical_url = canonical;
  extraction_attempts = a.extraction_attempts + 1;
  last_extraction_at = some now;
  updated_at = now;
}

is_long_enough-lem :
    (s : Text) → is_long_enough s ≡ true → (300 ≤ byte_len s) × (350 ≤ count_words s)
unfolding is_long_enough
is_long_enough-lem s h = ground arith

-- The first article with the id is there and has a property.
abbrev Holds : (RawArticle → Type 0) → Option RawArticle → Type 0
Holds P none = ⊥
Holds P (some a) = P a

abbrev FindsAfter : (RawArticle → Type 0) → ℕ → Result (Unit {0}) × World → Type 0
FindsAfter P id (err e, w) = Unit {0}
FindsAfter P id (ok done, w) = Holds P (find_article id w)

set_article-Holds :
    (P Q : RawArticle → Type 0) (id : ℕ) (f : RawArticle → RawArticle) (articles : List RawArticle)
    → ((a : RawArticle) → P a → (f a).id ≡ a.id)
    → ((a : RawArticle) → P a → Q (f a))
    → ((a : RawArticle) → P a → a.id ≡ id)
    → Holds P (find (λ x. x.id == id) articles)
    → Holds Q (find (λ x. x.id == id) (set_article id f articles))
set_article-Holds P Q id f articles keeps gives has h =
    elim (Option-cases (find (λ x. x.id == id) articles)) [
      | inl p ↦ absurd (subst (Holds P) p h)
      | inr (a, p) ↦
          let pa = subst (Holds P) p h in
          subst (Holds Q) (sym (find-set_article id f articles a (keeps a pa ∙ has a pa) p))
            (gives a pa)
    ]

abbrev IsExtracted : ℕ → Text → RawArticle → Type 0
IsExtracted id body a =
    (a.id ≡ id) × (a.body ≡ some body) × (a.content_length ≡ some (byte_len body))

abbrev IsQualified : ℕ → Text → RawArticle → Type 0
IsQualified id body a = IsExtracted id body a × (a.quality_status ≡ QualityStatus.qualified)

abbrev IsPassedOn : ℕ → Text → RawArticle → Type 0
IsPassedOn id body a =
    IsQualified id body a
    × (a.duplicate_status ≡ DuplicateStatus.distinct)
    × (a.processing_status ≡ ProcessingStatus.pending_qualification)

update_extraction-FindsAfter :
    (id : ℕ) (body title : Text) (canonical : Option Text) (env : Env) (w : World)
    → Holds (λ a. a.id ≡ id) (find_article id w)
    → FindsAfter
        (IsExtracted id body)
        id
        (update_extraction id (some body) (some (byte_len body)) (some title) canonical env w)
unfolding update_extraction
update_extraction-FindsAfter id body title canonical env w h =
    decided (FindsAfter (IsExtracted id body) id) (env.fails w.statements) _ _ tt (
      set_article-Holds (λ a. a.id ≡ id) (IsExtracted id body) id
        (λ a. extracted_row a body title canonical (env.now w.statements)) w.articles (λ a p. refl)
        (λ a p. (p, refl, refl)) (λ a p. p) h)

update_quality_status-FindsAfter :
    (id : ℕ) (body : Text) (env : Env) (w : World)
    → Holds (IsExtracted id body) (find_article id w)
    → FindsAfter (IsQualified id body) id (update_quality_status id QualityStatus.qualified env w)
unfolding update_quality_status
update_quality_status-FindsAfter id body env w h =
    decided (FindsAfter (IsQualified id body) id) (env.fails w.statements) _ _ tt (
      set_article-Holds (IsExtracted id body) (IsQualified id body) id
        (λ a. record a {
          quality_status = QualityStatus.qualified;
          updated_at = env.now w.statements;
        })
        w.articles (λ a p. refl) (λ a p. (p, refl)) (λ a p. p.0) h)

pass_on-FindsAfter :
    (id : ℕ) (body : Text) (env : Env) (w : World)
    → Holds (IsQualified id body) (find_article id w)
    → FindsAfter (IsPassedOn id body) id (
        update_duplicate_and_processing id DuplicateStatus.distinct
          ProcessingStatus.pending_qualification env w)
unfolding update_duplicate_and_processing
pass_on-FindsAfter id body env w h =
    decided (FindsAfter (IsPassedOn id body) id) (env.fails w.statements) _ _ tt (
      set_article-Holds (IsQualified id body) (IsPassedOn id body) id
        (λ a. record a {
          duplicate_status = DuplicateStatus.distinct;
          processing_status = ProcessingStatus.pending_qualification;
          updated_at = env.now w.statements;
        })
        w.articles (λ a p. refl) (λ a p. (p, refl, refl)) (λ a p. p.0.0) h)

abbrev IsSaved : ℕ → Text → Result (Result (Unit {0})) × World → Type 0
IsSaved id body (ok r, w) = FindsAfter (IsPassedOn id body) id (r, w)
IsSaved id body (err e, w) = ⊥

save-IsSaved :
    (article : RawArticle) (body title : Text) (canonical : Option Text) (env : Env) (w : World)
    → find_article article.id w ≡ some article
    → IsSaved article.id body (save article body title canonical env w)
unfolding save
save-IsSaved article body title canonical env w h =
    let id = article.id in
    let P = FindsAfter (IsPassedOn id body) id in
    run_both (FindsAfter (IsExtracted id body) id) P
      (update_extraction id (some body) (some (byte_len body)) (some title) canonical env w) _
      (update_extraction-FindsAfter id body title canonical env w
        (subst (Holds (λ a. a.id ≡ id)) (sym h) refl))
      (λ e w' p. tt)
      (λ done w' p.
        run_both (FindsAfter (IsQualified id body) id) P
          (update_quality_status id QualityStatus.qualified env w') _
          (update_quality_status-FindsAfter id body env w' p) (λ e w'' q. tt)
          (λ done' w'' q. pass_on-FindsAfter id body env w'' q))

stored-IsAccepted :
    (id : ℕ) (body : Text) (found : Option RawArticle)
    → is_long_enough body ≡ true
    → Holds (IsPassedOn id body) found
    → IsAccepted found (some (byte_len body))
stored-IsAccepted id body none long h = h
stored-IsAccepted id body (some a) long ((e, q), d, p) =
    let long_body : HasLongBody (some body) (some (byte_len body)) =
      (let (x, y) = is_long_enough-lem body long in (refl, x, y)) in
    (p, q, d, e.2, subst (λ b. HasLongBody b (some (byte_len body))) (sym (e.1)) long_body)

saved-IsStored :
    (id : ℕ) (body : Text) (outcome : Result (Unit {0})) (w : World)
    → is_long_enough body ≡ true
    → FindsAfter (IsPassedOn id body) id (outcome, w)
    → IsStored id (ok (saved id (byte_len body) outcome), w)
saved-IsStored id body (ok done) w long h =
    λ s. stored-IsAccepted id body (find_article id w) long h
saved-IsStored id body (err e) w long h = λ s. ground arith

pub qualify-IsStored :
    (article : RawArticle) (body title : Text) (canonical : Option Text) (env : Env) (w : World)
    → find_article article.id w ≡ some article
    → is_long_enough body ≡ true
    → IsStored article.id (qualify article body title canonical env w)
unfolding qualify
qualify-IsStored article body title canonical env w h long =
    run_both (IsSaved article.id body) (IsStored article.id)
      (save article body title canonical env w) _
      (save-IsSaved article body title canonical env w h) (λ e w' p. absurd p)
      (λ outcome w' p. saved-IsStored article.id body outcome w' long p)
