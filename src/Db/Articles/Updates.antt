-- ===== src/Db/Articles/Updates.antt =====
-- The keys of the articles under updates of other columns (src/db/article_queries.rs).
use ingest_pipeline.Prelude.{
  ℕ, ◌+◌, ◌≡◌, refl, sym, ap, ◌∙◌, ◌&&◌, ◌||◌, Option, some, List, [], ◌∷◌, map, arith, any,
}
use ingest_pipeline.Prelude.Text.{Text, text_eq}
use ingest_pipeline.Db.Articles.{
  same_key, set_article, update_processing_status, update_extraction, update_quality_status,
  update_duplicate_and_processing, enrich_from_duplicate,
}
use ingest_pipeline.Db.Articles.Keys.{HasUniqueKeys}
use ingest_pipeline.Schema.{
  RawArticle, Job, PipelineRun, ProcessingStatus, QualityStatus, DuplicateStatus,
}
use ingest_pipeline.Store.{Env, World, HasQueue, statement}

-- The columns of the primary key and of the key (url, source_id).
abbrev pub key_of : RawArticle → ℕ × Text × Text
key_of a = (a.id, a.url, a.source_id)

abbrev pub keys : List RawArticle → List (ℕ × Text × Text)
keys = map key_of

-- An update of other columns leaves the keys as they are.
pub keys-set_article :
    (id : ℕ) (f : RawArticle → RawArticle) (rows : List RawArticle)
    → ((a : RawArticle) → key_of (f a) ≡ key_of a)
    → keys (set_article id f rows) ≡ keys rows
unfolding set_article
keys-set_article id f [] same = refl
keys-set_article id f (a ∷ rows) same = ground (arith, same a, keys-set_article id f rows same)

any-keys :
    (url source_id : Text) (rows : List RawArticle)
    → any (same_key url source_id) rows
      ≡ any (λ k. text_eq k.1 url && text_eq k.2 source_id) (keys rows)
unfolding same_key
any-keys url source_id [] = refl
any-keys url source_id (a ∷ rows) =
    ap (λ rest. (text_eq a.url url && text_eq a.source_id source_id) || rest)
      (any-keys url source_id rows)

-- Rows with the keys of rows that have them once have them once.
pub keys-HasUniqueKeys :
    (rows rows' : List RawArticle)
    → keys rows' ≡ keys rows
    → HasUniqueKeys rows
    → HasUniqueKeys rows'
keys-HasUniqueKeys [] [] e h = tt
keys-HasUniqueKeys [] (b ∷ rows') e h = absurd (ground arith)
keys-HasUniqueKeys (a ∷ rows) [] e h = absurd (ground arith)
keys-HasUniqueKeys (a ∷ rows) (b ∷ rows') e (h, hs) =
    let url : b.url ≡ a.url = ground arith in
    let source_id : b.source_id ≡ a.source_id = ground arith in
    let later : keys rows' ≡ keys rows = ground arith in
    (
      any-keys b.url b.source_id rows'
          ∙ ap (any (λ k. text_eq k.1 b.url && text_eq k.2 b.source_id)) later
          ∙ sym (any-keys b.url b.source_id rows)
          ∙ ap (λ u. any (same_key u b.source_id) rows) url
          ∙ ap (λ s. any (same_key a.url s) rows) source_id
          ∙ h,
      keys-HasUniqueKeys rows rows' later hs,
    )

-- The jobs, the runs and the keys of the articles are these.
abbrev pub HasRest : List Job → List PipelineRun → List (ℕ × Text × Text) → World → Type 0
HasRest jobs runs ids w = HasQueue jobs runs w × (keys w.articles ≡ ids)

module _ (jobs : List Job) (runs : List PipelineRun) (ids : List (ℕ × Text × Text))
    (env : Env) where
  set_article-HasRest :
      (context : Text) (id : ℕ) (f : ℕ → RawArticle → RawArticle) (w : World)
      → ((now : ℕ) (a : RawArticle) → key_of (f now a) ≡ key_of a)
      → HasRest jobs runs ids w
      → HasRest jobs runs ids
          (statement context
            (λ now v. (tt, record v { articles = set_article id (f now) v.articles }))
            env
            w).1
  set_article-HasRest context id f w same h =
      let now = env.now w.statements in
      ground (arith, keys-set_article id (f now) w.articles (same now))

  pub update_processing_status-HasRest :
      (id : ℕ) (status : ProcessingStatus) (w : World)
      → HasRest jobs runs ids w
      → HasRest jobs runs ids (update_processing_status id status env w).1
  unfolding update_processing_status
  update_processing_status-HasRest id status w h =
      set_article-HasRest _ id (λ now a. record a { processing_status = status; updated_at = now })
        w (λ now a. refl) h

  pub update_quality_status-HasRest :
      (id : ℕ) (status : QualityStatus) (w : World)
      → HasRest jobs runs ids w
      → HasRest jobs runs ids (update_quality_status id status env w).1
  unfolding update_quality_status
  update_quality_status-HasRest id status w h =
      set_article-HasRest _ id (λ now a. record a { quality_status = status; updated_at = now }) w
        (λ now a. refl) h

  pub update_duplicate_and_processing-HasRest :
      (id : ℕ) (dup_status : DuplicateStatus) (proc_status : ProcessingStatus) (w : World)
      → HasRest jobs runs ids w
      → HasRest jobs runs ids (update_duplicate_and_processing id dup_status proc_status env w).1
  unfolding update_duplicate_and_processing
  update_duplicate_and_processing-HasRest id dup_status proc_status w h =
      set_article-HasRest _ id
        (λ now a. record a {
          duplicate_status = dup_status;
          processing_status = proc_status;
          updated_at = now;
        })
        w (λ now a. refl) h

  pub update_extraction-HasRest :
      (id : ℕ) (content : Option Text) (content_length : Option ℕ)
      (title_clean canonical_url : Option Text) (w : World)
      → HasRest jobs runs ids w
      → HasRest jobs runs ids
          (update_extraction id content content_length title_clean canonical_url env w).1
  unfolding update_extraction
  update_extraction-HasRest id content content_length title_clean canonical_url w h =
      set_article-HasRest _ id
        (λ now a. record a {
          body = content;
          content_length = content_length;
          title_clean = title_clean;
          canonical_url = canonical_url;
          extraction_attempts = a.extraction_attempts + 1;
          last_extraction_at = some now;
          updated_at = now;
        })
        w (λ now a. refl) h

  pub enrich_from_duplicate-HasRest :
      (id duplicate_of_id : ℕ) (w : World)
      → HasRest jobs runs ids w
      → HasRest jobs runs ids (enrich_from_duplicate id duplicate_of_id env w).1
  unfolding enrich_from_duplicate
  enrich_from_duplicate-HasRest id duplicate_of_id w h =
      let now = env.now w.statements in
      let linked : RawArticle → RawArticle = λ a. record a {
        duplicate_of = some duplicate_of_id;
        duplicate_status = DuplicateStatus.duplicate;
        processing_status = ProcessingStatus.qualified;
        updated_at = now;
      } in
      ground (arith, keys-set_article id linked w.articles (λ a. refl))
