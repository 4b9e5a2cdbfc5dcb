-- ===== src/Pipeline/Content/Untouched.antt =====
-- The content step, the tables of jobs and of runs and the keys of the articles
-- (src/pipeline/content_step.rs).
use ingest_pipeline.Prelude.{
  refl, ◌||◌, ℕ, Option, none, some, List, [], ◌∷◌, arith, suc, ltb, unwrap_or,
}
use ingest_pipeline.Prelude.Text.{byte_len, text, Text}
use ingest_pipeline.Config.{Config}
use ingest_pipeline.Db.Articles.{get_by_id, update_extraction, update_quality_status}
use ingest_pipeline.Db.Articles.Updates.{
  keys, HasRest, update_processing_status-HasRest, update_extraction-HasRest,
  update_quality_status-HasRest, update_duplicate_and_processing-HasRest,
  enrich_from_duplicate-HasRest,
}
use ingest_pipeline.Db.Comparable.{
  ComparableArticle, get_comparable_articles, find_similar_articles,
}
use ingest_pipeline.Db.Rejected.{insert_from_article}
use ingest_pipeline.Dedup.Check.{DedupResult}
use ingest_pipeline.Extract.Html.{ExtractionResult}
use ingest_pipeline.Extract.Title.{min_article_word_count, count_words}
use ingest_pipeline.Pipeline.Content.{
  length_details, qualify, is_open, after_first_check, after_final_check, with_open_article,
  reject_short, validate, with_article, save, record_duplicate, final_check, reject_duplicate,
  first_check, process_content_step,
}
use ingest_pipeline.Pipeline.Fetch.{
  strategies, try_strategies, fetch_with_strategy, try_hetzner, fetch_hetzner, or_hetzner,
  extract_article, min_text_length,
}
use ingest_pipeline.Schema.{Job, PipelineRun, RawArticle}
use ingest_pipeline.Store.{◌>>=◌, Env, World, Result, ok, err, run_keeps, branch_keeps, HasJobs}

module _ (jobs : List Job) (runs : List PipelineRun) (ids : List (ℕ × Text × Text))
    (env : Env) where
  try_strategies-HasRest :
      (url : Text) (names : List Text) (w : World)
      → HasRest jobs runs ids w
      → HasRest jobs runs ids (try_strategies url names env w).1
  unfolding try_strategies fetch_with_strategy
  try_strategies-HasRest url [] w h = h
  try_strategies-HasRest url (name ∷ names) w h =
      ground (arith, try_strategies-HasRest url names (record w { requests = suc w.requests }) h)

  extract_article-HasRest :
      (url : Text) (config : Option Config) (w : World)
      → HasRest jobs runs ids w
      → HasRest jobs runs ids (extract_article url config env w).1
  unfolding extract_article or_hetzner try_hetzner fetch_hetzner
  extract_article-HasRest url config w h =
      run_keeps (HasRest jobs runs ids) (try_strategies url strategies env w)
        (λ found w'. or_hetzner url config found env w') (try_strategies-HasRest url strategies w h)
        (λ found w' h'. ground arith)

  insert_from_article-HasRest :
      (article_id : ℕ) (source_id title url reason : Text) (details : Option Text) (w : World)
      → HasRest jobs runs ids w
      → HasRest jobs runs ids
          (insert_from_article article_id source_id title url reason details env w).1
  unfolding insert_from_article
  insert_from_article-HasRest article_id source_id title url reason details w h = ground arith

  record_duplicate-HasRest :
      (article : RawArticle) (other : Option ℕ) (details : Text) (w : World)
      → HasRest jobs runs ids w
      → HasRest jobs runs ids (record_duplicate article other details env w).1
  unfolding record_duplicate
  record_duplicate-HasRest article none details w h = h
  record_duplicate-HasRest article (some other) details w h =
      insert_from_article-HasRest article.id _ _ _ _ _ _
        (enrich_from_duplicate-HasRest jobs runs ids env article.id other w h)

  reject_duplicate-HasRest :
      (article : RawArticle) (dup : DedupResult) (prefix : Text) (n : Option ℕ) (w : World)
      → HasRest jobs runs ids w
      → HasRest jobs runs ids (reject_duplicate article dup prefix n env w).1
  unfolding reject_duplicate
  reject_duplicate-HasRest article dup prefix n w h =
      run_keeps (HasRest jobs runs ids) (record_duplicate article _ _ env w) _
        (record_duplicate-HasRest article _ _ w h) (λ done w' h'. h')

  save-HasRest :
      (article : RawArticle) (body title : Text) (canonical : Option Text) (w : World)
      → HasRest jobs runs ids w
      → HasRest jobs runs ids (save article body title canonical env w).1
  unfolding save
  save-HasRest article body title canonical w h =
      run_keeps (HasRest jobs runs ids) (update_extraction article.id _ _ _ canonical env w) _
        (update_extraction-HasRest jobs runs ids env article.id _ _ _ canonical w h)
        (λ done w' h'.
          run_keeps (HasRest jobs runs ids) (update_quality_status article.id _ env w') _
            (update_quality_status-HasRest jobs runs ids env article.id _ w' h')
            (λ done' w'' h''.
              update_duplicate_and_processing-HasRest jobs runs ids env article.id _ _ w'' h''))

  final_check-HasRest :
      (article : RawArticle) (others : List ComparableArticle) (body title : Text)
      (canonical : Option Text) (w : World)
      → HasRest jobs runs ids w
      → HasRest jobs runs ids (final_check article others body title canonical env w).1
  unfolding final_check after_final_check find_similar_articles qualify
  final_check-HasRest article others body title canonical w h =
      let similar = find_similar_articles title article.id 20 env w in
      branch_keeps (HasRest jobs runs ids) _ (reject_duplicate article _ (text "title_dup: ") _)
        (qualify article body title canonical) env similar.1
        (reject_duplicate-HasRest article _ (text "title_dup: ") _ similar.1 (ground arith))
        (run_keeps (HasRest jobs runs ids) (save article body title canonical env similar.1) _
          (save-HasRest article body title canonical similar.1 (ground arith)) (λ r w' h'. h'))

  reject_short-HasRest :
      (article : RawArticle) (body details : Text) (w : World)
      → HasRest jobs runs ids w
      → HasRest jobs runs ids (reject_short article body details env w).1
  unfolding reject_short
  reject_short-HasRest article body details w h =
      insert_from_article-HasRest article.id _ _ _ _ _ _
        (update_processing_status-HasRest jobs runs ids env article.id _ w h)

  validate-HasRest :
      (article : RawArticle) (others : List ComparableArticle) (found : Option ExtractionResult)
      (w : World)
      → HasRest jobs runs ids w
      → HasRest jobs runs ids (validate article others found env w).1
  unfolding validate
  validate-HasRest article others none w h =
      update_processing_status-HasRest jobs runs ids env article.id _ w h
  validate-HasRest article others (some r) w h =
      let title = unwrap_or article.title r.title_clean in
      branch_keeps (HasRest jobs runs ids)
        (ltb (byte_len r.text) min_text_length || ltb (count_words r.text) min_article_word_count)
        (reject_short article r.text (length_details env.libs r.text))
        (final_check article others r.text title r.canonical_url) env w
        (reject_short-HasRest article r.text _ w h)
        (final_check-HasRest article others r.text title r.canonical_url w h)

  after_first_check-HasRest :
      (article : RawArticle) (config : Option Config) (others : List ComparableArticle)
      (dup : DedupResult) (w : World)
      → HasRest jobs runs ids w
      → HasRest jobs runs ids (after_first_check article config others dup env w).1
  unfolding after_first_check
  after_first_check-HasRest article config others dup w h =
      branch_keeps (HasRest jobs runs ids) dup.is_duplicate
        (reject_duplicate article dup (text "url_dup: ") none)
        (extract_article article.url config >>= validate article others) env w
        (reject_duplicate-HasRest article dup (text "url_dup: ") none w h)
        (run_keeps (HasRest jobs runs ids) (extract_article article.url config env w)
          (λ found w'. validate article others found env w')
          (extract_article-HasRest article.url config w h)
          (λ found w' h'. validate-HasRest article others found w' h'))

  first_check-HasRest :
      (article : RawArticle) (config : Option Config) (r : Result (List ComparableArticle))
      (w : World)
      → HasRest jobs runs ids w
      → HasRest jobs runs ids (first_check article config r env w).1
  unfolding first_check
  first_check-HasRest article config (err e) w h = h
  first_check-HasRest article config (ok others) w h =
      after_first_check-HasRest article config others _ w h

  with_open_article-HasRest :
      (article : RawArticle) (config : Option Config) (w : World)
      → HasRest jobs runs ids w
      → HasRest jobs runs ids (with_open_article article config env w).1
  unfolding with_open_article get_comparable_articles
  with_open_article-HasRest article config w h =
      let r = get_comparable_articles article.id 500 env w in
      first_check-HasRest article config r.0 r.1 (ground arith)

  with_article-HasRest :
      (id : ℕ) (config : Option Config) (r : Result (Option RawArticle)) (w : World)
      → HasRest jobs runs ids w
      → HasRest jobs runs ids (with_article id config r env w).1
  unfolding with_article
  with_article-HasRest id config (err e) w h = h
  with_article-HasRest id config (ok none) w h = h
  with_article-HasRest id config (ok (some article)) w h =
      branch_keeps (HasRest jobs runs ids) (is_open article.processing_status)
        (with_open_article article config) _ env w (with_open_article-HasRest article config w h) h

  -- The content step leaves the tables of jobs and of runs and the keys of the articles as they are.
  pub process_content_step-HasRest :
      (id : ℕ) (config : Option Config) (w : World)
      → HasRest jobs runs ids w
      → HasRest jobs runs ids (process_content_step id config env w).1
  unfolding process_content_step get_by_id
  process_content_step-HasRest id config w h =
      let r = get_by_id id env w in with_article-HasRest id config r.0 r.1 (ground arith)

pub process_content_step-HasJobs :
    (jobs : List Job) (env : Env) (id : ℕ) (config : Option Config) (w : World)
    → HasJobs jobs w
    → HasJobs jobs (process_content_step id config env w).1
process_content_step-HasJobs jobs env id config w h =
    (process_content_step-HasRest jobs w.runs (keys w.articles) env id config w
      ((h, refl), refl)).0.0
