-- ===== src/Pipeline/Content/Complete.antt =====
-- That the content step accepts an article which it should (src/pipeline/content_step.rs).
use ingest_pipeline.Prelude.{
  ℕ, suc, ◌+◌, ◌≡◌, refl, ap, ◌∙◌, Bool, true, false, ◌&&◌, Option, none, some, List, map, arith,
  take, select, ltb, unwrap_or,
}
use ingest_pipeline.Prelude.Sort.{sort}
use ingest_pipeline.Prelude.Text.{Text, byte_len}
use ingest_pipeline.Config.{Config}
use ingest_pipeline.Db.Articles.{
  update_extraction, update_quality_status, update_duplicate_and_processing,
}
use ingest_pipeline.Db.Comparable.{
  find_similar_articles, is_comparable, comparable_of, score, is_similar, ComparableArticle,
}
use ingest_pipeline.Dedup.Check.{check_duplicate}
use ingest_pipeline.Extract.Html.{ExtractionResult}
use ingest_pipeline.Pipeline.Content.{
  process_content_step, ContentStepStatus, settled, is_open, qualify, validate, after_first_check,
  after_final_check, final_check, first_check, existing_of, save,
}
use ingest_pipeline.Pipeline.Content.Mutual.{comparable_rows, process_content_step-first_check}
use ingest_pipeline.Pipeline.Content.Outcomes.{not_short}
use ingest_pipeline.Pipeline.Content.Stored.{find_article, find-set_article, extracted_row}
use ingest_pipeline.Pipeline.Fetch.{strategies, extract_article}
use ingest_pipeline.Pipeline.Fetch.Order.{first_text, first_text-long, extract_article-first_text}
use ingest_pipeline.Schema.{RawArticle, DuplicateStatus, ProcessingStatus, QualityStatus}
use ingest_pipeline.Store.{Env, World, ok, ◌>>=◌}

-- The row of an accepted article: its text, titles and marks, written by three statements.
abbrev pub accepted_row : RawArticle → ExtractionResult → ℕ → ℕ → RawArticle
accepted_row a r read now = record a {
  body = some r.text;
  content_length = some (byte_len r.text);
  title_clean = some (unwrap_or a.title r.title_clean);
  canonical_url = r.canonical_url;
  extraction_attempts = a.extraction_attempts + 1;
  last_extraction_at = some read;
  quality_status = QualityStatus.qualified;
  duplicate_status = DuplicateStatus.distinct;
  processing_status = ProcessingStatus.pending_qualification;
  updated_at = now;
}

module _ (env : Env) (works : (n : ℕ) → env.fails n ≡ false) where
  -- The check of an article against rows of the table.
  abbrev pub is_duplicate_among : RawArticle → Option Text → Text → List RawArticle → Bool
  is_duplicate_among article canonical title rows =
      (check_duplicate env.lowercase article.url canonical title
        (map (existing_of env.libs) (map comparable_of rows))).is_duplicate

  -- The rows with a similar clean title, the most similar first.
  abbrev pub similar_rows : Text → ℕ → World → List RawArticle
  similar_rows title id w = take 20 (
      sort
        (λ a b.
          ltb (score env.similarity title b.title_clean) (score env.similarity title a.title_clean))
        (select (λ a. is_comparable id a && is_similar env.similar title a.title_clean) w.articles))

  save-accepted_row :
      (a : RawArticle) (r : ExtractionResult) (w : World)
      → find_article a.id w ≡ some a
      → let (outcome, v) = save a r.text (unwrap_or a.title r.title_clean) r.canonical_url env w in
        (outcome ≡ ok (ok tt))
        × (find_article a.id v
            ≡ some (accepted_row a r (env.now w.statements) (env.now (2 + w.statements))))
  unfolding save update_extraction update_quality_status update_duplicate_and_processing
  save-accepted_row a r w h =
      let n = w.statements in
      let id = a.id in
      let written = λ (x : RawArticle).
        extracted_row x r.text (unwrap_or a.title r.title_clean) r.canonical_url (env.now n) in
      let marked = λ (x : RawArticle). record x {
        quality_status = QualityStatus.qualified;
        updated_at = env.now (suc n);
      } in
      let passed = λ (x : RawArticle). record x {
        duplicate_status = DuplicateStatus.distinct;
        processing_status = ProcessingStatus.pending_qualification;
        updated_at = env.now (2 + n);
      } in
      let first = find-set_article id written w.articles a refl h in
      let second = find-set_article id marked _ _ refl first in
      let third = find-set_article id passed _ _ refl second in
      ground (arith, works n, works (suc n), works (2 + n), third)

  final_check-accepted_row :
      (a : RawArticle) (r : ExtractionResult) (others : List ComparableArticle) (w : World)
      → find_article a.id w ≡ some a
      → let title = unwrap_or a.title r.title_clean in
        is_duplicate_among a r.canonical_url title (similar_rows title a.id w) ≡ false
        → let (outcome, v) = final_check a others r.text title r.canonical_url env w in
          (outcome
            ≡ ok (
                settled a.id ContentStepStatus.pending_qualification (some (byte_len r.text)) none))
          × (find_article a.id v
              ≡ some (accepted_row a r (env.now (1 + w.statements)) (env.now (3 + w.statements))))
  unfolding final_check after_final_check find_similar_articles qualify
  final_check-accepted_row a r others w h distinct =
      let queried = record w { statements = suc w.statements } in
      ground (arith, works w.statements, save-accepted_row a r queried h)

  -- From the fetch on.
  fetched-accepted_row :
      (a : RawArticle) (config : Option Config) (r : ExtractionResult)
      (others : List ComparableArticle) (w : World)
      → let title = unwrap_or a.title r.title_clean in
        find_article a.id w ≡ some a
        → (first_text env a.url w.requests strategies).0 ≡ some r
        → is_duplicate_among a r.canonical_url title (similar_rows title a.id w) ≡ false
        → let (outcome, v) = (extract_article a.url config >>= validate a others) env w in
          (outcome
            ≡ ok (
                settled a.id ContentStepStatus.pending_qualification (some (byte_len r.text)) none))
          × (find_article a.id v
              ≡ some (accepted_row a r (env.now (1 + w.statements)) (env.now (3 + w.statements))))
  unfolding validate
  fetched-accepted_row a config r others w h found second =
      let long = not_short r.text (first_text-long env a.url w.requests strategies r found) in
      let fetched = record w { requests = (first_text env a.url w.requests strategies).1 } in
      rw (extract_article-first_text env a.url config r w found, validate, long)
        (final_check-accepted_row a r others fetched h second)

  -- An open article that is no duplicate, and for which a strategy gives a text that is long enough,
  -- is accepted: the step reports it as pending qualification, and the table then holds its text,
  -- titles and marks. (No statement fails. The article is compared by its title with the comparable
  -- articles before its page is fetched, and by its clean title with the similar ones after.)
  pub process_content_step-accepts :
      (a : RawArticle) (config : Option Config) (r : ExtractionResult) (w : World)
      → let n = w.statements in
        let title = unwrap_or a.title r.title_clean in
        find_article a.id w ≡ some a
        → is_open a.processing_status ≡ true
        → is_duplicate_among a none a.title (comparable_rows env works a.id w) ≡ false
        → (first_text env a.url w.requests strategies).0 ≡ some r
        → is_duplicate_among a r.canonical_url title (similar_rows title a.id w) ≡ false
        → let (outcome, v) = process_content_step a.id config env w in
          (outcome
            ≡ ok (
                settled a.id ContentStepStatus.pending_qualification (some (byte_len r.text)) none))
          × (find_article a.id v ≡ some (accepted_row a r (env.now (3 + n)) (env.now (5 + n))))
  unfolding first_check after_first_check
  process_content_step-accepts a config r w h o first found second =
      let comparable = map comparable_of (comparable_rows env works a.id w) in
      let sent = record w { statements = 2 + w.statements } in
      let row = λ (read now : ℕ). some (accepted_row a r (env.now read) (env.now now)) in
      let n = w.statements in
      let (outcome, left) = fetched-accepted_row a config r comparable sent h found second in
      let times : row (1 + (2 + n)) (3 + (2 + n)) ≡ row (3 + n) (5 + n) =
        ap (λ k. row k (3 + (2 + n))) (omega arith) ∙ ap (row (3 + n)) (omega arith) in
      rw (process_content_step-first_check env works a config w h o, first) (outcome, left ∙ times)
