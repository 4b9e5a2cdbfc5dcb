-- ===== src/Pipeline/Content/Mutual.antt =====
-- Two articles with the same title, one processed after the other (src/pipeline/content_step.rs).
use ingest_pipeline.Prelude.{
  ℕ, suc, ◌+◌, ◌≡◌, refl, sym, ap, ◌∙◌, true, false, Option, none, some, List, [], ◌∷◌, map, arith,
  take, select, ltb, ◌==◌,
}
use ingest_pipeline.Prelude.Sort.{sort, insert}
use ingest_pipeline.Prelude.Text.{Text, text}
use ingest_pipeline.Config.{Config}
use ingest_pipeline.Db.Articles.{has_article, set_article, get_by_id, enrich_from_duplicate}
use ingest_pipeline.Db.Comparable.{
  is_comparable, comparable_of, get_comparable_articles, is_comparable_status,
}
use ingest_pipeline.Db.Rejected.{insert_from_article}
use ingest_pipeline.Dedup.Check.{DedupResult, check_duplicate}
use ingest_pipeline.Dedup.Check.Reasons.{is_duplicate-same_title, check_duplicate-same_title}
use ingest_pipeline.Libs.{ReadsBack}
use ingest_pipeline.Pipeline.Content.{
  ContentStepResult, ContentStepStatus, process_content_step, reject_duplicate, record_duplicate,
  first_check, is_open, with_article, with_open_article, existing_of, after_first_check,
}
use ingest_pipeline.Pipeline.Content.Stored.{find_article}
use ingest_pipeline.Rss.Fields.{and_then}
use ingest_pipeline.Schema.{RawArticle, DuplicateStatus, ProcessingStatus}
use ingest_pipeline.Store.{Env, World, Result, ok, err}

-- The row of a duplicate.
abbrev duplicate_row : ℕ → ℕ → RawArticle → RawArticle
duplicate_row other now a = record a {
  duplicate_of = some other;
  duplicate_status = DuplicateStatus.duplicate;
  processing_status = ProcessingStatus.qualified;
  updated_at = now;
}

abbrev pub status_of : Result ContentStepResult → Option ContentStepStatus
status_of (ok r) = some r.status
status_of (err e) = none

-- An article that the step works on is one that others are compared with.
is_open-comparable :
    (status : ProcessingStatus) → is_open status ≡ true → is_comparable_status status ≡ true
unfolding is_open
is_open-comparable status h = ground arith

module _ (env : Env) (works : (n : ℕ) → env.fails n ≡ false) where
  -- What a rejection of an article for another one leaves of the table of articles.
  reject_duplicate-articles :
      (article : RawArticle) (dup : DedupResult) (other : ℕ) (prefix : Text) (size : Option ℕ)
      (w : World)
      → and_then dup.duplicate_of env.parse_uuid ≡ some other
      → has_article other w.articles ≡ true
      → (status_of (reject_duplicate article dup prefix size env w).0
          ≡ some ContentStepStatus.rejected_duplicate)
        × ((reject_duplicate article dup prefix size env w).1.articles
            ≡ set_article article.id (duplicate_row other (env.now w.statements)) w.articles)
  unfolding reject_duplicate record_duplicate enrich_from_duplicate insert_from_article
  reject_duplicate-articles article dup other prefix size w e h = ground (arith, works w.statements)

  -- The comparable articles of a step, the newest first.
  abbrev pub comparable_rows : ℕ → World → List RawArticle
  comparable_rows id w =
      take 500 (sort (λ a b. ltb b.created_at a.created_at) (select (is_comparable id) w.articles))

  sent : ℕ → World → World
  sent n w = record w { statements = n + w.statements }

  -- The step on an open article comes to the first check with the comparable articles.
  pub process_content_step-first_check :
      (article : RawArticle) (config : Option Config) (w : World)
      → find_article article.id w ≡ some article
      → is_open article.processing_status ≡ true
      → process_content_step article.id config env w
        ≡ first_check article config
            (ok (map comparable_of (comparable_rows article.id w)))
            env
            (record w { statements = 2 + w.statements })
  unfolding process_content_step get_by_id with_article with_open_article get_comparable_articles
  process_content_step-first_check article config w h o =
      ground (arith, works w.statements, works (suc w.statements))

  -- The check against one article, of the same title.
  abbrev check : RawArticle → RawArticle → DedupResult
  check article other =
      check_duplicate env.lowercase article.url none article.title
        (existing_of env.libs (comparable_of other) ∷ [])

  first_check-same_title :
      (article other : RawArticle) (config : Option Config) (w : World)
      → article.title ≡ other.title
      → ReadsBack env.libs
      → (first_check article config (ok (map comparable_of (other ∷ []))) env w
          ≡ reject_duplicate article (check article other) (text "url_dup: ") none env w)
        × (and_then (check article other).duplicate_of env.parse_uuid ≡ some other.id)
  unfolding first_check after_first_check existing_of comparable_of
  first_check-same_title article other config w same reads =
      let e = existing_of env.libs (comparable_of other) in
      let found = is_duplicate-same_title env.lowercase article.url none e [] in
      let which = check_duplicate-same_title env.lowercase article.url none e [] in
      (rw (same, found) refl, rw (same, which) (reads.ids other.id))

  -- The step on an open article whose only comparable article has its title.
  process_content_step-same_title :
      (article other : RawArticle) (config : Option Config) (w : World)
      → find_article article.id w ≡ some article
      → is_open article.processing_status ≡ true
      → comparable_rows article.id w ≡ other ∷ []
      → article.title ≡ other.title
      → has_article other.id w.articles ≡ true
      → ReadsBack env.libs
      → let (r, v) = process_content_step article.id config env w in
        (status_of r ≡ some ContentStepStatus.rejected_duplicate)
        × (v.articles
            ≡ set_article article.id
                (duplicate_row other.id (env.now (2 + w.statements)))
                w.articles)
  process_content_step-same_title article other config w h o rows same there reads =
      let sent = record w { statements = 2 + w.statements } in
      let (first, which) = first_check-same_title article other config sent same reads in
      let whole =
        process_content_step-first_check article config w h o
        ∙ ap (λ l. first_check article config (ok (map comparable_of l)) env sent) rows
        ∙ first in
      rw whole (
        reject_duplicate-articles article (check article other) other.id (text "url_dup: ") none
          sent which there)

  -- The tables with these two articles, where only the other one is comparable.
  first_of_two :
      (a b : RawArticle) (w : World)
      → w.articles ≡ a ∷ b ∷ []
      → is_comparable_status b.processing_status ≡ true
      → (a.id == b.id) ≡ false
      → (find_article a.id w ≡ some a)
        × (comparable_rows a.id w ≡ b ∷ [])
        × (has_article b.id w.articles ≡ true)
  unfolding is_comparable sort insert
  first_of_two a b w e open_b apart = ground arith

  second_of_two :
      (a b : RawArticle) (w : World)
      → w.articles ≡ a ∷ b ∷ []
      → is_comparable_status a.processing_status ≡ true
      → (a.id == b.id) ≡ false
      → (find_article b.id w ≡ some b)
        × (comparable_rows b.id w ≡ a ∷ [])
        × (has_article a.id w.articles ≡ true)
  unfolding is_comparable sort insert
  second_of_two a b w e open_a apart = ground arith

  set_first :
      (a b : RawArticle) (f : RawArticle → RawArticle)
      → (a.id == b.id) ≡ false
      → set_article a.id f (a ∷ b ∷ []) ≡ f a ∷ b ∷ []
  unfolding set_article
  set_first a b f apart = ground arith

  set_second :
      (a b : RawArticle) (f : RawArticle → RawArticle)
      → (a.id == b.id) ≡ false
      → set_article b.id f (a ∷ b ∷ []) ≡ a ∷ f b ∷ []
  unfolding set_article
  set_second a b f apart = ground arith

  -- Of two open articles with the same title, processed one after the other, each is rejected as a
  -- duplicate of the other, and so neither is kept: the first is still compared with the second after
  -- its rejection. (The table holds these two, no statement fails, and ids are read back.)
  pub both_rejected :
      (a b : RawArticle) (config : Option Config) (w : World)
      → is_open a.processing_status ≡ true
      → is_open b.processing_status ≡ true
      → a.title ≡ b.title
      → (a.id == b.id) ≡ false
      → ReadsBack env.libs
      → let (r, v) = process_content_step a.id config env (record w { articles = a ∷ b ∷ [] }) in
        let (s, u) = process_content_step b.id config env v in
        (status_of r ≡ some ContentStepStatus.rejected_duplicate)
        × (status_of s ≡ some ContentStepStatus.rejected_duplicate)
        × (map (λ x. x.duplicate_of) u.articles ≡ some b.id ∷ some a.id ∷ [])
  both_rejected a b config w open_a open_b same apart reads =
      let w0 = record w { articles = a ∷ b ∷ [] } in
      let comparable_b : is_comparable_status b.processing_status ≡ true =
        is_open-comparable b.processing_status open_b in
      let (found_a, only_b, there_b) = first_of_two a b w0 refl comparable_b apart in
      let (rejected_a, left_a) =
        process_content_step-same_title a b config w0 found_a open_a only_b same there_b reads in
      let v = (process_content_step a.id config env w0).1 in
      let a' = duplicate_row b.id (env.now (2 + w.statements)) a in
      let now_a : v.articles ≡ a' ∷ b ∷ [] =
        left_a ∙ set_first a b (duplicate_row b.id (env.now (2 + w.statements))) apart in
      let (found_b, only_a, there_a) = second_of_two a' b v now_a refl apart in
      let (rejected_b, left_b) =
        process_content_step-same_title b a' config v found_b open_b only_a (sym same) there_a
          reads in
      let mark = duplicate_row a.id (env.now (2 + v.statements)) in
      (
        rejected_a,
        rejected_b,
        ap (map (λ x. x.duplicate_of))
            (left_b ∙ ap (set_article b.id mark) now_a ∙ set_second a' b mark apart),
      )
