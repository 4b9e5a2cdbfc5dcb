-- ===== src/Dedup/Check.antt =====
-- `check_duplicate` of src/utils/dedup.rs.
pub mod Reasons
use ingest_pipeline.Prelude.{
  Bool, true, false, ◌||◌, Option, none, some, List, [], ◌∷◌, if◌then◌else◌,
}
use ingest_pipeline.Prelude.Text.{Text, text, text_eq}
use ingest_pipeline.Dedup.Normalize.{normalize_url}
use ingest_pipeline.Dedup.Similarity.{jaccard_similarity, is_close}

pub record DedupResult : Type 0 where
  pub is_duplicate : Bool
  pub duplicate_of : Option Text
  pub reason : Text

-- The tuple (id, url, canonical_url, title).
pub record Existing : Type 0 where
  pub id : Text
  pub url : Text
  pub canonical_url : Option Text
  pub title : Text

abbrev pub url_exact_match : Text
url_exact_match = text "url_exact_match"

abbrev pub title_similarity : Text
title_similarity = text "title_similarity"

abbrev pub distinct_result : DedupResult
distinct_result = record { is_duplicate = false; duplicate_of = none; reason = text "distinct" }

abbrev pub duplicate_result : Text → Text → DedupResult
duplicate_result id reason = record { is_duplicate = true; duplicate_of = some id; reason = reason }

module _ (lowercase : Text → Text) where
  -- Does an optional URL have this normal form?
  unfoldable pub canonical_is : Option Text → Text → Bool
  unfolding text_eq
  canonical_is none norm = false
  canonical_is (some canonical) norm = text_eq (normalize_url lowercase canonical) norm

  unfoldable pub matches_article_canonical : Option Text → Existing → Bool
  unfolding canonical_is
  matches_article_canonical none e = false
  matches_article_canonical (some article_canonical) e =
      text_eq (normalize_url lowercase e.url) article_canonical
      || canonical_is e.canonical_url article_canonical

  -- The body of the loop: the reason of the first test that succeeds.
  unfoldable pub match_reason : Text → Option Text → Text → Existing → Option Text
  unfolding canonical_is matches_article_canonical
  match_reason article_url_norm article_canonical_norm article_title e =
      if text_eq (normalize_url lowercase e.url) article_url_norm
      then some url_exact_match
      else if canonical_is e.canonical_url article_url_norm
      then some url_exact_match
      else if matches_article_canonical article_canonical_norm e
      then some url_exact_match
      else if is_close (jaccard_similarity lowercase article_title e.title)
      then some title_similarity
      else none

  unfoldable pub check_loop : Text → Option Text → Text → List Existing → DedupResult
  unfolding match_reason
  check_loop url canonical title [] = distinct_result
  check_loop url canonical title (e ∷ rest) =
      let later = check_loop url canonical title rest in
      elim (match_reason url canonical title e) [
        | some reason ↦ duplicate_result e.id reason
        | none ↦ later
      ]

  abbrev normal_canonical : Option Text → Option Text
  normal_canonical none = none
  normal_canonical (some url) = some (normalize_url lowercase url)

  unfoldable pub check_duplicate : Text → Option Text → Text → List Existing → DedupResult
  unfolding check_loop
  check_duplicate article_url article_canonical_url article_title existing_articles =
      check_loop (normalize_url lowercase article_url) (normal_canonical article_canonical_url)
        article_title existing_articles
