-- ===== src/Dedup/Check/Reasons.antt =====
-- When an article is a duplicate (src/utils/dedup.rs).
use ingest_pipeline.Prelude.{
  ◌≡◌, Bool, true, Option, none, some, List, [], ◌∷◌, arith, refl, any, find, if◌then◌else◌, ◌||◌,
}
use ingest_pipeline.Prelude.Text.{Text, text_eq}
use ingest_pipeline.Dedup.Check.{
  normal_canonical, Existing, DedupResult, check_duplicate, check_loop, match_reason,
  matches_article_canonical, canonical_is, url_exact_match, title_similarity, distinct_result,
  duplicate_result,
}
use ingest_pipeline.Dedup.Normalize.{normalize_url}
use ingest_pipeline.Dedup.Similarity.{jaccard_similarity, jaccard_of, to_set, is_close, tokenize}
use ingest_pipeline.Dedup.Similarity.Bounds.{jaccard_of_self}

module _ (lowercase : Text → Text) where
  -- The addresses of an article.
  abbrev pub addresses : Text → Option Text → List Text
  addresses url none = url ∷ []
  addresses url (some canonical) = url ∷ canonical ∷ []

  abbrev same_address : Text → Text → Bool
  same_address u v = text_eq (normalize_url lowercase v) (normalize_url lowercase u)

  -- Do two articles share an address, up to normalisation?
  abbrev pub share_address : Text → Option Text → Existing → Bool
  share_address url canonical e =
      any (λ u. any (same_address u) (addresses e.url e.canonical_url)) (addresses url canonical)

  abbrev pub close_titles : Text → Existing → Bool
  close_titles title e = is_close (jaccard_similarity lowercase title e.title)

  abbrev pub report : Text → Option Text → Option Existing → DedupResult
  report url canonical none = distinct_result
  report url canonical (some e) =
      duplicate_result e.id
        (if share_address url canonical e then url_exact_match else title_similarity)

  abbrev expected_reason : Bool → Bool → Option Text
  expected_reason shared close =
      if shared then some url_exact_match else if close then some title_similarity else none

  match_reason-lem :
      (url : Text) (canonical : Option Text) (title : Text) (e : Existing)
      → match_reason lowercase
          (normalize_url lowercase url)
          (normal_canonical lowercase canonical)
          title
          e
        ≡ expected_reason (share_address url canonical e) (close_titles title e)
  unfolding match_reason matches_article_canonical canonical_is
  match_reason-lem url none title e = ground arith
  match_reason-lem url (some a) title e = ground arith

  check_loop-lem :
      (url : Text) (canonical : Option Text) (title : Text) (others : List Existing)
      → check_loop lowercase
          (normalize_url lowercase url)
          (normal_canonical lowercase canonical)
          title
          others
        ≡ report url canonical
            (find (λ e. share_address url canonical e || close_titles title e) others)
  unfolding check_loop
  check_loop-lem url canonical title [] = refl
  check_loop-lem url canonical title (e ∷ others) =
      ground
        (arith, check_loop-lem url canonical title others, match_reason-lem url canonical title e)

-- The check reports the first existing article that has an address in common with the new one, after
-- normalisation, or a title that is close to its title; the reason is the title only if no address
-- is shared. If there is none, the article is distinct.
pub check_duplicate-lem :
    (lowercase : Text → Text) (url : Text) (canonical : Option Text) (title : Text)
    (others : List Existing)
    → check_duplicate lowercase url canonical title others
      ≡ report lowercase url canonical (
          find
            (λ e. share_address lowercase url canonical e || close_titles lowercase title e)
            others)
unfolding check_duplicate
check_duplicate-lem lowercase url canonical title others =
    check_loop-lem lowercase url canonical title others

-- An article without a word that counts in its title, such as an empty one, is reported as a
-- duplicate of the first existing article if that has no such word in its title either, whatever
-- their addresses are.
pub check_duplicate-no_words :
    (lowercase : Text → Text) (url : Text) (canonical : Option Text) (title : Text) (e : Existing)
    (others : List Existing)
    → tokenize lowercase title ≡ []
    → tokenize lowercase e.title ≡ []
    → ((check_duplicate lowercase url canonical title (e ∷ others)).is_duplicate ≡ true)
      × ((check_duplicate lowercase url canonical title (e ∷ others)).duplicate_of ≡ some e.id)
unfolding jaccard_similarity jaccard_of to_set is_close
check_duplicate-no_words lowercase url canonical title e others h k =
    let close : close_titles lowercase title e ≡ true = ground arith in
    ground (arith, check_duplicate-lem lowercase url canonical title (e ∷ others), close)

-- An article with the title of the first existing one is reported as a duplicate of that one.
pub check_duplicate-same_title :
    (lowercase : Text → Text) (url : Text) (canonical : Option Text) (e : Existing)
    (others : List Existing)
    → (check_duplicate lowercase url canonical e.title (e ∷ others)).duplicate_of ≡ some e.id
unfolding jaccard_similarity
check_duplicate-same_title lowercase url canonical e others = ground (
  arith,
  check_duplicate-lem lowercase url canonical e.title (e ∷ others),
  jaccard_of_self (to_set (tokenize lowercase e.title)),
)

-- Such an article is a duplicate.
pub is_duplicate-same_title :
    (lowercase : Text → Text) (url : Text) (canonical : Option Text) (e : Existing)
    (others : List Existing)
    → (check_duplicate lowercase url canonical e.title (e ∷ others)).is_duplicate ≡ true
unfolding jaccard_similarity
is_duplicate-same_title lowercase url canonical e others = ground (
  arith,
  check_duplicate-lem lowercase url canonical e.title (e ∷ others),
  jaccard_of_self (to_set (tokenize lowercase e.title)),
)
