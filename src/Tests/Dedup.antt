-- ===== src/Tests/Dedup.antt =====
-- The tests of src/utils/dedup.rs. A difference of less than 1e-10 from a ratio is equality with it,
-- since the model's ratios are exact.
use ingest_pipeline.Prelude.{
  ℕ, ◌*◌, ◌≡◌, refl, Bool, true, false, not, ◌&&◌, Option, none, some, List, [], ◌∷◌, map, leb,
  ◌==◌, if◌then◌else◌, is_some,
}
use ingest_pipeline.Prelude.Text.{Text, text, text_eq}
use ingest_pipeline.Dedup.Check.{DedupResult, Existing, check_duplicate}
use ingest_pipeline.Dedup.Normalize.{normalize_url}
use ingest_pipeline.Dedup.Normalize.Queries.{small}
use ingest_pipeline.Dedup.Similarity.{
  contains, tokenize, to_set, Ratio, jaccard_similarity, is_close,
}
use ingest_pipeline.Tests.{all_hold}

module _ (to_lowercase : Text → Text) where
  abbrev normalizes : Text → Text → Bool
  normalizes url expected = text_eq (normalize_url to_lowercase url) expected

  abbrev pub test_normalize_url_basic : Bool
  test_normalize_url_basic = all_hold (
      normalizes (text "https://Example.com/Path") (text "https://example.com/path")
      ∷ normalizes (text "HTTPS://EXAMPLE.COM/Path") (text "https://example.com/path")
      ∷ [])

  abbrev pub test_normalize_url_protocol_relative : Bool
  test_normalize_url_protocol_relative =
      normalizes (text "//example.com/path") (text "https://example.com/path")

  abbrev pub test_normalize_url_trailing_slash : Bool
  test_normalize_url_trailing_slash = all_hold (
      normalizes (text "https://example.com/path/") (text "https://example.com/path")
      ∷ normalizes (text "https://example.com/") (text "https://example.com")
      ∷ [])

  abbrev pub test_normalize_url_query_fragment : Bool
  test_normalize_url_query_fragment = all_hold (
      normalizes (text "https://example.com/path?foo=bar#anchor") (text "https://example.com/path")
      ∷ normalizes (text "https://example.com/path#section") (text "https://example.com/path")
      ∷ [])

  abbrev is_ratio : ℕ → ℕ → Ratio → Bool
  is_ratio part whole r = r.part * whole == r.whole * part

  abbrev similarity_is : ℕ → ℕ → Text → Text → Bool
  similarity_is part whole a b = is_ratio part whole (jaccard_similarity to_lowercase a b)

  abbrev pub test_jaccard_identical : Bool
  test_jaccard_identical = similarity_is 1 1 (text "hello world") (text "hello world")

  abbrev pub test_jaccard_completely_different : Bool
  test_jaccard_completely_different = similarity_is 0 1 (text "hello world") (text "foo bar baz")

  abbrev pub test_jaccard_partial : Bool
  test_jaccard_partial = similarity_is 1 2 (text "hello world foo") (text "hello world bar")

  abbrev pub test_jaccard_stop_words : Bool
  test_jaccard_stop_words =
      let tokens = to_set (tokenize to_lowercase (text "the cat in the hat")) in
      all_hold (
        not (contains tokens (text "the"))
        ∷ contains tokens (text "cat")
        ∷ contains tokens (text "hat")
        ∷ similarity_is 1 3 (text "the cat in the hat") (text "the cat on the mat")
        ∷ [])

  abbrev pub test_jaccard_all_stop_words : Bool
  test_jaccard_all_stop_words = similarity_is 1 1 (text "the a an of to") (text "le la de du")

  abbrev other : Text → Option Text → Text → List Existing
  other url canonical_url title =
      record { id = text "id-1"; url = url; canonical_url = canonical_url; title = title } ∷ []

  abbrev is_result : Bool → Text → DedupResult → Bool
  is_result is_duplicate reason result =
      (if is_duplicate then result.is_duplicate else not result.is_duplicate)
      && text_eq result.reason reason

  -- assert_eq!(result.duplicate_of, …)
  abbrev is_of : Option Text → DedupResult → Bool
  is_of expected result = elim expected [
    | none ↦ not (is_some result.duplicate_of)
    | some id ↦ elim result.duplicate_of [ none ↦ false | some found ↦ text_eq found id ]
  ]

  abbrev pub test_check_duplicate_url_exact : Bool
  test_check_duplicate_url_exact =
      let existing = other (text "https://example.com/article") none (text "Some title") in
      let result =
        check_duplicate to_lowercase (text "https://example.com/article") none
          (text "Another title") existing in
      all_hold
        (is_result true (text "url_exact_match") result ∷ is_of (some (text "id-1")) result ∷ [])

  abbrev pub test_check_duplicate_url_case_insensitive : Bool
  test_check_duplicate_url_case_insensitive =
      let existing = other (text "HTTPS://EXAMPLE.COM/Article") none (text "Some title") in
      is_result true (text "url_exact_match") (
        check_duplicate to_lowercase (text "https://example.com/article") none
          (text "Another title") existing)

  abbrev pub test_check_duplicate_canonical : Bool
  test_check_duplicate_canonical =
      let existing =
        other (text "https://example.com/redirect") (some (text "https://example.com/canonical"))
          (text "Some title") in
      let result =
        check_duplicate to_lowercase (text "https://example.com/canonical") none
          (text "Another title") existing in
      all_hold
        (is_result true (text "url_exact_match") result ∷ is_of (some (text "id-1")) result ∷ [])

  abbrev pub test_check_duplicate_article_canonical_matches_existing_url : Bool
  test_check_duplicate_article_canonical_matches_existing_url =
      let existing = other (text "https://example.com/original") none (text "Some title") in
      is_result true (text "url_exact_match") (
        check_duplicate to_lowercase (text "https://example.com/some-other")
          (some (text "https://example.com/original")) (text "Another title") existing)

  abbrev pub test_check_duplicate_title_similar : Bool
  test_check_duplicate_title_similar =
      let existing =
        other (text "https://example.com/a") none
          (text "Breaking News Major Event Happens Today") in
      let result =
        check_duplicate to_lowercase (text "https://example.com/b") none
          (text "Breaking News: Major Event Happens Today!") existing in
      all_hold
        (is_result true (text "title_similarity") result ∷ is_of (some (text "id-1")) result ∷ [])

  abbrev pub test_check_duplicate_distinct : Bool
  test_check_duplicate_distinct =
      let existing =
        other (text "https://example.com/a") none (text "Weather Forecast Sunny Skies Ahead") in
      let result =
        check_duplicate to_lowercase (text "https://example.com/b") none
          (text "Sports Team Wins Championship Final") existing in
      all_hold (is_result false (text "distinct") result ∷ is_of none result ∷ [])

  abbrev summit : Text
  summit = text "Breaking News Major Event Happens Today Around World Crisis Summit"

  abbrev meeting : Text
  meeting = text "Breaking News Major Event Happens Today Around World Crisis Meeting"

  abbrev pub test_check_duplicate_near_duplicate : Bool
  test_check_duplicate_near_duplicate =
      let result =
        check_duplicate to_lowercase (text "https://example.com/b") none meeting
          (other (text "https://example.com/a") none summit) in
      let similarity = jaccard_similarity to_lowercase summit meeting in
      all_hold (
        leb (4 * similarity.whole) (5 * similarity.part)
        ∷ is_result true (text "title_similarity") result
        ∷ [])

normalize_tests :
    all_hold (
      test_normalize_url_basic (map small)
      ∷ test_normalize_url_protocol_relative (map small)
      ∷ test_normalize_url_trailing_slash (map small)
      ∷ test_normalize_url_query_fragment (map small)
      ∷ [])
    ≡ true
unfolding normalize_url text_eq
normalize_tests = refl

jaccard_tests :
    all_hold (
      test_jaccard_identical (map small)
      ∷ test_jaccard_completely_different (map small)
      ∷ test_jaccard_partial (map small)
      ∷ test_jaccard_stop_words (map small)
      ∷ test_jaccard_all_stop_words (map small)
      ∷ [])
    ≡ true
unfolding jaccard_similarity
jaccard_tests = refl

check_duplicate_url_tests :
    all_hold (
      test_check_duplicate_url_exact (map small)
      ∷ test_check_duplicate_url_case_insensitive (map small)
      ∷ test_check_duplicate_canonical (map small)
      ∷ test_check_duplicate_article_canonical_matches_existing_url (map small)
      ∷ [])
    ≡ true
unfolding check_duplicate normalize_url text_eq
check_duplicate_url_tests = refl

check_duplicate_title_tests :
    all_hold (
      test_check_duplicate_title_similar (map small)
      ∷ test_check_duplicate_distinct (map small)
      ∷ [])
    ≡ true
unfolding check_duplicate normalize_url text_eq jaccard_similarity is_close
check_duplicate_title_tests = refl

near_duplicate_test : test_check_duplicate_near_duplicate (map small) ≡ true
unfolding check_duplicate normalize_url text_eq jaccard_similarity is_close
near_duplicate_test = refl
