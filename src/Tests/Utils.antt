-- ===== src/Tests/Utils.antt =====
-- The tests of src/utils/rss_parser.rs and text_extract.rs that need no pattern.
use ingest_pipeline.Prelude.{◌≡◌, refl, Bool, true, false, [], ◌∷◌}
use ingest_pipeline.Prelude.Text.{Text, text, text_eq}
use ingest_pipeline.Extract.Title.{clean_title}
use ingest_pipeline.Libs.{Libs}
use ingest_pipeline.Rss.Feed.{parse_feed}
use ingest_pipeline.Rss.Urls.{normalize_url}
use ingest_pipeline.Store.{ok, err}
use ingest_pipeline.Tests.{all_hold}

abbrev resolves : Text → Text → Text → Bool
resolves url base_url expected = text_eq (normalize_url url base_url) expected

abbrev pub test_normalize_url : Bool
test_normalize_url = all_hold (
    resolves (text "https://example.com/img.jpg") [] (text "https://example.com/img.jpg")
    ∷ resolves (text "//cdn.example.com/img.jpg") [] (text "https://cdn.example.com/img.jpg")
    ∷ resolves (text "/img.jpg") (text "https://example.com/page")
        (text "https://example.com/img.jpg")
    ∷ resolves (text "img.jpg") (text "https://example.com/feed")
        (text "https://example.com/img.jpg")
    ∷ resolves (text "img.jpg") (text "https://example.com/feed/")
        (text "https://example.com/feed/img.jpg")
    ∷ [])

abbrev pub test_parse_unknown_format : Libs → Bool
test_parse_unknown_format libs =
    elim (parse_feed libs (text "not a feed") (text "https://example.com")) [
      | ok items ↦ false
      | err e ↦ true
    ]

abbrev pub test_clean_title_separator_dash : Bool
test_clean_title_separator_dash =
    text_eq (clean_title (text "Article | The Guardian")) (text "The Guardian")

abbrev pub test_clean_title_separator_pipe : Bool
test_clean_title_separator_pipe =
    text_eq (clean_title (text "Article | The Guardian")) (text "The Guardian")

abbrev pub test_clean_title_no_separator : Bool
test_clean_title_no_separator = text_eq (clean_title (text "Just a title")) (text "Just a title")

url_tests : test_normalize_url ≡ true
unfolding normalize_url text_eq
url_tests = refl

-- Whatever the patterns are.
format_test : (libs : Libs) → test_parse_unknown_format libs ≡ true
unfolding parse_feed
format_test libs = refl

title_tests :
    all_hold (
      test_clean_title_separator_dash ∷ test_clean_title_separator_pipe
      ∷ test_clean_title_no_separator ∷ [])
    ≡ true
unfolding clean_title text_eq
title_tests = refl
