-- ===== src/Pipeline/Fetch.antt =====
-- How the content step gets at the text of an article (src/pipeline/content_step.rs): the strategies, the extraction service, and the test of what they give.
pub mod Order
use ingest_pipeline.Prelude.{
  ℕ, Bool, ◌&&◌, Option, none, some, List, [], ◌∷◌, ◌++◌, map, leb, if◌then◌else◌, unwrap_or,
  or_else,
}
use ingest_pipeline.Prelude.Text.{Text, text, text_eq, byte_len}
use ingest_pipeline.Config.{Config}
use ingest_pipeline.Extract.Html.{ExtractionResult, extract_text, clean_with_trafilatura}
use ingest_pipeline.Extract.Title.{count_words, min_article_word_count}
use ingest_pipeline.Libs.{Libs, json_str}
use ingest_pipeline.Resolver.{is_success}
use ingest_pipeline.Store.{
  M, Result, ok, err, Method, Request, Response, pure, attempt, request, ◌>>=◌,
}

abbrev pub min_text_length : ℕ
min_text_length = 300

abbrev pub strategies : List Text
strategies =
    map text ("default" ∷ "google-referrer" ∷ "twitter-referrer" ∷ "amp" ∷ "facebook-referrer" ∷ [])

abbrev referred : Text → List (Text × Text)
referred referer = (text "User-Agent", text "Mozilla/5.0") ∷ (text "Referer", referer) ∷ []

unfoldable pub strategy_headers : Text → List (Text × Text)
strategy_headers strategy =
    if text_eq strategy (text "default")
    then (text "User-Agent", text "Mozilla/5.0 (compatible; Googlebot/2.1)") ∷ []
    else if text_eq strategy (text "google-referrer")
    then referred (text "https://www.google.com/")
    else if text_eq strategy (text "twitter-referrer")
    then referred (text "https://t.co/")
    else if text_eq strategy (text "facebook-referrer")
    then referred (text "https://www.facebook.com/")
    else []

unfoldable pub strategy_request : Text → Text → Request
strategy_request url strategy = record {
  method = Method.get;
  target = if text_eq strategy (text "amp") then url ++ text "?amp=1" else url;
  headers = strategy_headers strategy;
  json = none;
}

-- The body of an answer of success.
unfoldable pub body_of : Result Response → Result Text
body_of (err e) = err e
body_of (ok response) =
    if is_success response.status
    then response.payload
    else err (text "HTTP " ++ response.status_text)

unfoldable pub fetch_with_strategy : Text → Text → M (Result Text)
fetch_with_strategy url strategy = do
  answer ← attempt (request (strategy_request url strategy))
  pure (body_of answer)

unfoldable pub hetzner_html : Libs → Text → Result Text
hetzner_html libs payload = elim (libs.json_parse payload) [
  | none ↦ err (text "error decoding response body")
  | some v ↦ elim (or_else (json_str libs v (text "content")) (json_str libs v (text "html"))) [
    | none ↦ err (text "No content in Hetzner response")
    | some html ↦ ok html
  ]
]

unfoldable pub hetzner_body : Libs → Result Response → Result Text
hetzner_body libs (err e) = err e
hetzner_body libs (ok response) =
    if is_success response.status
    then (elim response.payload [ err e ↦ err e | ok payload ↦ hetzner_html libs payload ])
    else err (text "Hetzner HTTP " ++ response.status_text)

unfoldable pub fetch_hetzner : Text → Text → Text → M (Result Text)
fetch_hetzner hetzner_url secret article_url env =
    (do
      answer ← attempt (
          request (record {
            method = Method.post;
            target = hetzner_url;
            headers = (text "Authorization", text "Bearer " ++ secret) ∷ [];
            json = some (env.json_object ((text "url", some article_url) ∷ []));
          }))
      pure (hetzner_body env.libs answer))
      env

-- Long enough in bytes and in words.
unfoldable pub is_long_enough : Text → Bool
is_long_enough s = leb min_text_length (byte_len s) && leb min_article_word_count (count_words s)

-- The text of a page, by rs-trafilatura or else by patterns, if it is long enough.
unfoldable pub extraction_of : Libs → Text → Result Text → Option ExtractionResult
extraction_of libs url (err e) = none
extraction_of libs url (ok html) =
    let result = unwrap_or (extract_text libs html) (clean_with_trafilatura libs html (some url)) in
    if is_long_enough result.text then some result else none

unfoldable pub try_strategies : Text → List Text → M (Option ExtractionResult)
try_strategies url [] env w = pure none env w
try_strategies url (strategy ∷ rest) env w =
    ◌>>=◌ (fetch_with_strategy url strategy)
      (λ html. elim (extraction_of env.libs url html) [
        | some result ↦ pure (some result)
        | none ↦ try_strategies url rest
      ])
      env w

unfoldable pub try_hetzner : Text → Option Config → M (Option ExtractionResult)
try_hetzner url none env = pure none env
try_hetzner url (some config) env = elim config.hetzner_extract_url [
  | none ↦ pure none env
  | some hetzner_url ↦ elim config.hetzner_extract_secret [
    | none ↦ pure none env
    | some secret ↦ λ w.
        ◌>>=◌ (fetch_hetzner hetzner_url secret url)
          (λ html. pure (extraction_of env.libs url html)) env w
  ]
]

unfoldable pub or_hetzner :
    Text → Option Config → Option ExtractionResult → M (Option ExtractionResult)
or_hetzner url config none = try_hetzner url config
or_hetzner url config (some result) = pure (some result)

unfoldable pub extract_article : Text → Option Config → M (Option ExtractionResult)
extract_article url config = try_strategies url strategies >>= or_hetzner url config
