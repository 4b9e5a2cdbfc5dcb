-- ===== src/Resolver.antt =====
-- The resolution of shortened URLs (src/utils/url_resolver.rs). The recursion runs on fuel; four
-- levels are enough, since a call at depth 3 returns at once.
pub mod Bounds
use ingest_pipeline.Prelude.{
  ℕ, zero, suc, ◌+◌, Bool, false, ◌&&◌, Option, none, some, List, [], ◌∷◌, map, ltb, leb, any,
  if◌then◌else◌, unwrap_or, or_else,
}
use ingest_pipeline.Prelude.Text.{Text, text, text_eq}
use ingest_pipeline.Libs.{Libs}
use ingest_pipeline.Store.{
  M, Result, ok, err, Method, Request, Response, pure, attempt, request, ◌>>=◌,
}

abbrev pub max_depth : ℕ
max_depth = 3

abbrev pub shortener_domains : List Text
shortener_domains = map text (
    "news.google.com" ∷ "t.co" ∷ "bit.ly" ∷ "tinyurl.com" ∷ "ow.ly" ∷ "buff.ly" ∷ "dlvr.it"
    ∷ "rebrand.ly" ∷ "short.link" ∷ [])

abbrev pub meta_refresh : Text
meta_refresh =
    text
      "(?i)<meta\\s+[^>]*http-equiv\\s*=\\s*[\"']refresh[\"'][^>]*content\\s*=\\s*[\"'][^\"']*url\\s*=\\s*([^\"'\\s;>]+)[^\"']*[\"']"

abbrev pub meta_refresh_content_first : Text
meta_refresh_content_first =
    text
      "(?i)<meta\\s+[^>]*content\\s*=\\s*[\"'][^\"']*url\\s*=\\s*([^\"'\\s;>]+)[^\"']*[\"'][^>]*http-equiv\\s*=\\s*[\"']refresh[\"']"

abbrev pub canonical : Text
canonical =
    text "(?i)<link\\s+[^>]*rel\\s*=\\s*[\"']canonical[\"'][^>]*href\\s*=\\s*[\"']([^\"']+)[\"']"

abbrev pub canonical_href_first : Text
canonical_href_first =
    text "(?i)<link\\s+[^>]*href\\s*=\\s*[\"']([^\"']+)[\"'][^>]*rel\\s*=\\s*[\"']canonical[\"']"

unfoldable pub is_shortener_domain : Libs → Text → Bool
is_shortener_domain libs url = elim (libs.host_str url) [
  | none ↦ false
  | some host ↦ any (text_eq (libs.lowercase host)) shortener_domains
]

unfoldable pub extract_meta_refresh : Libs → Text → Option Text
extract_meta_refresh libs html =
    or_else (libs.capture meta_refresh html) (libs.capture meta_refresh_content_first html)

unfoldable pub extract_canonical : Libs → Text → Option Text
extract_canonical libs html =
    or_else (libs.capture canonical html) (libs.capture canonical_href_first html)

abbrev pub plain_request : Method → Text → Request
plain_request method url = record { method = method; target = url; headers = []; json = none }

abbrev pub is_success : ℕ → Bool
is_success status = leb 200 status && ltb status 300

-- The final URL of an answer, if it is another one than was asked for.
unfoldable pub redirected : Text → Result Response → Option Text
redirected url (err e) = none
redirected url (ok response) =
    if text_eq response.final_url url then none else some response.final_url

-- Strategies 3 and 4, on the body of the page.
unfoldable pub from_page : (Text → M (Option Text)) → Result Text → M (Option Text)
from_page deeper (err e) env = pure none env
from_page deeper (ok body) env = elim (extract_meta_refresh env.libs body) [
  | some refresh_url ↦
      λ w. ◌>>=◌ (deeper refresh_url) (λ found. pure (some (unwrap_or refresh_url found))) env w
  | none ↦ pure (extract_canonical env.libs body) env
]

-- Strategy 2, on the answer to GET.
unfoldable pub from_get : (Text → M (Option Text)) → Text → Result Response → M (Option Text)
from_get deeper url (err e) = pure none
from_get deeper url (ok response) = elim (redirected url (ok response)) [
  | some final_url ↦ pure (some final_url)
  | none ↦ if is_success response.status then from_page deeper response.payload else pure none
]

unfoldable pub resolve_once : (Text → M (Option Text)) → Text → M (Option Text)
resolve_once deeper url = do
  head_answer ← attempt (request (plain_request Method.head url))
  elim (redirected url head_answer) [
    | some final_url ↦ pure (some final_url)
    | none ↦ attempt (request (plain_request Method.get url)) >>= from_get deeper url
  ]

unfoldable pub resolve_recursive : ℕ → Text → ℕ → M (Option Text)
resolve_recursive zero url depth = pure none
resolve_recursive (suc fuel) url depth =
    let deeper = λ (target : Text). resolve_recursive fuel target (depth + 1) in
    if leb max_depth depth then pure none else resolve_once deeper url

abbrev pub enough : ℕ
enough = 4

unfoldable pub resolve_source_url : Text → M (Option Text)
resolve_source_url url env =
    (if is_shortener_domain env.libs url then resolve_recursive enough url 0 else pure none) env

unfoldable pub resolve_url_unchecked : Text → M (Option Text)
resolve_url_unchecked url = resolve_recursive enough url 0
