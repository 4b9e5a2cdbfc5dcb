-- ===== src/Extract/Html.antt =====
-- The extraction of the text of a page, by patterns and by rs-trafilatura
-- (src/utils/text_extract.rs).
use ingest_pipeline.Prelude.{
  Option, none, some, List, [], ◌∷◌, ◌++◌, map, ◌||◌, if◌then◌else◌, or_else, unwrap_or,
}
use ingest_pipeline.Prelude.Text.{Text, text, trim, is_empty, parse_u32, from_u32}
use ingest_pipeline.Extract.Title.{clean_title}
use ingest_pipeline.Libs.{Libs, Extract}
use ingest_pipeline.Resolver.{canonical, canonical_href_first}
use ingest_pipeline.Rss.Fields.{mapped, and_then, replace_each}

pub record ExtractionResult : Type 0 where
  pub text : Text
  pub canonical_url : Option Text
  pub title_clean : Option Text

abbrev strip_tags : List Text
strip_tags = map text (
    "script" ∷ "style" ∷ "nav" ∷ "footer" ∷ "header" ∷ "aside" ∷ "noscript" ∷ "iframe" ∷ "form"
    ∷ "svg" ∷ "button" ∷ "input" ∷ "textarea" ∷ "select" ∷ "label" ∷ "figure" ∷ "figcaption" ∷ "img"
    ∷ "video" ∷ "audio" ∷ "canvas" ∷ "map" ∷ "object" ∷ "embed" ∷ [])

abbrev block_tags : List Text
block_tags =
    map text (
      "p" ∷ "div" ∷ "br" ∷ "h1" ∷ "h2" ∷ "h3" ∷ "h4" ∷ "h5" ∷ "h6" ∷ "li" ∷ "tr" ∷ "blockquote"
      ∷ [])

abbrev inline_tags : List Text
inline_tags = map text ("span" ∷ "a" ∷ "strong" ∷ "em" ∷ "b" ∷ "i" ∷ "code" ∷ "pre" ∷ [])

-- `decode_entities`: the named ones, then the numeric ones, of which one that is no character goes.
abbrev entities : List (Text × Text)
entities =
    (text "&amp;", text "&")
    ∷ (text "&lt;", text "<")
    ∷ (text "&gt;", text ">")
    ∷ (text "&quot;", text "\"")
    ∷ (text "&#39;", text "'")
    ∷ (text "&apos;", text "'")
    ∷ (text "&nbsp;", text " ")
    ∷ (text "&rsquo;", text "'")
    ∷ (text "&lsquo;", text "'")
    ∷ (text "&rdquo;", text "\"")
    ∷ (text "&ldquo;", text "\"")
    ∷ (text "&mdash;", text "—")
    ∷ (text "&ndash;", text "–")
    ∷ (text "&hellip;", text "…")
    ∷ (text "&eacute;", text "é")
    ∷ (text "&egrave;", text "è")
    ∷ (text "&agrave;", text "à")
    ∷ (text "&ccedil;", text "ç")
    ∷ (text "&ocir;", text "ô")
    ∷ (text "&ucir;", text "û")
    ∷ (text "&icir;", text "î")
    ∷ (text "&acir;", text "â")
    ∷ []

unfoldable pub numeric_entity : (Text → Option Text) → List (Option Text) → Text
numeric_entity decode (whole ∷ some digits ∷ rest) = unwrap_or [] (decode digits)
numeric_entity decode _ = []

unfoldable pub decode_entities : Libs → Text → Text
unfolding replace_each numeric_entity parse_u32 from_u32
decode_entities libs s =
    libs.replace_groups (text "&#x([0-9a-fA-F]+);")
      (libs.replace_groups (text "&#(\\d+);") (replace_each entities s)
        (numeric_entity (λ d. mapped (λ c. c ∷ []) (and_then (parse_u32 10 d) from_u32))))
      (numeric_entity (λ d. mapped (λ c. c ∷ []) (and_then (parse_u32 16 d) from_u32)))

module _ (libs : Libs) where
  unfoldable pub tag_pattern : Text → Text
  tag_pattern tag = text "(?is)<\\s*" ++ (libs.escape tag ++ text "\\b[^>]*/?>")

  unfoldable pub closing_tag_pattern : Text → Text
  closing_tag_pattern tag = text "(?i)</\\s*" ++ (libs.escape tag ++ text "\\s*>")

  unfoldable pub tag_block_pattern : Text → Text
  tag_block_pattern tag =
      text "(?is)<\\s*"
      ++ (libs.escape tag
          ++ (text "\\b[^>]*/?>.*?</\\s*"
              ++ (libs.escape tag
                  ++ (text "\\s*>|<\\s*" ++ (libs.escape tag ++ text "\\b[^>]*/?>")))))

  unfoldable pub raw_title : Text → Option Text
  unfolding trim
  raw_title html =
      or_else
        (mapped trim (
          or_else
            (libs.capture
              (text
                "(?i)<meta\\s+[^>]*property\\s*=\\s*[\"']og:title[\"'][^>]*content\\s*=\\s*[\"']([^\"']+)[\"']")
              html)
            (libs.capture
              (text
                "(?i)<meta\\s+[^>]*content\\s*=\\s*[\"']([^\"']+)[\"'][^>]*property\\s*=\\s*[\"']og:title[\"']")
              html)))
        (mapped (λ raw. trim (libs.replace_all (text "(?s)<[^>]*>") raw []))
          (libs.capture (text "(?s)<title[^>]*>(.*?)</title>") html))

  unfoldable pub extract_metadata : Text → Option Text × Option Text
  unfolding raw_title trim
  extract_metadata html = (
    mapped trim (or_else (libs.capture canonical html) (libs.capture canonical_href_first html)),
    mapped clean_title (raw_title html),
  )

  unfoldable pub extract_content_region : Text → Text
  extract_content_region html = unwrap_or html (
      or_else (libs.find_match (text "(?s)<article[^>]*>(.*)</article>") html) (
        or_else (libs.find_match (text "(?s)<main[^>]*>(.*)</main>") html)
          (libs.find_match (text "(?s)<body[^>]*>(.*)</body>") html)))

  unfoldable pub strip_blocks : List Text → Text → Text
  unfolding tag_block_pattern
  strip_blocks [] s = s
  strip_blocks (tag ∷ tags) s = strip_blocks tags (libs.replace_all (tag_block_pattern tag) s [])

  unfoldable pub replace_tags : Text → List Text → Text → Text
  unfolding tag_pattern closing_tag_pattern
  replace_tags by [] s = s
  replace_tags by (tag ∷ tags) s =
      replace_tags by tags
        (libs.replace_all (closing_tag_pattern tag) (libs.replace_all (tag_pattern tag) s by) by)

  unfoldable pub collapse_whitespace : Text → Text
  unfolding trim
  collapse_whitespace s = trim (
      libs.replace_all (text "\\n{3,}") (libs.replace_all (text "[ \\t]+") s (text " "))
        (text "\n\n"))

  unfoldable pub extract_text : Text → ExtractionResult
  unfolding extract_metadata extract_content_region strip_blocks replace_tags decode_entities
      collapse_whitespace
  extract_text html =
      let (canonical_url, title_clean) = extract_metadata html in
      let stripped = strip_blocks strip_tags (extract_content_region html) in
      let blocks = replace_tags (text "\n") block_tags stripped in
      let inline = replace_tags (text " ") inline_tags blocks in
      let bare = libs.replace_all (text "(?s)</?[a-zA-Z][^>]*>") inline [] in
      record {
        text = collapse_whitespace (decode_entities libs bare);
        canonical_url = canonical_url;
        title_clean = title_clean;
      }

  unfoldable pub from_extract : Text → Extract → Option ExtractionResult
  unfolding trim extract_metadata
  from_extract html result =
      let body = trim result.content_text in
      if is_empty body || result.low_quality
      then none
      else some (record {
        text = body;
        canonical_url = or_else result.page_url (extract_metadata html).0;
        title_clean = or_else (mapped clean_title result.page_title) (extract_metadata html).1;
      })

  unfoldable pub clean_with_trafilatura : Text → Option Text → Option ExtractionResult
  unfolding from_extract
  clean_with_trafilatura html url = and_then (libs.trafilatura html url) (from_extract html)
