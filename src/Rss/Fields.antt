-- ===== src/Rss/Fields.antt =====
-- The fields of an item (src/utils/rss_parser.rs): tags, CDATA, the text of HTML, dates.
use ingest_pipeline.Prelude.{Option, none, some, List, [], ◌∷◌, ◌++◌, if◌then◌else◌, or_else, ℕ}
use ingest_pipeline.Prelude.Text.{Text, text, trim, is_empty, split_text}
use ingest_pipeline.Libs.{Libs}

-- `filter(|s| !s.is_empty())`.
unfoldable pub non_empty : Option Text → Option Text
non_empty none = none
non_empty (some s) = if is_empty s then none else some s

abbrev pub mapped : {A B : Type 0} → (A → B) → Option A → Option B
mapped f none = none
mapped f (some a) = some (f a)

abbrev pub and_then : {A B : Type 0} → Option A → (A → Option B) → Option B
and_then none f = none
and_then (some a) f = f a

-- (?is)<tag(?:\s[^>]*)?>(.*?)</tag>
unfoldable pub extract_tag : Libs → Text → Text → Option Text
extract_tag libs xml tag =
    libs.capture
      (text "(?is)<"
        ++ (libs.escape tag ++ (text "(?:\\s[^>]*)?>(.*?)</" ++ (libs.escape tag ++ text ">"))))
      xml

unfoldable pub extract_nested_tag : Libs → Text → Text → Text → Option Text
unfolding extract_tag
extract_nested_tag libs xml parent child =
    and_then (extract_tag libs xml parent) (λ inner. extract_tag libs inner child)

unfoldable pub unwrap_cdata : Libs → Text → Text
unwrap_cdata libs s = libs.replace_all (text "<!\\[CDATA\\[(.*?)\\]\\]>") s (text "$1")

unfoldable pub strip_html : Libs → Text → Text
strip_html libs s =
    libs.replace_all (text "<[^>]+>")
      (libs.replace_all (text "(?i)</?(?:p|div|h[1-6]|li)>|<br\\s*/?>") s (text "\n")) []

-- `str::replace`.
abbrev rejoin : Text → List Text → Text
rejoin to [] = []
rejoin to (part ∷ []) = part
rejoin to (part ∷ next ∷ parts) = part ++ (to ++ rejoin to (next ∷ parts))

unfoldable pub replace : Text → Text → Text → Text
unfolding split_text
replace from to s = rejoin to (split_text from 0 s)

abbrev zones : List (Text × Text)
zones =
    (text "GMT", text "+0000")
    ∷ (text "UTC", text "+0000")
    ∷ (text "EST", text "-0500")
    ∷ (text "EDT", text "-0400")
    ∷ (text "CST", text "-0600")
    ∷ (text "CDT", text "-0500")
    ∷ (text "MST", text "-0700")
    ∷ (text "MDT", text "-0600")
    ∷ (text "PST", text "-0800")
    ∷ (text "PDT", text "-0700")
    ∷ []

unfoldable pub replace_each : List (Text × Text) → Text → Text
unfolding replace
replace_each [] s = s
replace_each ((from, to) ∷ rest) s = replace_each rest (replace from to s)

unfoldable pub parse_date : Libs → Text → Option ℕ
unfolding trim replace_each
parse_date libs date_str =
    let s = trim date_str in
    let fixed = replace_each zones s in
    if is_empty s
    then none
    else or_else (libs.parse_from_rfc3339 s) (
        or_else (libs.parse_zoned fixed (text "%a, %d %b %Y %H:%M:%S %z")) (
          or_else (libs.parse_zoned fixed (text "%d %b %Y %H:%M:%S %z")) (
            or_else (libs.parse_naive s (text "%Y-%m-%dT%H:%M:%S"))
              (libs.parse_day s (text "%Y-%m-%d")))))
