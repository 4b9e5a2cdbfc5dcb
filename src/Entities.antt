-- ===== src/Entities.antt =====
-- `decode_html_entities`, `log_metric` and `safe_parse_json` of src/utils/shared.rs.
use ingest_pipeline.Prelude.{◌++◌, ℕ, Option, none, some, List, [], ◌∷◌, if◌then◌else◌}
use ingest_pipeline.Prelude.Text.{Text, text, text_eq, parse_u32, from_u32}
use ingest_pipeline.Libs.{Libs}
use ingest_pipeline.Store.{err, ok, Result}

abbrev pub entity_pattern : Text
entity_pattern =
    text
      "&(amp|lt|gt|quot|apos|nbsp|eacute|egrave|ecirc|agrave|acirc|ccedil|ugrave|ucirc|icirc|ocirc|oslash|aelig|euro|laquo|raquo|ldquo|rdquo|hellip|mdash|ndash|rsquo|lsquo);|&#(\\d+);|&#x([0-9a-fA-F]+);"

abbrev pub entity_names : List (Text × Text)
entity_names =
    (text "amp", text "&")
    ∷ (text "lt", text "<")
    ∷ (text "gt", text ">")
    ∷ (text "quot", text "\"")
    ∷ (text "apos", text "'")
    ∷ (text "nbsp", 160 ∷ [])
    ∷ (text "eacute", text "é")
    ∷ (text "egrave", text "è")
    ∷ (text "ecirc", text "ê")
    ∷ (text "agrave", text "à")
    ∷ (text "acirc", text "â")
    ∷ (text "ccedil", text "ç")
    ∷ (text "ugrave", text "ù")
    ∷ (text "ucirc", text "û")
    ∷ (text "icirc", text "î")
    ∷ (text "ocirc", text "ô")
    ∷ (text "oslash", text "ø")
    ∷ (text "aelig", text "æ")
    ∷ (text "euro", text "€")
    ∷ (text "laquo", text "«")
    ∷ (text "raquo", text "»")
    ∷ (text "ldquo", 8220 ∷ [])
    ∷ (text "rdquo", 8221 ∷ [])
    ∷ (text "hellip", text "…")
    ∷ (text "mdash", text "—")
    ∷ (text "ndash", text "–")
    ∷ (text "rsquo", text "'")
    ∷ (text "lsquo", text "'")
    ∷ []

unfoldable pub name_lookup : Text → Text → List (Text × Text) → Text
unfolding text_eq
name_lookup whole name [] = whole
name_lookup whole name ((known, replacement) ∷ rest) =
    let other = name_lookup whole name rest in if text_eq name known then replacement else other

-- The character of a code, if there is one.
unfoldable pub coded : Text → Option ℕ → Text
unfolding from_u32
coded whole none = whole
coded whole (some n) = elim (from_u32 n) [ none ↦ whole | some c ↦ c ∷ [] ]

-- The closure of `replace_all`, over the groups of one match.
unfoldable pub decode_entity : List (Option Text) → Text
unfolding name_lookup coded parse_u32
decode_entity (some whole ∷ some name ∷ rest) = name_lookup whole name entity_names
decode_entity (some whole ∷ none ∷ some dec ∷ rest) = coded whole (parse_u32 10 dec)
decode_entity (some whole ∷ none ∷ none ∷ some hex ∷ rest) = coded whole (parse_u32 16 hex)
decode_entity (some whole ∷ _) = whole
decode_entity _ = []

unfoldable pub decode_html_entities : Libs → Text → Text
unfolding decode_entity
decode_html_entities libs s = libs.replace_groups entity_pattern s decode_entity

-- What `log_metric` sends to the log; the value is a floating-point number, whose type is left open.
pub record Metric (V : Type 0) : Type 0 where
  pub metric_name : Text
  pub metric_value : V
  pub metric_tags : Text

-- `join(",")` of the tags, each as `key=value`.
unfoldable pub join_tags : List (Text × Text) → Text
join_tags [] = []
join_tags ((key, v) ∷ []) = key ++ (text "=" ++ v)
join_tags ((key, v) ∷ tag ∷ tags) = key ++ (text "=" ++ (v ++ (text "," ++ join_tags (tag ∷ tags))))

unfoldable pub log_metric : {V : Type 0} → Text → V → List (Text × Text) → Metric V
unfolding join_tags
log_metric name value tags = record {
  metric_name = name;
  metric_value = value;
  metric_tags = join_tags tags;
}

-- The error of serde_json is dropped.
unfoldable pub safe_parse_json : {T : Type 0} → (Text → Result T) → Text → Option T
safe_parse_json from_str json = elim (from_str json) [ ok t ↦ some t | err e ↦ none ]
