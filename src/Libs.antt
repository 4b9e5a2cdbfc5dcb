-- ===== src/Libs.antt =====
-- What the program takes from other packages and from PostgreSQL, as functions that a model is
-- given: regular expressions, dates, URLs, UUIDs, JSON, the trigram extension, rs-trafilatura. The
-- laws that a theorem needs of them are named where it is stated.
use ingest_pipeline.Prelude.{
  ℕ, ◌≡◌, Bool, Option, none, some, List, [], ◌∷◌, if◌then◌else◌, unwrap_or,
}
use ingest_pipeline.Prelude.Text.{Text, text_eq}

-- The parts of a result of `rs_trafilatura::extract_with_options` that the program reads.
pub record Extract : Type 0 where
  pub content_text : Text
  pub low_quality : Bool  -- extraction_quality < 0.3
  pub page_url : Option Text
  pub page_title : Option Text

pub record Libs : Type 0 where
  pub lowercase : Text → Text  -- str::to_lowercase
  pub capture : Text → Text → Option Text  -- group 1 of the first match of a pattern
  pub find_match : Text → Text → Option Text  -- the first match itself
  pub captures_iter : Text → Text → List Text  -- group 1 of each match
  pub replace_all : Text → Text → Text → Text  -- pattern, text, replacement
  pub replace_groups : Text → Text → (List (Option Text) → Text) → Text  -- with the groups of each match, from 0
  pub decimal : ℕ → Text  -- an integer in `format!`
  pub escape : Text → Text  -- regex::escape
  pub host_str : Text → Option Text  -- Url::parse and host_str
  pub parse_from_rfc3339 : Text → Option ℕ
  pub parse_naive : Text → Text → Option ℕ  -- NaiveDateTime::parse_from_str, read as UTC
  pub parse_zoned : Text → Text → Option ℕ  -- DateTime::parse_from_str, taken to UTC
  pub parse_day : Text → Text → Option ℕ  -- NaiveDate::parse_from_str, at midnight UTC
  pub to_rfc3339 : ℕ → Text
  pub timestamp_text : ℕ → Text  -- PostgreSQL's cast of a timestamptz to text
  pub timestamp_of : Text → Option ℕ  -- and back
  pub uuid_text : ℕ → Text
  pub parse_uuid : Text → Option ℕ
  pub json_object : List (Text × Option Text) → Text  -- json!({…}) of strings and nulls
  pub json_parse : Text → Option Text  -- serde_json::from_str, to the value as a text
  pub json_get : Text → Text → Option Text  -- get(key)
  pub json_as_str : Text → Option Text
  pub json_as_array : Text → Option (List Text)
  pub similar : Text → Text → Bool  -- the operator % of pg_trgm
  pub similarity : Text → Text → ℕ
  pub collate : Text → Text → Bool  -- the database's order of texts
  pub trafilatura : Text → Option Text → Option Extract

-- get(key) and as_str
abbrev pub json_str : Libs → Text → Text → Option Text
json_str libs v key = elim (libs.json_get v key) [
  | none ↦ none
  | some field ↦ libs.json_as_str field
]

-- The last field of a name, as a JSON object keeps it.
abbrev pub field_of : Text → List (Text × Option Text) → Option (Option Text)
field_of key [] = none
field_of key ((name, v) ∷ fields) = elim (field_of key fields) [
  | some later ↦ some later
  | none ↦ if text_eq name key then some v else none
]

-- What serde_json and uuid document: a string that was put into an object is read back, null and a
-- missing field are no string, and an id is read back from its text.
pub record ReadsBack (libs : Libs) : Type 0 where
  pub fields :
      (values : List (Text × Option Text)) (key : Text)
      → json_str libs (libs.json_object values) key ≡ unwrap_or none (field_of key values)
  pub ids : (id : ℕ) → libs.parse_uuid (libs.uuid_text id) ≡ some id
