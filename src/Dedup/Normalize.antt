-- ===== src/Dedup/Normalize.antt =====
-- `normalize_url` of src/utils/dedup.rs. The pattern `^(https?://)([^/?#]+)([^?#]*)` is written as
-- the function that finds its three groups.
pub mod Queries
use ingest_pipeline.Prelude.{
  ℕ, Bool, not, ◌&&◌, ◌||◌, Option, none, some, ◌++◌, ◌==◌, if◌then◌else◌,
}
use ingest_pipeline.Prelude.Text.{
  Text, text, trim, trim_end, is_empty, starts_with, strip_prefix, take_while, drop_while,
}

-- The characters of `[^/?#]` and of `[^?#]`.
abbrev pub in_path : ℕ → Bool
in_path c = not (c == b'?' || c == b'#')

abbrev pub in_host : ℕ → Bool
in_host c = not (c == b'/') && in_path c

abbrev pub is_slash : ℕ → Bool
is_slash c = c == b'/'

abbrev pub http : Text
http = text "http://"

abbrev pub https : Text
https = text "https://"

-- Behind the scheme: a host that is not empty, and the path.
unfoldable pub host_and_path : Text → Text → Option (Text × Text × Text)
unfolding take_while drop_while
host_and_path scheme rest =
    let host = take_while in_host rest in
    if is_empty host
    then none
    else some (scheme, host, take_while in_path (drop_while in_host rest))

unfoldable pub captures : Text → Option (Text × Text × Text)
unfolding host_and_path strip_prefix
captures url = elim (strip_prefix https url) [
  | some rest ↦ host_and_path https rest
  | none ↦ elim (strip_prefix http url) [ some rest ↦ host_and_path http rest | none ↦ none ]
]

unfoldable pub from_captures : Text → Option (Text × Text × Text) → Text
unfolding trim_end
from_captures url none = url
from_captures url (some (scheme, host, path)) = scheme ++ (host ++ trim_end is_slash path)

unfoldable pub with_scheme : Text → Text
unfolding strip_prefix
with_scheme url = if starts_with (text "//") url then text "https:" ++ url else url

unfoldable pub normalize_url : (Text → Text) → Text → Text
unfolding from_captures captures with_scheme trim
normalize_url lowercase url =
    let lower = lowercase (with_scheme (trim url)) in from_captures lower (captures lower)
