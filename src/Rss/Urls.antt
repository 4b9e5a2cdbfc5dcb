-- ===== src/Rss/Urls.antt =====
-- `normalize_url` of src/utils/rss_parser.rs: a URL of a feed, made absolute.
use ingest_pipeline.Prelude.{
  ℕ, zero, suc, ◌+◌, Bool, false, ◌||◌, Option, none, some, [], ◌∷◌, ◌++◌, ◌==◌, ltb, if◌then◌else◌,
  take,
}
use ingest_pipeline.Prelude.Text.{Text, text, is_empty, starts_with, strip_prefix}

-- `find` of a text and of the first or last slash, as offsets.
unfoldable pub find_text : Text → Text → Option ℕ
unfolding strip_prefix
find_text sep [] = none
find_text sep (c ∷ s) =
    let later = find_text sep s in
    if starts_with sep (c ∷ s) then some 0 else elim later [ none ↦ none | some n ↦ some (suc n) ]

unfoldable pub rfind_slash : Text → Option ℕ
rfind_slash [] = none
rfind_slash (c ∷ s) = elim (rfind_slash s) [
  | some n ↦ some (suc n)
  | none ↦ if c == b'/' then some 0 else none
]

abbrev drop : ℕ → Text → Text
drop zero s = s
drop (suc n) [] = []
drop (suc n) (c ∷ s) = drop n s

unfoldable pub ends_with_slash : Text → Bool
ends_with_slash s = elim (rfind_slash s) [ none ↦ false | some n ↦ is_empty (drop (suc n) s) ]

-- The scheme and host of a base URL that has a scheme.
unfoldable pub from_root : Text → Text → ℕ → Text
unfolding find_text
from_root url base_url pos = elim (find_text (text "/") (drop (pos + 3) base_url)) [
  | some slash_pos ↦ take (pos + 3 + slash_pos) base_url ++ url
  | none ↦ base_url ++ url
]

-- The last slash of `://`, or 0.
abbrev scheme_end : Option ℕ → ℕ
scheme_end none = 0
scheme_end (some p) = p + 2

-- The directory of the base URL.
unfoldable pub directory : Text → Text
unfolding rfind_slash find_text ends_with_slash
directory base_url = if ends_with_slash base_url then base_url else elim (rfind_slash base_url) [
  | none ↦ base_url ++ text "/"
  | some pos ↦
      if ltb (scheme_end (find_text (text "://") base_url)) pos
      then take (suc pos) base_url
      else base_url ++ text "/"
]

unfoldable pub relative : Text → Text → Text
unfolding directory
relative url base_url = directory base_url ++ url

unfoldable pub normalize_url : Text → Text → Text
unfolding strip_prefix find_text from_root relative
normalize_url url base_url =
    if starts_with (text "http://") url || starts_with (text "https://") url
    then url
    else if starts_with (text "//") url
    then text "https:" ++ url
    else if is_empty base_url
    then url
    else if starts_with (text "/") url
    then elim (find_text (text "://") base_url) [
      | some pos ↦ from_root url base_url pos
      | none ↦ relative url base_url
    ]
    else relative url base_url
