-- ===== src/Extract/Title.antt =====
-- Titles and word counts (`clean_title` of src/utils/text_extract.rs, src/utils/word_count.rs).
use ingest_pipeline.Prelude.{ℕ, not, List, [], ◌∷◌, leb, if◌then◌else◌, select, length}
use ingest_pipeline.Prelude.Text.{
  Text, text, trim, is_empty, is_whitespace, split_at, split_text, contains_text, byte_len,
}

abbrev pub separators : List Text
separators =
    text " - " ∷ text " | " ∷ (32 ∷ 8212 ∷ 32 ∷ []) ∷ (32 ∷ 8211 ∷ 32 ∷ []) ∷ text " :: " ∷ []

-- `max_by_key(|s| s.len())`: the last of the longest.
unfoldable pub longest : Text → List Text → Text
unfolding byte_len
longest best [] = best
longest best (part ∷ parts) =
    longest (if leb (byte_len best) (byte_len part) then part else best) parts

abbrev pub longest_of : Text → List Text → Text
longest_of title [] = title
longest_of title (part ∷ parts) = longest part parts

unfoldable pub clean_by : List Text → Text → Text
unfolding trim contains_text split_text longest
clean_by [] title = trim title
clean_by (sep ∷ seps) title =
    let rest = clean_by seps title in
    if contains_text sep title then trim (longest_of title (split_text sep 0 title)) else rest

unfoldable pub clean_title : Text → Text
unfolding clean_by
clean_title title = clean_by separators title

abbrev pub min_article_word_count : ℕ
min_article_word_count = 350

-- `split_whitespace`: the parts between whitespace that are not empty.
unfoldable pub split_whitespace : Text → List Text
unfolding split_at is_whitespace
split_whitespace s = select (λ part. not (is_empty part)) (split_at is_whitespace s)

unfoldable pub count_words : Text → ℕ
unfolding trim split_whitespace
count_words s =
    let trimmed = trim s in if is_empty trimmed then 0 else length (split_whitespace trimmed)
