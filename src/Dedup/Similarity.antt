-- ===== src/Dedup/Similarity.antt =====
-- `tokenize` and `jaccard_similarity` of src/utils/dedup.rs. A set of words is a list without
-- repetitions; the quotient of the two counts is kept as a pair, and compared with 0.8 exactly. For
-- counts below 2^50 the comparison of the nearest `f64` gives the same answer.
pub mod Bounds
use ingest_pipeline.Prelude.{
  ℕ, ◌+◌, ◌*◌, Bool, true, false, not, ◌&&◌, ◌||◌, List, [], ◌∷◌, map, ◌==◌, leb, if◌then◌else◌,
  any, select, length,
}
use ingest_pipeline.Prelude.Text.{Text, text, text_eq, is_whitespace, is_empty, split_at}

abbrev pub stop_words : List Text
stop_words = map text (
    "le" ∷ "la" ∷ "les" ∷ "un" ∷ "une" ∷ "des" ∷ "et" ∷ "ou" ∷ "mais" ∷ "donc" ∷ "or" ∷ "ni" ∷ "car"
    ∷ "de" ∷ "du" ∷ "à" ∷ "au" ∷ "aux" ∷ "en" ∷ "par" ∷ "pour" ∷ "avec" ∷ "sans" ∷ "sur" ∷ "sous"
    ∷ "dans" ∷ "chez" ∷ "selon" ∷ "vers" ∷ "pendant" ∷ "parmi" ∷ "the" ∷ "a" ∷ "an" ∷ "and" ∷ "or"
    ∷ "but" ∷ "of" ∷ "to" ∷ "in" ∷ "for" ∷ "on" ∷ "at" ∷ "by" ∷ "with" ∷ "from" ∷ "as" ∷ "is"
    ∷ "was" ∷ "are" ∷ "were" ∷ "be" ∷ "been" ∷ "have" ∷ "has" ∷ "had" ∷ "do" ∷ "does" ∷ "did"
    ∷ "will" ∷ "would" ∷ "could" ∷ "should" ∷ [])

unfoldable pub contains : List Text → Text → Bool
unfolding text_eq
contains words word = any (text_eq word) words

-- Whitespace, or one of !?.:,;"'()[]{}
unfoldable pub is_separator : ℕ → Bool
unfolding is_whitespace
is_separator c = is_whitespace c || any (λ d. c == d) (text "!?.:,;\"'()[]{}")

unfoldable pub tokenize : (Text → Text) → Text → List Text
unfolding split_at is_separator contains
tokenize lowercase title =
    select (λ word. not (contains stop_words word))
      (map lowercase (select (λ part. not (is_empty part)) (split_at is_separator title)))

-- `collect` into a HashSet.
unfoldable pub to_set : List Text → List Text
unfolding contains
to_set [] = []
to_set (word ∷ words) = let rest = to_set words in if contains rest word then rest else word ∷ rest

unfoldable pub intersection : List Text → List Text → ℕ
unfolding contains
intersection a b = length (select (contains b) a)

unfoldable pub union : List Text → List Text → ℕ
unfolding contains
union a b = length a + length (select (λ word. not (contains a word)) b)

pub record Ratio : Type 0 where
  pub part : ℕ
  pub whole : ℕ

abbrev none_of : List Text → Bool
none_of [] = true
none_of (word ∷ words) = false

unfoldable pub jaccard_of : List Text → List Text → Ratio
unfolding intersection union
jaccard_of a b =
    if none_of a && none_of b
    then record { part = 1; whole = 1 }
    else record { part = intersection a b; whole = union a b }

unfoldable pub jaccard_similarity : (Text → Text) → Text → Text → Ratio
unfolding jaccard_of to_set tokenize
jaccard_similarity lowercase a b =
    jaccard_of (to_set (tokenize lowercase a)) (to_set (tokenize lowercase b))

-- similarity >= 0.8
unfoldable pub is_close : Ratio → Bool
is_close r = leb (4 * r.whole) (5 * r.part)
