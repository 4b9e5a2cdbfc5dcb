-- ===== src/Dedup/Similarity/Bounds.antt =====
-- The range of the similarity of two titles (src/utils/dedup.rs).
use ingest_pipeline.Prelude.{
  length-select, All-implies, ◌≡◌, Bool, true, List, [], ◌∷◌, arith, refl, ◌≤◌, length, select, All,
  not,
}
use ingest_pipeline.Prelude.Text.{Text, text_eq_refl}
use ingest_pipeline.Dedup.Similarity.{jaccard_of, intersection, union, contains, is_close}

contains-All : (words : List Text) → All (λ word. contains words word ≡ true) words
unfolding contains
contains-All [] = tt
contains-All (word ∷ words) = (
  ground (arith, text_eq_refl word),
  All-implies (λ x. contains words x ≡ true) (λ x. contains (word ∷ words) x ≡ true)
      (λ x h. ground arith) words (contains-All words),
)

length-select_full :
    (p : Text → Bool) (words : List Text)
    → All (λ word. p word ≡ true) words
    → length (select p words) ≡ length words
length-select_full p [] h = refl
length-select_full p (word ∷ words) (h, hs) = ground (arith, length-select_full p words hs)

length-select_none :
    (p : Text → Bool) (words : List Text)
    → All (λ word. p word ≡ true) words
    → length (select (λ word. not (p word)) words) ≡ 0
length-select_none p [] h = refl
length-select_none p (word ∷ words) (h, hs) = ground (arith, length-select_none p words hs)

-- The similarity of two sets of words is a ratio of at most 1.
pub jaccard_of-bound : (a b : List Text) → (jaccard_of a b).part ≤ (jaccard_of a b).whole
unfolding jaccard_of intersection union
jaccard_of-bound a b = ground (arith, length-select (contains b) a)

pub jaccard_of_self : (a : List Text) → is_close (jaccard_of a a) ≡ true
unfolding jaccard_of is_close intersection union
jaccard_of_self a =
    let h = contains-All a in
    ground (arith, length-select_full (contains a) a h, length-select_none (contains a) a h)
