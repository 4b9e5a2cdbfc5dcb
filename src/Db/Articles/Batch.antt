-- ===== src/Db/Articles/Batch.antt =====
-- What the batch insertion of new articles stores (src/db/article_queries.rs).
use ingest_pipeline.Prelude.{
  ℕ, suc, ◌≤◌, ◌<◌, ◌≡◌, refl, sym, ap, subst, ◌∙◌, inl, inr, Bool, true, false, ◌||◌, some, List,
  [], ◌∷◌, ◌++◌, append_assoc, append-nil, arith, any, All, ◌==◌, Bool-cases,
}
use ingest_pipeline.Prelude.Text.{Text, text_eq→eq}
use ingest_pipeline.Db.Articles.{same_key, has_article, has_feed, insert_rows, refused}
use ingest_pipeline.Db.Articles.Keys.{HasUniqueKeys, text_eq_sym}
use ingest_pipeline.Schema.{RawArticle, FeedSource}
use ingest_pipeline.Store.{Env}

-- One row for each key, the first.
unfoldable pub firsts : List RawArticle → List RawArticle → List RawArticle
firsts seen [] = []
firsts seen (a ∷ rows) = elim (any (same_key a.url a.source_id) seen) [
  | true ↦ firsts seen rows
  | false ↦ a ∷ firsts (seen ++ a ∷ []) rows
]

-- Rows of one feed whose ids are drawn one after the other, and whose keys are not in a table.
abbrev pub AreNew : Env → Text → List RawArticle → ℕ → List RawArticle → Type 0
AreNew env feed_id table n [] = Unit
AreNew env feed_id table n (a ∷ rows) =
    (a.id ≡ env.fresh n)
    × (a.source_id ≡ feed_id)
    × (any (same_key a.url a.source_id) table ≡ false)
    × AreNew env feed_id table (suc n) rows

-- The ids that are drawn from now on are in no row, as those of `Uuid::new_v4` are.
abbrev pub IsUnused : Env → ℕ → List RawArticle → Type 0
IsUnused env n table = (k : ℕ) → n ≤ k → has_article (env.fresh k) table ≡ false

-- No id is drawn twice.
abbrev pub IsFreshSupply : Env → Type 0
IsFreshSupply env = (m n : ℕ) → m < n → (env.fresh m == env.fresh n) ≡ false

pub any-append :
    (p : RawArticle → Bool) (xs ys : List RawArticle) → any p (xs ++ ys) ≡ (any p xs || any p ys)
any-append p [] ys = refl
any-append p (x ∷ xs) ys = ground (arith, any-append p xs ys)

append-IsUnused :
    (env : Env) (n : ℕ) (table : List RawArticle) (a : RawArticle)
    → IsFreshSupply env
    → a.id ≡ env.fresh n
    → IsUnused env n table
    → IsUnused env (suc n) (table ++ a ∷ [])
append-IsUnused env n table a supply h unused k le = ground (
  arith,
  any-append (λ x. x.id == env.fresh k) table (a ∷ []),
  unused k (omega arith),
  supply n k le,
)

module _ (env : Env) (feed_id : Text) (feeds : List FeedSource) (table : List RawArticle) where
  -- No row is refused, and of those with one key the first is stored.
  pub insert_rows-firsts :
      (n : ℕ) (seen rows : List RawArticle)
      → IsFreshSupply env
      → has_feed feed_id feeds ≡ true
      → IsUnused env n (table ++ seen)
      → AreNew env feed_id table n rows
      → insert_rows feeds (table ++ seen) rows ≡ some ((table ++ seen) ++ firsts seen rows)
  unfolding insert_rows refused firsts
  insert_rows-firsts n seen [] supply known unused h = ap some (sym (append-nil (table ++ seen)))
  insert_rows-firsts n seen (a ∷ rows) supply known unused (id, source, new, rest) =
      let key = same_key a.url a.source_id in
      let split = any-append key table seen in
      elim (Bool-cases (any key seen)) [
        | inl p ↦
            let stored : any key (table ++ seen) ≡ true = ground (arith, split) in
            rw (stored, p, insert_rows, firsts)
              (insert_rows-firsts (suc n) seen rows supply known (λ k le. unused k (omega arith))
                rest)
        | inr p ↦
            let absent : any key (table ++ seen) ≡ false = ground (arith, split) in
            let taken : has_article a.id (table ++ seen) ≡ false =
              rw (id) (unused n (omega arith)) in
            let accepted : refused feeds (table ++ seen) a ≡ false =
              rw (refused, source, known, taken) refl in
            let later = append-IsUnused env n (table ++ seen) a supply id unused in
            let left = firsts (seen ++ a ∷ []) rows in
            let assoc = append_assoc table seen (a ∷ []) in
            rw (absent, accepted, p, insert_rows, firsts)
              (ap (λ t. insert_rows feeds t rows) assoc
                ∙ insert_rows-firsts (suc n) (seen ++ a ∷ []) rows supply known
                    (subst (IsUnused env (suc n)) assoc later) rest
                ∙ ap some
                    (ap (λ t. t ++ left) (sym assoc) ∙ append_assoc (table ++ seen) (a ∷ []) left))
      ]

before-HasUniqueKeys :
    (seen : List RawArticle) (a : RawArticle) (rows : List RawArticle)
    → HasUniqueKeys (seen ++ a ∷ rows)
    → any (same_key a.url a.source_id) seen ≡ false
unfolding same_key
before-HasUniqueKeys [] a rows h = refl
before-HasUniqueKeys (x ∷ seen) a rows (h, hs) = ground (
  arith,
  any-append (same_key x.url x.source_id) seen (a ∷ rows),
  before-HasUniqueKeys seen a rows hs,
  text_eq_sym x.url a.url,
  text_eq_sym x.source_id a.source_id,
)

-- Rows of which no two have the same key are all stored.
pub firsts-HasUniqueKeys :
    (seen rows : List RawArticle) → HasUniqueKeys (seen ++ rows) → firsts seen rows ≡ rows
unfolding firsts
firsts-HasUniqueKeys seen [] h = refl
firsts-HasUniqueKeys seen (a ∷ rows) h =
    let later = subst HasUniqueKeys (sym (append_assoc seen (a ∷ []) rows)) h in
    rw (before-HasUniqueKeys seen a rows h, firsts)
      (ap (λ t. a ∷ t) (firsts-HasUniqueKeys (seen ++ a ∷ []) rows later))

firsts-All :
    (Q : RawArticle → Type 0) (seen rows : List RawArticle) → All Q rows → All Q (firsts seen rows)
unfolding firsts
firsts-All Q seen [] h = tt
firsts-All Q seen (a ∷ rows) (h, hs) = elim (Bool-cases (any (same_key a.url a.source_id) seen)) [
  | inl p ↦ rw (p, firsts) (firsts-All Q seen rows hs)
  | inr p ↦ rw (p, firsts) (h, firsts-All Q (seen ++ a ∷ []) rows hs)
]

-- Two keys that a row has are one.
any-same_key :
    (x a : RawArticle) (rows : List RawArticle)
    → same_key a.url a.source_id x ≡ true
    → any (same_key x.url x.source_id) rows ≡ any (same_key a.url a.source_id) rows
unfolding same_key
any-same_key x a rows h =
    ap (λ url. any (same_key url x.source_id) rows) (text_eq→eq x.url a.url (ground arith))
    ∙ ap (λ s. any (same_key a.url s) rows) (text_eq→eq x.source_id a.source_id (ground arith))

-- A row that comes after one with its key is not stored.
pub firsts-All_others :
    (Q : RawArticle → Type 0) (seen xs : List RawArticle) (a : RawArticle) (ys : List RawArticle)
    → any (same_key a.url a.source_id) (seen ++ xs) ≡ true
    → All Q xs
    → All Q ys
    → All Q (firsts seen (xs ++ a ∷ ys))
unfolding firsts
firsts-All_others Q seen [] a ys h tt later =
    let stored : any (same_key a.url a.source_id) seen ≡ true =
      ground (arith, any-append (same_key a.url a.source_id) seen []) in
    rw (stored, firsts) (firsts-All Q seen ys later)
firsts-All_others Q seen (x ∷ xs) a ys h (k, ks) later =
    let key = same_key a.url a.source_id in
    elim (Bool-cases (any (same_key x.url x.source_id) seen)) [
      | inl p ↦
          let known : any key (seen ++ xs) ≡ true =
            ground (
              arith,
              any-append key seen xs,
              any-append key seen (x ∷ xs),
              any-same_key x a seen,
            ) in
          rw (p, firsts) (firsts-All_others Q seen xs a ys known ks later)
      | inr p ↦
          let known : any key ((seen ++ x ∷ []) ++ xs) ≡ true =
            ap (any key) (append_assoc seen (x ∷ []) xs) ∙ h in
          rw (p, firsts) (k, firsts-All_others Q (seen ++ x ∷ []) xs a ys known ks later)
    ]
