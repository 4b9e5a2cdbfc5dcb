-- ===== src/Prelude/Sort.antt =====
-- ORDER BY, and `sort_by`: a stable sort by a strict order. Rows that tie stay in table order.
use mathlib.Core.Bool.{true, false, Bool}
use mathlib.Core.List.{List, [], ◌∷◌}
use ingest_pipeline.Prelude.Tests.{Bool-cases, if◌then◌else◌, if-elim}
use ingest_pipeline.Prelude.Lists.{All-implies, Pairwise, length, All}
use Prim.Native.Nat.{suc}
use mathlib.Core.Logic.{inl, inr}
use mathlib.Core.Path.{subst, refl, ◌∙◌, ap, ◌≡◌}
use native.Mathlib.Omega.{arith}

module _ {ℓ} {A : Type ℓ} (before : A → A → Bool) where
  unfoldable pub insert : A → List A → List A
  insert x [] = x ∷ []
  insert x (y ∷ ys) = if before y x then y ∷ insert x ys else x ∷ y ∷ ys

  unfoldable pub sort : List A → List A
  unfolding insert
  sort [] = []
  sort (x ∷ xs) = insert x (sort xs)

  length-insert : (x : A) (xs : List A) → length (insert x xs) ≡ suc (length xs)
  unfolding insert
  length-insert x [] = refl
  length-insert x (y ∷ ys) = ground (arith, length-insert x ys)

  pub length-sort : (xs : List A) → length (sort xs) ≡ length xs
  unfolding sort
  length-sort [] = refl
  length-sort (x ∷ xs) = length-insert x (sort xs) ∙ ap suc (length-sort xs)

  pub All-insert {κ} : (P : A → Type κ) (x : A) (xs : List A) → P x → All P xs → All P (insert x xs)
  unfolding insert
  All-insert P x [] p h = (p, h)
  All-insert P x (y ∷ ys) p (h, hs) =
      let rest = All-insert P x ys p hs in
      if-elim (All P) (before y x) (λ e. (h, rest)) (λ e. (p, (h, hs)))

  pub All-sort {κ} : (P : A → Type κ) (xs : List A) → All P xs → All P (sort xs)
  unfolding sort
  All-sort P [] h = tt
  All-sort P (x ∷ xs) (h, hs) = All-insert P x (sort xs) h (All-sort P xs hs)

  All-of_insert {κ} : (P : A → Type κ) (x : A) (xs : List A) → All P (insert x xs) → P x × All P xs
  unfolding insert
  All-of_insert P x [] h = h
  All-of_insert P x (y ∷ ys) h = elim (Bool-cases (before y x)) [
    | inl e ↦
        let (k, ks) = subst (λ b. All P (if b then y ∷ insert x ys else x ∷ y ∷ ys)) e h in
        let (p, ps) = All-of_insert P x ys ks in (p, (k, ps))
    | inr e ↦ subst (λ b. All P (if b then y ∷ insert x ys else x ∷ y ∷ ys)) e h
  ]

  pub All-of_sort {κ} : (P : A → Type κ) (xs : List A) → All P (sort xs) → All P xs
  unfolding sort
  All-of_sort P [] h = tt
  All-of_sort P (x ∷ xs) h = let (p, ps) = All-of_insert P x (sort xs) h in (p, All-of_sort P xs ps)

  -- `y` does not go before `x`.
  abbrev pub Follows : A → A → Type 0
  Follows x y = before y x ≡ false

  -- What the order of a query must be for the sorted rows to be in order.
  pub record IsOrder : Type ℓ where
    pub asym : (x y : A) → before x y ≡ true → before y x ≡ false
    pub trans : (x y z : A) → before y x ≡ false → before z y ≡ false → before z x ≡ false

  module _ (order : IsOrder) where
    insert-Pairwise : (x : A) (xs : List A) → Pairwise Follows xs → Pairwise Follows (insert x xs)
    unfolding insert
    insert-Pairwise x [] h = (tt, tt)
    insert-Pairwise x (y ∷ ys) (h, hs) =
        let rest = insert-Pairwise x ys hs in
        if-elim (Pairwise Follows) (before y x)
          (λ e. (All-insert (Follows y) x ys (order.asym y x e) h, rest))
          (λ e.
            ((e, All-implies (Follows y) (Follows x) (λ z k. order.trans x y z e k) ys h), (h, hs)))

    pub sort-Pairwise : (xs : List A) → Pairwise Follows (sort xs)
    unfolding sort
    sort-Pairwise [] = tt
    sort-Pairwise (x ∷ xs) = insert-Pairwise x (sort xs) (sort-Pairwise xs)
