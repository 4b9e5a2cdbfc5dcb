-- ===== src/Prelude/Pairs.antt =====
-- Lists whose entries are pairwise related.
use Prim.Native.Nat.{ℕ, zero, suc}
use mathlib.Core.Bool.{Bool}
use mathlib.Core.List.{List, [], ◌∷◌, ◌++◌, map}
use ingest_pipeline.Prelude.Tests.{if-elim}
use ingest_pipeline.Prelude.Lists.{All, All-take, All-append, All-map, Pairwise, select, take}
use ingest_pipeline.Prelude.Sort.{insert, sort, All-insert, All-sort}

module _ {ℓ κ} {A : Type ℓ} (R : A → A → Type κ) where
  All-selected : (P : A → Type κ) (p : A → Bool) (xs : List A) → All P xs → All P (select p xs)
  All-selected P p [] h = tt
  All-selected P p (x ∷ xs) (h, hs) =
      let rest = All-selected P p xs hs in if-elim (All P) (p x) (λ e. (h, rest)) (λ e. rest)

  pub Pairwise-select : (p : A → Bool) (xs : List A) → Pairwise R xs → Pairwise R (select p xs)
  Pairwise-select p [] h = tt
  Pairwise-select p (x ∷ xs) (h, hs) =
      let rest = Pairwise-select p xs hs in
      if-elim (Pairwise R) (p x) (λ e. (All-selected (R x) p xs h, rest)) (λ e. rest)

  pub Pairwise-take : (n : ℕ) (xs : List A) → Pairwise R xs → Pairwise R (take n xs)
  Pairwise-take zero xs h = tt
  Pairwise-take (suc n) [] h = tt
  Pairwise-take (suc n) (x ∷ xs) (h, hs) = (All-take (R x) n xs h, Pairwise-take n xs hs)

  pub Pairwise-append :
      (xs ys : List A)
      → Pairwise R xs
      → Pairwise R ys
      → All (λ x. All (R x) ys) xs
      → Pairwise R (xs ++ ys)
  Pairwise-append [] ys h k l = k
  Pairwise-append (x ∷ xs) ys (h, hs) k (l, ls) =
      (All-append (R x) xs ys h l, Pairwise-append xs ys hs k ls)

  pub All-remove :
      (P : A → Type κ) (xs : List A) (y : A) (ys : List A)
      → All P (xs ++ y ∷ ys)
      → P y × All P (xs ++ ys)
  All-remove P [] y ys h = h
  All-remove P (x ∷ xs) y ys (h, hs) = let (k, ks) = All-remove P xs y ys hs in (k, (h, ks))

  module _ (symmetric : (x y : A) → R x y → R y x) where
    -- Each entry is related to the others, wherever it stands.
    pub Pairwise-remove :
        (xs : List A) (y : A) (ys : List A)
        → Pairwise R (xs ++ y ∷ ys)
        → All (R y) (xs ++ ys) × Pairwise R (xs ++ ys)
    Pairwise-remove [] y ys h = h
    Pairwise-remove (x ∷ xs) y ys (h, hs) =
        let (k, ks) = All-remove (R x) xs y ys h in
        let (l, ls) = Pairwise-remove xs y ys hs in ((symmetric x y k, l), (ks, ls))

    insert-Pairwise :
        (before : A → A → Bool) (x : A) (xs : List A)
        → All (R x) xs
        → Pairwise R xs
        → Pairwise R (insert before x xs)
    unfolding insert
    insert-Pairwise before x [] h k = (tt, tt)
    insert-Pairwise before x (y ∷ ys) (h, hs) (k, ks) =
        let rest = insert-Pairwise before x ys hs ks in
        if-elim (Pairwise R) (before y x)
          (λ e. (All-insert before (R y) x ys (symmetric x y h) k, rest)) (λ e. ((h, hs), (k, ks)))

    pub Pairwise-sort :
        (before : A → A → Bool) (xs : List A) → Pairwise R xs → Pairwise R (sort before xs)
    unfolding sort
    Pairwise-sort before [] h = tt
    Pairwise-sort before (x ∷ xs) (h, hs) =
        insert-Pairwise before x (sort before xs) (All-sort before (R x) xs h)
          (Pairwise-sort before xs hs)

pub Pairwise-map {ℓ κ μ} :
    {A : Type ℓ} {B : Type κ} (R : B → B → Type μ) (f : A → B) (xs : List A)
    → Pairwise (λ x y. R (f x) (f y)) xs
    → Pairwise R (map f xs)
Pairwise-map R f [] h = tt
Pairwise-map R f (x ∷ xs) (h, hs) = (All-map (R (f x)) f xs h, Pairwise-map R f xs hs)

All-of_map {ℓ κ μ} :
    {A : Type ℓ} {B : Type κ} (Q : B → Type μ) (f : A → B) (xs : List A)
    → All Q (map f xs)
    → All (λ x. Q (f x)) xs
All-of_map Q f [] h = tt
All-of_map Q f (x ∷ xs) (h, hs) = (h, All-of_map Q f xs hs)

pub Pairwise-of_map {ℓ κ μ} :
    {A : Type ℓ} {B : Type κ} (R : B → B → Type μ) (f : A → B) (xs : List A)
    → Pairwise R (map f xs)
    → Pairwise (λ x y. R (f x) (f y)) xs
Pairwise-of_map R f [] h = tt
Pairwise-of_map R f (x ∷ xs) (h, hs) = (All-of_map (R (f x)) f xs h, Pairwise-of_map R f xs hs)
