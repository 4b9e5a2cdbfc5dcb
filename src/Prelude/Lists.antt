-- ===== src/Prelude/Lists.antt =====
-- Lists measured by native numbers, searched and filtered by Boolean tests.
use Prim.Native.Nat.{ℕ, zero, suc, ◌+◌, ◌≤◌, min}
use mathlib.Core.Logic.{inl, inr}
use mathlib.Core.Path.{subst, ◌≡◌, refl, ap}
use mathlib.Core.Bool.{Bool, true, false, ◌||◌}
use mathlib.Core.List.{List, [], ◌∷◌, ◌++◌, map}
use mathlib.Core.Option.{Option, none, some}
use native.Mathlib.Omega.{arith}
use ingest_pipeline.Prelude.Tests.{Bool-cases, if◌then◌else◌, if-elim}

module _ {ℓ} {A : Type ℓ} where
  abbrev pub length : List A → ℕ
  length [] = 0
  length (x ∷ xs) = suc (length xs)

  abbrev pub take : ℕ → List A → List A
  take zero xs = []
  take (suc n) [] = []
  take (suc n) (x ∷ xs) = x ∷ take n xs

  -- The entries that pass a test, in order.
  abbrev pub select : (A → Bool) → List A → List A
  select p [] = []
  select p (x ∷ xs) = let rest = select p xs in if p x then x ∷ rest else rest

  -- The first entry that passes a test.
  abbrev pub find : (A → Bool) → List A → Option A
  find p [] = none
  find p (x ∷ xs) = let rest = find p xs in if p x then some x else rest

  abbrev pub any : (A → Bool) → List A → Bool
  any p [] = false
  any p (x ∷ xs) = p x || any p xs

  abbrev pub All {κ} : (A → Type κ) → List A → Type κ
  All P [] = Unit
  All P (x ∷ xs) = P x × All P xs

  abbrev pub join : Option A → Option (List A) → Option (List A)
  join none r = none
  join (some y) none = none
  join (some y) (some ys) = some (y ∷ ys)

  -- UPDATE … WHERE.
  abbrev pub update_where : (A → Bool) → (A → A) → List A → List A
  update_where p f [] = []
  update_where p f (x ∷ xs) = (if p x then f x else x) ∷ update_where p f xs

  -- The same, where the new value of a row may be refused, and then the whole statement is.
  abbrev pub try_update_where : (A → Bool) → (A → Option A) → List A → Option (List A)
  try_update_where p f [] = some []
  try_update_where p f (x ∷ xs) = join (if p x then f x else some x) (try_update_where p f xs)

  pub length-append : (xs ys : List A) → length (xs ++ ys) ≡ length xs + length ys
  length-append [] ys = omega arith
  length-append (x ∷ xs) ys = omega (arith, length-append xs ys)

  pub length-take : (n : ℕ) (xs : List A) → length (take n xs) ≡ min n (length xs)
  length-take zero xs = omega arith
  length-take (suc n) [] = omega arith
  length-take (suc n) (x ∷ xs) = omega (arith, length-take n xs)

  pub length-select : (p : A → Bool) (xs : List A) → length (select p xs) ≤ length xs
  length-select p [] = omega arith
  length-select p (x ∷ xs) = ground (arith, length-select p xs)

module _ {ℓ κ} {A : Type ℓ} {B : Type κ} where
  pub length-map : (xs : List A) (f : A → B) → length (map f xs) ≡ length xs
  length-map [] f = refl
  length-map (x ∷ xs) f = ap suc (length-map xs f)

module _ {ℓ} {A : Type ℓ} where
  -- What a search finds after an update that keeps the test of the search.
  pub find-update_where :
      (p : A → Bool) (f : A → A) (xs : List A) (a : A)
      → p (f a) ≡ true
      → find p xs ≡ some a
      → find p (update_where p f xs) ≡ some (f a)
  find-update_where p f [] a h e = ground arith
  find-update_where p f (x ∷ xs) a h e = ground (arith, find-update_where p f xs a h)

module _ {ℓ κ} {A : Type ℓ} (P : A → Type κ) where
  pub All-take : (n : ℕ) (xs : List A) → All P xs → All P (take n xs)
  All-take zero xs h = tt
  All-take (suc n) [] h = tt
  All-take (suc n) (x ∷ xs) (h, hs) = (h, All-take n xs hs)

  pub All-append : (xs ys : List A) → All P xs → All P ys → All P (xs ++ ys)
  All-append [] ys h k = k
  All-append (x ∷ xs) ys (h, hs) k = (h, All-append xs ys hs k)

  -- What every entry has if it passes the test, every selected entry has.
  pub All-select :
      (p : A → Bool) (xs : List A) → All (λ x. p x ≡ true → P x) xs → All P (select p xs)
  All-select p [] h = tt
  All-select p (x ∷ xs) (h, hs) =
      let rest = All-select p xs hs in if-elim (All P) (p x) (λ e. (h e, rest)) (λ e. rest)

  pub All-tabulate : ((x : A) → P x) → (xs : List A) → All P xs
  All-tabulate f [] = tt
  All-tabulate f (x ∷ xs) = (f x, All-tabulate f xs)

pub All-implies {ℓ κ μ} :
    {A : Type ℓ} (P : A → Type κ) (Q : A → Type μ)
    → ((x : A) → P x → Q x)
    → (xs : List A) → All P xs
    → All Q xs
All-implies P Q f [] h = tt
All-implies P Q f (x ∷ xs) (h, hs) = (f x h, All-implies P Q f xs hs)

pub All-map {ℓ κ μ} :
    {A : Type ℓ} {B : Type κ} (Q : B → Type μ) (f : A → B) (xs : List A)
    → All (λ x. Q (f x)) xs
    → All Q (map f xs)
All-map Q f [] h = tt
All-map Q f (x ∷ xs) (h, hs) = (h, All-map Q f xs hs)

module _ {ℓ} {A : Type ℓ} where
  abbrev pub drop : ℕ → List A → List A
  drop zero xs = xs
  drop (suc n) [] = []
  drop (suc n) (x ∷ xs) = drop n xs

  -- Each earlier entry stands in a relation to each later one.
  abbrev pub Pairwise {κ} : (A → A → Type κ) → List A → Type κ
  Pairwise R [] = Unit
  Pairwise R (x ∷ xs) = All (R x) xs × Pairwise R xs

module _ {ℓ κ} {A : Type ℓ} (P : A → Type κ) where
  pub All-drop : (n : ℕ) (xs : List A) → All P xs → All P (drop n xs)
  All-drop zero xs h = h
  All-drop (suc n) [] h = tt
  All-drop (suc n) (x ∷ xs) (h, hs) = All-drop n xs hs

  pub All-of_parts : (n : ℕ) (xs : List A) → All P (take n xs) → All P (drop n xs) → All P xs
  All-of_parts zero xs h k = k
  All-of_parts (suc n) [] h k = tt
  All-of_parts (suc n) (x ∷ xs) (h, hs) k = (h, All-of_parts n xs hs k)

  pub All-of_select :
      (p : A → Bool) (xs : List A) → All P (select p xs) → All (λ x. p x ≡ true → P x) xs
  All-of_select p [] h = tt
  All-of_select p (x ∷ xs) h = elim (Bool-cases (p x)) [
    | inl e ↦
        let (k, ks) = subst (λ b. All P (if b then x ∷ select p xs else select p xs)) e h in
        (λ t. k, All-of_select p xs ks)
    | inr e ↦
        let ks = subst (λ b. All P (if b then x ∷ select p xs else select p xs)) e h in
        (λ t. absurd (ground arith), All-of_select p xs ks)
  ]

-- In an ordered list what is taken stands before what is left.
pub Pairwise-split {ℓ κ} :
    {A : Type ℓ} (R : A → A → Type κ) (n : ℕ) (xs : List A)
    → Pairwise R xs
    → All (λ x. All (R x) (drop n xs)) (take n xs)
Pairwise-split R zero xs h = tt
Pairwise-split R (suc n) [] h = tt
Pairwise-split R (suc n) (x ∷ xs) (h, hs) = (All-drop (R x) n xs h, Pairwise-split R n xs hs)

pub All-both {ℓ κ μ} :
    {A : Type ℓ} (P : A → Type κ) (Q : A → Type μ) (xs : List A)
    → All P xs
    → All Q xs
    → All (λ x. P x × Q x) xs
All-both P Q [] h k = tt
All-both P Q (x ∷ xs) (h, hs) (k, ks) = ((h, k), All-both P Q xs hs ks)
