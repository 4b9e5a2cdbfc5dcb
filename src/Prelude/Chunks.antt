-- ===== src/Prelude/Chunks.antt =====
-- `slice::chunks`.
use Prim.Native.Nat.{ℕ, zero, suc, ◌-◌}
use mathlib.Core.List.{List, [], ◌∷◌}

module _ {ℓ} {A : Type ℓ} where
  abbrev pub into_first : A → List (List A) → List (List A)
  into_first x [] = (x ∷ []) ∷ []
  into_first x (chunk ∷ rest) = (x ∷ chunk) ∷ rest

  -- The chunks of a list, the first of them with room for `left` entries.
  unfoldable pub chunked : ℕ → ℕ → List A → List (List A)
  chunked size left [] = [] ∷ []
  chunked size (suc left) (x ∷ xs) = into_first x (chunked size left xs)
  chunked size zero (x ∷ xs) = [] ∷ into_first x (chunked size (size - 1) xs)

  -- `slice::chunks`, for a size that is not 0.
  unfoldable pub chunks : ℕ → List A → List (List A)
  unfolding chunked
  chunks size [] = []
  chunks size (x ∷ xs) = chunked size size (x ∷ xs)
