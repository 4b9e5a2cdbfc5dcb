-- ===== src/Prelude/Text.antt =====
-- Texts as lists of code points, with the parts of `str` that the program uses.
use Prim.Native.Char.{code}
use Prim.Native.String.{String}
use Prim.Native.Nat.{ℕ, zero, suc, ◌+◌, ◌-◌, ◌*◌}
use mathlib.Core.Path.{◌≡◌, refl}
use mathlib.Core.Bool.{Bool, true, false, not, ◌&&◌, ◌||◌}
use mathlib.Core.List.{List, [], ◌∷◌}
use mathlib.Core.Option.{Option, none, some}
use native.Mathlib.Omega.{arith}
use ingest_pipeline.Prelude.Lists.{length}
use ingest_pipeline.Prelude.Tests.{ltb, leb, ◌==◌, if◌then◌else◌}

abbrev pub Text : Type 0
Text = List ℕ

abbrev pub text : String → Text
text String.[] = []
text (String.◌∷◌ c s) = code c ∷ text s

unfoldable pub text_eq : Text → Text → Bool
text_eq [] [] = true
text_eq [] (y ∷ ys) = false
text_eq (x ∷ xs) [] = false
text_eq (x ∷ xs) (y ∷ ys) = x == y && text_eq xs ys

pub text_eq_refl : (s : Text) → text_eq s s ≡ true
unfolding text_eq
text_eq_refl [] = refl
text_eq_refl (x ∷ xs) = ground (arith, text_eq_refl xs)

pub text_eq→eq : (s t : Text) → text_eq s t ≡ true → s ≡ t
unfolding text_eq
text_eq→eq [] [] h = refl
text_eq→eq [] (y ∷ ys) h = ground arith
text_eq→eq (x ∷ xs) [] h = ground arith
text_eq→eq (x ∷ xs) (y ∷ ys) h = ground (arith, text_eq→eq xs ys)

-- `char::is_whitespace`: the Unicode property White_Space.
unfoldable pub is_whitespace : ℕ → Bool
is_whitespace c =
    (leb 9 c && leb c 13)
    || c == 32
    || c == 133
    || c == 160
    || c == 5760
    || (leb 8192 c && leb c 8202)
    || c == 8232
    || c == 8233
    || c == 8239
    || c == 8287
    || c == 12288

abbrev pub is_empty : Text → Bool
is_empty [] = true
is_empty (c ∷ s) = false

-- `trim_start_matches`, `trim_end_matches` and `trim`.
unfoldable pub trim_start : (ℕ → Bool) → Text → Text
trim_start p [] = []
trim_start p (c ∷ s) = let rest = trim_start p s in if p c then rest else c ∷ s

unfoldable pub trim_end : (ℕ → Bool) → Text → Text
trim_end p [] = []
trim_end p (c ∷ s) = let rest = trim_end p s in if p c && is_empty rest then [] else c ∷ rest

unfoldable pub trim : Text → Text
unfolding trim_start trim_end is_whitespace
trim s = trim_end is_whitespace (trim_start is_whitespace s)

-- What follows a prefix, if the text begins with it.
unfoldable pub strip_prefix : Text → Text → Option Text
strip_prefix [] s = some s
strip_prefix (p ∷ ps) [] = none
strip_prefix (p ∷ ps) (c ∷ s) = let rest = strip_prefix ps s in if p == c then rest else none

abbrev pub starts_with : Text → Text → Bool
starts_with p s = elim (strip_prefix p s) [ none ↦ false | some rest ↦ true ]

unfoldable pub take_while : (ℕ → Bool) → Text → Text
take_while p [] = []
take_while p (c ∷ s) = let rest = take_while p s in if p c then c ∷ rest else []

unfoldable pub drop_while : (ℕ → Bool) → Text → Text
drop_while p [] = []
drop_while p (c ∷ s) = let rest = drop_while p s in if p c then rest else c ∷ s

abbrev push_front : ℕ → List Text → List Text
push_front c [] = (c ∷ []) ∷ []
push_front c (part ∷ parts) = (c ∷ part) ∷ parts

-- `split` at each character that passes a test; there is always at least one part.
unfoldable pub split_at : (ℕ → Bool) → Text → List Text
split_at p [] = [] ∷ []
split_at p (c ∷ s) = let rest = split_at p s in if p c then [] ∷ rest else push_front c rest

-- `str::len`, in bytes of UTF-8.
abbrev pub utf8_width : ℕ → ℕ
utf8_width c = if ltb c 128 then 1 else if ltb c 2048 then 2 else if ltb c 65536 then 3 else 4

unfoldable pub byte_len : Text → ℕ
byte_len [] = 0
byte_len (c ∷ s) = utf8_width c + byte_len s

-- `split` at each occurrence of a separator that is not empty; `skip` counts the characters of the
-- separator that are still to be passed over.
unfoldable pub split_text : Text → ℕ → Text → List Text
unfolding strip_prefix
split_text sep skip [] = [] ∷ []
split_text sep (suc skip) (c ∷ s) = split_text sep skip s
split_text sep zero (c ∷ s) = elim (starts_with sep (c ∷ s)) [
  | true ↦ [] ∷ split_text sep (length sep - 1) s
  | false ↦ push_front c (split_text sep zero s)
]

unfoldable pub contains_text : Text → Text → Bool
unfolding strip_prefix
contains_text sep [] = starts_with sep []
contains_text sep (c ∷ s) = starts_with sep (c ∷ s) || contains_text sep s

-- The text up to a byte offset, and the character that begins at one.
unfoldable pub byte_prefix : ℕ → Text → Text
byte_prefix n [] = []
byte_prefix n (c ∷ s) =
    let rest = byte_prefix (n - utf8_width c) s in if n == 0 then [] else c ∷ rest

unfoldable pub char_at_byte : ℕ → Text → Option ℕ
char_at_byte n [] = none
char_at_byte n (c ∷ s) =
    let rest = char_at_byte (n - utf8_width c) s in
    if n == 0 then some c else if ltb n (utf8_width c) then none else rest

-- `str::parse::<u32>` and `from_str_radix(…, 16)`; a number that does not fit is an error.
unfoldable pub digit : ℕ → Option ℕ
digit c =
    if leb b'0' c && leb c b'9'
    then some (c - b'0')
    else if leb b'a' c && leb c b'f'
    then some (c - 87)
    else if leb b'A' c && leb c b'F'
    then some (c - 55)
    else none

abbrev next_digit : ℕ → ℕ → Option ℕ → Option ℕ
next_digit base acc none = none
next_digit base acc (some d) =
    if ltb d base && ltb (acc * base + d) 4294967296 then some (acc * base + d) else none

unfoldable pub parse_digits : ℕ → ℕ → Text → Option ℕ
unfolding digit
parse_digits base acc [] = some acc
parse_digits base acc (c ∷ s) = elim (next_digit base acc (digit c)) [
  | none ↦ none
  | some acc' ↦ parse_digits base acc' s
]

unfoldable pub parse_u32 : ℕ → Text → Option ℕ
unfolding parse_digits
parse_u32 base [] = none
parse_u32 base (c ∷ s) =
    if c == b'+' && not (is_empty s) then parse_digits base 0 s else parse_digits base 0 (c ∷ s)

-- `char::from_u32`.
unfoldable pub from_u32 : ℕ → Option ℕ
from_u32 n = if ltb n 0xD800 || (leb 0xE000 n && leb n 0x10FFFF) then some n else none
