-- ===== src/Dedup/Normalize/Queries.antt =====
-- That the query and the fragment of an address do not matter (`normalize_url` and `check_duplicate`
-- of src/utils/dedup.rs).
use ingest_pipeline.Prelude.{
  is_some, All-append, ℕ, ◌+◌, ◌<◌, ◌≡◌, refl, sym, ap, ◌∙◌, inl, inr, Bool, true, false, ◌&&◌,
  ◌||◌, Option, none, some, List, [], ◌∷◌, ◌++◌, map, arith, any, All, leb, ◌==◌, if◌then◌else◌,
  Option-cases, if-elim, All-implies,
}
use ingest_pipeline.Prelude.Text.{
  Text, text, trim, trim_start, trim_end, is_whitespace, strip_prefix, take_while, drop_while,
  starts_with, text_eq_refl,
}
use ingest_pipeline.Dedup.Check.{
  Existing, check_duplicate, check_loop, match_reason, duplicate_result, url_exact_match,
}
use ingest_pipeline.Dedup.Normalize.{
  in_host, in_path, http, https, host_and_path, captures, with_scheme, from_captures, normalize_url,
}

-- `str::to_lowercase` on ASCII, as its documentation says.
abbrev pub small : ℕ → ℕ
small c = if leb 65 c && leb c 90 then c + 32 else c

pub record IsLowercase (lowercase : Text → Text) : Type 0 where
  pub ascii : (s : Text) → All (λ c. c < 128) s → lowercase s ≡ map small s

-- A printable character of ASCII but the space.
abbrev pub IsPlain : ℕ → Type 0
IsPlain c = (32 < c) × (c < 127)

-- The characters that begin a query or a fragment.
abbrev pub is_mark : ℕ → Bool
is_mark c = c == b'?' || c == b'#'

not_whitespace : (c : ℕ) → IsPlain c → is_whitespace c ≡ false
unfolding is_whitespace
not_whitespace c h = ground arith

trim_end-plain : (s : Text) → All IsPlain s → trim_end is_whitespace s ≡ s
unfolding trim_end
trim_end-plain [] h = refl
trim_end-plain (c ∷ s) (h, hs) = ground (arith, not_whitespace c h, trim_end-plain s hs)

trim-plain : (s : Text) → All IsPlain s → trim s ≡ s
unfolding trim trim_start trim_end
trim-plain [] h = refl
trim-plain (c ∷ s) (h, hs) = ground (arith, not_whitespace c h, trim_end-plain (c ∷ s) (h, hs))

module _ (m : ℕ) (q : Text) (mark : is_mark m ≡ true) where
  strip_prefix-some :
      (p l r : Text) → strip_prefix p l ≡ some r → strip_prefix p (l ++ m ∷ q) ≡ some (r ++ m ∷ q)
  unfolding strip_prefix
  strip_prefix-some [] l r e = ground arith
  strip_prefix-some (c ∷ p) [] r e = absurd (ground arith)
  strip_prefix-some (c ∷ p) (d ∷ l) r e = ground (arith, strip_prefix-some p l r)

  strip_prefix-none :
      (p l : Text)
      → any is_mark p ≡ false
      → strip_prefix p l ≡ none
      → strip_prefix p (l ++ m ∷ q) ≡ none
  unfolding strip_prefix
  strip_prefix-none [] l n e = absurd (ground arith)
  strip_prefix-none (c ∷ p) [] n e = ground arith
  strip_prefix-none (c ∷ p) (d ∷ l) n e = ground (arith, strip_prefix-none p l)

  with_scheme-append : (u : Text) → with_scheme (u ++ m ∷ q) ≡ with_scheme u ++ m ∷ q
  unfolding with_scheme strip_prefix
  with_scheme-append [] = ground arith
  with_scheme-append (c ∷ []) = ground arith
  with_scheme-append (c ∷ d ∷ u) = ground arith

  take_while-append :
      (p : ℕ → Bool) (r : Text) → p m ≡ false → take_while p (r ++ m ∷ q) ≡ take_while p r
  unfolding take_while
  take_while-append p [] h = ground arith
  take_while-append p (c ∷ r) h = ground (arith, take_while-append p r h)

  drop_while-append :
      (p : ℕ → Bool) (r : Text) → p m ≡ false → drop_while p (r ++ m ∷ q) ≡ drop_while p r ++ m ∷ q
  unfolding drop_while
  drop_while-append p [] h = ground arith
  drop_while-append p (c ∷ r) h = ground (arith, drop_while-append p r h)

  host_and_path-append :
      (scheme r : Text) → host_and_path scheme (r ++ m ∷ q) ≡ host_and_path scheme r
  unfolding host_and_path
  host_and_path-append scheme r =
      let host : in_host m ≡ false = ground arith in
      let path : in_path m ≡ false = ground arith in
      rw
        (
          take_while-append in_host r host,
          drop_while-append in_host r host,
          take_while-append in_path (drop_while in_host r) path,
        )
        refl

  captures-append : (l : Text) → is_some (captures l) ≡ true → captures (l ++ m ∷ q) ≡ captures l
  unfolding captures
  captures-append l h = elim (Option-cases (strip_prefix https l)) [
    | inr (r, e) ↦ rw (captures, e, strip_prefix-some https l r e) (host_and_path-append https r)
    | inl e ↦
        let other = strip_prefix-none https l refl e in
        elim (Option-cases (strip_prefix http l)) [
          | inr (r, f) ↦
              rw (captures, e, f, other, strip_prefix-some http l r f) (host_and_path-append http r)
          | inl f ↦ absurd (ground arith)
        ]
  ]

  map-append : (s : Text) → map small (s ++ m ∷ q) ≡ map small s ++ m ∷ map small q
  map-append [] = ground arith
  map-append (c ∷ s) = ap (λ t. small c ∷ t) (map-append s)

plain-ascii : (s : Text) → All IsPlain s → All (λ c. c < 128) s
plain-ascii s h = All-implies IsPlain _ (λ c k. omega arith) s h

with_scheme-ascii : (url : Text) → All (λ c. c < 128) url → All (λ c. c < 128) (with_scheme url)
unfolding with_scheme
with_scheme-ascii url h =
    if-elim (All (λ c. c < 128)) (starts_with (text "//") url)
      (λ e.
        (omega arith, (omega arith, (omega arith, (omega arith, (omega arith, (omega arith, h)))))))
      (λ e. h)

-- The form of an address after the scheme is completed and the letters are made small.
abbrev pub lowered : (Text → Text) → Text → Text
lowered lowercase url = lowercase (with_scheme url)

abbrev normal : Text → Text
normal l = from_captures l (captures l)

normal-append :
    (l : Text) (m : ℕ) (q : Text)
    → is_mark m ≡ true
    → is_some (captures l) ≡ true
    → normal (l ++ m ∷ q) ≡ normal l
unfolding from_captures
normal-append l m q mark h =
    let same = captures-append m q mark l h in
    elim (Option-cases (captures l)) [
      | inl e ↦ absurd (ground arith)
      | inr (c, e) ↦ ap (from_captures (l ++ m ∷ q)) (same ∙ e) ∙ sym (ap (from_captures l) e)
    ]

module _ (lowercase : Text → Text) (ascii : IsLowercase lowercase) where
  normalize_url-plain :
      (url : Text) → All IsPlain url → normalize_url lowercase url ≡ normal (lowered lowercase url)
  unfolding normalize_url
  normalize_url-plain url h = ap (λ u. normal (lowered lowercase u)) (trim-plain url h)

  lowercase-append :
      (s : Text) (m : ℕ) (q : Text)
      → is_mark m ≡ true
      → All (λ c. c < 128) s
      → All (λ c. c < 128) q
      → lowercase (s ++ m ∷ q) ≡ lowercase s ++ m ∷ map small q
  lowercase-append s m q mark h k =
      let whole = All-append (λ c. c < 128) s (m ∷ q) h (ground arith, k) in
      ascii.ascii (s ++ m ∷ q) whole
      ∙ map-append m q mark s
      ∙ ap (λ t. t ++ m ∷ map small q) (sym (ascii.ascii s h))

  -- An address keeps its normal form when a query or a fragment is put behind it. (The address begins
  -- with http:// or https:// and a host, and all characters are printable ones of ASCII.)
  pub normalize_url-query :
      (url : Text) (m : ℕ) (q : Text)
      → is_mark m ≡ true
      → All IsPlain url
      → All IsPlain q
      → is_some (captures (lowered lowercase url)) ≡ true
      → normalize_url lowercase (url ++ m ∷ q) ≡ normalize_url lowercase url
  normalize_url-query url m q mark plain rest h =
      let whole = All-append IsPlain url (m ∷ q) plain (ground arith, rest) in
      normalize_url-plain (url ++ m ∷ q) whole
      ∙ ap (λ u. normal (lowercase u)) (with_scheme-append m q mark url)
      ∙ ap normal (
          lowercase-append (with_scheme url) m q mark
            (with_scheme-ascii url (plain-ascii url plain)) (plain-ascii q rest))
      ∙ normal-append (lowered lowercase url) m (map small q) mark h
      ∙ sym (normalize_url-plain url plain)

  -- An article whose address is that of the first existing article but for a query or a fragment is a
  -- duplicate of it, by its address, whatever the titles are. (The addresses are as above.)
  pub check_duplicate-query :
      (e : Existing) (others : List Existing) (m : ℕ) (q : Text) (canonical : Option Text)
      (title : Text)
      → is_mark m ≡ true
      → All IsPlain e.url
      → All IsPlain q
      → is_some (captures (lowered lowercase e.url)) ≡ true
      → check_duplicate lowercase (e.url ++ m ∷ q) canonical title (e ∷ others)
        ≡ duplicate_result e.id url_exact_match
  unfolding check_duplicate check_loop match_reason normalize_url
  check_duplicate-query e others m q canonical title mark plain rest h =
      rw
        (
          normalize_url-query e.url m q mark plain rest h,
          text_eq_refl (normalize_url lowercase e.url),
        )
        refl
