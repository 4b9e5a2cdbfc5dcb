-- ===== src/Schema/Decoded.antt =====
-- That a column holds what was written to it (the macro `impl_text_enum` of src/db/schema.rs).
use ingest_pipeline.Prelude.{◌≡◌, refl, ap, ◌∙◌, false, some, [], ◌∷◌, ◌++◌, arith, any}
use ingest_pipeline.Prelude.Text.{Text, trim_start, trim_end}
use ingest_pipeline.Schema.Encoding.{TextEnum, Serde, quoted, is_quote, encode, decode}

-- What serde documents for `rename_all = "snake_case"`, with `snake_case` the new names: a variant is
-- written as its name in quotes, and read from it. No name has a quote in it.
pub record IsRenamed {E : Type 0} (e : TextEnum E) (serde : Serde E) (snake_case : Text → Text)
    : Type 0 where
  pub writes : (v : E) → serde.to_string v ≡ some (quoted (snake_case (e.identifier v)))
  pub reads : (v : E) → serde.from_str (quoted (snake_case (e.identifier v))) ≡ some v
  pub unquoted : (v : E) → any is_quote (snake_case (e.identifier v)) ≡ false

trim_end-quoted : (s : Text) → any is_quote s ≡ false → trim_end is_quote (s ++ 34 ∷ []) ≡ s
unfolding trim_end
trim_end-quoted [] h = refl
trim_end-quoted (c ∷ s) h = ground (arith, trim_end-quoted s)

encode-quoted :
    {E : Type 0} (serde : Serde E) (v : E) (s : Text)
    → serde.to_string v ≡ some (quoted s)
    → any is_quote s ≡ false
    → encode serde v ≡ s
unfolding encode trim_start trim_end
encode-quoted serde v [] e h = rw e refl
encode-quoted serde v (c ∷ s) e h =
    let letter : is_quote c ≡ false = ground arith in
    let ended = trim_end-quoted (c ∷ s) h in rw (e, letter) ended

-- Every variant is read back from the text that is stored for it, and that text is its name without
-- quotes. (serde_json writes and reads the new names, which have no quote in them.)
pub decode-encode :
    {E : Type 0} (e : TextEnum E) (serde : Serde E) (snake_case : Text → Text) (v : E)
    → IsRenamed e serde snake_case
    → (encode serde v ≡ snake_case (e.identifier v)) × (decode serde (encode serde v) ≡ some v)
unfolding decode
decode-encode e serde snake_case v renamed =
    let stored =
      encode-quoted serde v (snake_case (e.identifier v)) (renamed.writes v) (renamed.unquoted v) in
    (stored, ap (λ s. serde.from_str (quoted s)) stored ∙ renamed.reads v)
