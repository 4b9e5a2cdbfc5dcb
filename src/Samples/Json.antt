-- ===== src/Samples/Json.antt =====
-- Concrete JSON objects for the examples: a text in which 0 opens a field and 1 a value that is not
-- null, with all other code points moved up by 2; a value is its text behind a 1, null is empty.
use ingest_pipeline.Prelude.{
  ℕ, zero, suc, ◌-◌, ◌≡◌, refl, ap, ◌∙◌, Option, none, some, List, [], ◌∷◌, ◌++◌, arith, unwrap_or,
}
use ingest_pipeline.Prelude.Text.{Text}
use ingest_pipeline.Libs.{ReadsBack, field_of, Libs, json_str}
use ingest_pipeline.Samples.{libs, env}
use ingest_pipeline.Store.{Env}

abbrev shifted : Text → Text
shifted [] = []
shifted (c ∷ s) = suc (suc c) ∷ shifted s

abbrev value_text : Option Text → Text
value_text none = []
value_text (some v) = 1 ∷ shifted v

abbrev pub write_object : List (Text × Option Text) → Text
write_object [] = []
write_object ((key, v) ∷ fields) = 0 ∷ shifted key ++ (value_text v ++ write_object fields)

-- The letters that wait for what they belong to, the value that waits for its key, and the fields.
abbrev Reading : Type 0
Reading = Text × Option Text × List (Text × Option Text)

abbrev push : ℕ → Reading → Reading
push zero (letters, v, fields) = ([], none, (letters, v) ∷ fields)
push (suc zero) (letters, v, fields) = ([], some letters, fields)
push (suc (suc c)) (letters, v, fields) = (c ∷ letters, v, fields)

abbrev read : Text → Reading
read [] = ([], none, [])
read (c ∷ s) = push c (read s)

abbrev pub get : Text → Text → Option Text
get object key = elim (field_of key (read object).2) [ none ↦ none | some v ↦ some (value_text v) ]

abbrev unshifted : Text → Text
unshifted [] = []
unshifted (c ∷ s) = (c - 2) ∷ unshifted s

abbrev pub as_str : Text → Option Text
as_str [] = none
as_str (c ∷ s) = some (unshifted s)

unshifted-shifted : (s : Text) → unshifted (shifted s) ≡ s
unshifted-shifted [] = refl
unshifted-shifted (c ∷ s) = ground (arith, unshifted-shifted s)

as_str-value_text : (v : Option Text) → as_str (value_text v) ≡ v
as_str-value_text none = refl
as_str-value_text (some v) = ap some (unshifted-shifted v)

read-shifted :
    (s rest : Text) (v : Option Text) (fields : List (Text × Option Text))
    → read rest ≡ ([], v, fields)
    → read (shifted s ++ rest) ≡ (s, v, fields)
read-shifted [] rest v fields h = h
read-shifted (c ∷ s) rest v fields h = ap (push (suc (suc c))) (read-shifted s rest v fields h)

read-value :
    (v : Option Text) (rest : Text) (fields : List (Text × Option Text))
    → read rest ≡ ([], none, fields)
    → read (value_text v ++ rest) ≡ ([], v, fields)
read-value none rest fields h = h
read-value (some v) rest fields h = ap (push 1) (read-shifted v rest none fields h)

read-write_object :
    (fields : List (Text × Option Text)) → read (write_object fields) ≡ ([], none, fields)
read-write_object [] = refl
read-write_object ((key, v) ∷ fields) =
    ap (push 0) (read-shifted key _ v fields (read-value v _ fields (read-write_object fields)))

-- The samples' libraries with these objects.
abbrev pub json_libs : Libs
json_libs = record libs { json_object = write_object; json_get = get; json_as_str = as_str }

abbrev text_of : Option (Option Text) → Option Text
text_of o =
    elim (elim o as (λ x. Option Text) [ none ↦ none | some v ↦ some (value_text v) ])
      as (λ x. Option Text) [ none ↦ none | some v ↦ as_str v ]

text_of-value : (o : Option (Option Text)) → text_of o ≡ unwrap_or none o
text_of-value none = refl
text_of-value (some v) = as_str-value_text v

get-write_object :
    (fields : List (Text × Option Text)) (key : Text)
    → json_str json_libs (write_object fields) key ≡ unwrap_or none (field_of key fields)
get-write_object fields key =
    ap (λ r. text_of (field_of key r.2)) (read-write_object fields)
    ∙ text_of-value (field_of key fields)

pub json_libs-ReadsBack : ReadsBack json_libs
json_libs-ReadsBack = record { fields = get-write_object; ids = λ id. refl }

abbrev pub json_env : Env
json_env = record env { libs = json_libs }
