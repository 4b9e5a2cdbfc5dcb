-- ===== src/Witnesses/Articles.antt =====
-- The theorems on two articles with one title and on the stored status columns.
use ingest_pipeline.Prelude.{
  ◌+◌, ◌≡◌, refl, false, not, ◌&&◌, none, some, [], ◌∷◌, ◌++◌, map, arith, find, any, All, ltb,
}
use ingest_pipeline.Prelude.Text.{Text, text, text_eq}
use ingest_pipeline.Dedup.Check.{Existing, check_duplicate, duplicate_result, url_exact_match}
use ingest_pipeline.Dedup.Normalize.{captures, with_scheme}
use ingest_pipeline.Dedup.Normalize.Queries.{IsPlain, IsLowercase, small, check_duplicate-query}
use ingest_pipeline.Pipeline.Content.{is_open, ContentStepStatus, process_content_step}
use ingest_pipeline.Pipeline.Content.Mutual.{status_of, both_rejected}
use ingest_pipeline.Samples.{article, world, existing}
use ingest_pipeline.Samples.Json.{json_env, json_libs-ReadsBack}
use ingest_pipeline.Schema.{RawArticle, RunStatus}
use ingest_pipeline.Schema.Decoded.{IsRenamed, decode-encode}
use ingest_pipeline.Schema.Encoding.{Serde, quoted, run_status, encode, decode, is_quote}

abbrev second_article : RawArticle
second_article = record article { id = 9; url = text "https://example.net/other" }

both_rejected_example :
    let (r, v) =
      process_content_step 7 none json_env
        (record world { articles = article ∷ second_article ∷ [] }) in
    let (s, u) = process_content_step 9 none json_env v in
    (status_of r ≡ some ContentStepStatus.rejected_duplicate)
    × (status_of s ≡ some ContentStepStatus.rejected_duplicate)
    × (map (λ x. x.duplicate_of) u.articles ≡ some 9 ∷ some 7 ∷ [])
unfolding is_open
both_rejected_example =
    both_rejected json_env (λ n. refl) article second_article none world refl refl refl refl
      json_libs-ReadsBack

-- The names of RunStatus in snake case are those with a small first letter.
abbrev small_first : Text → Text
small_first [] = []
small_first (c ∷ s) = (c + 32) ∷ s

abbrev serde : Serde RunStatus
serde = record {
  to_string = λ v. some (quoted (small_first (run_status.identifier v)));
  from_str = λ s.
      find (λ v. text_eq s (quoted (small_first (run_status.identifier v)))) run_status.variants;
}

serde_reads :
    (v : RunStatus) → serde.from_str (quoted (small_first (run_status.identifier v))) ≡ some v
unfolding text_eq
serde_reads RunStatus.running = refl
serde_reads RunStatus.completed = refl
serde_reads RunStatus.failed = refl

serde_unquoted : (v : RunStatus) → any is_quote (small_first (run_status.identifier v)) ≡ false
serde_unquoted RunStatus.running = refl
serde_unquoted RunStatus.completed = refl
serde_unquoted RunStatus.failed = refl

serde-IsRenamed : IsRenamed run_status serde small_first
serde-IsRenamed = record { writes = λ v. refl; reads = serde_reads; unquoted = serde_unquoted }

decode-encode_example :
    (encode serde RunStatus.failed ≡ text "failed")
    × (decode serde (encode serde RunStatus.failed) ≡ some RunStatus.failed)
decode-encode_example = decode-encode run_status serde small_first RunStatus.failed serde-IsRenamed

plain : (s : Text) → any (λ c. not (ltb 32 c && ltb c 127)) s ≡ false → All IsPlain s
plain [] h = tt
plain (c ∷ s) h = (ground arith, plain s (ground arith))

ascii-IsLowercase : IsLowercase (map small)
ascii-IsLowercase = record { ascii = λ s h. refl }

abbrev known : Existing
known = record existing { url = text "https://example.org/Story" }

check_duplicate-query_example :
    check_duplicate (map small) (known.url ++ b'?' ∷ text "page=2") none (text "News") (known ∷ [])
    ≡ duplicate_result (text "8") url_exact_match
unfolding captures with_scheme
check_duplicate-query_example =
    check_duplicate-query (map small) ascii-IsLowercase known [] b'?' (text "page=2") none
      (text "News") refl (plain known.url refl) (plain (text "page=2") refl) refl
