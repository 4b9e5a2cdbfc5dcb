-- ===== src/Workers/Handlers.antt =====
-- The handlers of the two types of jobs (src/workers/ingest_worker.rs, content_worker.rs) and the
-- worker that has them (src/workers/mod.rs).
pub mod Chunks
pub mod Created
pub mod Keeps
pub mod Payloads
pub mod Rows
pub mod Settled
use ingest_pipeline.Prelude.{ℕ, Option, none, some, List, [], ◌∷◌, ◌++◌, if◌then◌else◌, unwrap_or}
use ingest_pipeline.Prelude.Chunks.{chunks}
use ingest_pipeline.Prelude.Int.{pos}
use ingest_pipeline.Prelude.Text.{Text, text, text_eq}
use ingest_pipeline.Config.{Config}
use ingest_pipeline.Db.Feeds.{update_last_ingested_pub_date}
use ingest_pipeline.Libs.{Libs, json_str}
use ingest_pipeline.Pipeline.Content.{ContentStepResult, ContentStepStatus, process_content_step}
use ingest_pipeline.Pipeline.Ingest.{IngestStepResult, process_ingest_step}
use ingest_pipeline.Queue.Jobs.{create_job}
use ingest_pipeline.Queue.Worker.{Worker, Handler, new_worker}
use ingest_pipeline.Rss.Fields.{mapped, and_then}
use ingest_pipeline.Store.{M, pure, fail_with, ok_or, with_context, ◌>>=◌, ◌>>◌}

abbrev pub process_article : Text
process_article = text "process_article"

abbrev pub fetch_feed : Text
fetch_feed = text "fetch_feed"

-- A run id that does not parse is dropped.
unfoldable pub run_id_of : Libs → Text → Option ℕ
run_id_of libs payload = and_then (json_str libs payload (text "run_id")) libs.parse_uuid

unfoldable pub content_payload : Libs → Option ℕ → ℕ → Text
content_payload libs run_id article_id = libs.json_object (
    (text "article_id", some (libs.uuid_text article_id))
    ∷ (text "run_id", mapped libs.uuid_text run_id)
    ∷ [])

-- One chunk of the new articles.
unfoldable pub create_chunk : Option ℕ → List ℕ → M (Unit {0})
create_chunk run_id [] env w = pure tt env w
create_chunk run_id (article_id ∷ ids) env w =
    ◌>>=◌
      (with_context (text "Failed to create content job")
        (create_job process_article (content_payload env.libs run_id article_id) (pos 0)))
      (λ job. create_chunk run_id ids) env w

unfoldable pub create_chunks : Option ℕ → List (List ℕ) → M (Unit {0})
create_chunks run_id [] env w = pure tt env w
create_chunks run_id (chunk ∷ rest) env w =
    ◌>>=◌ (create_chunk run_id chunk) (λ done. create_chunks run_id rest) env w

abbrev pub chunk_size : ℕ
chunk_size = 50

unfoldable pub create_content_jobs : Option ℕ → List ℕ → M (Unit {0})
create_content_jobs run_id ids = create_chunks run_id (chunks chunk_size ids)

unfoldable pub advance_cursor : Text → Option ℕ → M (Unit {0})
advance_cursor feed_id none env = pure tt env
advance_cursor feed_id (some at) env =
    with_context (text "Failed to update cursor")
      (update_last_ingested_pub_date feed_id (env.to_rfc3339 at)) env

unfoldable pub after_ingest : Text → Option ℕ → IngestStepResult → M (Unit {0})
after_ingest feed_id run_id result = elim result.error [
  | none ↦
      create_content_jobs run_id result.new_article_ids
      >> advance_cursor feed_id result.max_pub_date
  | some error ↦
      if result.retryable
      then fail_with (text "Ingest step failed (retryable): " ++ error)
      else pure tt
]

unfoldable pub handle_ingest_job : Text → M (Unit {0})
handle_ingest_job payload env =
    (do
      feed_id ←
          ok_or (text "Missing feed_id in payload") (json_str env.libs payload (text "feed_id"))
      result ← process_ingest_step feed_id
      after_ingest feed_id (run_id_of env.libs payload) result)
      env

-- Only a failed extraction that may be tried again makes the job fail.
unfoldable pub after_content : ContentStepResult → M (Unit {0})
after_content result = elim result.status [
  | ContentStepStatus.extraction_failed ↦
      if result.retryable
      then fail_with (text "Extraction failed: " ++ unwrap_or (text "unknown") result.error)
      else pure tt
  | _ ↦ pure tt
]

unfoldable pub handle_content_job : Option Config → Text → M (Unit {0})
handle_content_job config payload env =
    (do
      id_text ←
          ok_or (text "Missing article_id in payload")
            (json_str env.libs payload (text "article_id"))
      article_id ← ok_or (text "Invalid article_id UUID format") (env.parse_uuid id_text)
      result ← process_content_step article_id config
      after_content result)
      env

-- The map of handlers that `start_worker` builds.
unfoldable pub handlers : Option Config → Text → Option Handler
handlers config job_type =
    if text_eq job_type fetch_feed
    then some (λ job. handle_ingest_job job.payload)
    else if text_eq job_type process_article
    then some (λ job. handle_content_job config job.payload)
    else none

unfoldable pub start_worker : Text → Option Config → Worker
start_worker worker_id config = new_worker worker_id (handlers config)
