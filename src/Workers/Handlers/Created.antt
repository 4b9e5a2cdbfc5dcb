-- ===== src/Workers/Handlers/Created.antt =====
-- The jobs that a feed's job creates (src/workers/ingest_worker.rs).
use ingest_pipeline.Prelude.{
  ℕ, refl, sym, inl, inr, Option, none, some, List, [], append-nil, arith, Option-cases,
}
use ingest_pipeline.Prelude.Int.{pos}
use ingest_pipeline.Prelude.Text.{text, Text}
use ingest_pipeline.Db.Feeds.{update_last_ingested_pub_date}
use ingest_pipeline.Libs.{Libs}
use ingest_pipeline.Pipeline.Ingest.{IngestStepResult}
use ingest_pipeline.Queue.Jobs.{create_job}
use ingest_pipeline.Queue.Jobs.Creating.{
  kept-HasCreated, create_job-AddsOne, IsAsked, AddsOne, HasCreated, create_each,
}
use ingest_pipeline.Schema.{Job}
use ingest_pipeline.Store.{HasJobs, branch_both, err, run_both, ok, relabelled, World, Result, Env}
use ingest_pipeline.Workers.Handlers.{
  content_payload, process_article, advance_cursor, create_chunk, after_ingest,
}
use ingest_pipeline.Workers.Handlers.Chunks.{create_content_jobs-create_chunk}

-- The job for one article of a run.
abbrev pub IsContentJob : Libs → Option ℕ → ℕ → Job → Type 0
IsContentJob libs run_id id = IsAsked process_article (content_payload libs run_id id) (pos 0)

-- The articles that get a job: the new ones, if the step reports no error.
abbrev pub to_process : IngestStepResult → List ℕ
to_process result = elim result.error [ none ↦ result.new_article_ids | some error ↦ [] ]

relabelled-AddsOne :
    (P : Job → Type 0) (jobs : List Job) (context : Text) (r : Result Job × World)
    → AddsOne P jobs r
    → AddsOne P jobs (relabelled context r)
relabelled-AddsOne P jobs context (ok j, w) h = h
relabelled-AddsOne P jobs context (err e, w) h = h

module _ (env : Env) (run_id : Option ℕ) where
  abbrev P : ℕ → Job → Type 0
  P = IsContentJob env.libs run_id

  create_chunk-HasCreated :
      (ids : List ℕ) (w : World) → HasCreated P ids w.jobs (create_chunk run_id ids env w)
  unfolding create_chunk
  create_chunk-HasCreated =
      create_each P
        (λ id w.
          relabelled (text "Failed to create content job")
            (create_job process_article (content_payload env.libs run_id id) (pos 0) env w))
        (λ ids w. create_chunk run_id ids env w)
        (λ id w.
          relabelled-AddsOne (P id) w.jobs _ _
            (create_job-AddsOne process_article (content_payload env.libs run_id id) (pos 0) env w))
        (λ w. refl) (λ id ids w. refl)

  advance_cursor-HasJobs :
      (feed_id : Text) (at : Option ℕ) (w : World)
      → HasJobs w.jobs (advance_cursor feed_id at env w).1
  unfolding advance_cursor update_last_ingested_pub_date
  advance_cursor-HasJobs feed_id none w = refl
  advance_cursor-HasJobs feed_id (some at) w = ground arith

  -- After the ingest step the handler has added one pending job of type process_article for each new
  -- article, in their order and with their ids and the run in the payloads, if it succeeds; if it
  -- fails, such jobs for the first of them. After an error of the step it adds none.
  pub after_ingest-HasCreated :
      (feed_id : Text) (result : IngestStepResult) (w : World)
      → HasCreated
          (IsContentJob env.libs run_id)
          (to_process result)
          w.jobs
          (after_ingest feed_id run_id result env w)
  unfolding after_ingest
  after_ingest-HasCreated feed_id result w = elim (Option-cases result.error) [
    | inl p ↦
        rw (p, after_ingest, create_content_jobs-create_chunk env run_id result.new_article_ids w)
          (run_both (HasCreated P result.new_article_ids w.jobs)
            (HasCreated P result.new_article_ids w.jobs)
            (create_chunk run_id result.new_article_ids env w) _
            (create_chunk-HasCreated result.new_article_ids w) (λ e w' k. k)
            (λ done w' k.
              kept-HasCreated P result.new_article_ids w.jobs w'
                (advance_cursor feed_id result.max_pub_date env w')
                (advance_cursor-HasJobs feed_id result.max_pub_date w') k))
    | inr (error, p) ↦
        rw (p, after_ingest)
          (branch_both (HasCreated P [] w.jobs) result.retryable _ _ env w
            ([], sym (append-nil w.jobs), tt, tt) ([], sym (append-nil w.jobs), tt, refl))
  ]
