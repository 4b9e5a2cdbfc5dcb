-- ===== src/Workers/Handlers/Rows.antt =====
-- What the handlers do to the table of jobs (src/workers/ingest_worker.rs, content_worker.rs): they
-- only add new ones.
use ingest_pipeline.Prelude.{ℕ, Option, [], ◌∷◌, arith, refl, All, All-append, subst, sym}
use ingest_pipeline.Prelude.Int.{ℤ}
use ingest_pipeline.Prelude.Text.{Text}
use ingest_pipeline.Config.{Config}
use ingest_pipeline.Db.Feeds.{update_last_ingested_pub_date}
use ingest_pipeline.Pipeline.Content.{process_content_step}
use ingest_pipeline.Pipeline.Content.Untouched.{process_content_step-HasJobs}
use ingest_pipeline.Pipeline.Ingest.{process_ingest_step}
use ingest_pipeline.Pipeline.Ingest.Untouched.{process_ingest_step-HasJobs}
use ingest_pipeline.Queue.Jobs.{new_job, insert_job, create_job}
use ingest_pipeline.Schema.{Job}
use ingest_pipeline.Store.{Env, World}
use ingest_pipeline.Workers.Handlers.{handle_ingest_job, handle_content_job}
use ingest_pipeline.Workers.Handlers.Keeps.{handle_ingest_job_keeps, handle_content_job_keeps}

-- A property that new jobs have.
abbrev pub HoldsOfNew : (Job → Type 0) → Type 0
HoldsOfNew P =
    (now id : ℕ) (job_type payload : Text) (priority : ℤ)
    → P (new_job now id job_type payload priority)

module _ (P : Job → Type 0) (new : HoldsOfNew P) (env : Env) where
  abbrev AllHave : World → Type 0
  AllHave w = All P w.jobs

  create_job-All :
      (job_type payload : Text) (priority : ℤ) (w : World)
      → AllHave w
      → AllHave (create_job job_type payload priority env w).1
  unfolding create_job insert_job
  create_job-All job_type payload priority w h =
      let j = new_job (env.now w.statements) (env.fresh w.draws) job_type payload priority in
      let more =
        All-append P w.jobs (j ∷ []) h
          (new (env.now w.statements) (env.fresh w.draws) job_type payload priority, tt) in
      ground (arith, more)

  update_cursor-All :
      (feed_id at : Text) (w : World)
      → AllHave w
      → AllHave (update_last_ingested_pub_date feed_id at env w).1
  unfolding update_last_ingested_pub_date
  update_cursor-All feed_id at w h = ground arith

  ingest-All :
      (feed_id : Text) (w : World) → AllHave w → AllHave (process_ingest_step feed_id env w).1
  ingest-All feed_id w h =
      subst (All P) (sym (process_ingest_step-HasJobs w.jobs env feed_id w refl)) h

  content-All :
      (id : ℕ) (config : Option Config) (w : World)
      → AllHave w
      → AllHave (process_content_step id config env w).1
  content-All id config w h =
      subst (All P) (sym (process_content_step-HasJobs w.jobs env id config w refl)) h

  pub handle_ingest_job-All :
      (payload : Text) (w : World) → AllHave w → AllHave (handle_ingest_job payload env w).1
  handle_ingest_job-All =
      handle_ingest_job_keeps AllHave env create_job-All update_cursor-All ingest-All content-All

  pub handle_content_job-All :
      (config : Option Config) (payload : Text) (w : World)
      → AllHave w
      → AllHave (handle_content_job config payload env w).1
  handle_content_job-All =
      handle_content_job_keeps AllHave env create_job-All update_cursor-All ingest-All content-All
