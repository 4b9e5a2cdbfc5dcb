-- ===== src/System/Statements.antt =====
-- The keys of the tables and the single run in progress, through the statements of the program
-- (src/queue/jobs.rs, src/db).
use ingest_pipeline.Prelude.{ℕ, ◌≤◌, refl, sym, subst, inl, inr, Option, arith, ◌==◌, Option-cases}
use ingest_pipeline.Prelude.Int.{ℤ}
use ingest_pipeline.Prelude.Text.{Text}
use ingest_pipeline.Config.{Config}
use ingest_pipeline.Db.Articles.Keys.{HasUniqueKeys}
use ingest_pipeline.Db.Articles.Updates.{keys, keys-HasUniqueKeys}
use ingest_pipeline.Db.Feeds.{update_last_ingested_pub_date}
use ingest_pipeline.Pipeline.Content.{process_content_step}
use ingest_pipeline.Pipeline.Content.Untouched.{process_content_step-HasRest}
use ingest_pipeline.Pipeline.Ingest.{process_ingest_step}
use ingest_pipeline.Pipeline.Ingest.Keys.{process_ingest_step-HasUniqueKeys}
use ingest_pipeline.Pipeline.Ingest.Untouched.{process_ingest_step-HasQueue}
use ingest_pipeline.Queue.Fleet.Keys.{
  HasKeys, insert_job-HasKeys, update-HasKeys, fail_rows-HasKeys,
}
use ingest_pipeline.Queue.Jobs.{
  create_job, new_job, insert_job, pick_jobs, pick_rows, selected, has_id, start, complete_job,
  complete_rows, fail_job, fail_rows,
}
use ingest_pipeline.Schema.{Job, JobStatus}
use ingest_pipeline.Store.{Env, World}
use ingest_pipeline.Workers.Scheduler.Single.{HasOneRun, count, create_job-HasRuns}

-- The ids of the jobs are distinct, and no two articles have the same URL and feed.
abbrev pub HasTables : World → Type 0
HasTables w = HasKeys w.jobs × HasUniqueKeys w.articles

-- And at most one run is in progress.
abbrev pub IsConsistent : World → Type 0
IsConsistent w = HasTables w × HasOneRun w

module _ (env : Env) where
  pub create_job-HasTables :
      (job_type payload : Text) (priority : ℤ) (w : World)
      → HasTables w
      → HasTables (create_job job_type payload priority env w).1
  unfolding create_job
  create_job-HasTables job_type payload priority w h =
      let j = new_job (env.now w.statements) (env.fresh w.draws) job_type payload priority in
      elim (Option-cases (insert_job j w.jobs)) [
        | inl p ↦ ground arith
        | inr (jobs, p) ↦ ground (arith, insert_job-HasKeys j w.jobs jobs p)
      ]

  pub create_job-IsConsistent :
      (job_type payload : Text) (priority : ℤ) (w : World)
      → IsConsistent w
      → IsConsistent (create_job job_type payload priority env w).1
  create_job-IsConsistent job_type payload priority w (tables, one) = (
    create_job-HasTables job_type payload priority w tables,
    subst (λ runs. count runs ≤ 1)
        (sym (create_job-HasRuns w.runs env job_type payload priority w refl)) one,
  )

  pub update_cursor-IsConsistent :
      (feed_id at : Text) (w : World)
      → IsConsistent w
      → IsConsistent (update_last_ingested_pub_date feed_id at env w).1
  unfolding update_last_ingested_pub_date
  update_cursor-IsConsistent feed_id at w h = ground arith

  pub pick_jobs-IsConsistent :
      (worker_id : Text) (limit : ℕ) (w : World)
      → IsConsistent w
      → IsConsistent (pick_jobs worker_id limit env w).1
  unfolding pick_jobs pick_rows start
  pick_jobs-IsConsistent worker_id limit w ((held, articles), one) =
      let now = env.now w.statements in
      let chosen = selected now (env.held w.statements) limit w.jobs in
      let picked =
        update-HasKeys (λ j. has_id j.id chosen) (start now worker_id) w.jobs (λ j. refl) held in
      ground (arith, picked)

  pub complete_job-IsConsistent :
      (id : ℕ) (w : World) → IsConsistent w → IsConsistent (complete_job id env w).1
  unfolding complete_job complete_rows
  complete_job-IsConsistent id w ((held, articles), one) =
      let done : Job → Job =
        λ j. record j { status = JobStatus.completed; updated_at = env.now w.statements } in
      ground (arith, update-HasKeys (λ j. j.id == id) done w.jobs (λ j. refl) held)

  pub fail_job-IsConsistent :
      (id : ℕ) (error : Text) (w : World)
      → IsConsistent w
      → IsConsistent (fail_job id error env w).1
  unfolding fail_job
  fail_job-IsConsistent id error w h =
      elim (Option-cases (fail_rows (env.now w.statements) id error w.jobs)) [
        | inl p ↦ ground arith
        | inr (jobs, p) ↦
            ground (arith, fail_rows-HasKeys (env.now w.statements) id error w.jobs jobs p)
      ]

  pub process_ingest_step-IsConsistent :
      (feed_id : Text) (w : World)
      → IsConsistent w
      → IsConsistent (process_ingest_step feed_id env w).1
  process_ingest_step-IsConsistent feed_id w ((held, articles), one) =
      let (jobs, runs) = process_ingest_step-HasQueue w.jobs w.runs env feed_id w (refl, refl) in
      (
        (subst HasKeys (sym jobs) held, process_ingest_step-HasUniqueKeys feed_id env w articles),
        subst (λ runs. count runs ≤ 1) (sym runs) one,
      )

  pub process_content_step-IsConsistent :
      (id : ℕ) (config : Option Config) (w : World)
      → IsConsistent w
      → IsConsistent (process_content_step id config env w).1
  process_content_step-IsConsistent id config w ((held, articles), one) =
      let ((jobs, runs), same) =
        process_content_step-HasRest w.jobs w.runs (keys w.articles) env id config w
          ((refl, refl), refl) in
      (
        (subst HasKeys (sym jobs) held, keys-HasUniqueKeys w.articles _ same articles),
        subst (λ runs. count runs ≤ 1) (sym runs) one,
      )
