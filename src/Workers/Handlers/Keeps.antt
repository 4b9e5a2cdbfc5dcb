-- ===== src/Workers/Handlers/Keeps.antt =====
-- A property of the tables that the handlers keep (src/workers/ingest_worker.rs, content_worker.rs).
use ingest_pipeline.Prelude.{
  ℕ, ◌≡◌, sym, subst, inl, inr, Option, none, some, List, [], ◌∷◌, arith, Option-cases,
}
use ingest_pipeline.Prelude.Int.{ℤ, pos}
use ingest_pipeline.Prelude.Text.{text, Text}
use ingest_pipeline.Config.{Config}
use ingest_pipeline.Db.Feeds.{update_last_ingested_pub_date}
use ingest_pipeline.Libs.{json_str}
use ingest_pipeline.Pipeline.Content.{process_content_step, ContentStepResult}
use ingest_pipeline.Pipeline.Ingest.{process_ingest_step, IngestStepResult}
use ingest_pipeline.Queue.Jobs.{create_job}
use ingest_pipeline.Store.{ok_or, then_run, Env, World, Result, ok, err, run_keeps, relabelled}
use ingest_pipeline.Workers.Handlers.{
  create_chunks, create_chunk, run_id_of, create_content_jobs, advance_cursor, after_ingest,
  handle_ingest_job, after_content, handle_content_job,
}

after_content-tables :
    (result : ContentStepResult) (env : Env) (w : World) → (after_content result env w).1 ≡ w
unfolding after_content
after_content-tables result env w = ground arith

module _ (Q : World → Type 0) (env : Env)
    (on_create : (job_type payload : Text) (priority : ℤ) (w : World)
      → Q w
      → Q (create_job job_type payload priority env w).1)
    (on_cursor : (feed_id at : Text) (w : World)
      → Q w
      → Q (update_last_ingested_pub_date feed_id at env w).1)
    (on_ingest : (feed_id : Text) (w : World) → Q w → Q (process_ingest_step feed_id env w).1)
    (on_content : (id : ℕ) (config : Option Config) (w : World)
      → Q w
      → Q (process_content_step id config env w).1) where
  relabelled_keeps : {A : Type 0} (e : Text) (r : Result A × World) → Q r.1 → Q (relabelled e r).1
  relabelled_keeps e (ok a, w) h = h
  relabelled_keeps e (err e', w) h = h

  create_chunk_keeps :
      (run_id : Option ℕ) (ids : List ℕ) (w : World) → Q w → Q (create_chunk run_id ids env w).1
  unfolding create_chunk
  create_chunk_keeps run_id [] w h = h
  create_chunk_keeps run_id (id ∷ ids) w h =
      run_keeps Q (relabelled _ (create_job _ _ (pos 0) env w)) _
        (relabelled_keeps _ _ (on_create _ _ (pos 0) w h))
        (λ job w' h'. create_chunk_keeps run_id ids w' h')

  create_chunks_keeps :
      (run_id : Option ℕ) (parts : List (List ℕ)) (w : World)
      → Q w
      → Q (create_chunks run_id parts env w).1
  unfolding create_chunks
  create_chunks_keeps run_id [] w h = h
  create_chunks_keeps run_id (chunk ∷ rest) w h =
      run_keeps Q (create_chunk run_id chunk env w) _ (create_chunk_keeps run_id chunk w h)
        (λ done w' h'. create_chunks_keeps run_id rest w' h')

  advance_cursor_keeps :
      (feed_id : Text) (at : Option ℕ) (w : World) → Q w → Q (advance_cursor feed_id at env w).1
  unfolding advance_cursor
  advance_cursor_keeps feed_id none w h = h
  advance_cursor_keeps feed_id (some at) w h = relabelled_keeps _ _ (on_cursor feed_id _ w h)

  after_ingest_keeps :
      (feed_id : Text) (run_id : Option ℕ) (result : IngestStepResult) (w : World)
      → Q w
      → Q (after_ingest feed_id run_id result env w).1
  unfolding after_ingest create_content_jobs
  after_ingest_keeps feed_id run_id result w h = elim (Option-cases result.error) [
    | inl p ↦
        rw (p, after_ingest)
          (run_keeps Q (create_content_jobs run_id result.new_article_ids env w) _
            (create_chunks_keeps run_id _ w h)
            (λ done w' h'. advance_cursor_keeps feed_id result.max_pub_date w' h'))
    | inr (e, p) ↦ ground arith
  ]

  pub handle_ingest_job_keeps :
      (payload : Text) (w : World) → Q w → Q (handle_ingest_job payload env w).1
  unfolding handle_ingest_job
  handle_ingest_job_keeps payload w h = ingest (json_str env.libs payload (text "feed_id"))
    where
      ingest :
          (feed_id : Option Text)
          → Q
              (then_run (ok_or (text "Missing feed_id in payload") feed_id env w) (λ id w'.
                then_run
                  (process_ingest_step id env w')
                  (λ result w''. after_ingest id (run_id_of env.libs payload) result env w''))).1
      ingest none = h
      ingest (some id) =
          run_keeps Q (process_ingest_step id env w) _ (on_ingest id w h)
            (λ result w'' h''. after_ingest_keeps id _ result w'' h'')

  pub handle_content_job_keeps :
      (config : Option Config) (payload : Text) (w : World)
      → Q w
      → Q (handle_content_job config payload env w).1
  unfolding handle_content_job
  handle_content_job_keeps config payload w h =
      content (json_str env.libs payload (text "article_id"))
    where
      step :
          (id : Option ℕ)
          → Q
              (then_run (ok_or (text "Invalid article_id UUID format") id env w) (λ article_id w'.
                then_run
                  (process_content_step article_id config env w')
                  (λ result w''. after_content result env w''))).1
      step none = h
      step (some id) =
          run_keeps Q (process_content_step id config env w) _ (on_content id config w h)
            (λ result w'' h''. subst Q (sym (after_content-tables result env w'')) h'')

      content :
          (id_text : Option Text)
          → Q
              (then_run (ok_or (text "Missing article_id in payload") id_text env w) (λ s w'.
                then_run
                  (ok_or (text "Invalid article_id UUID format") (env.parse_uuid s) env w')
                  (λ article_id w''.
                    then_run
                      (process_content_step article_id config env w'')
                      (λ result w'''. after_content result env w''')))).1
      content none = h
      content (some s) = step (env.parse_uuid s)
