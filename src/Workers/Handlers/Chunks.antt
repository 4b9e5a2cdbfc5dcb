-- ===== src/Workers/Handlers/Chunks.antt =====
-- The chunks in which the ingest handler creates its jobs (src/workers/ingest_worker.rs).
use mathlib.Core.Path.{fun_ext}
use ingest_pipeline.Prelude.{refl, ◌-◌, ap, ◌∙◌, suc, ◌∷◌, ◌≡◌, zero, [], List, ℕ, Option}
use ingest_pipeline.Prelude.Chunks.{into_first, chunked, chunks}
use ingest_pipeline.Prelude.Int.{pos}
use ingest_pipeline.Prelude.Text.{text}
use ingest_pipeline.Queue.Jobs.{create_job}
use ingest_pipeline.Schema.{Job}
use ingest_pipeline.Store.{Result, then_run_assoc, relabelled, then_run, World, Env}
use ingest_pipeline.Workers.Handlers.{
  content_payload, process_article, create_chunk, create_chunks, create_content_jobs,
}

module _ (env : Env) (run_id : Option ℕ) where
  -- The creation of the job for one article.
  abbrev create : ℕ → World → Result Job × World
  create id w =
      relabelled (text "Failed to create content job")
        (create_job process_article (content_payload env.libs run_id id) (pos 0) env w)

  into_first-create :
      (id : ℕ) (parts : List (List ℕ)) (w : World)
      → create_chunks run_id (into_first id parts) env w
        ≡ then_run (create id w) (λ job w'. create_chunks run_id parts env w')
  unfolding create_chunks create_chunk
  into_first-create id [] w =
      then_run_assoc (create id w) (λ job w'. create_chunk run_id [] env w')
        (λ done w'. create_chunks run_id [] env w')
  into_first-create id (part ∷ parts) w =
      then_run_assoc (create id w) (λ job w'. create_chunk run_id part env w')
        (λ done w'. create_chunks run_id parts env w')

  chunked-create :
      (size left : ℕ) (ids : List ℕ) (w : World)
      → create_chunks run_id (chunked size left ids) env w ≡ create_chunk run_id ids env w
  unfolding chunked create_chunks create_chunk
  chunked-create size left [] w = refl
  chunked-create size (suc left) (id ∷ ids) w =
      into_first-create id (chunked size left ids) w
      ∙ ap (then_run (create id w))
          (fun_ext (λ job. fun_ext (λ w'. chunked-create size left ids w')))
  chunked-create size zero (id ∷ ids) w =
      into_first-create id (chunked size (size - 1) ids) w
      ∙ ap (then_run (create id w))
          (fun_ext (λ job. fun_ext (λ w'. chunked-create size (size - 1) ids w')))

  -- The jobs are created as by one loop over all articles: the chunks of 50 change neither the order
  -- of the statements nor the place where an error stops them.
  pub create_content_jobs-create_chunk :
      (ids : List ℕ) (w : World)
      → create_content_jobs run_id ids env w ≡ create_chunk run_id ids env w
  unfolding create_content_jobs chunks create_chunks create_chunk
  create_content_jobs-create_chunk [] w = refl
  create_content_jobs-create_chunk (id ∷ ids) w = chunked-create 50 50 (id ∷ ids) w
