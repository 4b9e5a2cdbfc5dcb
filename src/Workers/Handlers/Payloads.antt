-- ===== src/Workers/Handlers/Payloads.antt =====
-- The payloads of the jobs, written by the scheduler and by the ingest handler and read by the
-- handlers (src/workers/scheduler.rs, ingest_worker.rs, content_worker.rs).
use ingest_pipeline.Prelude.{ℕ}
use ingest_pipeline.Prelude.Text.{Text}
use ingest_pipeline.Config.{Config}
use ingest_pipeline.Queue.Worker.{settle}
use ingest_pipeline.Store.{Result, World, Env}

-- The outcome of a handler is written to the row of its job.
abbrev pub settled_by : Env → ℕ → Result (Unit {0}) × World → Result (Unit {0}) × World
settled_by env id (outcome, w) = settle id outcome env w
