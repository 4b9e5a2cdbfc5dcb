-- ===== src/Pipeline.antt =====
-- The two steps of the pipeline (src/pipeline).
pub mod Ingest
pub mod Content
pub mod Fetch
pub mod Items
