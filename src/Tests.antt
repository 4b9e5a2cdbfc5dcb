-- ===== src/Tests.antt =====
-- The tests of the repository, as programs on the model: each says whether its assertions hold.
pub mod Articles
pub mod Dedup
pub mod Feeds
pub mod Handlers
pub mod Jobs
pub mod Runs
pub mod Utils
pub mod Worker
use ingest_pipeline.Prelude.{Bool, true, ◌&&◌, List, [], ◌∷◌}

-- Every assertion of a test, or every test of a module.
abbrev pub all_hold : List Bool → Bool
all_hold [] = true
all_hold (b ∷ bs) = b && all_hold bs
