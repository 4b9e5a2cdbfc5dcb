-- ===== src/Dedup.antt =====
-- Deduplication (src/utils/dedup.rs): normal forms of URLs (Normalize), the similarity of titles
-- (Similarity), and the check of an article against a list of existing ones.
pub mod Normalize
pub mod Similarity
pub mod Check
