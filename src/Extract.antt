-- ===== src/Extract.antt =====
-- The text of an article (src/utils/text_extract.rs, src/utils/word_count.rs).
pub mod Title
pub mod Html
