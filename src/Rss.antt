-- ===== src/Rss.antt =====
-- The parser of feeds (src/utils/rss_parser.rs): URLs (Urls), texts and dates (Fields), items and
-- feeds (Feed).
pub mod Urls
pub mod Fields
pub mod Feed
