-- ===== src/Samples.antt =====
-- A concrete database, network and set of library functions for the examples: every page has the
-- same long text, no statement fails, and the clock stands still.
pub mod Json
use ingest_pipeline.Prelude.{◌+◌, ℕ, suc, zero, true, false, none, some, [], ◌∷◌, ◌++◌}
use ingest_pipeline.Prelude.Int.{pos}
use ingest_pipeline.Prelude.Text.{Text, text}
use ingest_pipeline.Dedup.Check.{Existing}
use ingest_pipeline.Libs.{Libs}
use ingest_pipeline.Rss.Feed.{RssItem}
use ingest_pipeline.Schema.{
  FeedSource, FeedFetchStatus, RawArticle, ProcessingStatus, QualityStatus, DuplicateStatus,
  PipelineRun, RunStatus, RunTriggerType, RejectedArticle, Job, JobStatus,
}
use ingest_pipeline.Store.{Env, World, Response, ok}

abbrev repeat : ℕ → Text → Text
repeat zero s = []
repeat (suc n) s = s ++ repeat n s

abbrev pub long_text : Text
long_text = repeat 400 (text "word ")

abbrev libs : Libs
libs = record {
  lowercase = λ s. s;
  capture = λ pattern s. none;
  find_match = λ pattern s. none;
  captures_iter = λ pattern s. [];
  replace_all = λ pattern s replacement. s;
  replace_groups = λ pattern s f. s;
  decimal = λ n. b'0' ∷ [];
  escape = λ s. s;
  host_str = λ s. some (text "example.org");
  parse_from_rfc3339 = λ s. none;
  parse_naive = λ s format. none;
  parse_zoned = λ s format. none;
  parse_day = λ s format. none;
  to_rfc3339 = λ t. text "2026-01-01T00:00:00+00:00";
  timestamp_text = λ t. text "2026-01-01 00:00:00+00";
  timestamp_of = λ s. some 0;
  uuid_text = λ n. n ∷ [];
  parse_uuid = λ s. elim s [ [] ↦ none | c ∷ cs ↦ some c ];
  json_object = λ fields. [];
  json_parse = λ s. none;
  json_get = λ v key. none;
  json_as_str = λ v. none;
  json_as_array = λ v. none;
  similar = λ a b. false;
  similarity = λ a b. 0;
  collate = λ a b. false;
  trafilatura = λ html url. some (record {
    content_text = long_text;
    low_quality = false;
    page_url = none;
    page_title = none;
  });
}

abbrev pub page : Response
page = record {
  final_url = text "https://example.org/story";
  status = 200;
  status_text = text "200 OK";
  payload = ok (text "<html></html>");
}

abbrev pub env : Env
env = record {
  libs = libs;
  fails = λ n. false;
  now = λ n. 864000000000;
  lag = λ n. 1;
  fresh = λ n. n + 100;
  send = λ n r. ok page;
  held = λ n id. false;
  returned = λ n jobs. jobs;
}

abbrev pub feed : FeedSource
feed = record {
  id = text "feed";
  feed_url = text "https://example.org/rss";
  name = text "Example";
  category = none;
  description = none;
  logo = none;
  priority = pos 1;
  tier = some (text "tier1_keep");
  fetch_status = FeedFetchStatus.pending;
  last_fetch_error = none;
  last_fetch_at = none;
  last_ingested_pub_date = none;
  enabled = true;
  created_at = 0;
  updated_at = 0;
}

abbrev pub article : RawArticle
article = record {
  id = 7;
  source_id = text "feed";
  title = text "Some story";
  url = text "https://example.org/story";
  description = none;
  image_url = none;
  author = none;
  pub_date = none;
  body = none;
  content_length = none;
  content_hash = none;
  title_clean = none;
  canonical_url = none;
  processing_status = ProcessingStatus.ingested;
  quality_status = QualityStatus.pending;
  duplicate_status = DuplicateStatus.pending;
  duplicate_of = none;
  preferred_extraction_method = none;
  extraction_attempts = 0;
  last_extraction_error = none;
  last_extraction_at = none;
  created_at = 0;
  updated_at = 0;
}

abbrev pub old_duplicate : RawArticle
old_duplicate = record article { id = 8; duplicate_status = DuplicateStatus.duplicate }

abbrev pub rejection : RejectedArticle
rejection = record {
  id = 1;
  article_id = 8;
  source_id = text "feed";
  title = text "Some story";
  url = text "https://example.org/story";
  reason = text "duplicate";
  details = none;
  created_at = 0;
}

abbrev pub active_run : PipelineRun
active_run = record {
  id = 1;
  status = RunStatus.running;
  trigger_type = RunTriggerType.scheduled;
  started_at = 864000000000;
  completed_at = none;
  error_message = none;
  feeds_count = none;
  articles_ingested = 0;
  articles_qualified = 0;
  articles_rejected = 0;
  articles_duplicate = 0;
  created_at = 864000000000;
  updated_at = 864000000000;
}

abbrev pub job : ℕ → Job
job id = record {
  id = id;
  job_type = text "process_article";
  payload = [];
  status = JobStatus.pending;
  priority = pos id;
  attempts = 0;
  max_attempts = 3;
  run_at = 0;
  locked_at = none;
  locked_by = none;
  last_error = none;
  created_at = 0;
  updated_at = 0;
}

abbrev pub world : World
world = record {
  feeds = feed ∷ [];
  articles = article ∷ old_duplicate ∷ [];
  runs = active_run ∷ [];
  steps = [];
  rejections = rejection ∷ [];
  jobs = job 1 ∷ job 2 ∷ job 3 ∷ [];
  statements = 0;
  draws = 0;
  requests = 0;
}

abbrev pub one_article : World
one_article = record world { articles = article ∷ [] }

abbrev pub existing : Existing
existing = record {
  id = text "8";
  url = text "https://example.org/story?page=2";
  canonical_url = none;
  title = text "Some story";
}

abbrev pub item : RssItem
item = record {
  title = some (text "Some story");
  description = none;
  link = some (text "https://example.org/story");
  pub_date = some 5;
  author = none;
  image_url = none;
}
