-- ===== src/Schema.antt =====
-- The rows of the tables and their status columns (src/db/schema.rs).
-- An id is a number, a point in time a number of microseconds, a JSON payload its text.
pub mod Encoding
pub mod Decoded
use ingest_pipeline.Prelude.{ℕ, Bool, true, false, Option}
use ingest_pipeline.Prelude.Int.{ℤ}
use ingest_pipeline.Prelude.Text.{Text}

pub data FeedFetchStatus : Type 0 where
  pending fetching success failed disabled : FeedFetchStatus

pub data QualityStatus : Type 0 where
  pending qualified rejected pending_qualification : QualityStatus

pub data DuplicateStatus : Type 0 where
  pending distinct duplicate near_duplicate : DuplicateStatus

pub data ProcessingStatus : Type 0 where
  ingested extracted extraction_failed pending_qualification qualified rejected : ProcessingStatus

pub data RunStatus : Type 0 where
  running completed failed : RunStatus

pub data RunTriggerType : Type 0 where
  scheduled manual test : RunTriggerType

pub data StepName : Type 0 where
  ingest content qualification audio : StepName

pub data StepStatus : Type 0 where
  running completed failed : StepStatus

pub data JobStatus : Type 0 where
  pending running completed failed dead : JobStatus

pub record FeedSource : Type 0 where
  pub id : Text
  pub feed_url : Text
  pub name : Text
  pub category : Option Text
  pub description : Option Text
  pub logo : Option Text
  pub priority : ℤ
  pub tier : Option Text
  pub fetch_status : FeedFetchStatus
  pub last_fetch_error : Option Text
  pub last_fetch_at : Option ℕ
  pub last_ingested_pub_date : Option ℕ
  pub enabled : Bool
  pub created_at : ℕ
  pub updated_at : ℕ

pub record RawArticle : Type 0 where
  pub id : ℕ
  pub source_id : Text
  pub title : Text
  pub url : Text
  pub description : Option Text
  pub image_url : Option Text
  pub author : Option Text
  pub pub_date : Option ℕ
  pub body : Option Text  -- the column `content`
  pub content_length : Option ℕ
  pub content_hash : Option Text
  pub title_clean : Option Text
  pub canonical_url : Option Text
  pub processing_status : ProcessingStatus
  pub quality_status : QualityStatus
  pub duplicate_status : DuplicateStatus
  pub duplicate_of : Option ℕ
  pub preferred_extraction_method : Option Text
  pub extraction_attempts : ℕ
  pub last_extraction_error : Option Text
  pub last_extraction_at : Option ℕ
  pub created_at : ℕ
  pub updated_at : ℕ

pub record PipelineRun : Type 0 where
  pub id : ℕ
  pub status : RunStatus
  pub trigger_type : RunTriggerType
  pub started_at : ℕ
  pub completed_at : Option ℕ
  pub error_message : Option Text
  pub feeds_count : Option ℕ
  pub articles_ingested : ℕ
  pub articles_qualified : ℕ
  pub articles_rejected : ℕ
  pub articles_duplicate : ℕ
  pub created_at : ℕ
  pub updated_at : ℕ

pub record PipelineStepRun : Type 0 where
  pub id : ℕ
  pub run_id : ℕ
  pub step_name : StepName
  pub status : StepStatus
  pub started_at : ℕ
  pub completed_at : Option ℕ
  pub error_message : Option Text
  pub items_count : ℕ
  pub items_processed : ℕ
  pub items_failed : ℕ
  pub created_at : ℕ

pub record RejectedArticle : Type 0 where
  pub id : ℕ
  pub article_id : ℕ
  pub source_id : Text
  pub title : Text
  pub url : Text
  pub reason : Text
  pub details : Option Text
  pub created_at : ℕ

pub record Job : Type 0 where
  pub id : ℕ
  pub job_type : Text
  pub payload : Text
  pub status : JobStatus
  pub priority : ℤ
  pub attempts : ℕ
  pub max_attempts : ℕ
  pub run_at : ℕ
  pub locked_at : Option ℕ
  pub locked_by : Option Text
  pub last_error : Option Text
  pub created_at : ℕ
  pub updated_at : ℕ

-- The tests of a status column that the queries write.
abbrev pub is_pending : JobStatus → Bool
is_pending JobStatus.pending = true
is_pending _ = false

abbrev pub is_running : JobStatus → Bool
is_running JobStatus.running = true
is_running _ = false

abbrev pub is_dead : JobStatus → Bool
is_dead JobStatus.dead = true
is_dead _ = false

abbrev pub is_ingested : ProcessingStatus → Bool
is_ingested ProcessingStatus.ingested = true
is_ingested _ = false

abbrev pub is_extracted : ProcessingStatus → Bool
is_extracted ProcessingStatus.extracted = true
is_extracted _ = false

abbrev pub is_duplicate_status : DuplicateStatus → Bool
is_duplicate_status DuplicateStatus.duplicate = true
is_duplicate_status _ = false

abbrev pub is_running_run : RunStatus → Bool
is_running_run RunStatus.running = true
is_running_run _ = false

abbrev pub is_running_step : StepStatus → Bool
is_running_step StepStatus.running = true
is_running_step _ = false

abbrev pub is_failed_step : StepStatus → Bool
is_failed_step StepStatus.failed = true
is_failed_step _ = false
