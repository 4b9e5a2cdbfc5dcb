-- ===== src/Schema/Encoding.antt =====
-- The text columns of the enumerations (the macro `impl_text_enum` of src/db/schema.rs). serde_json
-- is a pair of functions that a model is given: the JSON text of a variant, and its reading.
use ingest_pipeline.Prelude.{ℕ, Bool, Option, List, [], ◌∷◌, ◌++◌, ◌==◌, unwrap_or}
use ingest_pipeline.Prelude.Text.{Text, text, trim_start, trim_end}
use ingest_pipeline.Schema.{
  FeedFetchStatus, QualityStatus, DuplicateStatus, ProcessingStatus, RunStatus, RunTriggerType,
  StepName, StepStatus,
}

-- What the macro is given for a type: the identifiers of its variants.
pub record TextEnum (E : Type 0) : Type 0 where
  pub variants : List E
  pub identifier : E → Text

abbrev pub feed_fetch_status : TextEnum FeedFetchStatus
feed_fetch_status = record {
  variants =
      FeedFetchStatus.pending ∷ FeedFetchStatus.fetching ∷ FeedFetchStatus.success
      ∷ FeedFetchStatus.failed ∷ FeedFetchStatus.disabled ∷ [];
  identifier = λ v. elim v [
    | FeedFetchStatus.pending ↦ text "Pending"
    | FeedFetchStatus.fetching ↦ text "Fetching"
    | FeedFetchStatus.success ↦ text "Success"
    | FeedFetchStatus.failed ↦ text "Failed"
    | FeedFetchStatus.disabled ↦ text "Disabled"
  ];
}

abbrev pub quality_status : TextEnum QualityStatus
quality_status = record {
  variants =
      QualityStatus.pending ∷ QualityStatus.qualified ∷ QualityStatus.rejected
      ∷ QualityStatus.pending_qualification ∷ [];
  identifier = λ v. elim v [
    | QualityStatus.pending ↦ text "Pending"
    | QualityStatus.qualified ↦ text "Qualified"
    | QualityStatus.rejected ↦ text "Rejected"
    | QualityStatus.pending_qualification ↦ text "PendingQualification"
  ];
}

abbrev pub duplicate_status : TextEnum DuplicateStatus
duplicate_status = record {
  variants =
      DuplicateStatus.pending ∷ DuplicateStatus.distinct ∷ DuplicateStatus.duplicate
      ∷ DuplicateStatus.near_duplicate ∷ [];
  identifier = λ v. elim v [
    | DuplicateStatus.pending ↦ text "Pending"
    | DuplicateStatus.distinct ↦ text "Distinct"
    | DuplicateStatus.duplicate ↦ text "Duplicate"
    | DuplicateStatus.near_duplicate ↦ text "NearDuplicate"
  ];
}

abbrev pub processing_status : TextEnum ProcessingStatus
processing_status = record {
  variants =
      ProcessingStatus.ingested ∷ ProcessingStatus.extracted ∷ ProcessingStatus.extraction_failed
      ∷ ProcessingStatus.pending_qualification ∷ ProcessingStatus.qualified
      ∷ ProcessingStatus.rejected ∷ [];
  identifier = λ v. elim v [
    | ProcessingStatus.ingested ↦ text "Ingested"
    | ProcessingStatus.extracted ↦ text "Extracted"
    | ProcessingStatus.extraction_failed ↦ text "ExtractionFailed"
    | ProcessingStatus.pending_qualification ↦ text "PendingQualification"
    | ProcessingStatus.qualified ↦ text "Qualified"
    | ProcessingStatus.rejected ↦ text "Rejected"
  ];
}

abbrev pub run_status : TextEnum RunStatus
run_status = record {
  variants = RunStatus.running ∷ RunStatus.completed ∷ RunStatus.failed ∷ [];
  identifier = λ v. elim v [
    | RunStatus.running ↦ text "Running"
    | RunStatus.completed ↦ text "Completed"
    | RunStatus.failed ↦ text "Failed"
  ];
}

abbrev pub run_trigger_type : TextEnum RunTriggerType
run_trigger_type = record {
  variants = RunTriggerType.scheduled ∷ RunTriggerType.manual ∷ RunTriggerType.test ∷ [];
  identifier = λ v. elim v [
    | RunTriggerType.scheduled ↦ text "Scheduled"
    | RunTriggerType.manual ↦ text "Manual"
    | RunTriggerType.test ↦ text "Test"
  ];
}

abbrev pub step_name : TextEnum StepName
step_name = record {
  variants = StepName.ingest ∷ StepName.content ∷ StepName.qualification ∷ StepName.audio ∷ [];
  identifier = λ v. elim v [
    | StepName.ingest ↦ text "Ingest"
    | StepName.content ↦ text "Content"
    | StepName.qualification ↦ text "Qualification"
    | StepName.audio ↦ text "Audio"
  ];
}

abbrev pub step_status : TextEnum StepStatus
step_status = record {
  variants = StepStatus.running ∷ StepStatus.completed ∷ StepStatus.failed ∷ [];
  identifier = λ v. elim v [
    | StepStatus.running ↦ text "Running"
    | StepStatus.completed ↦ text "Completed"
    | StepStatus.failed ↦ text "Failed"
  ];
}

-- serde_json on a type: `to_string`, which may fail, and `from_str`.
pub record Serde (E : Type 0) : Type 0 where
  pub to_string : E → Option Text
  pub from_str : Text → Option E

abbrev pub is_quote : ℕ → Bool
is_quote c = c == 34

abbrev pub quoted : Text → Text
quoted s = 34 ∷ s ++ 34 ∷ []

-- `Display` and `Encode`.
unfoldable pub encode : {E : Type 0} → Serde E → E → Text
unfolding trim_start trim_end
encode serde v = trim_end is_quote (trim_start is_quote (unwrap_or [] (serde.to_string v)))

-- `Decode`; the error is serde_json's own.
unfoldable pub decode : {E : Type 0} → Serde E → Text → Option E
decode serde s = serde.from_str (quoted s)
