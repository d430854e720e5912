-- ===== src/Acquisition/Report.antt =====
-- cloud/src/domain/acquisition.py: the stages, the events and the result of an attempt.
use get_receipt.Base.{String, Bool, true, false, Option, none, some, List, last?, nat_eq, any}

pub data Stage : Type 0 where
  checking_drive fetching awaiting_security_code awaiting_user_action : Stage
  extracting saving verifying completed failed : Stage

pub data AcquisitionOutcome : Type 0 where
  acquired already_exists action_required unsuccessful : AcquisitionOutcome

pub record ProgressEvent : Type 0 where
  pub stage : Stage
  pub message : String

pub record StoredReceiptReference : Type 0 where
  pub file_id : String
  pub file_name : String
  pub web_view_link : String

pub record AcquisitionFailure : Type 0 where
  pub code : String
  pub message : String
  pub stage : Stage
  pub detail : String

pub record SecurityChallenge : Type 0 where
  pub kind : String
  pub message : String

pub record AcquisitionResult : Type 0 where
  pub service_id : String
  pub target_month : String
  pub outcome : AcquisitionOutcome
  pub events : List ProgressEvent
  pub receipt : Option StoredReceiptReference
  pub failure : Option AcquisitionFailure
  pub challenge : Option SecurityChallenge

abbrev is_success : AcquisitionOutcome → Bool
is_success acquired = true
is_success already_exists = true
is_success action_required = false
is_success unsuccessful = false

-- `success`.
abbrev pub success : AcquisitionResult → Bool
success r = is_success r.outcome

abbrev stage_of_last : Option AcquisitionFailure → Option ProgressEvent → Stage
stage_of_last failure (some event) = event.stage
stage_of_last none none = completed
stage_of_last (some f) none = failed

-- `stage`: that of the last event.
abbrev pub stage_of : AcquisitionResult → Stage
stage_of r = stage_of_last r.failure (last? r.events)

abbrev message_of_last : Option AcquisitionFailure → Option ProgressEvent → String
message_of_last failure (some event) = event.message
message_of_last none none = ""
message_of_last (some f) none = f.message

-- `message`.
abbrev pub message_of : AcquisitionResult → String
message_of r = message_of_last r.failure (last? r.events)

abbrev pub is_saving : Stage → Bool
is_saving saving = true
is_saving _ = false

-- The attempt has announced that it uploads.
abbrev pub has_saving : List ProgressEvent → Bool
has_saving events = any (λ e. is_saving e.stage) events
