-- ===== src/Api.antt =====
-- The errors of the API (apps/api/src/error.rs): the status, the code and the field of the answer.
pub mod Access
pub mod Guard
use task_harbor.Base.{
  ℕ, Option, none, some, String, max, ◌/◌, RepositoryError, database, migration, invalid_data,
  state_conflict, idempotency_conflict, claim_lost,
}
use task_harbor.Clock.{second}
use task_harbor.Core.{JobNameError}

-- `Display` of a name's error is its text; the seconds are those of the text.
pub data ApiMessage : Type 0 where
  text : String → ApiMessage
  retry_in_seconds : ℕ → ApiMessage
  name_error : JobNameError → ApiMessage

pub record ApiError : Type 0 where
  pub status : ℕ
  pub code : String
  pub message : ApiMessage
  pub field : Option String

abbrev pub unauthorized : ApiError
unauthorized = record {
  status = 401;
  code = "authentication_required";
  message = text "sign in to access TaskHarbor";
  field = none;
}

abbrev pub invalid_credentials : ApiError
invalid_credentials = record {
  status = 401;
  code = "invalid_credentials";
  message = text "username or password is incorrect";
  field = none;
}

abbrev pub invalid_csrf : ApiError
invalid_csrf = record {
  status = 403;
  code = "invalid_csrf_token";
  message = text "the request is missing a valid CSRF token";
  field = none;
}

-- The waiting time is in nanoseconds.
abbrev pub rate_limited : ℕ → ApiError
rate_limited retry_after = record {
  status = 429;
  code = "rate_limited";
  message = retry_in_seconds (max (retry_after / second) 1);
  field = none;
}

abbrev pub resource_limit : (code message : String) → ApiError
resource_limit code message = record {
  status = 507;
  code = code;
  message = text message;
  field = none;
}

abbrev pub internal : ApiError
internal = record {
  status = 500;
  code = "internal_error";
  message = text "the request could not be completed";
  field = none;
}

abbrev pub invalid_job_name : JobNameError → ApiError
invalid_job_name error = record {
  status = 422;
  code = "validation_error";
  message = name_error error;
  field = some "name";
}

abbrev pub invalid_multipart : String → ApiError
invalid_multipart message = record {
  status = 400;
  code = "invalid_multipart";
  message = text message;
  field = none;
}

abbrev pub upload_validation : (code message field : String) → ApiError
upload_validation code message field = record {
  status = 422;
  code = code;
  message = text message;
  field = some field;
}

abbrev pub upload_too_large : (code message field : String) → ApiError
upload_too_large code message field = record {
  status = 413;
  code = code;
  message = text message;
  field = some field;
}

abbrev pub storage_error : ApiError
storage_error = record {
  status = 500;
  code = "storage_error";
  message = text "file storage is temporarily unavailable";
  field = none;
}

abbrev pub image_inspection : ApiError
image_inspection = record {
  status = 500;
  code = "image_inspection_error";
  message = text "the uploaded image could not be inspected";
  field = some "images";
}

abbrev pub artifact_unavailable : ApiError
artifact_unavailable = record {
  status = 500;
  code = "artifact_unavailable";
  message = text "the output file is temporarily unavailable";
  field = none;
}

abbrev pub artifact_not_found : ApiError
artifact_not_found = record {
  status = 404;
  code = "artifact_not_found";
  message = text "output artifact was not found";
  field = none;
}

abbrev pub job_not_found : ApiError
job_not_found = record {
  status = 404;
  code = "job_not_found";
  message = text "job was not found";
  field = none;
}

abbrev pub schedule_not_found : ApiError
schedule_not_found = record {
  status = 404;
  code = "schedule_not_found";
  message = text "schedule was not found";
  field = none;
}

abbrev database_unavailable : ApiError
database_unavailable = record {
  status = 503;
  code = "database_unavailable";
  message = text "the database is temporarily unavailable";
  field = none;
}

abbrev job_state_conflict : ApiError
job_state_conflict = record {
  status = 409;
  code = "job_state_conflict";
  message = text "the job is no longer in a state that allows this action";
  field = none;
}

-- `ApiError::repository`.
abbrev pub repository_error : RepositoryError → ApiError
repository_error database = database_unavailable
repository_error migration = database_unavailable
repository_error (state_conflict _) = job_state_conflict
repository_error claim_lost = job_state_conflict
repository_error idempotency_conflict = record {
  status = 409;
  code = "idempotency_conflict";
  message = text "the idempotency key was already used for different job data";
  field = none;
}
repository_error (invalid_data _) = internal
