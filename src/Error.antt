-- ===== src/Error.antt =====
-- src/error.rs: what a request is refused with, its status and its message.
use sightingdb.Common.{ℕ}
use sightingdb.Int.{ℤ}
use sightingdb.Order.{Text}

pub data Missing : Type 0 where
  missing_namespace : Missing
  missing_value : Missing

-- `NotFound` of src/db.rs: `error` is one of two messages
pub record NotFound : Type 0 where
  pub error : Missing
  pub namespace : Text
  pub value : Text

pub data ApiError : Type 0 where
  config_namespace : ApiError
  internal_namespace : Text → ApiError
  not_stored : Text → ApiError
  not_found : NotFound → ApiError
  empty_value : ApiError
  invalid_timestamp : ℤ → ApiError

-- `ApiError::status`
abbrev pub status : ApiError → ℕ
status config_namespace = 403
status (internal_namespace namespace) = 403
status (not_stored namespace) = 421
status (not_found missing) = 404
status empty_value = 400
status (invalid_timestamp at) = 400
