-- ===== src/Core/Errors.antt =====
-- Errors and their responses: packages/core/src/error.
-- `V` is the type of the values that are thrown, kept as a cause or given as details. Stack traces,
-- the logger and the process guards are left out.
pub mod Exposure
use devion.Prelude.{
  ℕ, String, Bool, true, false, ◌&&◌, not, Option, none, some, leb, if◌then◌else◌, or_else,
}

pub data ErrorCode : Type 0 where
  validation_error not_found unauthorized forbidden conflict rate_limited internal_error : ErrorCode
  service_unavailable health_check_failed system_metric_failed telemetry_export_failed : ErrorCode

abbrev pub http_status_by_code : ErrorCode → ℕ
http_status_by_code validation_error = 400
http_status_by_code not_found = 404
http_status_by_code unauthorized = 401
http_status_by_code forbidden = 403
http_status_by_code conflict = 409
http_status_by_code rate_limited = 429
http_status_by_code internal_error = 500
http_status_by_code service_unavailable = 503
http_status_by_code health_check_failed = 503
http_status_by_code system_metric_failed = 500
http_status_by_code telemetry_export_failed = 500

pub data LogLevel : Type 0 where
  error_level warn_level : LogLevel

module _ (V : Type 0) where
  pub record AppErrorOptions : Type 0 where
    pub cause : Option V
    pub details : Option V
    pub expose : Option Bool
    pub is_operational : Option Bool

  pub record AppError : Type 0 where
    pub message : String
    pub code : ErrorCode
    pub status_code : ℕ
    pub cause : Option V
    pub details : Option V
    pub expose : Bool
    pub is_operational : Bool
    pub timestamp : ℕ

  -- The constructor.
  unfoldable pub new_app_error : String → ErrorCode → Option ℕ → AppErrorOptions → ℕ → AppError
  new_app_error message code status_code options now = record {
    message = message;
    code = code;
    status_code = or_else status_code (http_status_by_code code);
    cause = options.cause;
    details = options.details;
    expose = or_else options.expose false;
    is_operational = or_else options.is_operational true;
    timestamp = now;
  }

  -- A thrown value: an `AppError`, an `HTTPException`, another `Error`, a string or anything else.
  pub data Thrown : Type 0 where
    app_error : AppError → Thrown
    http_exception : (message : String) (status : ℕ) (value : V) → Thrown
    native_error : (message : String) (value : V) → Thrown
    text_thrown : (text : String) (value : V) → Thrown
    other_thrown : (value : V) → Thrown

  abbrev pub unexpected : V → AppErrorOptions
  unexpected value = record {
    cause = some value;
    details = none;
    expose = none;
    is_operational = some false;
  }

  -- `AppError.from`; an `HTTPException` is an `Error`.
  unfoldable pub from : Thrown → ErrorCode → ℕ → AppError
  from (app_error e) fallback now = e
  from (http_exception message status value) fallback now =
      new_app_error message fallback none (unexpected value) now
  from (native_error message value) fallback now =
      new_app_error message fallback none (unexpected value) now
  from (text_thrown text value) fallback now =
      new_app_error text fallback none (unexpected value) now
  from (other_thrown value) fallback now =
      new_app_error "Unknown error" fallback none (unexpected value) now

  -- `toAppError` of the error handler.
  unfoldable pub to_app_error : Thrown → ℕ → AppError
  to_app_error (http_exception message status value) now =
      new_app_error message internal_error (some status)
        (record { cause = some value; details = none; expose = none; is_operational = none }) now
  to_app_error thrown now = from thrown internal_error now

  pub record ErrorBody : Type 0 where
    pub code : ErrorCode
    pub message : String
    pub details : Option V
    pub timestamp : ℕ
    pub debug_message : Option String

  -- `toResponse`.
  unfoldable pub to_response : AppError → ErrorBody
  to_response e = record {
    code = e.code;
    message = e.message;
    details = if e.expose then e.details else none;
    timestamp = e.timestamp;
    debug_message = none;
  }

  pub record Handled : Type 0 where
    pub level : LogLevel
    pub body : ErrorBody
    pub status : ℕ

  abbrev pub with_debug_message : Bool → AppError → ErrorBody → ErrorBody
  with_debug_message expose_internals e body =
      if expose_internals && leb 500 e.status_code && not e.expose
      then record body { debug_message = some e.message }
      else body

  -- The handler that `createErrorHandler` makes.
  unfoldable pub handle_error : Bool → Thrown → ℕ → Handled
  handle_error expose_internals thrown now =
      let e = to_app_error thrown now in
      record {
        level = if leb 500 e.status_code then error_level else warn_level;
        body = with_debug_message expose_internals e (to_response e);
        status = e.status_code;
      }
