-- ===== src/Errors.antt =====
-- The errors of the package (logcenter/client.go, validation.go, limit.go) and their texts.
use Prim.Native.String.{◌++◌}
use logcenter_sdk_go.Base.{
  ℕ, ℤ, pos, String, List, [], ◌∷◌, Bool, true, false, ◌==◌, ◌||◌, ◌&&◌, if◌then◌else◌, decimal,
  decimal_ℤ, leb_ℤ,
}
use logcenter_sdk_go.Types.{EventError}

-- `invalid_event` holds what is wrapped behind `ErrInvalidEvent`; `failure` is an error of the
-- standard library or of the operating system, with the text that the code gives it.
pub data Error : Type 0 where
  invalid_event : String → Error
  client_closed : Error
  endpoint_empty : Error
  api_key_empty : Error
  batch_too_large : ℤ → ℕ → Error
  http_error : ℤ → String → Error
  rejected_events : List EventError → ℤ → Error
  failure : String → Error

pub http_error_text : ℤ → String → String
http_error_text status_code body =
    if body == ""
    then "logcenter ingest failed with status " ++ decimal_ℤ status_code
    else "logcenter ingest failed with status " ++ decimal_ℤ status_code ++ ": " ++ body

pub rejected_text : List EventError → ℤ → String
rejected_text [] rejected = "logcenter ingest rejected " ++ decimal_ℤ rejected ++ " event(s)"
rejected_text (e ∷ es) rejected =
    if e.message == ""
    then "logcenter ingest rejected " ++ decimal_ℤ rejected ++ " event(s)"
    else "logcenter ingest rejected " ++ decimal_ℤ rejected ++ " event(s): " ++ e.message

-- `Error()`.
unfoldable pub error_text : Error → String
unfolding http_error_text rejected_text
error_text (invalid_event message) = "invalid logcenter event: " ++ message
error_text client_closed = "logcenter client is closed"
error_text endpoint_empty = "logcenter endpoint is empty"
error_text api_key_empty = "logcenter api key is empty"
error_text (batch_too_large limit actual) =
    "logcenter batch exceeds max_batch_bytes: limit_bytes="
    ++ decimal_ℤ limit
    ++ " actual_bytes="
    ++ decimal actual
error_text (http_error status_code body) = http_error_text status_code body
error_text (rejected_events errors rejected) = rejected_text errors rejected
error_text (failure text) = text

-- `errors.Is(err, ErrInvalidEvent)`.
abbrev pub is_invalid_event : Error → Bool
is_invalid_event (invalid_event message) = true
is_invalid_event _ = false

unfoldable pub event_drop_reason : Error → String
event_drop_reason err = if is_invalid_event err then "validation" else "payload_limit"

unfoldable pub is_retryable : Error → Bool
is_retryable (http_error status_code body) =
    (leb_ℤ (pos 429) status_code && leb_ℤ status_code (pos 429)) || leb_ℤ (pos 500) status_code
is_retryable _ = true
