-- ===== src/Http/Transport.antt =====
-- logcenter/roundtripper.go: the transport of an HTTP client. The transport below it is given the request
-- and the client; it gives back the client, the status code of the response, if there is one, the error,
-- if there is one, and the error of the context of the request.
use Prim.Native.String.{◌++◌}
use logcenter_sdk_go.Base.{
  ℤ, pos, String, List, [], ◌∷◌, Bool, true, Option, none, some, ◌==◌, if◌then◌else◌, leb_ℤ,
  trim_space,
}
use logcenter_sdk_go.Types.{
  int, str, Entries, end, entry, Fields, ErrorOptions, severity_error, status_success,
  status_failed, status_timeout, status_canceled,
}
use logcenter_sdk_go.Context.{default_to}
use logcenter_sdk_go.Limit.Values.{put}
use logcenter_sdk_go.Http.Request.{HttpRequest, merge_fields}

-- The error of a context.
pub data ContextError : Type 0 where
  canceled deadline_exceeded : ContextError

-- An error: its text, and whether `errors.Is` finds that of a cancelled context, or of an exceeded
-- deadline, in it.
pub record TransportError : Type 0 where
  pub text : String
  pub is_canceled : Bool
  pub is_deadline_exceeded : Bool

-- What the transport below gives back.
pub record Outcome : Type 0 where
  pub response : Option ℤ
  pub err : Option TransportError
  pub context_error : Option ContextError

abbrev pub OutcomeFunc : Type 0
OutcomeFunc = HttpRequest → Option ℤ → Option TransportError → Fields

pub record RoundTripperConfig : Type 0 where
  pub span_name_func : Option (HttpRequest → String)
  pub metadata_func : Option OutcomeFunc
  pub data_func : Option OutcomeFunc
  pub error_code : String

-- A `RoundTripperOption`, by the function that made it.
pub data RoundTripperOption : Type 0 where
  round_tripper_span_name_func : (HttpRequest → String) → RoundTripperOption
  round_tripper_metadata_func : OutcomeFunc → RoundTripperOption
  round_tripper_data_func : OutcomeFunc → RoundTripperOption
  round_tripper_error_code : String → RoundTripperOption

abbrev pub round_tripper_span_name : String → RoundTripperOption
round_tripper_span_name name = round_tripper_span_name_func (λ r. name)

abbrev pub no_round_tripper_config : RoundTripperConfig
no_round_tripper_config = record {
  span_name_func = none;
  metadata_func = none;
  data_func = none;
  error_code = "";
}

unfoldable pub apply_round_tripper_option :
    RoundTripperOption → RoundTripperConfig → RoundTripperConfig
apply_round_tripper_option (round_tripper_span_name_func fn) config = record config {
  span_name_func = some fn;
}
apply_round_tripper_option (round_tripper_metadata_func fn) config = record config {
  metadata_func = some fn;
}
apply_round_tripper_option (round_tripper_data_func fn) config = record config {
  data_func = some fn;
}
apply_round_tripper_option (round_tripper_error_code code) config = record config {
  error_code = code;
}

unfoldable pub round_tripper_config :
    List RoundTripperOption → RoundTripperConfig → RoundTripperConfig
round_tripper_config [] config = config
round_tripper_config (option ∷ options) config =
    round_tripper_config options (apply_round_tripper_option option config)

abbrev pub has_canceled : TransportError → Option ContextError → Bool
has_canceled err (some canceled) = true
has_canceled err _ = err.is_canceled

abbrev pub has_deadline : TransportError → Option ContextError → Bool
has_deadline err (some deadline_exceeded) = true
has_deadline err _ = err.is_deadline_exceeded

abbrev pub response_status : Option ℤ → String
response_status none = status_success
response_status (some status_code) =
    if leb_ℤ (pos 500) status_code then status_failed else status_success

abbrev pub error_status : TransportError → Option ContextError → String
error_status err context_error =
    if has_canceled err context_error
    then status_canceled
    else if has_deadline err context_error
    then status_timeout
    else status_failed

abbrev pub status_with : Option ℤ → Option ContextError → Option TransportError → String
status_with response context_error none = response_status response
status_with response context_error (some err) = error_status err context_error

unfoldable pub round_trip_status : Outcome → String
round_trip_status outcome = status_with outcome.response outcome.context_error outcome.err

abbrev pub name_or : String → Option (HttpRequest → String) → HttpRequest → String
name_or fallback none req = fallback
name_or fallback (some fn) req = default_to (trim_space (fn req)) fallback

unfoldable pub span_name : RoundTripperConfig → HttpRequest → String
span_name config req =
    let by_method = if req.method == "" then "HTTP request" else "HTTP " ++ req.method in
    name_or by_method config.span_name_func req

abbrev pub extra_fields : Option OutcomeFunc → HttpRequest → Outcome → Fields
extra_fields none req outcome = none
extra_fields (some fn) req outcome = fn req outcome.response outcome.err

abbrev pub status_entry : Option ℤ → Entries
status_entry none = end
status_entry (some status_code) = entry "status_code" (int status_code) end

abbrev pub error_entry : Option TransportError → Entries → Entries
error_entry none es = es
error_entry (some err) es = put "error" (str err.text) es

unfoldable pub round_trip_metadata : RoundTripperConfig → HttpRequest → Outcome → Fields
round_trip_metadata config req outcome =
    merge_fields
      (some (
        entry "method" (str req.method) (
          entry "scheme" (str req.scheme) (
            entry "host" (str req.host) (
              entry "path" (str req.path)
                (error_entry outcome.err (status_entry outcome.response)))))))
      (extra_fields config.metadata_func req outcome)

unfoldable pub round_trip_error_code : RoundTripperConfig → String
round_trip_error_code config =
    if trim_space config.error_code == "" then "HTTP_CLIENT_ERROR" else config.error_code

abbrev pub code_of : RoundTripperConfig → Option TransportError → String
code_of config none = ""
code_of config (some err) = round_trip_error_code config

abbrev pub text_of : Option TransportError → String
text_of none = ""
text_of (some err) = err.text

abbrev pub round_trip_error_options : String → Fields → Fields → ErrorOptions
round_trip_error_options code metadata data_fields = record {
  idempotency_key = "";
  classification = "";
  retention_hint = "";
  code = code;
  type = "http_client";
  severity = severity_error;
  fingerprint = "";
  stack_trace = "";
  message = "";
  metadata = metadata;
  data_fields = data_fields;
}
