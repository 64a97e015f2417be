-- ===== src/Exchange/Defs.antt =====
-- logcenter/external_provider_exchange.go: the event of an exchange with another system. A payload is a
-- list of bytes; `decode_json`, a parameter, is the value that a payload holds if it is valid JSON and
-- can be decoded.
use Prim.Native.String.{◌++◌}
use logcenter_sdk_go.Base.{
  ℕ, ℤ, pos, String, List, [], ◌∷◌, Bool, true, false, Option, none, some, ◌==◌, ◌&&◌, ◌||◌, not,
  if◌then◌else◌, ltb_ℤ, leb_ℤ, trim_space, length,
}
use logcenter_sdk_go.Base.Base64.{base64}
use logcenter_sdk_go.Types.{
  Value, null, str, bool, int, Entries, end, entry, Fields, Event, empty_event,
  event_type_external_provider_exchange, status_success, status_failed, classification_audit,
  retention_hint_audit,
}
use logcenter_sdk_go.Errors.{Error}
use logcenter_sdk_go.Times.{Time, Duration, Clock, milliseconds}
use logcenter_sdk_go.Limit.Values.{put}
use logcenter_sdk_go.Context.{Context, trimmed_or}
use logcenter_sdk_go.Client.{Client, World, send_event, send_event_sync}

pub record ExternalProviderExchange : Type 0 where
  pub idempotency_key : String
  pub classification : String
  pub retention_hint : String
  pub request_id : String
  pub trace_id : String
  pub span_id : String
  pub user_id : String
  pub tenant_id : String
  pub operation : String
  pub provider : String
  pub provider_env : Value
  pub method : String
  pub endpoint : String
  pub url : String
  pub accept : String
  pub content_type : String
  pub attempt : ℤ
  pub status : String
  pub status_code : ℤ
  pub duration : Duration
  pub started_at : Option Time
  pub finished_at : Option Time
  pub error_code : String
  pub error_message : String
  pub request_payload_bytes : List ℕ
  pub response_payload_bytes : List ℕ
  pub request_omitted_reason : String
  pub response_omitted_reason : String
  pub metadata : Fields
  pub data_fields : Fields

-- `copyFields` with `Fields{}` for nil.
abbrev pub copy_or_empty : Fields → Entries
copy_or_empty none = end
copy_or_empty (some es) = es

unfoldable pub nil_if_empty : Entries → Fields
nil_if_empty end = none
nil_if_empty (entry k v es) = some (entry k v es)

-- `if condition { fields[key] = value }`.
abbrev pub put_if : Bool → String → Value → Entries → Entries
put_if condition key value es = if condition then put key value es else es

unfoldable pub set_field_string : String → String → Entries → Entries
set_field_string key value es =
    put_if (not (trim_space value == "")) key (str (trim_space value)) es

abbrev pub is_zero : ℤ → Bool
is_zero z = leb_ℤ z (pos 0) && leb_ℤ (pos 0) z

unfoldable pub set_field_int : String → ℤ → Entries → Entries
set_field_int key value es = put_if (not (is_zero value)) key (int value) es

abbrev pub is_positive : ℤ → Bool
is_positive z = ltb_ℤ (pos 0) z

abbrev pub no_payload : List ℕ → Bool
no_payload [] = true
no_payload (b ∷ bytes) = false

unfoldable pub add_provider_payload_metadata : String → List ℕ → String → Entries → Entries
add_provider_payload_metadata prefix payload omitted_reason es =
    set_field_string (prefix ++ "_payload_omitted_reason") omitted_reason (
      put_if (not (no_payload payload)) (prefix ++ "_payload_size_bytes")
        (int (pos (length payload))) es)

-- The payload in the data, as JSON or else as base64.
unfoldable pub payload_entries : String → List ℕ → Option Value → Entries → Entries
payload_entries prefix payload (some value) es = put (prefix ++ "_payload_json") value es
payload_entries prefix payload none es =
    put (prefix ++ "_payload_encoding") (str "base64")
      (put (prefix ++ "_payload_b64") (str (base64 payload)) es)

unfoldable pub provider_exchange_status : ExternalProviderExchange → String
provider_exchange_status exchange =
    if not (exchange.error_code == "")
      || not (exchange.error_message == "")
      || leb_ℤ (pos 400) exchange.status_code
    then status_failed
    else if is_positive exchange.status_code
    then status_success
    else ""

module _ (decode_json : List ℕ → Option Value) where
  unfoldable pub add_provider_payload_data : String → List ℕ → String → Entries → Entries
  add_provider_payload_data prefix payload omitted_reason es =
      if not (trim_space omitted_reason == "")
      then put (prefix ++ "_payload_omitted_reason") (str (trim_space omitted_reason)) es
      else if no_payload payload
      then es
      else payload_entries prefix payload (decode_json payload) es

  unfoldable pub provider_data : ExternalProviderExchange → Entries
  provider_data exchange =
      add_provider_payload_data "provider_response" exchange.response_payload_bytes
        exchange.response_omitted_reason
        (add_provider_payload_data "provider_request" exchange.request_payload_bytes
          exchange.request_omitted_reason (copy_or_empty exchange.data_fields))

module _ (clock : Clock) where
  unfoldable pub format_optional_time : Option Time → String
  format_optional_time none = ""
  format_optional_time (some t) = clock.format t

  unfoldable pub set_field_time : String → Option Time → Entries → Entries
  set_field_time key none es = es
  set_field_time key (some t) es = put key (str (clock.format t)) es

  -- The entries up to the attempt.
  unfoldable pub provider_names : ExternalProviderExchange → Entries
  provider_names exchange =
      let base = put "operation_kind" (str event_type_external_provider_exchange) (
        put "event_type" (str event_type_external_provider_exchange)
          (copy_or_empty exchange.metadata)) in
      let named = set_field_string "provider" exchange.provider base in
      let placed : Entries = elim exchange.provider_env [
        | null ↦ named
        | env ↦ put "provider_environment" env named
      ] in
      set_field_string "provider_content_type" exchange.content_type (
        set_field_string "provider_accept" exchange.accept (
          set_field_string "provider_url" exchange.url (
            set_field_string "provider_endpoint" exchange.endpoint
              (set_field_string "provider_method" exchange.method placed))))

  abbrev pub succeeded : ExternalProviderExchange → Bool
  succeeded exchange =
      exchange.error_code == ""
      && exchange.error_message == ""
      && ltb_ℤ exchange.status_code (pos 400)

  -- The entries up to `provider_success`.
  unfoldable pub provider_outcome : ExternalProviderExchange → Entries
  provider_outcome exchange =
      put_if (is_positive exchange.status_code) "provider_success" (bool (succeeded exchange)) (
        set_field_int "provider_status_code" exchange.status_code
          (set_field_int "provider_attempt" exchange.attempt (provider_names exchange)))

  unfoldable pub provider_metadata : ExternalProviderExchange → Entries
  provider_metadata exchange =
      let timed = set_field_time "provider_finished_at" exchange.finished_at (
        set_field_time "provider_started_at" exchange.started_at (
          put_if (is_positive exchange.duration) "provider_duration_ms"
            (int (milliseconds exchange.duration)) (provider_outcome exchange))) in
      let sized =
        add_provider_payload_metadata "provider_response" exchange.response_payload_bytes
          exchange.response_omitted_reason
          (add_provider_payload_metadata "provider_request" exchange.request_payload_bytes
            exchange.request_omitted_reason timed) in
      set_field_string "provider_error" exchange.error_message
        (set_field_string "provider_error_code" exchange.error_code sized)

  abbrev pub when : Bool → ℤ → Option ℤ
  when condition z = if condition then some z else none

  module _ (decode_json : List ℕ → Option Value) where
    unfoldable pub new_external_provider_exchange_event : ExternalProviderExchange → Event
    new_external_provider_exchange_event exchange = record empty_event {
      idempotency_key = exchange.idempotency_key;
      event_type = event_type_external_provider_exchange;
      classification = trimmed_or exchange.classification classification_audit;
      retention_hint = trimmed_or exchange.retention_hint retention_hint_audit;
      request_id = exchange.request_id;
      trace_id = exchange.trace_id;
      span_id = exchange.span_id;
      user_id = exchange.user_id;
      tenant_id = exchange.tenant_id;
      operation = trimmed_or exchange.operation event_type_external_provider_exchange;
      status = trimmed_or exchange.status (provider_exchange_status exchange);
      method = exchange.method;
      path = exchange.endpoint;
      route_template = exchange.endpoint;
      started_at = format_optional_time exchange.started_at;
      finished_at = format_optional_time exchange.finished_at;
      error_code = exchange.error_code;
      error_message = exchange.error_message;
      metadata = nil_if_empty (provider_metadata exchange);
      data_fields = nil_if_empty (provider_data decode_json exchange);
      http_status = when (is_positive exchange.status_code) exchange.status_code;
      duration_ms = when (is_positive exchange.duration) (milliseconds exchange.duration);
    }

    module _ (world : World) (ctx : Context) where
      unfoldable pub external_provider_exchange : ExternalProviderExchange → Client → Client × Bool
      external_provider_exchange exchange =
          send_event world ctx (new_external_provider_exchange_event exchange)

      unfoldable pub external_provider_exchange_sync :
          ExternalProviderExchange → Client → Client × Option Error
      external_provider_exchange_sync exchange =
          send_event_sync world ctx (new_external_provider_exchange_event exchange)
