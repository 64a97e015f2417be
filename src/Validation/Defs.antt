-- ===== src/Validation/Defs.antt =====
-- The checks of events, in their order.
use Prim.Native.String.{◌++◌}
use logcenter_sdk_go.Base.{
  String, some, ◌&&◌, ◌||◌, not, ◌==◌, if◌then◌else◌, is_blank, trim_space, str_mem,
}
use logcenter_sdk_go.Types.{
  Event, event_type_request_started, event_type_request_finished, event_type_span,
  event_type_log_event, event_type_error_event, event_type_audit_event,
  event_type_external_provider_exchange, event_type_fiscal_provider_exchange,
}
use logcenter_sdk_go.Errors.{invalid_event}
use logcenter_sdk_go.Platform.{Platform}
use logcenter_sdk_go.Validation.Fields.{
  allowed_levels, Check, ◌>>◌, fail_if, required_event_field, required, validate_duration,
  validate_status, validate_classification, validate_retention_hint, validate_json_value,
  validate_json_fields, validate_changes, is_null, no_fields,
}

-- The cases of the switch on the event's type. (The text of the error for another type shows a type
-- that needs no escapes.)
pub data EventKind : Type 0 where
  request_started_kind request_finished_kind span_kind log_kind error_kind audit_kind : EventKind
  exchange_kind unsupported : EventKind

unfoldable pub kind_of : String → EventKind
kind_of type =
    if type == event_type_request_started
    then request_started_kind
    else if type == event_type_request_finished
    then request_finished_kind
    else if type == event_type_span
    then span_kind
    else if type == event_type_log_event
    then log_kind
    else if type == event_type_error_event
    then error_kind
    else if type == event_type_audit_event
    then audit_kind
    else if type == event_type_external_provider_exchange
        || type == event_type_fiscal_provider_exchange
    then exchange_kind
    else unsupported

module _ (platform : Platform) where
  unfoldable pub parse_required_event_time : String → String → Check
  parse_required_event_time field value =
      required field value
      >> fail_if (not (platform.is_rfc3339 value)) (invalid_event (field ++ " must be RFC3339"))

  unfoldable pub validate_request_started_event : Event → Check
  validate_request_started_event event =
      required "request_id" event.request_id
      >> required "trace_id" event.trace_id
      >> required "operation" event.operation
      >> parse_required_event_time "started_at" event.started_at

  unfoldable pub validate_request_finished_event : Event → Check
  validate_request_finished_event event =
      required "request_id" event.request_id
      >> required "trace_id" event.trace_id
      >> validate_status event.status
      >> parse_required_event_time "finished_at" event.finished_at
      >> validate_duration event.duration_ms

  unfoldable pub validate_span_event : Event → Check
  validate_span_event event =
      required "trace_id" event.trace_id
      >> required "span_id" event.span_id
      >> required "name" event.name
      >> parse_required_event_time "started_at" event.started_at
      >> parse_required_event_time "finished_at" event.finished_at
      >> validate_duration event.duration_ms
      >> validate_status event.status

  unfoldable pub validate_log_event : Event → Check
  validate_log_event event =
      required "level" event.level
      >> fail_if (not (str_mem event.level allowed_levels)) (invalid_event "level is invalid")
      >> required "message" event.message

  unfoldable pub validate_error_event : Event → Check
  validate_error_event event =
      fail_if (is_blank event.error_code && is_blank event.error_message)
        (invalid_event "error_code or error_message is required")
      >> required "severity" event.severity

  unfoldable pub validate_audit_event : Event → Check
  validate_audit_event event =
      required "action" event.action
      >> required "entity_type" event.entity_type
      >> required "entity_id" event.entity_id
      >> fail_if (is_null event.changes && is_null event.old_value && is_null event.new_value)
          (invalid_event "changes or old_value/new_value is required")
      >> validate_changes event.changes
      >> validate_json_value "old_value" event.old_value
      >> validate_json_value "new_value" event.new_value

  unfoldable pub validate_fiscal_provider_exchange_event : Event → Check
  validate_fiscal_provider_exchange_event event =
      required "operation" event.operation
      >> fail_if (no_fields event.data_fields) (required_event_field "data")

  unfoldable pub validate_kind : EventKind → Event → Check
  validate_kind request_started_kind event = validate_request_started_event event
  validate_kind request_finished_kind event = validate_request_finished_event event
  validate_kind span_kind event = validate_span_event event
  validate_kind log_kind event = validate_log_event event
  validate_kind error_kind event = validate_error_event event
  validate_kind audit_kind event = validate_audit_event event
  validate_kind exchange_kind event = validate_fiscal_provider_exchange_event event
  validate_kind unsupported event =
      some (invalid_event ("unsupported event_type \"" ++ event.event_type ++ "\""))

  unfoldable pub validate_by_type : Event → Check
  validate_by_type event = validate_kind (kind_of event.event_type) event

  unfoldable pub validate_event : Event → Check
  validate_event event =
      fail_if
        (not (is_blank event.idempotency_key)
          && not (trim_space event.event_id == trim_space event.idempotency_key))
        (invalid_event "idempotency_key must match event_id when both are set")
      >> required "event_id" event.event_id
      >> required "event_type" event.event_type
      >> parse_required_event_time "occurred_at" event.occurred_at
      >> required "environment" event.environment
      >> required "service" event.service
      >> validate_classification event.classification
      >> validate_retention_hint event.retention_hint
      >> validate_json_fields "metadata" event.metadata
      >> validate_json_fields "data" event.data_fields
      >> validate_by_type event
