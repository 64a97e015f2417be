-- ===== src/Limit/Events.antt =====
-- The limits on events.
use Prim.Native.String.{◌++◌}
use logcenter_sdk_go.Base.{
  pos, String, len, Option, none, some, if◌then◌else◌, ltb_ℤ, decimal, decimal_ℤ,
}
use logcenter_sdk_go.Types.{Event}
use logcenter_sdk_go.Errors.{Error, invalid_event}
use logcenter_sdk_go.Json.{marshal_event}
use logcenter_sdk_go.Config.{Config}
use logcenter_sdk_go.Limit.Values.{Limiter, limit_string, limit_fields, limit_json_value}

unfoldable pub new_limiter : Config → Limiter
new_limiter config = record {
  max_string_bytes = config.max_string_bytes;
  max_metadata_bytes = config.max_metadata_bytes;
  max_data_bytes = config.max_data_bytes;
  max_audit_value_bytes = config.max_audit_value_bytes;
  max_event_bytes = config.max_event_bytes;
}

module _ (limiter : Limiter) where
  -- The assignments of `limitEvent`.
  unfoldable pub limit_parts : Event → Event
  limit_parts event = record event {
    idempotency_key = limit_string limiter event.idempotency_key;
    service_version = limit_string limiter event.service_version;
    classification = limit_string limiter event.classification;
    retention_hint = limit_string limiter event.retention_hint;
    user_id = limit_string limiter event.user_id;
    tenant_id = limit_string limiter event.tenant_id;
    operation = limit_string limiter event.operation;
    method = limit_string limiter event.method;
    path = limit_string limiter event.path;
    route_template = limit_string limiter event.route_template;
    kind = limit_string limiter event.kind;
    name = limit_string limiter event.name;
    message = limit_string limiter event.message;
    error_code = limit_string limiter event.error_code;
    error_message = limit_string limiter event.error_message;
    error_type = limit_string limiter event.error_type;
    severity = limit_string limiter event.severity;
    fingerprint = limit_string limiter event.fingerprint;
    stack_trace = limit_string limiter event.stack_trace;
    actor_type = limit_string limiter event.actor_type;
    actor_id = limit_string limiter event.actor_id;
    action = limit_string limiter event.action;
    entity_type = limit_string limiter event.entity_type;
    entity_id = limit_string limiter event.entity_id;
    field_name = limit_string limiter event.field_name;
    reason = limit_string limiter event.reason;
    metadata = limit_fields limiter "metadata" event.metadata limiter.max_metadata_bytes;
    data_fields = limit_fields limiter "data" event.data_fields limiter.max_data_bytes;
    changes = limit_json_value limiter "changes" event.changes limiter.max_audit_value_bytes;
    old_value = limit_json_value limiter "old_value" event.old_value limiter.max_audit_value_bytes;
    new_value = limit_json_value limiter "new_value" event.new_value limiter.max_audit_value_bytes;
  }

  -- The test of the whole event's size. An error of `Marshal` has a text of its own, which is left out.
  unfoldable pub size_error : Option String → Option Error
  size_error none = some (invalid_event "event must be valid JSON")
  size_error (some encoded) =
      if ltb_ℤ limiter.max_event_bytes (pos (len encoded))
      then some (
          invalid_event (
            "event exceeds max_event_bytes: limit_bytes="
            ++ decimal_ℤ limiter.max_event_bytes
            ++ " actual_bytes="
            ++ decimal (len encoded)))
      else none

  unfoldable pub limit_event : Event → Event × Option Error
  limit_event event =
      let limited = limit_parts event in
      if ltb_ℤ (pos 0) limiter.max_event_bytes
      then (limited, size_error (marshal_event limited))
      else (limited, none)
