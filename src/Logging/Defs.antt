-- ===== src/Logging/Defs.antt =====
-- The events, and the functions that send them.
use logcenter_sdk_go.Base.{String, Bool, Option, none, some}
use logcenter_sdk_go.Types.{
  Value, null, changes, Changes, done, change, Fields, Event, empty_event, ErrorOptions, AuditEvent,
  event_type_log_event, event_type_error_event, event_type_audit_event, level_debug, level_info,
  level_warn, level_error, level_fatal, severity_error,
}
use logcenter_sdk_go.Errors.{Error}
use logcenter_sdk_go.Context.{RequestContext, Context, request_from_context, default_to}
use logcenter_sdk_go.Client.{Client, World, enqueue, send_event_sync}

unfoldable pub log_event : RequestContext → String → String → Fields → Event
log_event request level message metadata = record empty_event {
  event_type = event_type_log_event;
  request_id = request.request_id;
  trace_id = request.trace_id;
  span_id = request.span_id;
  user_id = request.user_id;
  tenant_id = request.tenant_id;
  operation = request.operation;
  level = level;
  message = message;
  metadata = metadata;
}

-- The text of the error, or the message of the options.
abbrev pub message_of : Option String → String → String
message_of none message = message
message_of (some text) message = text

-- An error is known by its text; `none` is nil.
unfoldable pub error_event : RequestContext → Option String → ErrorOptions → Event
error_event request err options = record empty_event {
  idempotency_key = options.idempotency_key;
  event_type = event_type_error_event;
  classification = options.classification;
  retention_hint = options.retention_hint;
  request_id = request.request_id;
  trace_id = request.trace_id;
  span_id = request.span_id;
  user_id = request.user_id;
  tenant_id = request.tenant_id;
  operation = request.operation;
  severity = default_to options.severity severity_error;
  error_type = options.type;
  error_code = options.code;
  error_message = message_of err options.message;
  fingerprint = options.fingerprint;
  stack_trace = options.stack_trace;
  metadata = options.metadata;
  data_fields = options.data_fields;
}

-- `if len(audit.Changes) > 0 { changes = audit.Changes }`.
abbrev pub changes_of : Changes → Value
changes_of done = null
changes_of (change field old new cs) = changes (change field old new cs)

unfoldable pub audit_event_to_event : RequestContext → AuditEvent → Event
audit_event_to_event request audit = record empty_event {
  idempotency_key = audit.idempotency_key;
  event_type = event_type_audit_event;
  classification = audit.classification;
  retention_hint = audit.retention_hint;
  request_id = request.request_id;
  trace_id = request.trace_id;
  actor_type = audit.actor_type;
  actor_id = audit.actor_id;
  tenant_id = default_to audit.tenant_id request.tenant_id;
  operation = default_to audit.operation request.operation;
  action = audit.action;
  entity_type = audit.entity_type;
  entity_id = audit.entity_id;
  field_name = audit.field_name;
  old_value = audit.old_value;
  new_value = audit.new_value;
  changes = changes_of audit.changes;
  reason = audit.reason;
  metadata = audit.metadata;
  data_fields = audit.data_fields;
}

module _ (world : World) (ctx : Context) where
  unfoldable pub log : String → String → Fields → Client → Client × Bool
  log level message metadata =
      enqueue world (log_event (request_from_context ctx) level message metadata)

  unfoldable pub debug : String → Fields → Client → Client × Bool
  debug message metadata = log level_debug message metadata

  unfoldable pub info : String → Fields → Client → Client × Bool
  info message metadata = log level_info message metadata

  unfoldable pub warn : String → Fields → Client → Client × Bool
  warn message metadata = log level_warn message metadata

  unfoldable pub error_log : String → Fields → Client → Client × Bool
  error_log message metadata = log level_error message metadata

  unfoldable pub fatal : String → Fields → Client → Client × Bool
  fatal message metadata = log level_fatal message metadata

  unfoldable pub record_error : Option String → ErrorOptions → Client → Client × Bool
  record_error err options = enqueue world (error_event (request_from_context ctx) err options)

  unfoldable pub audit : AuditEvent → Client → Client × Bool
  audit event = enqueue world (audit_event_to_event (request_from_context ctx) event)

  unfoldable pub audit_sync : AuditEvent → Client → Client × Option Error
  audit_sync event =
      send_event_sync world ctx (audit_event_to_event (request_from_context ctx) event)
