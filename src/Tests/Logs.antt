-- ===== src/Tests/Logs.antt =====
-- The events of the logging functions.
use logcenter_sdk_go.Base.{false, none, ◌≡◌, ◌↔◌, ◌⊎◌}
use logcenter_sdk_go.Types.{null, str, done, change, ErrorOptions, AuditEvent}
use logcenter_sdk_go.Context.{RequestContext}
use logcenter_sdk_go.Validation.{validate_by_type, is_null}
use logcenter_sdk_go.Validation.Rules.{Present, HasJson}
use logcenter_sdk_go.Logging.{audit_event_to_event, changes_of}
use logcenter_sdk_go.Logging.Valid.{audit_event_iff}
use logcenter_sdk_go.Tests.Data.{platform}

abbrev request : RequestContext
request = record {
  request_id = "req";
  trace_id = "trc";
  span_id = "spn";
  operation = "op";
  user_id = "u";
  tenant_id = "t";
}

abbrev error_options : ErrorOptions
error_options = record {
  idempotency_key = "";
  classification = "";
  retention_hint = "";
  code = "";
  type = "";
  severity = "";
  fingerprint = "";
  stack_trace = "";
  message = "failed";
  metadata = none;
  data_fields = none;
}

abbrev audit_event : AuditEvent
audit_event = record {
  idempotency_key = "";
  classification = "";
  retention_hint = "";
  actor_type = "";
  actor_id = "";
  tenant_id = "";
  operation = "";
  action = "update";
  entity_type = "order";
  entity_id = "7";
  field_name = "";
  old_value = null;
  new_value = null;
  changes = change "price" (str "1") (str "2") done;
  reason = "";
  metadata = none;
  data_fields = none;
}

audit_event_iff_example :
    (validate_by_type platform (audit_event_to_event request audit_event) ≡ none) ↔ (
      Present "update"
      × Present "order"
      × Present "7"
      × ((is_null (changes_of audit_event.changes) ≡ false)
          ⊎ (is_null null ≡ false)
          ⊎ (is_null null ≡ false))
      × HasJson (changes_of audit_event.changes)
      × HasJson null
      × HasJson null)
audit_event_iff_example = audit_event_iff platform request audit_event
