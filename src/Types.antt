-- ===== src/Types.antt =====
-- logcenter/types.go: the constants, the values that an event can carry, and the events.
--
-- A field of type `any` is a `Value`; a nil `Fields` is `none` where the code can see it (the fields
-- of an event), and a nil map or slice inside a value is the empty one.
use logcenter_sdk_go.Base.{ℤ, String, List, Bool, Option, none}

-- `any`. `map` is a `map[string]any`, `fields` a `Fields`, `arr` a `[]any`, `strs` a `[]string` and
-- `changes` a `[]Change`. `other` is a value of any other Go type, which the code only hands to
-- `json.Marshal`: it is known by what that returns, `none` for an error. A map is the list of its
-- entries, with one entry for a key.
mutual
  pub data Value : Type 0 where
    null : Value
    str : String → Value
    bool : Bool → Value
    int : ℤ → Value
    map : Entries → Value
    fields : Entries → Value
    arr : Items → Value
    strs : List String → Value
    changes : Changes → Value
    other : Option String → Value

  pub data Entries : Type 0 where
    end : Entries
    entry : String → Value → Entries → Entries

  pub data Items : Type 0 where
    nil : Items
    cons : Value → Items → Items

  -- A `Change` with its `Field`, `OldValue` and `NewValue`, and the changes after it.
  pub data Changes : Type 0 where
    done : Changes
    change : String → Value → Value → Changes → Changes

-- `Fields`, which may be nil.
abbrev pub Fields : Type 0
Fields = Option Entries

pub record Event : Type 0 where
  pub event_id : String
  pub idempotency_key : String
  pub event_type : String
  pub occurred_at : String
  pub environment : String
  pub service : String
  pub service_version : String
  pub classification : String
  pub retention_hint : String
  pub request_id : String
  pub trace_id : String
  pub span_id : String
  pub parent_span_id : String
  pub user_id : String
  pub tenant_id : String
  pub operation : String
  pub status : String
  pub method : String
  pub path : String
  pub route_template : String
  pub kind : String
  pub name : String
  pub level : String
  pub message : String
  pub error_code : String
  pub error_message : String
  pub error_type : String
  pub severity : String
  pub fingerprint : String
  pub stack_trace : String
  pub http_status : Option ℤ
  pub duration_ms : Option ℤ
  pub started_at : String
  pub finished_at : String
  pub actor_type : String
  pub actor_id : String
  pub action : String
  pub entity_type : String
  pub entity_id : String
  pub field_name : String
  pub changes : Value
  pub old_value : Value
  pub new_value : Value
  pub reason : String
  pub metadata : Fields
  pub data_fields : Fields

pub record BatchRequest : Type 0 where
  pub batch_id : String
  pub sent_at : String
  pub source : Fields
  pub events : List Event

pub record EventError : Type 0 where
  pub index : ℤ
  pub event_id : String
  pub code : String
  pub message : String

pub record BatchResponse : Type 0 where
  pub batch_id : String
  pub received : ℤ
  pub accepted : ℤ
  pub duplicated : ℤ
  pub rejected : ℤ
  pub errors : List EventError

pub record ErrorOptions : Type 0 where
  pub idempotency_key : String
  pub classification : String
  pub retention_hint : String
  pub code : String
  pub type : String
  pub severity : String
  pub fingerprint : String
  pub stack_trace : String
  pub message : String
  pub metadata : Fields
  pub data_fields : Fields

-- `Changes` is a slice, so that its zero value is the empty one.
pub record AuditEvent : Type 0 where
  pub idempotency_key : String
  pub classification : String
  pub retention_hint : String
  pub actor_type : String
  pub actor_id : String
  pub tenant_id : String
  pub operation : String
  pub action : String
  pub entity_type : String
  pub entity_id : String
  pub field_name : String
  pub old_value : Value
  pub new_value : Value
  pub changes : Changes
  pub reason : String
  pub metadata : Fields
  pub data_fields : Fields

-- The zero value `Event{}`, from which the code's literals start.
abbrev pub empty_event : Event
empty_event = record {
  event_id = "";
  idempotency_key = "";
  event_type = "";
  occurred_at = "";
  environment = "";
  service = "";
  service_version = "";
  classification = "";
  retention_hint = "";
  request_id = "";
  trace_id = "";
  span_id = "";
  parent_span_id = "";
  user_id = "";
  tenant_id = "";
  operation = "";
  status = "";
  method = "";
  path = "";
  route_template = "";
  kind = "";
  name = "";
  level = "";
  message = "";
  error_code = "";
  error_message = "";
  error_type = "";
  severity = "";
  fingerprint = "";
  stack_trace = "";
  http_status = none;
  duration_ms = none;
  started_at = "";
  finished_at = "";
  actor_type = "";
  actor_id = "";
  action = "";
  entity_type = "";
  entity_id = "";
  field_name = "";
  changes = null;
  old_value = null;
  new_value = null;
  reason = "";
  metadata = none;
  data_fields = none;
}

abbrev pub event_type_request_started : String
event_type_request_started = "request_started"

abbrev pub event_type_request_finished : String
event_type_request_finished = "request_finished"

abbrev pub event_type_span : String
event_type_span = "span"

abbrev pub event_type_log_event : String
event_type_log_event = "log_event"

abbrev pub event_type_error_event : String
event_type_error_event = "error_event"

abbrev pub event_type_audit_event : String
event_type_audit_event = "audit_event"

abbrev pub event_type_external_provider_exchange : String
event_type_external_provider_exchange = "external_provider_exchange"

abbrev pub event_type_fiscal_provider_exchange : String
event_type_fiscal_provider_exchange = "fiscal_provider_exchange"

abbrev pub level_debug : String
level_debug = "debug"

abbrev pub level_info : String
level_info = "info"

abbrev pub level_warn : String
level_warn = "warn"

abbrev pub level_error : String
level_error = "error"

abbrev pub level_fatal : String
level_fatal = "fatal"

abbrev pub status_success : String
status_success = "success"

abbrev pub status_failed : String
status_failed = "failed"

abbrev pub severity_error : String
severity_error = "error"

abbrev pub classification_audit : String
classification_audit = "audit"

abbrev pub status_timeout : String
status_timeout = "timeout"

abbrev pub status_canceled : String
status_canceled = "canceled"

abbrev pub retention_hint_audit : String
retention_hint_audit = "audit"
