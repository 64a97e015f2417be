-- ===== src/Requests/OperationDefs.antt =====
-- logcenter/operation.go: an operation, from its start to its end, and the events within it.
use logcenter_sdk_go.Base.{
  suc, String, List, [], ◌∷◌, Bool, true, false, Option, none, some, if◌then◌else◌,
}
use logcenter_sdk_go.Types.{
  Fields, Event, empty_event, event_type_request_started, event_type_request_finished,
  event_type_log_event, level_info, status_success,
}
use logcenter_sdk_go.Times.{Time, Clock, or_now, elapsed_ms}
use logcenter_sdk_go.Context.{
  RequestContext, Context, request_from_context, context_with_request, ensure_request_context,
  default_to, trimmed_or,
}
use logcenter_sdk_go.Client.{Client, World, enqueue}
use logcenter_sdk_go.Requests.Defs.{first_non_empty, merge_request_context, met}

pub record OperationStartOptions : Type 0 where
  pub request_id : String
  pub trace_id : String
  pub span_id : String
  pub user_id : String
  pub tenant_id : String
  pub kind : String
  pub started_at : Option Time
  pub metadata : Fields
  pub data_fields : Fields

pub record OperationEndOptions : Type 0 where
  pub status : String
  pub finished_at : Option Time
  pub metadata : Fields
  pub data_fields : Fields

pub record OperationEvent : Type 0 where
  pub idempotency_key : String
  pub classification : String
  pub retention_hint : String
  pub action : String
  pub entity_type : String
  pub entity_id : String
  pub description : String
  pub status : String
  pub level : String
  pub kind : String
  pub metadata : Fields
  pub data_fields : Fields

pub record Operation : Type 0 where
  pub request : RequestContext
  pub name : String
  pub kind : String
  pub started_at : Time
  pub ended : Bool

abbrev pub no_start_options : OperationStartOptions
no_start_options = record {
  request_id = "";
  trace_id = "";
  span_id = "";
  user_id = "";
  tenant_id = "";
  kind = "";
  started_at = none;
  metadata = none;
  data_fields = none;
}

abbrev pub no_end_options : OperationEndOptions
no_end_options = record { status = ""; finished_at = none; metadata = none; data_fields = none }

-- `if len(options) > 0 { o = options[0] }`.
abbrev pub first_or {ℓ} : {A : Type ℓ} → A → List A → A
first_or default [] = default
first_or default (o ∷ options) = o

unfoldable pub operation_of : RequestContext → String → OperationStartOptions → Time → Operation
operation_of current name options started_at =
    let operation_name = trimmed_or name (trimmed_or current.operation "operation") in
    record {
      request = record {
        request_id = first_non_empty (options.request_id ∷ current.request_id ∷ []);
        trace_id = first_non_empty (options.trace_id ∷ current.trace_id ∷ []);
        span_id = first_non_empty (options.span_id ∷ current.span_id ∷ []);
        operation = operation_name;
        user_id = first_non_empty (options.user_id ∷ current.user_id ∷ []);
        tenant_id = first_non_empty (options.tenant_id ∷ current.tenant_id ∷ []);
      };
      name = operation_name;
      kind = trimmed_or options.kind "operation";
      started_at = started_at;
      ended = false;
    }

unfoldable pub operation_event_to_log_event : RequestContext → OperationEvent → Event
operation_event_to_log_event request event = record empty_event {
  idempotency_key = event.idempotency_key;
  event_type = event_type_log_event;
  classification = event.classification;
  retention_hint = event.retention_hint;
  request_id = request.request_id;
  trace_id = request.trace_id;
  span_id = request.span_id;
  user_id = request.user_id;
  tenant_id = request.tenant_id;
  operation = request.operation;
  kind = trimmed_or event.kind "operation_event";
  level = default_to event.level level_info;
  message = trimmed_or event.description (trimmed_or event.action "operation event");
  status = event.status;
  action = event.action;
  entity_type = event.entity_type;
  entity_id = event.entity_id;
  metadata = event.metadata;
  data_fields = event.data_fields;
}

module _ (clock : Clock) where
  unfoldable pub operation_started_event : Operation → OperationStartOptions → Event
  operation_started_event operation options = record empty_event {
    event_type = event_type_request_started;
    request_id = operation.request.request_id;
    trace_id = operation.request.trace_id;
    span_id = operation.request.span_id;
    user_id = operation.request.user_id;
    tenant_id = operation.request.tenant_id;
    operation = operation.request.operation;
    kind = operation.kind;
    method = operation.kind;
    path = operation.name;
    route_template = operation.name;
    started_at = clock.format operation.started_at;
    metadata = options.metadata;
    data_fields = options.data_fields;
  }

  unfoldable pub operation_finished_event : Context → Time → Operation → OperationEndOptions → Event
  operation_finished_event ctx now operation options =
      let values = merge_request_context operation.request ctx in
      let finished_at = or_now options.finished_at now in
      record empty_event {
        event_type = event_type_request_finished;
        request_id = values.request_id;
        trace_id = values.trace_id;
        span_id = values.span_id;
        user_id = values.user_id;
        tenant_id = values.tenant_id;
        operation = values.operation;
        kind = operation.kind;
        status = default_to options.status status_success;
        method = operation.kind;
        path = operation.name;
        route_template = operation.name;
        finished_at = clock.format finished_at;
        duration_ms = some (elapsed_ms finished_at operation.started_at);
        metadata = options.metadata;
        data_fields = options.data_fields;
      }

module _ (world : World) (clock : Clock) where
  -- The context with its identifiers when the outside was met as often as the client says.
  unfoldable pub ensured : Context → Client → Context × RequestContext
  ensured ctx client =
      ensure_request_context (world.random client.ticks) (world.random (suc client.ticks)) ctx

  -- The operation that `StartOperation` makes.
  unfoldable pub new_operation : Context → String → OperationStartOptions → Client → Operation
  new_operation ctx name options client =
      operation_of (ensured ctx client).1 name options
        (or_now options.started_at (clock.time (suc client.ticks)))

  unfoldable pub start_operation :
      Context → String → List OperationStartOptions → Client → Client × Context × Operation
  start_operation ctx name options client =
      let start_options = first_or no_start_options options in
      let operation = new_operation ctx name start_options client in
      let event = operation_started_event clock operation start_options in
      (
        (enqueue world event (met (met client))).0,
        context_with_request (ensured ctx client).0 operation.request,
        operation,
      )

  unfoldable pub operation_end_with_context :
      Context → List OperationEndOptions → Operation → Client → Operation × Client × Bool
  operation_end_with_context ctx options operation client =
      if operation.ended
      then (operation, client, false)
      else let end_options = first_or no_end_options options in
        let event =
          operation_finished_event clock ctx (clock.time client.ticks) operation end_options in
        let (after, queued) = enqueue world event (met client) in
        (record operation { ended = true }, after, queued)

  unfoldable pub operation_end :
      List OperationEndOptions → Operation → Client → Operation × Client × Bool
  operation_end options = operation_end_with_context none options

module _ (world : World) where
  unfoldable pub event_with_context : Context → OperationEvent → Operation → Client → Client × Bool
  event_with_context ctx event operation =
      enqueue world
        (operation_event_to_log_event (merge_request_context operation.request ctx) event)

  unfoldable pub event : OperationEvent → Operation → Client → Client × Bool
  event = event_with_context none

  unfoldable pub step_with_context : Context → OperationEvent → Operation → Client → Client × Bool
  step_with_context = event_with_context

  unfoldable pub step : OperationEvent → Operation → Client → Client × Bool
  step = event

  -- `client.OperationEvent`.
  unfoldable pub operation_event : Context → OperationEvent → Client → Client × Bool
  operation_event ctx event =
      enqueue world (operation_event_to_log_event (request_from_context ctx) event)
