-- ===== src/Requests/RequestDefs.antt =====
-- logcenter/request.go: a request, from its start to its end.
use Prim.Native.String.{◌++◌}
use logcenter_sdk_go.Base.{
  suc, ℤ, String, [], ◌∷◌, Bool, true, false, Option, none, some, ◌==◌, ◌&&◌, not, if◌then◌else◌,
}
use logcenter_sdk_go.Types.{
  Fields, Event, empty_event, event_type_request_started, event_type_request_finished,
  status_success,
}
use logcenter_sdk_go.Times.{Time, Clock, or_now, elapsed_ms}
use logcenter_sdk_go.Context.{
  RequestContext, Context, request_from_context, context_with_request, default_to, new_id,
}
use logcenter_sdk_go.Client.{Client, World, enqueue}
use logcenter_sdk_go.Requests.Defs.{first_non_empty, merge_request_context, met}

pub record RequestStartOptions : Type 0 where
  pub request_id : String
  pub trace_id : String
  pub span_id : String
  pub user_id : String
  pub tenant_id : String
  pub operation : String
  pub method : String
  pub path : String
  pub route_template : String
  pub started_at : Option Time
  pub metadata : Fields
  pub data_fields : Fields

pub record RequestEndOptions : Type 0 where
  pub status : String
  pub http_status : Option ℤ
  pub finished_at : Option Time
  pub metadata : Fields
  pub data_fields : Fields

pub record Request : Type 0 where
  pub context : RequestContext
  pub method : String
  pub path : String
  pub route_template : String
  pub started_at : Time
  pub ended : Bool

-- The operation that the method and the path name, where there is none yet.
unfoldable pub named_operation : String → String → String → String
named_operation method path operation =
    let named =
      if operation == "" && not (method == "" && path == "")
      then method ++ " " ++ path
      else operation in
    default_to named "request"

-- The values of a request, from the options, the context and two random parts.
unfoldable pub started_context :
    String → String → RequestStartOptions → RequestContext → RequestContext
started_context random random2 options current = record {
  request_id =
      default_to (first_non_empty (options.request_id ∷ current.request_id ∷ []))
        (new_id "req_" random);
  trace_id =
      default_to (first_non_empty (options.trace_id ∷ current.trace_id ∷ []))
        (new_id "trc_" random2);
  span_id = first_non_empty (options.span_id ∷ current.span_id ∷ []);
  operation =
      named_operation options.method options.path
        (first_non_empty (options.operation ∷ current.operation ∷ []));
  user_id = first_non_empty (options.user_id ∷ current.user_id ∷ []);
  tenant_id = first_non_empty (options.tenant_id ∷ current.tenant_id ∷ []);
}

unfoldable pub request_of : RequestContext → RequestStartOptions → Time → Request
request_of values options started_at = record {
  context = values;
  method = options.method;
  path = options.path;
  route_template = default_to options.route_template options.path;
  started_at = started_at;
  ended = false;
}

module _ (clock : Clock) where
  unfoldable pub request_started_event : Request → RequestStartOptions → Event
  request_started_event request options = record empty_event {
    event_type = event_type_request_started;
    request_id = request.context.request_id;
    trace_id = request.context.trace_id;
    span_id = request.context.span_id;
    user_id = request.context.user_id;
    tenant_id = request.context.tenant_id;
    operation = request.context.operation;
    method = request.method;
    path = request.path;
    route_template = request.route_template;
    started_at = clock.format request.started_at;
    metadata = options.metadata;
    data_fields = options.data_fields;
  }

  -- The event of the end, given the time.
  unfoldable pub request_finished_event : Context → Time → Request → RequestEndOptions → Event
  request_finished_event ctx now request options =
      let values = merge_request_context request.context ctx in
      let finished_at = or_now options.finished_at now in
      record empty_event {
        event_type = event_type_request_finished;
        request_id = values.request_id;
        trace_id = values.trace_id;
        span_id = values.span_id;
        user_id = values.user_id;
        tenant_id = values.tenant_id;
        operation = values.operation;
        status = default_to options.status status_success;
        method = request.method;
        path = request.path;
        route_template = request.route_template;
        http_status = options.http_status;
        duration_ms = some (elapsed_ms finished_at request.started_at);
        finished_at = clock.format finished_at;
        metadata = options.metadata;
        data_fields = options.data_fields;
      }

module _ (world : World) (clock : Clock) where
  -- The request that `StartRequest` makes when the outside was met `ticks` times.
  unfoldable pub new_request : Context → RequestStartOptions → Client → Request
  new_request ctx options client =
      let current = request_from_context ctx in
      let values =
        started_context (world.random client.ticks) (world.random (suc client.ticks)) options
          current in
      request_of values options (or_now options.started_at (clock.time (suc client.ticks)))

  unfoldable pub start_request : Context → RequestStartOptions → Client → Client × Context × Request
  start_request ctx options client =
      let request = new_request ctx options client in
      let event = request_started_event clock request options in
      (
        (enqueue world event (met (met client))).0,
        context_with_request ctx request.context,
        request,
      )

  -- `EndWithContext`. A nil context carries no values.
  unfoldable pub request_end_with_context :
      Context → RequestEndOptions → Request → Client → Request × Client × Bool
  request_end_with_context ctx options request client =
      if request.ended
      then (request, client, false)
      else let event = request_finished_event clock ctx (clock.time client.ticks) request options in
        let (after, queued) = enqueue world event (met client) in
        (record request { ended = true }, after, queued)

  unfoldable pub request_end : RequestEndOptions → Request → Client → Request × Client × Bool
  request_end options = request_end_with_context none options
