-- ===== src/Requests/SpanDefs.antt =====
-- logcenter/span.go: a span, from its start to its end.
use logcenter_sdk_go.Base.{
  suc, String, List, [], ◌∷◌, Bool, true, false, Option, none, some, if◌then◌else◌,
}
use logcenter_sdk_go.Types.{
  Fields, Event, empty_event, ErrorOptions, event_type_span, severity_error, status_success,
}
use logcenter_sdk_go.Times.{Time, Clock, elapsed_ms}
use logcenter_sdk_go.Context.{RequestContext, Context, context_with_request, default_to, new_id}
use logcenter_sdk_go.Client.{Client, World, enqueue}
use logcenter_sdk_go.Logging.{record_error}
use logcenter_sdk_go.Requests.Defs.{met}
use logcenter_sdk_go.Requests.OperationDefs.{ensured}

pub record Span : Type 0 where
  pub request : RequestContext
  pub name : String
  pub kind : String
  pub span_id : String
  pub parent_span_id : String
  pub started_at : Time
  pub metadata : Fields
  pub data_fields : Fields
  pub error_code : String
  pub error_message : String
  pub ended : Bool

-- A `SpanOption`, by the function that made it.
pub data SpanOption : Type 0 where
  span_kind : String → SpanOption
  span_metadata : Fields → SpanOption
  span_data : Fields → SpanOption

unfoldable pub apply_option : SpanOption → Span → Span
apply_option (span_kind kind) span = record span { kind = kind }
apply_option (span_metadata metadata) span = record span { metadata = metadata }
apply_option (span_data fields) span = record span { data_fields = fields }

unfoldable pub apply_options : List SpanOption → Span → Span
apply_options [] span = span
apply_options (option ∷ options) span = apply_options options (apply_option option span)

-- The span before its options, below the values of the context.
unfoldable pub span_of : RequestContext → String → String → Time → Span
span_of current span_id name started_at = record {
  request = record current { span_id = span_id };
  name = name;
  kind = "internal";
  span_id = span_id;
  parent_span_id = current.span_id;
  started_at = started_at;
  metadata = none;
  data_fields = none;
  error_code = "";
  error_message = "";
  ended = false;
}

abbrev pub span_error_options : String → ErrorOptions
span_error_options code = record {
  idempotency_key = "";
  classification = "";
  retention_hint = "";
  code = code;
  type = "";
  severity = severity_error;
  fingerprint = "";
  stack_trace = "";
  message = "";
  metadata = none;
  data_fields = none;
}

unfoldable pub span_event : Clock → Time → String → Span → Event
span_event clock finished_at status span = record empty_event {
  event_type = event_type_span;
  request_id = span.request.request_id;
  trace_id = span.request.trace_id;
  span_id = span.span_id;
  parent_span_id = span.parent_span_id;
  name = span.name;
  kind = span.kind;
  status = default_to status status_success;
  started_at = clock.format span.started_at;
  finished_at = clock.format finished_at;
  duration_ms = some (elapsed_ms finished_at span.started_at);
  error_code = span.error_code;
  error_message = span.error_message;
  metadata = span.metadata;
  data_fields = span.data_fields;
}

module _ (world : World) (clock : Clock) where
  -- The span that `StartSpan` makes. Its identifier is the third one that is drawn.
  unfoldable pub new_span : Context → String → List SpanOption → Client → Span
  new_span ctx name options client =
      let span_id = new_id "spn_" (world.random (suc (suc client.ticks))) in
      apply_options options (
        span_of (ensured world clock ctx client).1 span_id name
          (clock.time (suc (suc client.ticks))))

  -- No event is sent here.
  unfoldable pub start_span : Context → String → List SpanOption → Client → Client × Context × Span
  start_span ctx name options client =
      let span = new_span ctx name options client in
      (
        met (met (met client)),
        context_with_request (ensured world clock ctx client).0 span.request,
        span,
      )

  -- An error is known by its text; `none` is nil.
  unfoldable pub span_record_error : Option String → String → Span → Client → Span × Client
  span_record_error none code span client = (span, client)
  span_record_error (some text) code span client = (
    record span { error_code = code; error_message = text },
    (record_error world (context_with_request none span.request) (some text)
        (span_error_options code) client).0,
  )

  unfoldable pub span_end : String → Span → Client → Span × Client × Bool
  span_end status span client =
      if span.ended
      then (span, client, false)
      else let event = span_event clock (clock.time client.ticks) status span in
        let (after, queued) = enqueue world event (met client) in
        (record span { ended = true }, after, queued)
