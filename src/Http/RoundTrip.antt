-- ===== src/Http/RoundTrip.antt =====
-- logcenter/roundtripper.go: `RoundTrip`.
use logcenter_sdk_go.Base.{suc, String, List, none, some}
use logcenter_sdk_go.Types.{Event, empty_event, event_type_span}
use logcenter_sdk_go.Times.{Time, Clock, elapsed_ms}
use logcenter_sdk_go.Context.{RequestContext, context_with_request, new_id}
use logcenter_sdk_go.Client.{Client, World, enqueue}
use logcenter_sdk_go.Logging.{record_error}
use logcenter_sdk_go.Requests.{met, ensured}
use logcenter_sdk_go.Http.Request.{HttpRequest, with_context}
use logcenter_sdk_go.Http.Transport.{
  Outcome, RoundTripperConfig, RoundTripperOption, no_round_tripper_config, round_tripper_config,
  round_trip_status, span_name, extra_fields, round_trip_metadata, round_trip_error_code, code_of,
  text_of, round_trip_error_options,
}

-- A transport.
abbrev pub RoundTrip : Type 0
RoundTrip = HttpRequest → Client → Client × Outcome

module _ (world : World) (clock : Clock) where
  -- The values below the caller's, with a new span, when the outside was met as often as the client says.
  unfoldable pub round_trip_context : HttpRequest → Client → RequestContext
  round_trip_context req client = record (ensured world clock req.context client).1 {
    span_id = new_id "spn_" (world.random (suc (suc client.ticks)));
  }

  -- The request that the transport below is given.
  unfoldable pub outgoing : HttpRequest → Client → HttpRequest
  outgoing req client =
      with_context
        (context_with_request (ensured world clock req.context client).0
          (round_trip_context req client))
        req

  -- The event of the span, given the two times.
  unfoldable pub round_trip_event :
      RoundTripperConfig → RequestContext → String → HttpRequest → Time → Time → Outcome → Event
  round_trip_event config values parent_span_id req started_at finished_at outcome =
      record empty_event {
        event_type = event_type_span;
        request_id = values.request_id;
        trace_id = values.trace_id;
        span_id = values.span_id;
        parent_span_id = parent_span_id;
        user_id = values.user_id;
        tenant_id = values.tenant_id;
        operation = values.operation;
        name = span_name config req;
        kind = "client";
        status = round_trip_status outcome;
        http_status = outcome.response;
        started_at = clock.format started_at;
        finished_at = clock.format finished_at;
        duration_ms = some (elapsed_ms finished_at started_at);
        error_code = code_of config outcome.err;
        error_message = text_of outcome.err;
        metadata = round_trip_metadata config req outcome;
        data_fields = extra_fields config.data_func req outcome;
      }

  -- The error event, where there is an error.
  unfoldable pub record_round_trip_error :
      RoundTripperConfig → RequestContext → HttpRequest → Outcome → Client → Client
  record_round_trip_error config values req outcome client = elim outcome.err [
    | none ↦ client
    | some err ↦
        (record_error world (context_with_request none values) (some err.text)
          (round_trip_error_options (round_trip_error_code config)
            (round_trip_metadata config req outcome) (extra_fields config.data_func req outcome))
          client).0
  ]

  -- `RoundTrip` around the transport below, with a request that is not nil.
  unfoldable pub round_trip :
      List RoundTripperOption → RoundTrip → HttpRequest → Client → Client × Outcome
  round_trip options base req client =
      let config = round_tripper_config options no_round_tripper_config in
      let values = round_trip_context req client in
      let parent_span_id = (ensured world clock req.context client).1.span_id in
      let sent = outgoing req client in
      let started_at = clock.time (suc (suc client.ticks)) in
      let (after, outcome) = base sent (met (met (met client))) in
      let event =
        round_trip_event config values parent_span_id sent started_at (clock.time after.ticks)
          outcome in
      (
        (enqueue world event (record_round_trip_error config values sent outcome (met after))).0,
        outcome,
      )
