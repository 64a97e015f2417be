-- ===== src/Tests/Requests.antt =====
-- Requests, operations and spans.
use logcenter_sdk_go.Base.{
  ◌*◌, pos, String, List, [], ◌∷◌, none, ◌≡◌, ◌↔◌, ◌⊎◌, inl, refl, trim_space,
}
use logcenter_sdk_go.Times.{Clock}
use logcenter_sdk_go.Context.{Context, request_from_context}
use logcenter_sdk_go.Client.{Client}
use logcenter_sdk_go.Validation.{validate_by_type}
use logcenter_sdk_go.Validation.Rules.{Present, IsStatus}
use logcenter_sdk_go.Requests.{
  RequestStartOptions, RequestEndOptions, Request, met, first_non_empty, new_request,
  request_started_event, request_finished_event, request_end_with_context, new_span, start_span,
  span_event,
}
use logcenter_sdk_go.Requests.Once.{
  finish_all, others_all, refused, request_ending, request_ends_once,
}
use logcenter_sdk_go.Requests.Lineage.{identity, request_identity, nested_span}
use logcenter_sdk_go.Requests.Present.{IsClean}
use logcenter_sdk_go.Requests.Valid.{FormatsTimes, started_event_iff}
use logcenter_sdk_go.Requests.Within.{span_event_iff}
use logcenter_sdk_go.Tests.Data.{platform, world, client}

abbrev pub clock : Clock
clock = record { time = λ n. pos (n * 1000000); format = λ t. "2026-01-02T03:04:05Z" }

pub formats : FormatsTimes platform clock
unfolding trim_space
formats t = (refl, refl)

abbrev start_options : RequestStartOptions
start_options = record {
  request_id = "r1";
  trace_id = "";
  span_id = "";
  user_id = "";
  tenant_id = "";
  operation = "";
  method = "GET";
  path = "/orders";
  route_template = "";
  started_at = none;
  metadata = none;
  data_fields = none;
}

abbrev end_options : RequestEndOptions
end_options = record {
  status = "";
  http_status = none;
  finished_at = none;
  metadata = none;
  data_fields = none;
}

abbrev request : Request
request = new_request world clock none start_options client

-- Two more calls, before the second of which the client meets the outside.
abbrev calls : List ((Client → Client) × (Context × RequestEndOptions))
calls = ((λ c. c), (none, end_options)) ∷ ((λ c. met c), (none, end_options)) ∷ []

request_ends_once_example :
    finish_all (request_ending world clock) (((λ c. c), (none, end_options)) ∷ calls) request client
    ≡ (
      (request_end_with_context world clock none end_options request client).0,
      others_all
          (request_ending world clock)
          calls
          (request_end_with_context world clock none end_options request client).1,
      (request_end_with_context world clock none end_options request client).2
          ∷ refused (request_ending world clock) calls,
    )
request_ends_once_example =
    request_ends_once world clock (λ c. c) (none, end_options) calls request client

request_identity_example :
    identity (request_finished_event clock none (pos 7) request end_options)
    ≡ identity (request_started_event clock request start_options)
request_identity_example =
    request_identity world clock none none (pos 7) start_options end_options client (inl refl)

abbrev below : Context
below = (start_span world clock none "load" [] client).1

nested_span_example :
    ((start_span world clock below "query" [] (met client)).2.parent_span_id
      ≡ (start_span world clock none "load" [] client).2.span_id)
    × ((start_span world clock below "query" [] (met client)).2.request.request_id
        ≡ (start_span world clock none "load" [] client).2.request.request_id)
    × ((start_span world clock below "query" [] (met client)).2.request.trace_id
        ≡ (start_span world clock none "load" [] client).2.request.trace_id)
nested_span_example = nested_span world clock none "load" "query" [] [] client (met client)

started_event_iff_example :
    (validate_by_type platform (request_started_event clock request start_options) ≡ none) ↔ (
      IsClean (first_non_empty ("r1" ∷ (request_from_context none).request_id ∷ []))
      × IsClean (first_non_empty ("" ∷ (request_from_context none).trace_id ∷ []))
      × (Present (first_non_empty ("" ∷ (request_from_context none).operation ∷ []))
          ⊎ ((first_non_empty ("" ∷ (request_from_context none).operation ∷ []) ≡ "")
              × (Present "GET"
                  ⊎ Present "/orders"
                  ⊎ ((start_options.method ≡ "") × (start_options.path ≡ ""))))))
started_event_iff_example = started_event_iff platform world clock formats none start_options client

abbrev failed_status : String
failed_status = "failed"

span_event_iff_example :
    (validate_by_type platform
        (span_event clock (pos 9) failed_status (new_span world clock none "load" [] client))
      ≡ none)
    ↔ (IsClean (request_from_context none).trace_id
        × Present "load"
        × ((failed_status ≡ "") ⊎ IsStatus failed_status))
span_event_iff_example =
    span_event_iff platform world clock formats none "load" [] client (pos 9) failed_status
