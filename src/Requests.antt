-- ===== src/Requests.antt =====
-- logcenter/request.go, operation.go and span.go: requests, operations and spans with their events.
mod Defs
mod RequestDefs
mod OperationDefs
mod SpanDefs
pub mod Once
pub mod Merge
pub mod Present
pub mod Valid
pub mod Lineage
pub mod Within
pub use Defs.{met, replaced_by}
pub use RequestDefs.{RequestStartOptions, RequestEndOptions, Request}
pub use OperationDefs.{
  OperationStartOptions, OperationEndOptions, OperationEvent, Operation, no_start_options,
  no_end_options,
}
pub use SpanDefs.{Span, SpanOption}
unfoldable pub use Defs.{first_non_empty, merge_request_context}
unfoldable pub use RequestDefs.{
  named_operation, started_context, request_of, request_started_event, request_finished_event,
  new_request, start_request, request_end_with_context, request_end,
}
unfoldable pub use OperationDefs.{
  operation_of, operation_event_to_log_event, operation_started_event, operation_finished_event,
  ensured, new_operation, start_operation, operation_end_with_context, operation_end,
}
unfoldable pub use SpanDefs.{new_span, start_span, span_event, span_record_error, span_end}
