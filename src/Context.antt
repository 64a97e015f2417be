-- ===== src/Context.antt =====
-- logcenter/context.go and logcenter/id.go: the request that a context carries, and the identifiers.
-- A context is known by the `RequestContext` that it carries, if any; a nil context carries none.
use Prim.Native.String.{◌++◌}
use logcenter_sdk_go.Base.{String, Option, none, some, ◌==◌, if◌then◌else◌, trim_space}
use logcenter_sdk_go.Types.{Event}

pub record RequestContext : Type 0 where
  pub request_id : String
  pub trace_id : String
  pub span_id : String
  pub operation : String
  pub user_id : String
  pub tenant_id : String

abbrev pub Context : Type 0
Context = Option RequestContext

abbrev pub empty_request : RequestContext
empty_request = record {
  request_id = "";
  trace_id = "";
  span_id = "";
  operation = "";
  user_id = "";
  tenant_id = "";
}

unfoldable pub context_with_request : Context → RequestContext → Context
context_with_request ctx values = some values

-- The values, or the zero value.
unfoldable pub request_from_context : Context → RequestContext
request_from_context none = empty_request
request_from_context (some values) = values

unfoldable pub context_with_request_id : Context → String → Context
unfolding request_from_context context_with_request
context_with_request_id ctx id =
    let values = request_from_context ctx in
    context_with_request ctx (record values { request_id = id })

unfoldable pub context_with_trace_id : Context → String → Context
unfolding request_from_context context_with_request
context_with_trace_id ctx id =
    let values = request_from_context ctx in
    context_with_request ctx (record values { trace_id = id })

unfoldable pub context_with_span_id : Context → String → Context
unfolding request_from_context context_with_request
context_with_span_id ctx id =
    let values = request_from_context ctx in
    context_with_request ctx (record values { span_id = id })

unfoldable pub context_with_operation : Context → String → Context
unfolding request_from_context context_with_request
context_with_operation ctx operation =
    let values = request_from_context ctx in
    context_with_request ctx (record values { operation = operation })

unfoldable pub context_with_user : Context → String → Context
unfolding request_from_context context_with_request
context_with_user ctx id =
    let values = request_from_context ctx in
    context_with_request ctx (record values { user_id = id })

unfoldable pub context_with_tenant : Context → String → Context
unfolding request_from_context context_with_request
context_with_tenant ctx id =
    let values = request_from_context ctx in
    context_with_request ctx (record values { tenant_id = id })

-- `newID(prefix)`: the random part, or the fallback's, is an argument.
abbrev pub new_id : String → String → String
new_id prefix random = prefix ++ random

-- `if value == "" { value = fallback }`.
abbrev pub default_to : String → String → String
default_to value fallback = if value == "" then fallback else value

-- `s = strings.TrimSpace(s); if s == "" { s = fallback }`.
abbrev pub trimmed_or : String → String → String
trimmed_or s fallback = default_to (trim_space s) fallback

unfoldable pub ensure_request_context : String → String → Context → Context × RequestContext
unfolding request_from_context context_with_request
ensure_request_context random random2 ctx =
    let values = request_from_context ctx in
    let filled = record values {
      request_id = default_to values.request_id (new_id "req_" random);
      trace_id = default_to values.trace_id (new_id "trc_" random2);
    } in
    (context_with_request ctx filled, filled)

-- `withContextFields` of logcenter/client.go.
unfoldable pub with_context_fields : Context → Event → Event
unfolding request_from_context
with_context_fields ctx event =
    let request = request_from_context ctx in
    record event {
      request_id = default_to event.request_id request.request_id;
      trace_id = default_to event.trace_id request.trace_id;
      span_id = default_to event.span_id request.span_id;
      user_id = default_to event.user_id request.user_id;
      tenant_id = default_to event.tenant_id request.tenant_id;
      operation = default_to event.operation request.operation;
    }
