-- ===== src/Requests/Defs.antt =====
-- What requests, operations and spans share (logcenter/request.go and operation.go).
use logcenter_sdk_go.Base.{suc, String, List, [], ◌∷◌, none, some, ◌==◌, if◌then◌else◌}
use logcenter_sdk_go.Context.{RequestContext, Context}
use logcenter_sdk_go.Client.{Client}

unfoldable pub first_non_empty : List String → String
first_non_empty [] = ""
first_non_empty (value ∷ values) =
    let rest = first_non_empty values in if value == "" then rest else value

-- `if value != "" { base = value }`.
abbrev pub replaced_by : String → String → String
replaced_by base value = if value == "" then base else value

unfoldable pub merge_request_context : RequestContext → Context → RequestContext
merge_request_context base none = base
merge_request_context base (some values) = record base {
  request_id = replaced_by base.request_id values.request_id;
  trace_id = replaced_by base.trace_id values.trace_id;
  span_id = replaced_by base.span_id values.span_id;
  user_id = replaced_by base.user_id values.user_id;
  tenant_id = replaced_by base.tenant_id values.tenant_id;
  operation = replaced_by base.operation values.operation;
}

-- The client after it has met the outside once more.
abbrev pub met : Client → Client
met client = record client { ticks = suc client.ticks }
