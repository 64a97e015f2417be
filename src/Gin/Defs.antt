-- ===== src/Gin/Defs.antt =====
-- integrations/gin/gin.go: the options and what they take from a request. Of a `*gin.Context` the record
-- has what the code reads; the functions that the options give are functions of it.
use Prim.Native.String.{◌++◌}
use logcenter_sdk_go.Base.{
  ℤ, pos, String, List, [], ◌∷◌, Bool, true, false, Option, none, some, if◌then◌else◌, trim_space,
}
use logcenter_sdk_go.Types.{str, end, entry, Fields}
use logcenter_sdk_go.Context.{
  RequestContext, Context, context_with_request, context_with_user, context_with_tenant,
  context_with_operation, default_to,
}
use logcenter_sdk_go.Http.Request.{
  HttpRequest, with_context, first_header, trace_from_headers, merge_fields,
}
use logcenter_sdk_go.Http.Body.{Decoders, RequestBodyCaptureOptions, capture_http_request_body}
use logcenter_sdk_go.Http.Middleware.{with_body}
use logcenter_sdk_go.Requests.{RequestStartOptions}

-- `status` is `c.Writer.Status()` and `written` is `c.Writer.Written()`.
pub record GinContext : Type 0 where
  pub request : HttpRequest
  pub full_path : String
  pub client_ip : String
  pub status : ℤ
  pub written : Bool

pub record GinConfig : Type 0 where
  pub route_template_func : Option (GinContext → String)
  pub operation_func : Option (GinContext → String)
  pub user_id_func : Option (GinContext → String)
  pub tenant_id_func : Option (GinContext → String)
  pub metadata_func : Option (GinContext → Fields)
  pub data_func : Option (GinContext → Fields)
  pub body_capture_func : Option (GinContext → Bool)
  pub body_capture : RequestBodyCaptureOptions
  pub panic_code : String

-- An `Option` of the package, by the function that made it.
pub data GinOption : Type 0 where
  route_template_func : (GinContext → String) → GinOption
  operation_func : (GinContext → String) → GinOption
  user_id_func : (GinContext → String) → GinOption
  tenant_id_func : (GinContext → String) → GinOption
  metadata_func : (GinContext → Fields) → GinOption
  data_func : (GinContext → Fields) → GinOption
  request_body_capture_func : (GinContext → Bool) → ℤ → List String → GinOption
  panic_code : String → GinOption

abbrev pub request_body_capture : ℤ → List String → GinOption
request_body_capture max_bytes content_types =
    request_body_capture_func (λ c. true) max_bytes content_types

abbrev pub no_gin_config : GinConfig
no_gin_config = record {
  route_template_func = none;
  operation_func = none;
  user_id_func = none;
  tenant_id_func = none;
  metadata_func = none;
  data_func = none;
  body_capture_func = none;
  body_capture = record { max_bytes = pos 0; content_types = [] };
  panic_code = "";
}

unfoldable pub apply_gin_option : GinOption → GinConfig → GinConfig
apply_gin_option (route_template_func fn) config = record config { route_template_func = some fn }
apply_gin_option (operation_func fn) config = record config { operation_func = some fn }
apply_gin_option (user_id_func fn) config = record config { user_id_func = some fn }
apply_gin_option (tenant_id_func fn) config = record config { tenant_id_func = some fn }
apply_gin_option (metadata_func fn) config = record config { metadata_func = some fn }
apply_gin_option (data_func fn) config = record config { data_func = some fn }
apply_gin_option (request_body_capture_func fn max_bytes content_types) config = record config {
  body_capture_func = some fn;
  body_capture = record { max_bytes = max_bytes; content_types = content_types };
}
apply_gin_option (panic_code code) config = record config { panic_code = code }

-- `newConfig`, from the configuration so far.
unfoldable pub new_config : List GinOption → GinConfig → GinConfig
new_config [] config = config
new_config (option ∷ options) config = new_config options (apply_gin_option option config)

abbrev pub from_gin : {A : Type 0} → A → Option (GinContext → A) → GinContext → A
from_gin fallback none c = fallback
from_gin fallback (some fn) c = fn c

unfoldable pub gin_route_template : GinConfig → GinContext → String
gin_route_template config c =
    default_to (trim_space (from_gin "" config.route_template_func c))
      (default_to c.full_path c.request.path)

unfoldable pub gin_operation : GinConfig → GinContext → String → String
gin_operation config c route_template =
    default_to (trim_space (from_gin "" config.operation_func c))
      (c.request.method ++ " " ++ route_template)

-- The functions of headers and fields are the same code as in logcenter/http.go.
abbrev pub gin_first_header : HttpRequest → List String → String
gin_first_header r names = first_header r names

abbrev pub gin_trace_from_request : HttpRequest → String × String
gin_trace_from_request r = trace_from_headers r

abbrev pub gin_merge_fields : Fields → Fields → Fields
gin_merge_fields left right = merge_fields left right

abbrev pub with_ctx : (Context → Context) → GinContext → GinContext
with_ctx f c = record c { request = with_context (f c.request.context) c.request }

unfoldable pub set_request_context : GinContext → RequestContext → GinContext
set_request_context c values = with_ctx (λ ctx. context_with_request ctx values) c

unfoldable pub set_user_id : GinContext → String → GinContext
set_user_id c user_id = with_ctx (λ ctx. context_with_user ctx user_id) c

unfoldable pub set_tenant_id : GinContext → String → GinContext
set_tenant_id c tenant_id = with_ctx (λ ctx. context_with_tenant ctx tenant_id) c

unfoldable pub set_identity : GinContext → String → String → GinContext
set_identity c user_id tenant_id = set_tenant_id (set_user_id c user_id) tenant_id

unfoldable pub set_operation : GinContext → String → GinContext
set_operation c operation = with_ctx (λ ctx. context_with_operation ctx operation) c

module _ (decoders : Decoders) where
  -- `config.data(c)`, with the request after it.
  unfoldable pub gin_data : GinConfig → GinContext → Fields × HttpRequest
  gin_data config c =
      let given = from_gin none config.data_func c in
      if from_gin false config.body_capture_func c
      then with_body decoders given
          (capture_http_request_body decoders config.body_capture c.request)
      else (given, c.request)

  unfoldable pub gin_start_options : GinConfig → GinContext → RequestStartOptions
  gin_start_options config c =
      let (trace_id, parent_span_id) = gin_trace_from_request c.request in
      let route_template = gin_route_template config c in
      record {
        request_id = gin_first_header c.request ("X-LogCenter-Request-Id" ∷ "X-Request-Id" ∷ []);
        trace_id = trace_id;
        span_id = parent_span_id;
        user_id = from_gin "" config.user_id_func c;
        tenant_id = from_gin "" config.tenant_id_func c;
        operation = gin_operation config c route_template;
        method = c.request.method;
        path = c.request.path;
        route_template = route_template;
        started_at = none;
        metadata =
            gin_merge_fields
              (some (
                entry "client_ip" (str c.client_ip)
                  (entry "user_agent" (str c.request.user_agent) end)))
              (from_gin none config.metadata_func c);
        data_fields = (gin_data config c).0;
      }
