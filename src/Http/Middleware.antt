-- ===== src/Http/Middleware.antt =====
-- logcenter/http.go: the middleware of a server. The functions that the options give are functions of
-- the request. The handler behind the middleware acts on the client and writes status codes; it returns
-- or it panics.
use logcenter_sdk_go.Base.{
  ℤ, pos, String, List, [], ◌∷◌, Bool, true, false, Option, none, some, if◌then◌else◌, leb_ℤ,
  trim_space,
}
use logcenter_sdk_go.Types.{str, end, entry, Fields, status_success, status_failed}
use logcenter_sdk_go.Times.{Clock}
use logcenter_sdk_go.Context.{default_to}
use logcenter_sdk_go.Client.{Client, World}
use logcenter_sdk_go.Requests.{
  RequestStartOptions, RequestEndOptions, Request, start_request, request_end,
}
use logcenter_sdk_go.Http.Request.{
  HttpRequest, with_context, first_header, trace_from_headers, merge_fields,
}
use logcenter_sdk_go.Http.Body.{Decoders, RequestBodyCaptureOptions, capture_http_request_body}

pub record HttpMiddlewareConfig : Type 0 where
  pub route_template : String
  pub route_template_func : Option (HttpRequest → String)
  pub user_id_func : Option (HttpRequest → String)
  pub tenant_id_func : Option (HttpRequest → String)
  pub metadata_func : Option (HttpRequest → Fields)
  pub data_func : Option (HttpRequest → Fields)
  pub body_capture_func : Option (HttpRequest → Bool)
  pub body_capture : RequestBodyCaptureOptions

-- An `HTTPMiddlewareOption`, by the function that made it.
pub data HttpMiddlewareOption : Type 0 where
  http_route_template : String → HttpMiddlewareOption
  http_route_template_func : (HttpRequest → String) → HttpMiddlewareOption
  http_user_id_func : (HttpRequest → String) → HttpMiddlewareOption
  http_tenant_id_func : (HttpRequest → String) → HttpMiddlewareOption
  http_metadata_func : (HttpRequest → Fields) → HttpMiddlewareOption
  http_data_func : (HttpRequest → Fields) → HttpMiddlewareOption
  http_request_body_capture_func : (HttpRequest → Bool) → ℤ → List String → HttpMiddlewareOption

abbrev pub http_request_body_capture : ℤ → List String → HttpMiddlewareOption
http_request_body_capture max_bytes content_types =
    http_request_body_capture_func (λ r. true) max_bytes content_types

abbrev pub no_middleware_config : HttpMiddlewareConfig
no_middleware_config = record {
  route_template = "";
  route_template_func = none;
  user_id_func = none;
  tenant_id_func = none;
  metadata_func = none;
  data_func = none;
  body_capture_func = none;
  body_capture = record { max_bytes = pos 0; content_types = [] };
}

unfoldable pub apply_middleware_option :
    HttpMiddlewareOption → HttpMiddlewareConfig → HttpMiddlewareConfig
apply_middleware_option (http_route_template route) config = record config {
  route_template = route;
}
apply_middleware_option (http_route_template_func fn) config = record config {
  route_template_func = some fn;
}
apply_middleware_option (http_user_id_func fn) config = record config { user_id_func = some fn }
apply_middleware_option (http_tenant_id_func fn) config = record config { tenant_id_func = some fn }
apply_middleware_option (http_metadata_func fn) config = record config { metadata_func = some fn }
apply_middleware_option (http_data_func fn) config = record config { data_func = some fn }
apply_middleware_option (http_request_body_capture_func fn max_bytes content_types) config =
    record config {
      body_capture_func = some fn;
      body_capture = record { max_bytes = max_bytes; content_types = content_types };
    }

unfoldable pub middleware_config :
    List HttpMiddlewareOption → HttpMiddlewareConfig → HttpMiddlewareConfig
middleware_config [] config = config
middleware_config (option ∷ options) config =
    middleware_config options (apply_middleware_option option config)

-- What a function gives for a request, and what is taken where it is not set.
abbrev pub from_func : {A : Type 0} → A → Option (HttpRequest → A) → HttpRequest → A
from_func fallback none r = fallback
from_func fallback (some fn) r = fn r

unfoldable pub route_template_for : HttpMiddlewareConfig → HttpRequest → String
route_template_for config r =
    default_to (trim_space (from_func "" config.route_template_func r))
      (default_to config.route_template (default_to r.pattern r.path))

-- A handler: the client after it, the status codes that it wrote, and whether it panicked.
abbrev pub Handler : Type 0
Handler = HttpRequest → Client → Client × List ℤ × Bool

-- `statusRecorder`: the status that was written last.
unfoldable pub recorded_status : ℤ → List ℤ → ℤ
recorded_status status [] = status
recorded_status status (status_code ∷ status_codes) = recorded_status status_code status_codes

abbrev pub status_of_code : ℤ → String
status_of_code status_code = if leb_ℤ (pos 500) status_code then status_failed else status_success

module _ (decoders : Decoders) where
  -- The data of the caller with those of the body, if it was captured.
  abbrev pub with_body : Fields → Fields × HttpRequest → Fields × HttpRequest
  with_body given (none, after) = (given, after)
  with_body given (some es, after) = (merge_fields given (some es), after)

  -- `config.data(r)`, with the request after it.
  unfoldable pub middleware_data : HttpMiddlewareConfig → HttpRequest → Fields × HttpRequest
  middleware_data config r =
      let given = from_func none config.data_func r in
      if from_func false config.body_capture_func r
      then with_body given (capture_http_request_body decoders config.body_capture r)
      else (given, r)

  unfoldable pub middleware_start_options : HttpMiddlewareConfig → HttpRequest → RequestStartOptions
  middleware_start_options config r =
      let (trace_id, parent_span_id) = trace_from_headers r in
      record {
        request_id = first_header r ("X-LogCenter-Request-Id" ∷ "X-Request-Id" ∷ []);
        trace_id = trace_id;
        span_id = parent_span_id;
        user_id = from_func "" config.user_id_func r;
        tenant_id = from_func "" config.tenant_id_func r;
        operation = "";
        method = r.method;
        path = r.path;
        route_template = route_template_for config r;
        started_at = none;
        metadata =
            merge_fields
              (some (
                entry "remote_addr" (str r.remote_addr)
                  (entry "user_agent" (str r.user_agent) end)))
              (from_func none config.metadata_func r);
        data_fields = (middleware_data config r).0;
      }

  abbrev pub middleware_end_options : ℤ → RequestEndOptions
  middleware_end_options status_code = record {
    status = status_of_code status_code;
    http_status = some status_code;
    finished_at = none;
    metadata = none;
    data_fields = none;
  }

  module _ (world : World) (clock : Clock) where
    -- What follows the handler: a panic passes through, without the end of the request.
    unfoldable pub after_handler : Request → Client × List ℤ × Bool → Client × Bool
    after_handler request (client, status_codes, true) = (client, true)
    after_handler request (client, status_codes, false) =
        let status_code = recorded_status (pos 200) status_codes in
        ((request_end world clock (middleware_end_options status_code) request client).1, false)

    -- The handler that `HTTPMiddleware` makes: the client after it, and whether it panicked.
    unfoldable pub http_middleware :
        List HttpMiddlewareOption → Handler → HttpRequest → Client → Client × Bool
    http_middleware options next r client =
        let config = middleware_config options no_middleware_config in
        let (started, ctx, request) =
          start_request world clock r.context (middleware_start_options config r) client in
        after_handler request (next (with_context ctx (middleware_data config r).1) started)
