-- ===== src/Gin/Middleware.antt =====
-- integrations/gin/gin.go: `Middleware` and `Recovery`. The handlers behind them change the context and
-- the client, and they return or panic with a value, which is known by its text. What `Abort` and
-- `AbortWithStatus` do to the context is the record `Aborts`.
use Prim.Native.String.{◌++◌}
use logcenter_sdk_go.Base.{ℤ, pos, String, List, none, some, if◌then◌else◌}
use logcenter_sdk_go.Types.{str, end, entry, ErrorOptions, severity_error}
use logcenter_sdk_go.Times.{Clock}
use logcenter_sdk_go.Context.{default_to}
use logcenter_sdk_go.Client.{Client, World}
use logcenter_sdk_go.Logging.{record_error}
use logcenter_sdk_go.Requests.{Request, RequestEndOptions, start_request, request_end_with_context}
use logcenter_sdk_go.Http.Request.{with_context}
use logcenter_sdk_go.Http.Body.{Decoders}
use logcenter_sdk_go.Http.Middleware.{status_of_code}
use logcenter_sdk_go.Exchange.Defs.{is_zero}
use logcenter_sdk_go.Gin.Defs.{
  GinContext, GinConfig, GinOption, no_gin_config, new_config, gin_route_template, gin_merge_fields,
  from_gin, gin_data, gin_start_options,
}

pub record Aborts : Type 0 where
  pub abort : GinContext → GinContext
  pub abort_with_status : ℤ → GinContext → GinContext

-- How the handlers end.
pub data Ending : Type 0 where
  returned : Ending
  panicked : String → Ending

abbrev pub GinHandlers : Type 0
GinHandlers = GinContext → Client → GinContext × Client × Ending

-- `c.Writer.Status()`, and 200 for 0.
abbrev pub final_status : GinContext → ℤ
final_status c = if is_zero c.status then pos 200 else c.status

abbrev pub gin_end_options : GinContext → RequestEndOptions
gin_end_options c = record {
  status = status_of_code (final_status c);
  http_status = some (final_status c);
  finished_at = none;
  metadata = none;
  data_fields = none;
}

module _ (decoders : Decoders) where
  -- The error that `Recovery` records for a panic, given the trace of the stack.
  unfoldable pub recovery_options : GinConfig → GinContext → String → ErrorOptions
  recovery_options config c stack = record {
    idempotency_key = "";
    classification = "";
    retention_hint = "";
    code = default_to config.panic_code "PANIC";
    type = "panic";
    severity = severity_error;
    fingerprint = "";
    stack_trace = stack;
    message = "";
    metadata =
        gin_merge_fields
          (some (
            entry "method" (str c.request.method) (
              entry "path" (str c.request.path) (
                entry "route_template" (str (gin_route_template config c))
                  (entry "client_ip" (str c.client_ip) end)))))
          (from_gin none config.metadata_func c);
    data_fields = (gin_data decoders config c).0;
  }

  module _ (world : World) (clock : Clock) where
    -- What follows the handlers: a panic passes through, without the end of the request.
    unfoldable pub after_next :
        Request → GinContext × Client × Ending → GinContext × Client × Ending
    after_next request (c, client, panicked value) = (c, client, panicked value)
    after_next request (c, client, returned) = (
      c,
      (request_end_with_context world clock c.request.context (gin_end_options c) request client).1,
      returned,
    )

    unfoldable pub gin_middleware : List GinOption → GinHandlers → GinHandlers
    gin_middleware options next c client =
        let config = new_config options no_gin_config in
        let (started, ctx, request) =
          start_request world clock c.request.context (gin_start_options decoders config c)
            client in
        let given = record c { request = with_context ctx (gin_data decoders config c).1 } in
        after_next request (next given started)

  module _ (world : World) (aborts : Aborts) (stack : String) where
    -- After the error is recorded, with the request after `config.data`.
    abbrev pub aborted : GinContext → GinContext
    aborted c = if c.written then aborts.abort c else aborts.abort_with_status (pos 500) c

    -- The deferred function: a panic ends here.
    unfoldable pub recover : GinConfig → GinContext × Client × Ending → GinContext × Client × Ending
    recover config (c, client, returned) = (c, client, returned)
    recover config (c, client, panicked value) = (
      aborted (record c { request = (gin_data decoders config c).1 }),
      (record_error world c.request.context (some ("panic: " ++ value))
          (recovery_options config c stack) client).0,
      returned,
    )

    unfoldable pub gin_recovery : List GinOption → GinHandlers → GinHandlers
    gin_recovery options next c client = recover (new_config options no_gin_config) (next c client)
