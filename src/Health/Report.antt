-- ===== src/Health/Report.antt =====
-- The report of a client, and the handler that serves it. The body of the response is the report, which
-- `encoding/json` writes by the tags of its fields.
use logcenter_sdk_go.Base.{ℤ, pos, String, List, [], ◌∷◌, not, length}
use logcenter_sdk_go.Config.{version}
use logcenter_sdk_go.Stats.{snapshot}
use logcenter_sdk_go.Client.{Client, World}
use logcenter_sdk_go.Health.{HealthReport, HealthHandlerOptions, health_status, health_http_status}

pub record HealthResponse : Type 0 where
  pub content_type : String
  pub status_code : ℤ
  pub report : HealthReport

abbrev pub no_handler_options : HealthHandlerOptions
no_handler_options = record { degraded_status_code = pos 0; disabled_status_code = pos 0 }

-- `if len(options) > 0 { handlerOptions = options[0] }`.
abbrev pub handler_options : List HealthHandlerOptions → HealthHandlerOptions
handler_options [] = no_handler_options
handler_options (given ∷ options) = given

module _ (world : World) (runtime_version : String) where
  unfoldable pub health : Client → HealthReport
  health client =
      let stats = snapshot client.stats in
      record {
        status = health_status (not client.disabled) stats;
        enabled = not client.disabled;
        sdk_version = version;
        runtime = runtime_version;
        service = client.config.service;
        environment = client.config.environment;
        queue_length = length client.queue.events;
        checked_at = world.now client.ticks;
        stats = stats;
      }

  unfoldable pub health_handler : List HealthHandlerOptions → Client → HealthResponse
  health_handler options client =
      let report = health client in
      record {
        content_type = "application/json";
        status_code = health_http_status report.status (handler_options options);
        report = report;
      }
