-- ===== src/Tests/Clients.antt =====
-- The client.
use logcenter_sdk_go.Base.{pos, [], ◌∷◌, true, false, none, inr, ltb_ℤ, ◌≡◌, refl, arith}
use logcenter_sdk_go.Json.{marshal_batch}
use logcenter_sdk_go.Client.{
  new_client, prepare_event, enqueue, attempts, batch_request, send_batch_internal, drain_all,
}
use logcenter_sdk_go.Client.Accounted.{Accounted, core, enqueue-Accounted}
use logcenter_sdk_go.Client.Attempts.{Ended, Posted, flow}
use logcenter_sdk_go.Client.Draining.{attempts_lem, send_batch_internal-Ended, drain_all-empty}
use logcenter_sdk_go.Config.{normalized, is_enabled}
use logcenter_sdk_go.Client.Resending.{Resent, send_outbox-Resent}
use logcenter_sdk_go.Client.Run.{Phase, System, Steps}
use logcenter_sdk_go.Client.Finishing.{IsSending, run_finishes}
use logcenter_sdk_go.Client.Persisted.{enqueue-pending}
use logcenter_sdk_go.Client.{send_outbox}
use logcenter_sdk_go.Base.{suc, length, ◌++◌}
use logcenter_sdk_go.Json.{marshal_event}
use logcenter_sdk_go.Outbox.{lines_of}
use logcenter_sdk_go.Base.{trim_space, str_mem, subst, sym, ◌∙◌}
use logcenter_sdk_go.Types.{Event}
use logcenter_sdk_go.Validation.{
  validate_event, validate_by_type, validate_kind, kind_of, validate_log_event,
  validate_classification, validate_retention_hint, validate_json_fields, validate_json_value,
  parse_required_event_time,
}
use logcenter_sdk_go.Client.{
  deep_equal, same_value, event_truncated, add_truncated, call_hook, with_defaults, redacted_event,
  apply_tamper_evidence, checked, count_truncated, after_limit,
}
use logcenter_sdk_go.Limit.{
  limit_event, limit_parts, limit_string, truncate_string_bytes, limit_fields, limit_json_value,
}
use logcenter_sdk_go.Redaction.{
  redact_event, redact_string, redact_fields, redact_value, redact_named_value, replace_all,
}
use logcenter_sdk_go.Tamper.{new_tamper_evidence}
use logcenter_sdk_go.Config.{default_source}
use logcenter_sdk_go.Outbox.Pending.{decoded, pending, IsStorable}
use logcenter_sdk_go.Outbox.Faultless.{IsFaultless}
use logcenter_sdk_go.Tests.Data.{
  world, client, filled_client, full_queue, info_event, warn_event, outbox, platform,
}
use logcenter_sdk_go.Base.{ℕ, none, some}
use logcenter_sdk_go.Client.{Client}

is_open : client.disabled ≡ false
unfolding new_client is_enabled normalized
is_open = refl

is_not_closed : client.closed ≡ false
unfolding new_client is_enabled normalized
is_not_closed = refl

enqueue-Accounted_example :
    Accounted world
      (prepare_event world warn_event filled_client).event
      (core filled_client)
      (enqueue world warn_event filled_client).1
      (enqueue world warn_event filled_client).0
enqueue-Accounted_example = enqueue-Accounted world warn_event filled_client is_open is_not_closed

send_batch_internal-Ended_example :
    Ended world
      (attempts world client)
      true
      none
      (flow client)
      (send_batch_internal world (info_event ∷ warn_event ∷ []) true client)
    × Posted world
        (attempts world client)
        (marshal_batch (batch_request world (info_event ∷ warn_event ∷ []) client))
        client.posts
        (send_batch_internal world (info_event ∷ warn_event ∷ []) true client).0
send_batch_internal-Ended_example =
    send_batch_internal-Ended world info_event (warn_event ∷ []) true client

drain_all-empty_example : (drain_all world 2 none filled_client).0.queue.events ≡ []
drain_all-empty_example = drain_all-empty world 2 none filled_client (omega arith)

abbrev pending_client : Client
pending_client = record client { outbox = some outbox }

retries_are_two : client.config.retry_attempts ≡ pos 2
unfolding new_client normalized
retries_are_two = refl

batch_size_fits : ltb_ℤ client.config.batch_size (pos 0) ≡ false
unfolding new_client normalized
batch_size_fits = refl

three_attempts : attempts world pending_client ≡ 3
three_attempts = attempts_lem world pending_client 2 retries_are_two (omega arith)

no_faults : (n : ℕ) → IsFaultless (world.outbox_faults n)
no_faults n = (refl, refl, refl, (λ k. refl), refl, refl, refl, refl, refl)

send_outbox-Resent_example :
    Resent world
      (send_outbox world (suc (length (decoded platform (lines_of outbox.file)))) pending_client)
send_outbox-Resent_example =
    send_outbox-Resent world pending_client outbox 2 no_faults three_attempts
      (refl, batch_size_fits, (refl, (refl, tt)), (refl, tt))

-- `Close` was called while the buffer and the outbox held two events each.
abbrev busy_system : System
busy_system = record {
  client = record pending_client { closed = true; queue = full_queue };
  phase = Phase.draining false none;
  closing = true;
  in_flight = [];
}

busy_system-IsSending : IsSending world 2 busy_system.client
unfolding attempts
busy_system-IsSending = (
  three_attempts,
  inr (outbox, (three_attempts, (refl, batch_size_fits, (refl, (refl, tt)), (refl, tt)))),
)

run_finishes_example :
    (t : System) × Steps world busy_system t
    × (t.phase ≡ Phase.finished)
    × (t.client.queue.events ≡ [])
run_finishes_example =
    run_finishes world 2 no_faults busy_system busy_system-IsSending refl (λ p. cc) (λ p. cc)

-- A client without limits and without sensitive keys.
abbrev plain_client : Client
plain_client = record pending_client {
  redactor = record { fragments = [] };
  limiter = record {
    max_string_bytes = pos 0;
    max_metadata_bytes = pos 0;
    max_data_bytes = pos 0;
    max_audit_value_bytes = pos 0;
    max_event_bytes = pos 0;
  };
}

abbrev prepared_event : Event
prepared_event = record info_event { idempotency_key = "a"; service_version = "1" }

event_is_prepared :
    ((prepare_event world info_event plain_client).event ≡ prepared_event)
    × ((prepare_event world info_event plain_client).err ≡ validate_event platform prepared_event)
unfolding prepare_event after_limit limit_event limit_parts redacted_event redact_event
    with_defaults apply_tamper_evidence checked limit_string truncate_string_bytes redact_string
    limit_fields limit_json_value redact_fields redact_value redact_named_value new_client
    normalized trim_space replace_all new_tamper_evidence default_source count_truncated deep_equal
    same_value event_truncated add_truncated call_hook
event_is_prepared = (refl, refl)

event_is_valid : validate_event platform prepared_event ≡ none
unfolding validate_event validate_by_type validate_kind kind_of validate_log_event
    validate_classification validate_retention_hint validate_json_fields validate_json_value
    parse_required_event_time trim_space str_mem
event_is_valid = refl

event-IsStorable : IsStorable platform (prepare_event world info_event plain_client).event
unfolding marshal_event
event-IsStorable =
    subst (λ e. IsStorable platform e) (sym event_is_prepared.0) (_, refl, refl, refl)

enqueue-pending_example :
    pending platform (enqueue world info_event plain_client).0.outbox
    ≡ pending platform (some outbox) ++ (prepare_event world info_event plain_client).event ∷ []
enqueue-pending_example =
    enqueue-pending world info_event plain_client outbox is_open is_not_closed
      (event_is_prepared.1 ∙ event_is_valid) refl no_faults event-IsStorable
