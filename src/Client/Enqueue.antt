-- ===== src/Client/Enqueue.antt =====
-- An event on its way into the buffer.
use logcenter_sdk_go.Base.{
  ℕ, suc, String, [], ◌∷◌, Bool, true, false, Option, none, some, if◌then◌else◌, trim_space,
}
use logcenter_sdk_go.Types.{Event}
use logcenter_sdk_go.Errors.{Error, event_drop_reason}
use logcenter_sdk_go.Config.{Config}
use logcenter_sdk_go.Redaction.{redact_event}
use logcenter_sdk_go.Limit.{limit_event}
use logcenter_sdk_go.Validation.{validate_event}
use logcenter_sdk_go.Queue.{EventQueue, QueuePushResult, push}
use logcenter_sdk_go.Tamper.{apply}
use logcenter_sdk_go.Context.{Context, default_to, new_id, with_context_fields}
use logcenter_sdk_go.Client.Same.{deep_equal}
use logcenter_sdk_go.Client.Defs.{
  World, Client, set_client_error, event_dropped, event_truncated, add_dropped, add_queued,
  add_truncated, persist_outbox, signal,
}

-- `withDefaults`, given the random part of a new identifier and the time.
unfoldable pub with_defaults : String → String → Config → Event → Event
with_defaults random now config event =
    let key = trim_space event.idempotency_key in
    let id = default_to (default_to event.event_id key) (new_id "evt_" random) in
    record event {
      event_id = id;
      idempotency_key = default_to key id;
      occurred_at = default_to event.occurred_at now;
      environment = default_to event.environment config.environment;
      service = default_to event.service config.service;
      service_version = default_to event.service_version config.version;
    }

-- What a step of the client leaves behind.
pub record Prepared : Type 0 where
  pub client : Client
  pub event : Event
  pub err : Option Error

module _ (world : World) where
  unfoldable pub apply_tamper_evidence : Event → Client → Prepared
  apply_tamper_evidence event client = elim client.tamper [
    | none ↦ record { client = client; event = event; err = none }
    | some tamper ↦
        let applied =
          apply world.platform (world.save_faults client.ticks) tamper client.tamper_file event in
        record {
          client = record client {
            tamper = some applied.evidence;
            tamper_file = applied.file;
            ticks = suc client.ticks;
          };
          event = applied.event;
          err = applied.err;
        }
  ]

  -- The part of `prepareEvent` after the limits.
  unfoldable pub checked : Prepared → Prepared
  checked prepared = elim prepared.err [
    | some err ↦ prepared
    | none ↦ record prepared { err = validate_event world.platform prepared.event }
  ]

  unfoldable pub count_truncated : Event → Event → Client → Client
  count_truncated before after client =
      if deep_equal before after
      then client
      else event_truncated before after "payload_limit" (add_truncated client)

  -- `prepareEvent` from the result of the limits on.
  unfoldable pub after_limit : Event → Event × Option Error → Client → Prepared
  after_limit before (limited, none) client =
      checked (apply_tamper_evidence limited (count_truncated before limited client))
  after_limit before (limited, some err) client = record {
    client = client;
    event = limited;
    err = some err;
  }

  -- The event as it is before the limits, given how often the outside was met before.
  unfoldable pub redacted_event : ℕ → Event → Client → Event
  redacted_event ticks event client =
      redact_event world.platform client.redactor
        (with_defaults (world.random ticks) (world.now ticks) client.config event)

  unfoldable pub prepare_event : Event → Client → Prepared
  prepare_event event client =
      let before = redacted_event client.ticks event client in
      after_limit before (limit_event client.limiter before)
        (record client { ticks = suc client.ticks })

  -- An event that is given up, and the error for it if there is one.
  unfoldable pub drop_event : Event → String → Option Error → Client → Client
  drop_event event reason err client = event_dropped event reason err (add_dropped client)

  unfoldable pub drop_invalid : Event → Error → Client → Client
  drop_invalid event err client =
      event_dropped event (event_drop_reason err) (some err)
        (set_client_error (some err) (add_dropped client))

  -- `enqueue` from the result of `push` on.
  unfoldable pub after_push : EventQueue × QueuePushResult → Client → Client × Bool
  after_push (queue, result) client =
      let pushed = record client { queue = queue } in
      let counted : Client = elim result.dropped [
        | none ↦ pushed
        | some dropped ↦ drop_event dropped result.drop_reason none pushed
      ] in
      if result.queued then (signal (add_queued counted), true) else (counted, false)

  unfoldable pub push_prepared : Prepared → Client × Bool
  push_prepared prepared = elim prepared.err [
    | some err ↦ (drop_invalid prepared.event err prepared.client, false)
    | none ↦
        let client = persist_outbox world (prepared.event ∷ []) prepared.client in
        after_push (push client.queue prepared.event) client
  ]

  unfoldable pub enqueue : Event → Client → Client × Bool
  enqueue event client =
      if client.disabled
      then (client, false)
      else if client.closed
      then (drop_event event "client_closed" none client, false)
      else push_prepared (prepare_event event client)

  unfoldable pub send_event : Context → Event → Client → Client × Bool
  send_event ctx event client = enqueue (with_context_fields ctx event) client
