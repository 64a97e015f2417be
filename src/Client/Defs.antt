-- ===== src/Client/Defs.antt =====
-- The state of a client, and how it fails, counts and calls its hooks.
use logcenter_sdk_go.Base.{
  ℕ, suc, ℤ, pos, String, List, [], ◌∷◌, ◌++◌, Bool, true, false, Option, none, some, ◌&&◌, ◌||◌,
  not, if◌then◌else◌, leb_ℤ, ltb_ℤ, to_nat, get_elem?, length, add_uint64, to_uint64,
}
use logcenter_sdk_go.Types.{Event, EventError, BatchResponse}
use logcenter_sdk_go.Errors.{Error}
use logcenter_sdk_go.Config.{Config, normalized, is_enabled}
use logcenter_sdk_go.Platform.{Platform}
use logcenter_sdk_go.Redaction.{Redactor, new_redactor}
use logcenter_sdk_go.Limit.{Limiter, new_limiter}
use logcenter_sdk_go.Queue.{EventQueue, new_event_queue}
use logcenter_sdk_go.Stats.{Counters, zero_counters, set_error}
use logcenter_sdk_go.Tamper.{TamperEvidence, TamperEvidenceState, SaveFaults, new_tamper_evidence}
use logcenter_sdk_go.Outbox.{
  DurableOutbox, OutboxFaults, new_durable_outbox, append, remove, event_ids, copy_events,
}

-- A call of a hook with its argument (logcenter/hooks.go).
pub data HookCall : Type 0 where
  on_event_dropped : Event → String → Option Error → HookCall
  on_event_truncated : Event → Event → String → HookCall
  on_batch_failed : List Event → ℕ → Option Error → HookCall
  on_event_rejected : Event → EventError → HookCall
  on_error_changed : String → Option Error → HookCall

-- What the server and the network do with a post: the request cannot be made or gets no response, or
-- there is a status with a body, of which no more than 64 KiB are read.
pub data Reply : Type 0 where
  no_response : String → Reply
  response : ℤ → String → Reply

-- What the client meets outside. A number counts the times that it was met before.
pub record World : Type 0 where
  pub platform : Platform
  pub now : ℕ → String
  pub random : ℕ → String
  pub outbox_faults : ℕ → OutboxFaults
  pub save_faults : ℕ → SaveFaults
  pub reply : ℕ → String → Reply
  pub decode_response : String → Option BatchResponse

-- `ticks` counts how often the outside was met, `posts` are the bodies that were posted and
-- `hook_calls` the calls of the hooks that are set, both in their order.
pub record Client : Type 0 where
  pub config : Config
  pub disabled : Bool
  pub redactor : Redactor
  pub limiter : Limiter
  pub queue : EventQueue
  pub notified : Bool
  pub closed : Bool
  pub stats : Counters
  pub outbox : Option DurableOutbox
  pub tamper : Option TamperEvidence
  pub tamper_file : Option String
  pub ticks : ℕ
  pub posts : List String
  pub hook_calls : List HookCall

unfoldable pub call_hook : Bool → HookCall → Client → Client
call_hook is_set call client =
    if is_set then record client { hook_calls = client.hook_calls ++ call ∷ [] } else client

unfoldable pub set_client_error : Option Error → Client → Client
set_client_error err client =
    let (stats, last_error, changed) = set_error client.stats err in
    call_hook (changed && client.config.hooks.on_error_changed) (on_error_changed last_error err)
      (record client { stats = stats })

unfoldable pub event_dropped : Event → String → Option Error → Client → Client
event_dropped event reason err client =
    call_hook client.config.hooks.on_event_dropped (on_event_dropped event reason err) client

unfoldable pub event_truncated : Event → Event → String → Client → Client
event_truncated before after reason client =
    call_hook client.config.hooks.on_event_truncated (on_event_truncated before after reason) client

-- `client.stats.dropped.Add(1)`, and the like for the other counters.
unfoldable pub add_dropped : Client → Client
add_dropped client = record client {
  stats = record client.stats { dropped = add_uint64 client.stats.dropped 1 };
}

unfoldable pub add_queued : Client → Client
add_queued client = record client {
  stats = record client.stats { queued = add_uint64 client.stats.queued 1 };
}

unfoldable pub add_truncated : Client → Client
add_truncated client = record client {
  stats = record client.stats { truncated = add_uint64 client.stats.truncated 1 };
}

unfoldable pub add_failed : ℕ → Client → Client
add_failed event_count client = record client {
  stats = record client.stats {
    failed_batches = add_uint64 client.stats.failed_batches 1;
    failed_events = add_uint64 client.stats.failed_events event_count;
  };
}

unfoldable pub add_sent : ℕ → BatchResponse → Client → Client
add_sent event_count r client = record client {
  stats = record client.stats {
    sent_batches = add_uint64 client.stats.sent_batches 1;
    sent_events = add_uint64 client.stats.sent_events event_count;
    accepted = add_uint64 client.stats.accepted (to_uint64 r.accepted);
    duplicated = add_uint64 client.stats.duplicated (to_uint64 r.duplicated);
    rejected = add_uint64 client.stats.rejected (to_uint64 r.rejected);
  };
}

unfoldable pub record_batch_failure : Option Error → List Event → Client → Client
record_batch_failure err events client =
    call_hook client.config.hooks.on_batch_failed (on_batch_failed events (length events) err)
      (set_client_error err (add_failed (length events) client))

-- The event that an error of the response is about: its index has to be in range.
unfoldable pub rejected_event : List Event → EventError → Option Event
rejected_event events e =
    if ltb_ℤ e.index (pos 0) || leb_ℤ (pos (length events)) e.index
    then none
    else get_elem? events (to_nat e.index)

unfoldable pub record_event_rejections : List Event → List EventError → Client → Client
record_event_rejections events [] client = client
record_event_rejections events (e ∷ errors) client =
    record_event_rejections events errors (elim (rejected_event events e) [
      | none ↦ client
      | some event ↦
          call_hook client.config.hooks.on_event_rejected (on_event_rejected event e) client
    ])

-- `signal`: the channel holds one value, and a second one is lost.
unfoldable pub signal : Client → Client
signal client = record client { notified = true }

module _ (world : World) where
  -- The outcome of `Append` or `Remove`.
  unfoldable pub with_outbox : Option DurableOutbox × Option Error → Client → Client
  with_outbox (outbox, none) client = record client { outbox = outbox; ticks = suc client.ticks }
  with_outbox (outbox, some err) client =
      set_client_error (some err) (record client { outbox = outbox; ticks = suc client.ticks })

  unfoldable pub persist_outbox : List Event → Client → Client
  persist_outbox events client =
      with_outbox (append (world.outbox_faults client.ticks) client.outbox (copy_events events))
        client

  unfoldable pub remove_outbox : List Event → Client → Client
  remove_outbox events client =
      with_outbox
        (remove world.platform (world.outbox_faults client.ticks) client.outbox (event_ids events))
        client

  -- The client and its files, before `run` is started. The state file of the tamper evidence, whether it
  -- cannot be read and its decoder are arguments, as the lines of the outbox are.
  unfoldable pub new_client :
      String
      → (String → Option TamperEvidenceState)
      → Bool
      → Option String
      → Option (List String)
      → Config
      → Client
  new_client runtime_version decode read_fails tamper_file lines given =
      let config = normalized runtime_version given in
      let (tamper, err) =
        new_tamper_evidence decode read_fails tamper_file config.tamper_evidence in
      let stats = (set_error zero_counters err).0 in
      let disabled = not (is_enabled config) in
      record {
        config = config;
        disabled = disabled;
        redactor = new_redactor world.platform config.sensitive_key_fragments;
        limiter = new_limiter config;
        queue = new_event_queue (to_nat config.buffer_size);
        notified = false;
        closed = disabled;
        stats = stats;
        outbox = new_durable_outbox config.outbox_path lines;
        tamper = tamper;
        tamper_file = tamper_file;
        ticks = 0;
        posts = [];
        hook_calls = [];
      }
