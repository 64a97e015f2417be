-- ===== src/Tests/Data.antt =====
-- The inputs of the tests.
use Prim.Native.String.{◌++◌}
use logcenter_sdk_go.Base.{
  pos, negsuc, String, [], ◌∷◌, true, false, Option, none, some, not, ◌==◌, if◌then◌else◌, num_eq,
}
use logcenter_sdk_go.Types.{Event, empty_event, entry, end, str, int}
use logcenter_sdk_go.Platform.{Platform, kept, matched}
use logcenter_sdk_go.Queue.{EventQueue}
use logcenter_sdk_go.Config.{Config, TamperEvidenceConfig}
use logcenter_sdk_go.Files.{ReplaceFaults}
use logcenter_sdk_go.Outbox.{DurableOutbox, OutboxFaults}
use logcenter_sdk_go.Tamper.{TamperEvidence, SaveFaults}
use logcenter_sdk_go.Limit.{Limiter}
use logcenter_sdk_go.Redaction.{Redactor}
use logcenter_sdk_go.Client.{Client, World, Reply, new_client}

abbrev pub info_event : Event
info_event = record empty_event {
  event_id = "a";
  event_type = "log_event";
  occurred_at = "2026-01-02T03:04:05Z";
  environment = "test";
  service = "s";
  level = "info";
  message = "hello";
}

abbrev pub debug_event : Event
debug_event = record info_event { event_id = "b"; level = "debug" }

abbrev pub warn_event : Event
warn_event = record info_event {
  event_id = "c";
  level = "warn";
  metadata = some (entry "password" (str "x") (entry "n" (int (pos 1)) end));
}

abbrev pub full_queue : EventQueue
full_queue = record { events = info_event ∷ debug_event ∷ []; capacity = 2 }

-- The decoder knows the lines of two events.
abbrev pub decode_event : String → Option Event
decode_event line =
    if line
      == "{\"event_id\":\"a\",\"event_type\":\"log_event\",\"occurred_at\":\"2026-01-02T03:04:05Z\",\"environment\":\"test\",\"service\":\"s\",\"level\":\"info\",\"message\":\"hello\"}"
    then some info_event
    else if line
        == "{\"event_id\":\"a\",\"idempotency_key\":\"a\",\"event_type\":\"log_event\",\"occurred_at\":\"2026-01-02T03:04:05Z\",\"environment\":\"test\",\"service\":\"s\",\"service_version\":\"1\",\"level\":\"info\",\"message\":\"hello\"}"
    then some (record info_event { idempotency_key = "a"; service_version = "1" })
    else if line == "b"
    then some debug_event
    else none

abbrev pub platform : Platform
platform = record {
  lower = λ c. c;
  bearer = λ s. kept s ∷ [];
  pairs = λ fragments s. if s == "token=abc" then matched s ∷ [] else kept s ∷ [];
  is_rfc3339 = λ s. not (s == "");
  decode_event = decode_event;
  sha256 = λ s. "sha256:" ++ s;
  hmac_sha256 = λ secret s. secret ++ ":" ++ s;
}

abbrev pub redactor : Redactor
redactor = record { fragments = "password" ∷ [] }

abbrev pub limiter : Limiter
limiter = record {
  max_string_bytes = pos 20;
  max_metadata_bytes = pos 30;
  max_data_bytes = pos 100;
  max_audit_value_bytes = pos 50;
  max_event_bytes = pos 400;
}

abbrev pub no_replace_faults : ReplaceFaults
no_replace_faults = record { remove_fails = false; rename_fails = false }

abbrev pub no_save_faults : SaveFaults
no_save_faults = record {
  mkdir_fails = false;
  create_fails = false;
  write_fails = false;
  close_fails = false;
  replace_faults = no_replace_faults;
}

abbrev pub no_outbox_faults : OutboxFaults
no_outbox_faults = record {
  mkdir_fails = false;
  open_fails = false;
  create_fails = false;
  write_fails = λ n. false;
  close_source_fails = false;
  close_temp_fails = false;
  remove_fails = false;
  replace_faults = no_replace_faults;
}

abbrev pub outbox : DurableOutbox
outbox = record { path = "outbox.jsonl"; file = some ("b" ∷ "not JSON" ∷ []) }

abbrev pub tamper_config : TamperEvidenceConfig
tamper_config = record {
  enabled = true;
  chain_id = "chain";
  secret = "";
  state_path = "state.json";
  metadata_key = "k";
  event_types = [];
  classifications = [];
}

abbrev pub evidence : TamperEvidence
evidence = record {
  config = tamper_config;
  event_types = [];
  classes = [];
  metadata_key = "k";
  previous_hash = "h";
  sequence = 7;
}

abbrev pub config : Config
config = record {
  enabled = none;
  endpoint = "http://x";
  api_key = "k";
  environment = "test";
  service = "s";
  version = "1";
  timeout = pos 0;
  send_timeout = pos 0;
  flush_timeout = pos 0;
  close_timeout = pos 0;
  buffer_size = pos 2;
  batch_size = pos 9;
  flush_interval = pos 0;
  retry_attempts = pos 2;
  http_client = none;
  source = none;
  hooks = record {
    on_event_dropped = true;
    on_event_truncated = true;
    on_batch_failed = true;
    on_event_rejected = true;
    on_error_changed = true;
  };
  outbox_path = "outbox.jsonl";
  tamper_evidence = record tamper_config { enabled = false };
  sensitive_key_fragments = "pin" ∷ [];
  max_string_bytes = negsuc 0;
  max_metadata_bytes = pos 0;
  max_data_bytes = pos 0;
  max_audit_value_bytes = pos 0;
  max_event_bytes = pos 0;
  max_batch_bytes = pos 0;
}

-- The server answers the first post with a status of 503 and takes the second.
abbrev pub world : World
world = record {
  platform = platform;
  now = λ n. "2026-01-02T03:04:05Z";
  random = λ n. "r";
  outbox_faults = λ n. no_outbox_faults;
  save_faults = λ n. no_save_faults;
  reply = λ n body.
      if num_eq n 1 then Reply.response (pos 503) "busy" else Reply.response (pos 200) "ok";
  decode_response = λ body. some (record {
    batch_id = "bt_r";
    received = pos 1;
    accepted = pos 1;
    duplicated = pos 0;
    rejected = pos 0;
    errors = [];
  });
}

abbrev pub client : Client
client = new_client world "go1" (λ s. none) false none (some []) config

abbrev pub filled_client : Client
filled_client = record client { queue = full_queue }
