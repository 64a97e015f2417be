-- ===== src/Config/Defs.antt =====
-- The configuration and its defaults. Durations are in nanoseconds.
use Prim.Native.Char.{code}
use logcenter_sdk_go.Base.{
  ℕ, ◌*◌, ℤ, pos, String, List, Bool, true, Option, none, some, if◌then◌else◌, leb_ℤ, ltb_ℤ, ◌==◌,
  ◌&&◌, num_eq, trim_space, is_blank,
}
use logcenter_sdk_go.Types.{Fields, str, Entries, end, entry}

abbrev pub version : String
version = "0.1.0"

abbrev pub default_max_string_bytes : ℤ
default_max_string_bytes = pos 0

abbrev pub default_max_metadata_bytes : ℤ
default_max_metadata_bytes = pos (1024 * 1024)

abbrev pub default_max_data_bytes : ℤ
default_max_data_bytes = pos (5 * 1024 * 1024)

abbrev pub default_max_audit_value_bytes : ℤ
default_max_audit_value_bytes = pos (1024 * 1024)

abbrev pub default_max_event_bytes : ℤ
default_max_event_bytes = pos (5 * 1024 * 1024)

abbrev pub default_max_batch_bytes : ℤ
default_max_batch_bytes = pos (20 * 1024 * 1024)

-- `MaxJSONValueBytes = DefaultMaxEventBytes`.
abbrev pub max_json_value_bytes : ℕ
max_json_value_bytes = 5 * 1024 * 1024

-- `*http.Client`: the default client, or one of the caller's.
pub data HttpClient : Type 0 where
  default_client : HttpClient
  custom : ℕ → HttpClient

-- Which hooks are set (logcenter/hooks.go). What a hook does with its argument, a panic included, has
-- no effect on the client, since `callHook` recovers.
pub record Hooks : Type 0 where
  pub on_event_dropped : Bool
  pub on_event_truncated : Bool
  pub on_batch_failed : Bool
  pub on_event_rejected : Bool
  pub on_error_changed : Bool

-- `TamperEvidenceConfig` of logcenter/tamper.go.
pub record TamperEvidenceConfig : Type 0 where
  pub enabled : Bool
  pub chain_id : String
  pub secret : String
  pub state_path : String
  pub metadata_key : String
  pub event_types : List String
  pub classifications : List String

pub record Config : Type 0 where
  pub enabled : Option Bool
  pub endpoint : String
  pub api_key : String
  pub environment : String
  pub service : String
  pub version : String
  pub timeout : ℤ
  pub send_timeout : ℤ
  pub flush_timeout : ℤ
  pub close_timeout : ℤ
  pub buffer_size : ℤ
  pub batch_size : ℤ
  pub flush_interval : ℤ
  pub retry_attempts : ℤ
  pub http_client : Option HttpClient
  pub source : Fields
  pub hooks : Hooks
  pub outbox_path : String
  pub tamper_evidence : TamperEvidenceConfig
  pub sensitive_key_fragments : List String
  pub max_string_bytes : ℤ
  pub max_metadata_bytes : ℤ
  pub max_data_bytes : ℤ
  pub max_audit_value_bytes : ℤ
  pub max_event_bytes : ℤ
  pub max_batch_bytes : ℤ

unfoldable pub is_enabled : Config → Bool
is_enabled config = elim config.enabled [ none ↦ true | some enabled ↦ enabled ]

-- `runtime.Version()` is an argument.
unfoldable pub default_source : String → Entries
default_source runtime_version =
    entry "sdk" (str "logcenter-go")
      (entry "sdk_version" (str version) (entry "runtime" (str runtime_version) end))

-- `strings.TrimRight(s, "/")`.
trim_slashes : String → String
trim_slashes String.[] = ""
trim_slashes (String.◌∷◌ c s) =
    let rest = trim_slashes s in
    if num_eq (code c) b'/' && rest == "" then "" else String.◌∷◌ c rest

-- `if value <= 0 { value = fallback }`.
abbrev pub positive_or : ℤ → ℤ → ℤ
positive_or value fallback = if leb_ℤ value (pos 0) then fallback else value

abbrev pub non_blank_or : String → String → String
non_blank_or value fallback = if is_blank value then fallback else value

abbrev pub nonnil_or {ℓ} : {A : Type ℓ} → Option A → A → Option A
nonnil_or none fallback = some fallback
nonnil_or (some a) fallback = some a

abbrev second : ℕ
second = 1000000000

unfoldable pub normalized : String → Config → Config
unfolding trim_slashes default_source
normalized runtime_version config =
    let timeout = positive_or config.timeout (pos (2 * second)) in
    let buffer_size = positive_or config.buffer_size (pos 1000) in
    let batch_size = positive_or config.batch_size (pos 100) in
    record config {
      endpoint = trim_slashes (trim_space config.endpoint);
      environment = non_blank_or config.environment "development";
      service = non_blank_or config.service "go-service";
      timeout = timeout;
      send_timeout = positive_or config.send_timeout timeout;
      buffer_size = buffer_size;
      batch_size = if ltb_ℤ buffer_size batch_size then buffer_size else batch_size;
      flush_interval = positive_or config.flush_interval (pos second);
      retry_attempts = if ltb_ℤ config.retry_attempts (pos 0) then pos 0 else config.retry_attempts;
      http_client = nonnil_or config.http_client HttpClient.default_client;
      source = nonnil_or config.source (default_source runtime_version);
      max_string_bytes = positive_or config.max_string_bytes default_max_string_bytes;
      max_metadata_bytes = positive_or config.max_metadata_bytes default_max_metadata_bytes;
      max_data_bytes = positive_or config.max_data_bytes default_max_data_bytes;
      max_audit_value_bytes =
          positive_or config.max_audit_value_bytes default_max_audit_value_bytes;
      max_event_bytes = positive_or config.max_event_bytes default_max_event_bytes;
      max_batch_bytes = positive_or config.max_batch_bytes default_max_batch_bytes;
    }
