-- ===== src/Env/Defs.antt =====
-- logcenter/env.go: the configuration from the variables of the environment. The environment is a
-- function from names to texts. The errors are values; the text of the error that each of them wraps is
-- left out. `time.ParseDuration` is a parameter.
use Prim.Native.Char.{Char, code}
use logcenter_sdk_go.Base.{
  ℕ, zero, suc, ◌+◌, ◌*◌, ◌-◌, ◌^◌, ℤ, pos, negsuc, String, List, [], ◌∷◌, Bool, true, false,
  Option, none, some, ◌&&◌, ◌==◌, if◌then◌else◌, num_eq, leb, ltb, trim_space, str_mem, ◌⊎◌, inl,
  inr,
}
use logcenter_sdk_go.Base.Split.{split}
use logcenter_sdk_go.Platform.{Platform}
use logcenter_sdk_go.Redaction.{to_lower}
use logcenter_sdk_go.Config.{Config}

abbrev pub Lookup : Type 0
Lookup = String → Option String

-- `%s must be a boolean`, `%s must be an integer` and `%s must be a duration`.
pub data EnvError : Type 0 where
  not_boolean : String → EnvError
  not_integer : String → EnvError
  not_duration : String → EnvError

abbrev pub Result : Type 0 → Type 0
Result A = EnvError ⊎ A

infixl 5 ◌>>=◌
abbrev pub ◌>>=◌ : {A B : Type 0} → Result A → (A → Result B) → Result B
inl err >>= f = inl err
inr a >>= f = f a

-- The first of the variables that is set to more than spaces.
unfoldable pub env_string : Lookup → List String → Option String
env_string lookup [] = none
env_string lookup (name ∷ names) =
    let rest = env_string lookup names in
    elim (lookup name) [
      | none ↦ rest
      | some value ↦ if trim_space value == "" then rest else some (trim_space value)
    ]

-- The text of a variable, "" where it is not set.
abbrev pub text_or_empty : Option String → String
text_or_empty none = ""
text_or_empty (some value) = value

abbrev keep_part : String → List String → List String
keep_part part rest = if trim_space part == "" then rest else trim_space part ∷ rest

unfoldable pub trimmed_parts : List String → List String
trimmed_parts [] = []
trimmed_parts (part ∷ parts) = keep_part part (trimmed_parts parts)

abbrev pub comma : Char
comma = ","

abbrev pub list_of : Option String → List String
list_of none = []
list_of (some value) = trimmed_parts (split comma value)

unfoldable pub env_list : Lookup → String → List String
env_list lookup name = list_of (env_string lookup (name ∷ []))

-- The number that decimal digits spell, `none` where the text has no digit or another character.
unfoldable pub digits_from : ℕ → String → Option ℕ
digits_from n String.[] = some n
digits_from n (String.◌∷◌ c s) =
    let d = code c in
    let rest = digits_from (10 * n + (d - b'0')) s in
    if leb b'0' d && leb d b'9' then rest else none

abbrev pub digits : String → Option ℕ
digits s = if s == "" then none else digits_from 0 s

-- `strconv.Atoi`: an optional sign and digits, within 64 bits.
abbrev in_range : Bool → Option ℕ → Option ℤ
in_range negative none = none
in_range true (some zero) = some (pos 0)
in_range true (some (suc n)) = if ltb n (2 ^ 63) then some (negsuc n) else none
in_range false (some n) = if ltb n (2 ^ 63) then some (pos n) else none

unfoldable pub atoi : String → Option ℤ
atoi String.[] = none
atoi (String.◌∷◌ c s) =
    if num_eq (code c) b'-'
    then in_range true (digits s)
    else if num_eq (code c) b'+'
    then in_range false (digits s)
    else in_range false (digits (String.◌∷◌ c s))

unfoldable pub env_int : Lookup → String → Result ℤ
env_int lookup name = elim (env_string lookup (name ∷ [])) [
  | none ↦ inr (pos 0)
  | some value ↦ elim (atoi value) [ none ↦ inl (not_integer name) | some parsed ↦ inr parsed ]
]

abbrev pub true_words : List String
true_words = "1" ∷ "t" ∷ "true" ∷ "y" ∷ "yes" ∷ "on" ∷ "enabled" ∷ []

abbrev pub false_words : List String
false_words = "0" ∷ "f" ∷ "false" ∷ "n" ∷ "no" ∷ "off" ∷ "disabled" ∷ []

module _ (platform : Platform) (parse_duration : String → Option ℤ) (lookup : Lookup) where
  unfoldable pub env_duration : String → Result ℤ
  env_duration name = elim (env_string lookup (name ∷ [])) [
    | none ↦ inr (pos 0)
    | some value ↦ elim (parse_duration value) [
      | none ↦ inl (not_duration name)
      | some parsed ↦ inr parsed
    ]
  ]

  unfoldable pub parse_env_bool : String → String → Result Bool
  parse_env_bool name value =
      let word = to_lower platform (trim_space value) in
      if str_mem word true_words
      then inr true
      else if str_mem word false_words
      then inr false
      else inl (not_boolean name)

  -- `LOGCENTER_ENABLED`, which may be left out, and `LOGCENTER_TAMPER_EVIDENCE_ENABLED`, which is false
  -- if it is left out.
  unfoldable pub env_enabled : String → Result (Option Bool)
  env_enabled name = elim (env_string lookup (name ∷ [])) [
    | none ↦ inr none
    | some value ↦ (parse_env_bool name value >>= λ enabled. inr (some enabled))
  ]

  abbrev pub text_of : List String → String
  text_of names = text_or_empty (env_string lookup names)

  abbrev pub is_set_true : Option Bool → Bool
  is_set_true none = false
  is_set_true (some enabled) = enabled

  unfoldable pub config_from_lookup : Result Config
  config_from_lookup = do
    enabled ← env_enabled "LOGCENTER_ENABLED"
    tamper_enabled ← env_enabled "LOGCENTER_TAMPER_EVIDENCE_ENABLED"
    timeout ← env_duration "LOGCENTER_TIMEOUT"
    send_timeout ← env_duration "LOGCENTER_SEND_TIMEOUT"
    flush_timeout ← env_duration "LOGCENTER_FLUSH_TIMEOUT"
    close_timeout ← env_duration "LOGCENTER_CLOSE_TIMEOUT"
    buffer_size ← env_int lookup "LOGCENTER_BUFFER_SIZE"
    batch_size ← env_int lookup "LOGCENTER_BATCH_SIZE"
    flush_interval ← env_duration "LOGCENTER_FLUSH_INTERVAL"
    retry_attempts ← env_int lookup "LOGCENTER_RETRY_ATTEMPTS"
    max_string_bytes ← env_int lookup "LOGCENTER_MAX_STRING_BYTES"
    max_metadata_bytes ← env_int lookup "LOGCENTER_MAX_METADATA_BYTES"
    max_data_bytes ← env_int lookup "LOGCENTER_MAX_DATA_BYTES"
    max_audit_value_bytes ← env_int lookup "LOGCENTER_MAX_AUDIT_VALUE_BYTES"
    max_event_bytes ← env_int lookup "LOGCENTER_MAX_EVENT_BYTES"
    max_batch_bytes ← env_int lookup "LOGCENTER_MAX_BATCH_BYTES"
    inr (record {
      enabled = enabled;
      endpoint = text_of ("LOGCENTER_ENDPOINT" ∷ []);
      api_key = text_of ("LOGCENTER_API_KEY" ∷ []);
      environment = text_of ("LOGCENTER_ENVIRONMENT" ∷ "APP_ENV" ∷ []);
      service = text_of ("LOGCENTER_SERVICE" ∷ []);
      version = text_of ("LOGCENTER_VERSION" ∷ []);
      timeout = timeout;
      send_timeout = send_timeout;
      flush_timeout = flush_timeout;
      close_timeout = close_timeout;
      buffer_size = buffer_size;
      batch_size = batch_size;
      flush_interval = flush_interval;
      retry_attempts = retry_attempts;
      http_client = none;
      source = none;
      hooks = record {
        on_event_dropped = false;
        on_event_truncated = false;
        on_batch_failed = false;
        on_event_rejected = false;
        on_error_changed = false;
      };
      outbox_path = text_of ("LOGCENTER_OUTBOX_PATH" ∷ []);
      tamper_evidence = record {
        enabled = is_set_true tamper_enabled;
        chain_id = text_of ("LOGCENTER_TAMPER_EVIDENCE_CHAIN_ID" ∷ []);
        secret = text_of ("LOGCENTER_TAMPER_EVIDENCE_SECRET" ∷ []);
        state_path = text_of ("LOGCENTER_TAMPER_EVIDENCE_STATE_PATH" ∷ []);
        metadata_key = text_of ("LOGCENTER_TAMPER_EVIDENCE_METADATA_KEY" ∷ []);
        event_types = env_list lookup "LOGCENTER_TAMPER_EVIDENCE_EVENT_TYPES";
        classifications = env_list lookup "LOGCENTER_TAMPER_EVIDENCE_CLASSIFICATIONS";
      };
      sensitive_key_fragments = env_list lookup "LOGCENTER_SENSITIVE_KEY_FRAGMENTS";
      max_string_bytes = max_string_bytes;
      max_metadata_bytes = max_metadata_bytes;
      max_data_bytes = max_data_bytes;
      max_audit_value_bytes = max_audit_value_bytes;
      max_event_bytes = max_event_bytes;
      max_batch_bytes = max_batch_bytes;
    })
