-- ===== src/Validation/Rules.antt =====
-- When an event is valid, said without the order of the checks.
use logcenter_sdk_go.Base.{
  ℤ, pos, ◌≡◌, ◌⊎◌, String, List, [], ◌∷◌, true, false, Option, none, some, ltb_ℤ, is_blank,
  trim_space,
}
use logcenter_sdk_go.Types.{
  Value, null, map, fields, arr, changes, entry, cons, change, Fields, Event,
}
use logcenter_sdk_go.Json.{marshal}
use logcenter_sdk_go.Platform.{Platform}
use logcenter_sdk_go.Validation.Fields.{
  allowed_levels, allowed_statuses, allowed_classifications, allowed_retention_hints, is_null,
  no_fields,
}

-- The text has a character that is no space.
abbrev pub Present : String → Type 0
Present value = is_blank value ≡ false

abbrev pub OneOf : List String → String → Type 0
OneOf [] s = ⊥
OneOf (x ∷ xs) s = (s ≡ x) ⊎ OneOf xs s

-- A value that is nil or has a JSON text.
abbrev pub HasJson : Value → Type 0
HasJson v = (v ≡ null) ⊎ ((text : String) × (marshal v ≡ some text))

abbrev pub FieldsHaveJson : Fields → Type 0
FieldsHaveJson none = Unit
FieldsHaveJson (some es) = (text : String) × (marshal (fields es) ≡ some text)

-- Changes are nil, or an object or array that is not empty and has a JSON text.
pub data IsChangeList : Value → Type 0 where
  no_change : IsChangeList null
  of_changes : {f : _} {old new : Value} {cs : _} → IsChangeList (changes (change f old new cs))
  of_array : {v : Value} {vs : _} → IsChangeList (arr (cons v vs))
  of_map : {k : _} {v : Value} {es : _} → IsChangeList (map (entry k v es))
  of_fields : {k : _} {v : Value} {es : _} → IsChangeList (fields (entry k v es))

-- A duration that is there and not negative.
abbrev pub HasDuration : Option ℤ → Type 0
HasDuration none = ⊥
HasDuration (some d) = ltb_ℤ d (pos 0) ≡ false

abbrev pub IsStatus : String → Type 0
IsStatus status = Present status × OneOf allowed_statuses status

module _ (platform : Platform) where
  abbrev pub IsTime : String → Type 0
  IsTime value = Present value × (platform.is_rfc3339 value ≡ true)

  -- The rules of each type of event. No other type is valid.
  pub data Rules (e : Event) : Type 0 where
    request_started :
        e.event_type ≡ "request_started"
        → Present e.request_id × Present e.trace_id × Present e.operation × IsTime e.started_at
        → Rules e
    request_finished :
        e.event_type ≡ "request_finished"
        → Present e.request_id
          × Present e.trace_id
          × IsStatus e.status
          × IsTime e.finished_at
          × HasDuration e.duration_ms
        → Rules e
    span :
        e.event_type ≡ "span"
        → Present e.trace_id
          × Present e.span_id
          × Present e.name
          × IsTime e.started_at
          × IsTime e.finished_at
          × HasDuration e.duration_ms
          × IsStatus e.status
        → Rules e
    log_event :
        e.event_type ≡ "log_event"
        → Present e.level × OneOf allowed_levels e.level × Present e.message
        → Rules e
    error_event :
        e.event_type ≡ "error_event"
        → (Present e.error_code ⊎ Present e.error_message) × Present e.severity
        → Rules e
    audit_event :
        e.event_type ≡ "audit_event"
        → Present e.action
          × Present e.entity_type
          × Present e.entity_id
          × ((is_null e.changes ≡ false)
              ⊎ (is_null e.old_value ≡ false)
              ⊎ (is_null e.new_value ≡ false))
          × (IsChangeList e.changes × HasJson e.changes)
          × HasJson e.old_value
          × HasJson e.new_value
        → Rules e
    provider_exchange :
        (e.event_type ≡ "external_provider_exchange") ⊎ (e.event_type ≡ "fiscal_provider_exchange")
        → Present e.operation × (no_fields e.data_fields ≡ false)
        → Rules e

  pub record IsValid (e : Event) : Type 0 where
    pub keys_match :
        (is_blank e.idempotency_key ≡ true) ⊎ (trim_space e.event_id ≡ trim_space e.idempotency_key)
    pub event_id : Present e.event_id
    pub event_type : Present e.event_type
    pub occurred_at : IsTime e.occurred_at
    pub environment : Present e.environment
    pub service : Present e.service
    pub classification :
        (is_blank e.classification ≡ true)
        ⊎ OneOf allowed_classifications (trim_space e.classification)
    pub retention_hint :
        (is_blank e.retention_hint ≡ true)
        ⊎ OneOf allowed_retention_hints (trim_space e.retention_hint)
    pub metadata : FieldsHaveJson e.metadata
    pub data_fields : FieldsHaveJson e.data_fields
    pub rules : Rules e
