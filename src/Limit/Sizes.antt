-- ===== src/Limit/Sizes.antt =====
-- The encoded sizes of limited values and events.
use logcenter_sdk_go.Base.{
  ℕ, suc, ◌≤◌, ℤ, pos, ◌≡◌, refl, String, len, Option, none, some, arith, inl, inr, ◌↔◌,
  Option-cases,
}
use logcenter_sdk_go.Types.{Value, null, fields, Fields, Event}
use logcenter_sdk_go.Json.{marshal_event}
use logcenter_sdk_go.Limit.Values.{
  Limiter, json_size, fit_or_placeholder, limit_json_value, limit_fields, as_fields, limit_value,
}
use logcenter_sdk_go.Limit.Events.{limit_parts, size_error, limit_event}

json_size-null : json_size null ≡ 0
unfolding json_size
json_size-null = refl

fit_or_placeholder-le :
    (field : String) (v : Value) (n : ℕ) → json_size (fit_or_placeholder field v (pos n)) ≤ n
unfolding fit_or_placeholder
fit_or_placeholder-le field v n = ground (arith, json_size-null)

-- What stays of a value takes no more bytes of JSON than its limit: the limited value itself, the
-- placeholder, or nothing.
pub limit_json_value-le :
    (limiter : Limiter) (field : String) (v : Value) (n : ℕ)
    → json_size (limit_json_value limiter field v (pos n)) ≤ n
limit_json_value-le limiter field null n = unfold limit_json_value json_size in (omega arith)
limit_json_value-le limiter field v n =
    unfold limit_json_value in (fit_or_placeholder-le field (limit_value limiter v) n)

abbrev pub fields_size : Fields → ℕ
fields_size none = 0
fields_size (some es) = json_size (fields es)

as_fields-le : (v : Value) (n : ℕ) → json_size v ≤ n → fields_size (as_fields v) ≤ n
as_fields-le (fields es) n h = h
as_fields-le _ n h = omega arith

limit_fields-le :
    (limiter : Limiter) (field : String) (f : Fields) (n : ℕ)
    → fields_size (limit_fields limiter field f (pos n)) ≤ n
unfolding limit_fields
limit_fields-le limiter field none n = omega arith
limit_fields-le limiter field (some es) n =
    elim (Option-cases (as_fields (limit_value limiter (fields es)))) [
      | inl e ↦ rw (e, limit_fields) (omega arith)
      | inr (limited, e) ↦
          rw (e, limit_fields)
            (as_fields-le (limit_json_value limiter field (fields limited) (pos n)) n
              (limit_json_value-le limiter field (fields limited) n))
    ]

module _ (limiter : Limiter) (field : String) where
  fields_at :
      (f : Fields) {max : ℤ} (n : ℕ)
      → max ≡ pos n
      → fields_size (limit_fields limiter field f max) ≤ n
  fields_at f n h = rw h (limit_fields-le limiter field f n)

  value_at :
      (v : Value) {max : ℤ} (n : ℕ)
      → max ≡ pos n
      → json_size (limit_json_value limiter field v max) ≤ n
  value_at v n h = rw h (limit_json_value-le limiter field v n)

limit_event-parts :
    (limiter : Limiter) (e : Event) → (limit_event limiter e).0 ≡ limit_parts limiter e
unfolding limit_event
limit_event-parts limiter e = ground arith

-- After the limits, metadata, data and the audit values each fit their own limit as JSON.
pub limit_event_sizes :
    (limiter : Limiter) (e : Event) (metadata_max data_max audit_max : ℕ)
    → limiter.max_metadata_bytes ≡ pos metadata_max
    → limiter.max_data_bytes ≡ pos data_max
    → limiter.max_audit_value_bytes ≡ pos audit_max
    → let limited = (limit_event limiter e).0 in
      (fields_size limited.metadata ≤ metadata_max)
      × (fields_size limited.data_fields ≤ data_max)
      × (json_size limited.changes ≤ audit_max)
      × (json_size limited.old_value ≤ audit_max)
      × (json_size limited.new_value ≤ audit_max)
limit_event_sizes limiter e metadata_max data_max audit_max hm hd ha =
    rw (limit_event-parts limiter e) (
      unfold limit_parts in
      (
        fields_at limiter "metadata" e.metadata metadata_max hm,
        fields_at limiter "data" e.data_fields data_max hd,
        value_at limiter "changes" e.changes audit_max ha,
        value_at limiter "old_value" e.old_value audit_max ha,
        value_at limiter "new_value" e.new_value audit_max ha,
      ))

size_error-none_iff :
    (limiter : Limiter) (n : ℕ) (m : Option String)
    → limiter.max_event_bytes ≡ pos n
    → (size_error limiter m ≡ none) ↔ ((text : String) × (m ≡ some text) × (len text ≤ n))
unfolding size_error
size_error-none_iff limiter n none h = (λ e. absurd (ground arith), λ e. cc e.1)
size_error-none_iff limiter n (some text) h =
    (λ e. (text, refl, ground arith), λ e. let (t, p, q) = e in ground arith)

limit_event-error :
    (limiter : Limiter) (e : Event) (n : ℕ)
    → limiter.max_event_bytes ≡ pos (suc n)
    → (limit_event limiter e).1 ≡ size_error limiter (marshal_event (limit_parts limiter e))
unfolding limit_event
limit_event-error limiter e n h = ground arith

-- `limitEvent` succeeds exactly when the limited event has a JSON text of at most `maxEventBytes`
-- bytes, for a positive limit.
pub limit_event_iff :
    (limiter : Limiter) (e : Event) (n : ℕ)
    → limiter.max_event_bytes ≡ pos (suc n)
    → ((limit_event limiter e).1 ≡ none) ↔ (
        (text : String) × (marshal_event (limit_event limiter e).0 ≡ some text)
        × (len text ≤ suc n))
limit_event_iff limiter e n h =
    rw (limit_event-parts limiter e, limit_event-error limiter e n h)
      (size_error-none_iff limiter (suc n) (marshal_event (limit_parts limiter e)) h)
