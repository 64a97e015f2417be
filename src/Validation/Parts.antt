-- ===== src/Validation/Parts.antt =====
-- Each check passes exactly when its rule holds.
use logcenter_sdk_go.Base.{
  ℤ, ◌≡◌, refl, inl, inr, ◌↔◌, String, List, [], ◌∷◌, true, Option, none, some, arith, eq_iff,
  str_mem, not,
}
use logcenter_sdk_go.Types.{
  Value, null, map, fields, arr, changes, end, entry, nil, cons, done, change, Fields,
}
use logcenter_sdk_go.Json.{marshal}
use logcenter_sdk_go.Platform.{Platform}
use logcenter_sdk_go.Validation.Fields.{
  ◌>>◌, Check, fail_if, is_error, required, validate_duration, validate_status, validate_json_value,
  validate_json_fields, changes_shape, validate_changes, allowed_statuses,
}
use logcenter_sdk_go.Validation.Defs.{parse_required_event_time}
use logcenter_sdk_go.Errors.{Error, invalid_event}
use Prim.Native.String.{◌++◌}
use logcenter_sdk_go.Validation.Rules.{
  Present, OneOf, HasJson, FieldsHaveJson, IsChangeList, no_change, of_changes, of_array, of_map,
  of_fields, HasDuration, IsStatus, IsTime,
}

pub >>-none_iff : (a b : Check) → ((a >> b) ≡ none) ↔ ((a ≡ none) × (b ≡ none))
>>-none_iff none b = (λ h. (refl, h), λ h. h.1)
>>-none_iff (some e) b = (λ h. cc, λ h. cc h.0)

pub required_iff : (field value : String) → (required field value ≡ none) ↔ Present value
required_iff field value = ground arith

pub str_mem_iff : (xs : List String) (s : String) → (str_mem s xs ≡ true) ↔ OneOf xs s
unfolding str_mem
str_mem_iff [] s = (λ h. cc, λ h. absurd h)
str_mem_iff (x ∷ xs) s = ground (arith, eq_iff x s, str_mem_iff xs s)

pub fail_unless-mem_iff :
    (xs : List String) (s : String) (e : Error)
    → (fail_if (not (str_mem s xs)) e ≡ none) ↔ OneOf xs s
fail_unless-mem_iff xs s e = ground (arith, str_mem_iff xs s)

pub duration_iff : (d : Option ℤ) → (validate_duration d ≡ none) ↔ HasDuration d
unfolding validate_duration
duration_iff none = (λ h. cc, λ h. absurd h)
duration_iff (some d) = ground arith

pub IsStatus-iff : (s : String) → (validate_status s ≡ none) ↔ IsStatus s
unfolding validate_status
IsStatus-iff s = ground (arith, str_mem_iff allowed_statuses s)

abbrev json_error : String → Error
json_error field = invalid_event (field ++ " must be valid JSON")

marshalled_iff :
    (m : Option String) (e : Error)
    → (fail_if (is_error m) e ≡ none) ↔ ((text : String) × (m ≡ some text))
marshalled_iff none e = (λ h. cc, λ h. let (t, p) = h in cc)
marshalled_iff (some text) e = (λ h. (text, refl), λ h. refl)

pub json_value_iff : (field : String) (v : Value) → (validate_json_value field v ≡ none) ↔ HasJson v
unfolding validate_json_value
json_value_iff field null = (λ h. inl refl, λ h. refl)
json_value_iff field v = (
  λ h. inr ((marshalled_iff (marshal v) (json_error field)).0 h),
  λ h. elim h [ inl e ↦ cc | inr p ↦ (marshalled_iff (marshal v) (json_error field)).1 p ],
)

pub json_fields_iff :
    (field : String) (f : Fields) → (validate_json_fields field f ≡ none) ↔ FieldsHaveJson f
unfolding validate_json_fields validate_json_value
json_fields_iff field none = (λ h. tt, λ h. refl)
json_fields_iff field (some es) = marshalled_iff (marshal (fields es)) (json_error field)

pub changes_iff : (v : Value) → (validate_changes v ≡ none) ↔ (IsChangeList v × HasJson v)
unfolding validate_changes changes_shape
changes_iff null = (λ h. (no_change, inl refl), λ h. refl)
changes_iff (changes (change f old new cs)) =
    let j = json_value_iff "changes" (changes (change f old new cs)) in
    (λ h. (of_changes, j.0 h), λ h. j.1 h.1)
changes_iff (arr (cons v vs)) =
    let j = json_value_iff "changes" (arr (cons v vs)) in (λ h. (of_array, j.0 h), λ h. j.1 h.1)
changes_iff (map (entry k v es)) =
    let j = json_value_iff "changes" (map (entry k v es)) in (λ h. (of_map, j.0 h), λ h. j.1 h.1)
changes_iff (fields (entry k v es)) =
    let j = json_value_iff "changes" (fields (entry k v es)) in
    (λ h. (of_fields, j.0 h), λ h. j.1 h.1)
changes_iff (changes done) = (λ h. cc, λ h. elim h.0 [ ])
changes_iff (arr nil) = (λ h. cc, λ h. elim h.0 [ ])
changes_iff (map end) = (λ h. cc, λ h. elim h.0 [ ])
changes_iff (fields end) = (λ h. cc, λ h. elim h.0 [ ])
changes_iff _ = (λ h. cc, λ h. elim h.0 [ ])

pub IsTime-iff :
    (platform : Platform) (field value : String)
    → (parse_required_event_time platform field value ≡ none) ↔ IsTime platform value
unfolding parse_required_event_time
IsTime-iff platform field value = ground arith
