-- ===== src/Validation/Fields.antt =====
-- The checks of single fields. `some` is the error of the first check that fails.
use Prim.Native.String.{◌++◌}
use logcenter_sdk_go.Base.{
  ℤ, pos, String, List, [], ◌∷◌, Bool, true, false, Option, none, some, ◌&&◌, not, ltb_ℤ, is_blank,
  trim_space, str_mem,
}
use logcenter_sdk_go.Types.{
  Value, null, map, fields, arr, changes, end, entry, nil, cons, done, change, Fields,
}
use logcenter_sdk_go.Errors.{Error, invalid_event}
use logcenter_sdk_go.Json.{marshal}

abbrev pub allowed_levels : List String
allowed_levels = "debug" ∷ "info" ∷ "warn" ∷ "error" ∷ "fatal" ∷ []

abbrev pub allowed_statuses : List String
allowed_statuses =
    "started" ∷ "success" ∷ "failed" ∷ "timeout" ∷ "canceled" ∷ "ignored" ∷ "retrying" ∷ []

abbrev pub allowed_classifications : List String
allowed_classifications = "operational" ∷ "security" ∷ "audit" ∷ "critical" ∷ "privacy" ∷ []

abbrev pub allowed_retention_hints : List String
allowed_retention_hints = "default" ∷ "short" ∷ "standard" ∷ "long" ∷ "audit" ∷ "privacy" ∷ []

-- `nil` or an error; `>>` goes on while there is none.
abbrev pub Check : Type 0
Check = Option Error

infixr 5 ◌>>◌
abbrev pub ◌>>◌ : Check → Check → Check
none >> next = next
some err >> next = some err

-- `if failed { return err }`.
abbrev pub fail_if : Bool → Error → Check
fail_if true err = some err
fail_if false err = none

unfoldable pub required_event_field : String → Error
required_event_field field = invalid_event (field ++ " is required")

-- `if strings.TrimSpace(value) == "" { return requiredEventField(field) }`.
abbrev pub required : String → String → Check
required field value = fail_if (is_blank value) (required_event_field field)

unfoldable pub validate_duration : Option ℤ → Check
validate_duration none = some (required_event_field "duration_ms")
validate_duration (some duration) =
    fail_if (ltb_ℤ duration (pos 0)) (invalid_event "duration_ms cannot be negative")

unfoldable pub validate_status : String → Check
validate_status status =
    required "status" status
    >> fail_if (not (str_mem status allowed_statuses)) (invalid_event "status is invalid")

unfoldable pub validate_classification : String → Check
validate_classification classification =
    fail_if
      (not (is_blank classification)
        && not (str_mem (trim_space classification) allowed_classifications))
      (invalid_event "classification is invalid")

unfoldable pub validate_retention_hint : String → Check
validate_retention_hint retention_hint =
    fail_if
      (not (is_blank retention_hint)
        && not (str_mem (trim_space retention_hint) allowed_retention_hints))
      (invalid_event "retention_hint is invalid")

abbrev pub is_error : Option String → Bool
is_error none = true
is_error (some text) = false

unfoldable pub validate_json_value : String → Value → Check
validate_json_value field null = none
validate_json_value field value =
    fail_if (is_error (marshal value)) (invalid_event (field ++ " must be valid JSON"))

-- A nil `Fields` in an `any` is not nil, and is JSON.
unfoldable pub validate_json_fields : String → Fields → Check
validate_json_fields field none = none
validate_json_fields field (some es) = validate_json_value field (fields es)

abbrev empty_error : Error
empty_error = invalid_event "changes cannot be empty"

-- The switch on the type of the changes.
unfoldable pub changes_shape : Value → Check
changes_shape (changes done) = some empty_error
changes_shape (changes (change f old new cs)) = none
changes_shape (arr nil) = some empty_error
changes_shape (arr (cons v vs)) = none
changes_shape (map end) = some empty_error
changes_shape (map (entry k v es)) = none
changes_shape (fields end) = some empty_error
changes_shape (fields (entry k v es)) = none
changes_shape _ = some (invalid_event "changes must be object or array")

unfoldable pub validate_changes : Value → Check
validate_changes null = none
validate_changes value = changes_shape value >> validate_json_value "changes" value

abbrev pub is_null : Value → Bool
is_null null = true
is_null _ = false

-- `len(fields) == 0`.
abbrev pub no_fields : Fields → Bool
no_fields none = true
no_fields (some end) = true
no_fields (some (entry k v es)) = false
