-- ===== src/Limit/Values.antt =====
-- The limits on values.
use logcenter_sdk_go.Base.{
  ℕ, ◌+◌, ℤ, pos, String, len, List, [], ◌∷◌, Option, none, some, true, if◌then◌else◌, leb_ℤ, ◌==◌,
}
use logcenter_sdk_go.Types.{
  Value, null, str, bool, int, map, fields, arr, strs, changes, other, Entries, end, entry, Items,
  nil, cons, Changes, done, change, Fields,
}
use logcenter_sdk_go.Json.{marshal}
use logcenter_sdk_go.Config.{max_json_value_bytes}
use logcenter_sdk_go.Limit.Truncate.{truncate_string_bytes}

pub record Limiter : Type 0 where
  pub max_string_bytes : ℤ
  pub max_metadata_bytes : ℤ
  pub max_data_bytes : ℤ
  pub max_audit_value_bytes : ℤ
  pub max_event_bytes : ℤ

-- `m[key] = value`.
unfoldable pub put : String → Value → Entries → Entries
put k v end = entry k v end
put k v (entry j w es) = if j == k then entry k v es else entry j w (put k v es)

-- `m[key]`.
unfoldable pub lookup : String → Entries → Option Value
lookup key end = none
lookup key (entry k v es) = if k == key then some v else lookup key es

module _ (limiter : Limiter) where
  unfoldable pub limit_string : String → String
  unfolding truncate_string_bytes
  limit_string value = truncate_string_bytes value limiter.max_string_bytes

  unfoldable pub limit_strings : List String → List String
  unfolding limit_string
  limit_strings [] = []
  limit_strings (s ∷ ss) = limit_string s ∷ limit_strings ss

  -- `limitFieldsMap` goes through the map in an order that Go leaves open; here it is the order of the
  -- entries, last to first, which matters only where two keys are cut to the same text.
  unfoldable mutual
    unfolding limit_string limit_strings put

    pub limit_value : Value → Value
    limit_value (str s) = str (limit_string s)
    limit_value (map es) = fields (limit_entries es)
    limit_value (fields es) = fields (limit_entries es)
    limit_value (arr xs) = arr (limit_items xs)
    limit_value (strs ss) = strs (limit_strings ss)
    limit_value (changes cs) = changes (limit_changes cs)
    limit_value null = null
    limit_value (bool b) = bool b
    limit_value (int z) = int z
    limit_value (other m) = other m

    pub limit_entries : Entries → Entries
    limit_entries end = end
    limit_entries (entry k v es) = put (limit_string k) (limit_value v) (limit_entries es)

    pub limit_items : Items → Items
    limit_items nil = nil
    limit_items (cons v vs) = cons (limit_value v) (limit_items vs)

    pub limit_changes : Changes → Changes
    limit_changes done = done
    limit_changes (change f old new cs) =
        change (limit_string f) (limit_value old) (limit_value new) (limit_changes cs)

abbrev text_size : Option String → ℕ
text_size none = max_json_value_bytes + 1
text_size (some text) = len text

unfoldable pub json_size : Value → ℕ
json_size null = 0
json_size v = text_size (marshal v)

abbrev pub placeholder : String → Value
placeholder field =
    fields (entry "_truncated" (bool true) (entry "_truncated_field" (str field) end))

-- The choice between the limited value, the placeholder and nothing.
unfoldable pub fit_or_placeholder : String → Value → ℤ → Value
fit_or_placeholder field limited max_bytes =
    if leb_ℤ (pos (json_size limited)) max_bytes
    then limited
    else if leb_ℤ (pos (json_size (placeholder field))) max_bytes
    then placeholder field
    else null

-- `value.(Fields)`.
abbrev pub as_fields : Value → Fields
as_fields (fields es) = some es
as_fields _ = none

module _ (limiter : Limiter) where
  unfoldable pub limit_json_value : String → Value → ℤ → Value
  limit_json_value field null max_bytes = null
  limit_json_value field v max_bytes = fit_or_placeholder field (limit_value limiter v) max_bytes

  unfoldable pub limit_fields : String → Fields → ℤ → Fields
  limit_fields field none max_bytes = none
  limit_fields field (some es) max_bytes = elim (as_fields (limit_value limiter (fields es))) [
    | none ↦ none
    | some limited ↦ as_fields (limit_json_value field (fields limited) max_bytes)
  ]
