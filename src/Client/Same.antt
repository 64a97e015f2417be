-- ===== src/Client/Same.antt =====
-- `reflect.DeepEqual` on events. A map is compared as a map, and the types of two values have to be
-- the same: a `map[string]any` is never equal to a `Fields`.
use logcenter_sdk_go.Base.{
  ℕ, ℤ, String, List, [], ◌∷◌, Bool, true, false, not, ◌&&◌, Option, none, some, ◌==◌, leb_ℤ,
  num_eq, suc,
}
use logcenter_sdk_go.Types.{
  Value, null, str, bool, int, map, fields, arr, strs, changes, other, Entries, end, entry, Items,
  nil, cons, Changes, done, change, Fields, Event,
}
use logcenter_sdk_go.Limit.Values.{lookup}

abbrev same_bool : Bool → Bool → Bool
same_bool true b = b
same_bool false b = not b

abbrev same_int_value : ℤ → ℤ → Bool
same_int_value a b = leb_ℤ a b && leb_ℤ b a

abbrev same_int : Option ℤ → Option ℤ → Bool
same_int none none = true
same_int (some a) (some b) = same_int_value a b
same_int _ _ = false

abbrev same_text : Option String → Option String → Bool
same_text none none = true
same_text (some a) (some b) = a == b
same_text _ _ = false

abbrev same_strings : List String → List String → Bool
same_strings [] [] = true
same_strings (a ∷ as') (b ∷ bs) = a == b && same_strings as' bs
same_strings _ _ = false

abbrev size : Entries → ℕ
size end = 0
size (entry k v es) = suc (size es)

-- Two values of other types are known by their JSON texts only.
unfoldable mutual
  unfolding lookup

  pub same_value : Value → Value → Bool
  same_value null null = true
  same_value (str a) (str b) = a == b
  same_value (bool a) (bool b) = same_bool a b
  same_value (int a) (int b) = same_int_value a b
  same_value (map a) (map b) = num_eq (size a) (size b) && all_in a b
  same_value (fields a) (fields b) = num_eq (size a) (size b) && all_in a b
  same_value (arr a) (arr b) = same_items a b
  same_value (strs a) (strs b) = same_strings a b
  same_value (changes a) (changes b) = same_changes a b
  same_value (other a) (other b) = same_text a b
  same_value _ _ = false

  -- Each entry stands in the other map.
  pub all_in : Entries → Entries → Bool
  all_in end b = true
  all_in (entry k v a) b = elim (lookup k b) [
    | none ↦ false
    | some w ↦ same_value v w && all_in a b
  ]

  pub same_items : Items → Items → Bool
  same_items nil nil = true
  same_items (cons v a) (cons w b) = same_value v w && same_items a b
  same_items _ _ = false

  pub same_changes : Changes → Changes → Bool
  same_changes done done = true
  same_changes (change f old new a) (change g old' new' b) =
      f == g && same_value old old' && same_value new new' && same_changes a b
  same_changes _ _ = false

abbrev same_fields : Fields → Fields → Bool
same_fields none none = true
same_fields (some a) (some b) = same_value (fields a) (fields b)
same_fields _ _ = false

unfoldable pub deep_equal : Event → Event → Bool
deep_equal a b =
    a.event_id == b.event_id
    && a.idempotency_key == b.idempotency_key
    && a.event_type == b.event_type
    && a.occurred_at == b.occurred_at
    && a.environment == b.environment
    && a.service == b.service
    && a.service_version == b.service_version
    && a.classification == b.classification
    && a.retention_hint == b.retention_hint
    && a.request_id == b.request_id
    && a.trace_id == b.trace_id
    && a.span_id == b.span_id
    && a.parent_span_id == b.parent_span_id
    && a.user_id == b.user_id
    && a.tenant_id == b.tenant_id
    && a.operation == b.operation
    && a.status == b.status
    && a.method == b.method
    && a.path == b.path
    && a.route_template == b.route_template
    && a.kind == b.kind
    && a.name == b.name
    && a.level == b.level
    && a.message == b.message
    && a.error_code == b.error_code
    && a.error_message == b.error_message
    && a.error_type == b.error_type
    && a.severity == b.severity
    && a.fingerprint == b.fingerprint
    && a.stack_trace == b.stack_trace
    && same_int a.http_status b.http_status
    && same_int a.duration_ms b.duration_ms
    && a.started_at == b.started_at
    && a.finished_at == b.finished_at
    && a.actor_type == b.actor_type
    && a.actor_id == b.actor_id
    && a.action == b.action
    && a.entity_type == b.entity_type
    && a.entity_id == b.entity_id
    && a.field_name == b.field_name
    && same_value a.changes b.changes
    && same_value a.old_value b.old_value
    && same_value a.new_value b.new_value
    && a.reason == b.reason
    && same_fields a.metadata b.metadata
    && same_fields a.data_fields b.data_fields
