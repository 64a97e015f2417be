-- ===== src/Redaction/Values.antt =====
-- The masking of values and events.
use logcenter_sdk_go.Base.{String, Bool, none, some, if◌then◌else◌}
use logcenter_sdk_go.Types.{
  Value, null, str, bool, int, map, fields, arr, strs, changes, other, Entries, end, entry, Items,
  nil, cons, Changes, done, change, Fields, Event,
}
use logcenter_sdk_go.Platform.{Platform}
use logcenter_sdk_go.Redaction.Defs.{Redactor, redacted_value, is_sensitive_key, redact_string}

-- `RedactNamedValue`, where the redacted value is at hand.
abbrev pub named : Bool → Value → Value → Value
named sensitive null redacted = null
named sensitive v redacted = if sensitive then str redacted_value else redacted

module _ (platform : Platform) (redactor : Redactor) where
  -- Each key of a map is written once, so that the new map has an entry for each of the old.
  unfoldable mutual
    pub redact_value : Value → Value
    redact_value (map es) = fields (redact_entries es)
    redact_value (fields es) = fields (redact_entries es)
    redact_value (arr xs) = arr (redact_items xs)
    redact_value (changes cs) = changes (redact_changes cs)
    redact_value (str s) = str (redact_string platform redactor s)
    redact_value (strs ss) = strs ss
    redact_value null = null
    redact_value (bool b) = bool b
    redact_value (int z) = int z
    redact_value (other m) = other m

    pub redact_entries : Entries → Entries
    redact_entries end = end
    redact_entries (entry k v es) =
        entry k
          (if is_sensitive_key platform redactor k then str redacted_value else redact_value v)
          (redact_entries es)

    pub redact_items : Items → Items
    redact_items nil = nil
    redact_items (cons v vs) = cons (redact_value v) (redact_items vs)

    pub redact_changes : Changes → Changes
    redact_changes done = done
    redact_changes (change f old new cs) =
        change f (named (is_sensitive_key platform redactor f) old (redact_value old))
          (named (is_sensitive_key platform redactor f) new (redact_value new)) (redact_changes cs)

  unfoldable pub redact_fields : Fields → Fields
  redact_fields none = none
  redact_fields (some es) = some (redact_entries es)

  unfoldable pub redact_named_value : String → Value → Value
  redact_named_value name v = named (is_sensitive_key platform redactor name) v (redact_value v)

  unfoldable pub redact_event : Event → Event
  redact_event event = record event {
    message = redact_string platform redactor event.message;
    error_message = redact_string platform redactor event.error_message;
    stack_trace = redact_string platform redactor event.stack_trace;
    reason = redact_string platform redactor event.reason;
    metadata = redact_fields event.metadata;
    data_fields = redact_fields event.data_fields;
    changes = redact_value event.changes;
    old_value = redact_named_value event.field_name event.old_value;
    new_value = redact_named_value event.field_name event.new_value;
  }
