-- ===== src/Redaction/Masked.antt =====
-- What a redacted value can hold.
use logcenter_sdk_go.Base.{
  ◌≡◌, refl, String, Bool, true, false, none, some, ◌⊎◌, inl, inr, if◌then◌else◌,
}
use logcenter_sdk_go.Types.{
  Value, null, str, bool, int, map, fields, arr, strs, changes, other, Entries, end, entry, Items,
  nil, cons, Changes, done, change, Fields, Event,
}
use logcenter_sdk_go.Platform.{Platform}
use logcenter_sdk_go.Redaction.Defs.{Redactor, redacted_value, is_sensitive_key, redact_string}
use logcenter_sdk_go.Redaction.Values.{
  named, redact_value, redact_entries, redact_items, redact_changes, redact_fields,
  redact_named_value, redact_event,
}

module _ (platform : Platform) (redactor : Redactor) where
  abbrev pub Plain : String → Type 0
  Plain key = is_sensitive_key platform redactor key ≡ false

  -- A masked text is one that `RedactString` returned.
  abbrev pub IsMaskedText : String → Type 0
  IsMaskedText s = (original : String) × (s ≡ redact_string platform redactor original)

  -- A value under a name: nil or the mask, unless the name is plain.
  abbrev pub Hidden : String → Value → Type 0
  Hidden name v = Plain name ⊎ (v ≡ null) ⊎ (v ≡ str redacted_value)

  -- No text but a masked one, and nothing but the mask under a sensitive key, at any depth. A
  -- `[]string` and a value of a type that the code does not look into are as they were.
  unfoldable mutual
    pub IsMasked : Value → Type 0
    IsMasked (str s) = (s ≡ redacted_value) ⊎ IsMaskedText s
    IsMasked (map es) = ⊥
    IsMasked (fields es) = AreMaskedEntries es
    IsMasked (arr xs) = AreMaskedItems xs
    IsMasked (changes cs) = AreMaskedChanges cs
    IsMasked (strs ss) = Unit
    IsMasked null = Unit
    IsMasked (bool b) = Unit
    IsMasked (int z) = Unit
    IsMasked (other m) = Unit

    pub AreMaskedEntries : Entries → Type 0
    AreMaskedEntries end = Unit
    AreMaskedEntries (entry k v es) =
        (Plain k ⊎ (v ≡ str redacted_value)) × IsMasked v × AreMaskedEntries es

    pub AreMaskedItems : Items → Type 0
    AreMaskedItems nil = Unit
    AreMaskedItems (cons v vs) = IsMasked v × AreMaskedItems vs

    pub AreMaskedChanges : Changes → Type 0
    AreMaskedChanges done = Unit
    AreMaskedChanges (change f old new cs) =
        Hidden f old × Hidden f new × IsMasked old × IsMasked new × AreMaskedChanges cs

  named-IsMasked : (b : Bool) (v w : Value) → IsMasked w → IsMasked (named b v w)
  unfolding IsMasked
  named-IsMasked b null w h = tt
  named-IsMasked true _ w h = inl refl
  named-IsMasked false _ w h = h

  named-hidden :
      (b : Bool) (v w : Value)
      → (b ≡ false) ⊎ (named b v w ≡ null) ⊎ (named b v w ≡ str redacted_value)
  named-hidden false v w = inl refl
  named-hidden true null w = inr (inl refl)
  named-hidden true _ w = inr (inr refl)

  entry-hidden :
      (b : Bool) (w : Value)
      → (b ≡ false) ⊎ ((if b then str redacted_value else w) ≡ str redacted_value)
  entry-hidden false w = inl refl
  entry-hidden true w = inr refl

  entry-IsMasked :
      (b : Bool) (w : Value) → IsMasked w → IsMasked (if b then str redacted_value else w)
  unfolding IsMasked
  entry-IsMasked true w h = inl refl
  entry-IsMasked false w h = h

  mutual
    unfolding redact_value IsMasked

    value-IsMasked : (v : Value) → IsMasked (redact_value platform redactor v)
    value-IsMasked (str s) = inr (s, refl)
    value-IsMasked (map es) = entries-AreMasked es
    value-IsMasked (fields es) = entries-AreMasked es
    value-IsMasked (arr xs) = items-AreMasked xs
    value-IsMasked (changes cs) = changes-AreMasked cs
    value-IsMasked (strs ss) = tt
    value-IsMasked null = tt
    value-IsMasked (bool b) = tt
    value-IsMasked (int z) = tt
    value-IsMasked (other m) = tt

    entries-AreMasked : (es : Entries) → AreMaskedEntries (redact_entries platform redactor es)
    entries-AreMasked end = tt
    entries-AreMasked (entry k v es) = (
      entry-hidden (is_sensitive_key platform redactor k) _,
      entry-IsMasked (is_sensitive_key platform redactor k) _ (value-IsMasked v),
      entries-AreMasked es,
    )

    items-AreMasked : (xs : Items) → AreMaskedItems (redact_items platform redactor xs)
    items-AreMasked nil = tt
    items-AreMasked (cons v vs) = (value-IsMasked v, items-AreMasked vs)

    changes-AreMasked : (cs : Changes) → AreMaskedChanges (redact_changes platform redactor cs)
    changes-AreMasked done = tt
    changes-AreMasked (change f old new cs) = (
      named-hidden (is_sensitive_key platform redactor f) old (redact_value platform redactor old),
      named-hidden (is_sensitive_key platform redactor f) new (redact_value platform redactor new),
      named-IsMasked (is_sensitive_key platform redactor f) old _ (value-IsMasked old),
      named-IsMasked (is_sensitive_key platform redactor f) new _ (value-IsMasked new),
      changes-AreMasked cs,
    )

  abbrev AreMaskedFields : Fields → Type 0
  AreMaskedFields none = Unit
  AreMaskedFields (some es) = AreMaskedEntries es

  fields-AreMasked : (f : Fields) → AreMaskedFields (redact_fields platform redactor f)
  unfolding redact_fields
  fields-AreMasked none = tt
  fields-AreMasked (some es) = entries-AreMasked es

  pub record IsMaskedEvent (e : Event) : Type 0 where
    pub message : IsMaskedText e.message
    pub error_message : IsMaskedText e.error_message
    pub stack_trace : IsMaskedText e.stack_trace
    pub reason : IsMaskedText e.reason
    pub metadata : AreMaskedFields e.metadata
    pub data_fields : AreMaskedFields e.data_fields
    pub changes : IsMasked e.changes
    pub old_value : IsMasked e.old_value × Hidden e.field_name e.old_value
    pub new_value : IsMasked e.new_value × Hidden e.field_name e.new_value

-- A redacted event: the message, error message, stack trace and reason are texts that `RedactString`
-- returned. In metadata, data, changes, old and new value, as deep as maps, `[]any` and `[]Change` nest,
-- each string is the mask or one that `RedactString` returned, and there is nothing but the mask under a
-- sensitive key of a map, nothing but the mask or nil in a change of a sensitive field and in the old and
-- new value of an event for one. Nothing is said of what a `[]string` or a value of any other Go type
-- holds: under a plain key such a value may hold secrets.
pub redact_event-IsMaskedEvent :
    (platform : Platform) (redactor : Redactor) (e : Event)
    → IsMaskedEvent platform redactor (redact_event platform redactor e)
unfolding redact_event redact_named_value
redact_event-IsMaskedEvent platform redactor e = record {
  message = (e.message, refl);
  error_message = (e.error_message, refl);
  stack_trace = (e.stack_trace, refl);
  reason = (e.reason, refl);
  metadata = fields-AreMasked platform redactor e.metadata;
  data_fields = fields-AreMasked platform redactor e.data_fields;
  changes = value-IsMasked platform redactor e.changes;
  old_value = (
    named-IsMasked platform redactor (is_sensitive_key platform redactor e.field_name) e.old_value _
        (value-IsMasked platform redactor e.old_value),
    named-hidden platform redactor (is_sensitive_key platform redactor e.field_name) e.old_value _,
  );
  new_value = (
    named-IsMasked platform redactor (is_sensitive_key platform redactor e.field_name) e.new_value _
        (value-IsMasked platform redactor e.new_value),
    named-hidden platform redactor (is_sensitive_key platform redactor e.field_name) e.new_value _,
  );
}
