-- ===== src/Redaction/Secrecy.antt =====
-- What is hidden does not show in the result.
use Prim.Native.Char.{Char, code}
use Prim.Native.String.{◌++◌}
use logcenter_sdk_go.Base.{
  ◌≡◌, refl, ap, sym, ◌∙◌, ◌⊎◌, inl, inr, String, Bool, true, false, some, ◌≢◌, num_eq, ◌||◌,
  trim_space,
}
use text.Mathlib.TextLemmas.{nil-append, cons-append}
use logcenter_sdk_go.Types.{
  Value, null, str, map, fields, arr, changes, Entries, end, entry, Items, nil, cons, Changes, done,
  change,
}
use logcenter_sdk_go.Platform.{Platform}
use logcenter_sdk_go.Redaction.Defs.{
  Redactor, redacted_value, is_sensitive_key, split_separator, redact_match,
}
use logcenter_sdk_go.Redaction.Values.{
  redact_value, redact_entries, redact_items, redact_changes, named,
}

abbrev pub is_separator : Char → Bool
is_separator c = num_eq (code c) b':' || num_eq (code c) b'='

abbrev pub NoSeparator : String → Type 0
NoSeparator String.[] = Unit
NoSeparator (String.◌∷◌ c s) = (is_separator c ≡ false) × NoSeparator s

split_separator-append :
    (key secret : String) (separator : Char)
    → NoSeparator key
    → is_separator separator ≡ true
    → split_separator (key ++ String.◌∷◌ separator secret) ≡ some (key, separator)
unfolding split_separator
split_separator-append String.[] secret separator n h =
    rw (nil-append (String.◌∷◌ separator secret)) (rw h)
split_separator-append (String.◌∷◌ c key) secret separator (m, n) h =
    rw (cons-append c key (String.◌∷◌ separator secret))
      (rw m (rw (split_separator-append key secret separator n h)))

-- Of a match `key: secret` or `key=secret` the key, the separator and the mask are left, whatever the
-- secret is.
pub redact_match_lem :
    (key secret : String) (separator : Char)
    → NoSeparator key
    → is_separator separator ≡ true
    → redact_match (key ++ String.◌∷◌ separator secret)
      ≡ trim_space key ++ String.◌∷◌ separator "" ++ redacted_value
unfolding redact_match
redact_match_lem key secret separator n h =
    rw (split_separator-append key secret separator n h, redact_match)

module _ (platform : Platform) (redactor : Redactor) where
  -- Both are nil, or none is.
  abbrev pub SameNil : Value → Value → Type 0
  SameNil v w = (v ≡ null) × (w ≡ null) ⊎ (v ≢ null) × (w ≢ null)

  -- Two values that differ only under sensitive keys of maps and in the old and new values of sensitive
  -- changes, at any depth. In a sensitive change it shows whether a value is nil.
  mutual
    pub data Agree : Value → Value → Type 0 where
      same : (v : Value) → Agree v v
      maps : {es fs : Entries} → AgreeEntries es fs → Agree (map es) (map fs)
      fieldss : {es fs : Entries} → AgreeEntries es fs → Agree (fields es) (fields fs)
      arrs : {xs ys : Items} → AgreeItems xs ys → Agree (arr xs) (arr ys)
      changess : {cs ds : Changes} → AgreeChanges cs ds → Agree (changes cs) (changes ds)

    pub data AgreeEntries : Entries → Entries → Type 0 where
      none_left : AgreeEntries end end
      hidden :
          {k : String} {v w : Value} {es fs : Entries}
          → is_sensitive_key platform redactor k ≡ true
          → AgreeEntries es fs
          → AgreeEntries (entry k v es) (entry k w fs)
      shown :
          {k : String} {v w : Value} {es fs : Entries}
          → Agree v w
          → AgreeEntries es fs
          → AgreeEntries (entry k v es) (entry k w fs)

    pub data AgreeItems : Items → Items → Type 0 where
      no_items : AgreeItems nil nil
      item :
          {v w : Value} {xs ys : Items}
          → Agree v w
          → AgreeItems xs ys
          → AgreeItems (cons v xs) (cons w ys)

    pub data AgreeChanges : Changes → Changes → Type 0 where
      no_changes : AgreeChanges done done
      hidden_change :
          {f : String} {old new old' new' : Value} {cs ds : Changes}
          → is_sensitive_key platform redactor f ≡ true
          → SameNil old old'
          → SameNil new new'
          → AgreeChanges cs ds
          → AgreeChanges (change f old new cs) (change f old' new' ds)
      shown_change :
          {f : String} {old new old' new' : Value} {cs ds : Changes}
          → Agree old old'
          → Agree new new'
          → AgreeChanges cs ds
          → AgreeChanges (change f old new cs) (change f old' new' ds)

  named_sensitive : (v w : Value) → v ≢ null → named true v w ≡ str redacted_value
  named_sensitive null w h = absurd (h refl)
  named_sensitive (str s) w h = refl
  named_sensitive _ w h = refl

  hidden_alike :
      (v w : Value)
      → SameNil v w
      → named true v (redact_value platform redactor v)
        ≡ named true w (redact_value platform redactor w)
  hidden_alike v w (inl (p, q)) = rw (p, q)
  hidden_alike v w (inr (p, q)) =
      named_sensitive v (redact_value platform redactor v) p
      ∙ sym (named_sensitive w (redact_value platform redactor w) q)

  -- Under one name, values that agree are masked alike.
  named_alike :
      (b : Bool) {v w : Value} {r s : Value} → Agree v w → r ≡ s → named b v r ≡ named b w s
  named_alike b (same v) e = ap (named b v) e
  named_alike true (maps a) e = refl
  named_alike false (maps a) e = e
  named_alike true (fieldss a) e = refl
  named_alike false (fieldss a) e = e
  named_alike true (arrs a) e = refl
  named_alike false (arrs a) e = e
  named_alike true (changess a) e = refl
  named_alike false (changess a) e = e

  mutual
    unfolding redact_value

    agree :
        {v w : Value}
        → Agree v w
        → redact_value platform redactor v ≡ redact_value platform redactor w
    agree (same v) = refl
    agree (maps a) = ap fields (agree_entries a)
    agree (fieldss a) = ap fields (agree_entries a)
    agree (arrs a) = ap arr (agree_items a)
    agree (changess a) = ap changes (agree_changes a)

    agree_entries :
        {es fs : Entries}
        → AgreeEntries es fs
        → redact_entries platform redactor es ≡ redact_entries platform redactor fs
    agree_entries none_left = refl
    agree_entries (hidden {k} {v} {w} h a) =
        rw h (ap (entry k (str redacted_value)) (agree_entries a))
    agree_entries (shown {k} p a) = cc (agree p, agree_entries a)

    agree_items :
        {xs ys : Items}
        → AgreeItems xs ys
        → redact_items platform redactor xs ≡ redact_items platform redactor ys
    agree_items no_items = refl
    agree_items (item p a) = cc (agree p, agree_items a)

    agree_changes :
        {cs ds : Changes}
        → AgreeChanges cs ds
        → redact_changes platform redactor cs ≡ redact_changes platform redactor ds
    agree_changes no_changes = refl
    agree_changes (hidden_change {f} {old} {new} {old'} {new'} h p q a) =
        rw h (cc (hidden_alike old old' p, hidden_alike new new' q, agree_changes a))
    agree_changes (shown_change {f} {old} {new} {old'} {new'} p q a) = cc (
      named_alike (is_sensitive_key platform redactor f) p (agree p),
      named_alike (is_sensitive_key platform redactor f) q (agree q),
      agree_changes a,
    )

-- Two values are redacted to the same value if they differ only in what stands under sensitive keys of maps
-- and in the old and new values, nil in both or in none, of changes of sensitive fields, as deep as maps,
-- `[]any` and `[]Change` nest. All else, a `[]string` and values of other Go types included, is the same in
-- both.
pub redact_value-Agree :
    (platform : Platform) (redactor : Redactor) {v w : Value}
    → Agree platform redactor v w
    → redact_value platform redactor v ≡ redact_value platform redactor w
redact_value-Agree platform redactor a = agree platform redactor a
