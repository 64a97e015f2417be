-- ===== src/Limit/Maps.antt =====
-- Setting and reading the entries of a map.
use logcenter_sdk_go.Base.{
  String, false, Option, none, some, ◌==◌, ◌≡◌, refl, ◌∙◌, Bool-cases, inl, inr, eq_refl, eq_iff,
  ap,
}
use logcenter_sdk_go.Types.{Value, Entries, end, entry, Fields}
use logcenter_sdk_go.Limit.Values.{put, lookup}

-- `fields[key]`, which is nil for nil fields.
abbrev pub field_of : String → Fields → Option Value
field_of key none = none
field_of key (some es) = lookup key es

pub lookup-put : (key : String) (v : Value) (es : Entries) → lookup key (put key v es) ≡ some v
unfolding lookup put
lookup-put key v end = rw (eq_refl key)
lookup-put key v (entry k w es) = elim (Bool-cases (k == key)) [
  | inl h ↦ rw (h, eq_refl key) refl
  | inr h ↦ rw (h, h) (lookup-put key v es)
]

pub lookup-put_other :
    (key other : String) (v : Value) (es : Entries)
    → other == key ≡ false
    → lookup key (put other v es) ≡ lookup key es
unfolding lookup put
lookup-put_other key other v end h = rw h refl
lookup-put_other key other v (entry k w es) h = elim (Bool-cases (k == other)) [
  | inl e ↦
      let same = (eq_iff k other).0 e in
      let n : k == key ≡ false = ap (λ t. t == key) same ∙ h in rw (e, h, n) refl
  | inr e ↦ elim (Bool-cases (k == key)) [
    | inl n ↦ rw (e, n) refl
    | inr n ↦ rw (e, n) (lookup-put_other key other v es h)
  ]
]
