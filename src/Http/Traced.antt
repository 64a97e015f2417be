-- ===== src/Http/Traced.antt =====
-- The identifiers that the headers of a request give, and the fields that are put together.
use logcenter_sdk_go.Base.{
  String, [], ◌∷◌, true, Option, none, some, ◌==◌, if◌then◌else◌, is_blank, All, ◌≡◌, refl, sym, ap,
  ◌∙◌, Bool-cases, inl, inr, if-false, eq_iff, subst,
}
use logcenter_sdk_go.Base.Split.{split, join, Lacks, split-join}
use logcenter_sdk_go.Base.Trim.{IsTrimmed, join-IsTrimmed}
use logcenter_sdk_go.Types.{Value, Entries, end, entry, Fields}
use logcenter_sdk_go.Limit.Values.{put, lookup}
use logcenter_sdk_go.Limit.Maps.{field_of, lookup-put, lookup-put_other}
use logcenter_sdk_go.Http.Request.{
  HttpRequest, first_header, dash, trace_of_parts, trace_from_headers, put_all, entries_of, merged,
  merge_fields,
}

-- The headers of the package do not name a trace.
abbrev pub NoTraceHeader : HttpRequest → Type 0
NoTraceHeader r =
    (is_blank (r.header "X-LogCenter-Trace-Id") ≡ true) × (is_blank (r.header "X-Trace-Id") ≡ true)

no_trace_id :
    (r : HttpRequest)
    → NoTraceHeader r
    → first_header r ("X-LogCenter-Trace-Id" ∷ "X-Trace-Id" ∷ []) ≡ ""
unfolding first_header
no_trace_id r (h, k) = rw (h, k) refl

first_header-fixed :
    (r : HttpRequest) (name : String)
    → IsTrimmed (r.header name)
    → first_header r (name ∷ []) ≡ r.header name
unfolding first_header
first_header-fixed r name (fixed, n) =
    ap (λ (t : String). if t == "" then "" else t) fixed ∙ if-false _ _ _ n

-- If no header of the package names a trace, a `traceparent` of version 00 gives its second part as the
-- trace and its third part as the parent; no part may be empty, have a dash in it, or start or end with
-- a space.
pub trace_from_headers-traceparent :
    (r : HttpRequest) (trace parent flags : String)
    → NoTraceHeader r
    → All IsTrimmed ("00" ∷ trace ∷ parent ∷ flags ∷ [])
    → All (Lacks dash) ("00" ∷ trace ∷ parent ∷ flags ∷ [])
    → r.header "Traceparent" ≡ join dash ("00" ∷ trace ∷ parent ∷ flags ∷ [])
    → trace_from_headers r ≡ (trace, parent)
unfolding trace_from_headers
trace_from_headers-traceparent r trace parent flags none_named trimmed lacks h =
    let parts = "00" ∷ trace ∷ parent ∷ flags ∷ [] in
    let whole =
      subst IsTrimmed (sym h) (join-IsTrimmed dash "00" (trace ∷ parent ∷ flags ∷ []) trimmed) in
    rw (no_trace_id r none_named) (
      ap trace_of_parts (
        ap (split dash) (first_header-fixed r "Traceparent" whole ∙ h)
        ∙ split-join dash "00" (trace ∷ parent ∷ flags ∷ []) lacks))

abbrev pub or_else : Option Value → Option Value → Option Value
or_else none other = other
or_else (some v) other = some v

lookup-put_all :
    (key : String) (more es : Entries)
    → lookup key (put_all more es) ≡ or_else (lookup key more) (lookup key es)
unfolding lookup put_all
lookup-put_all key end es = refl
lookup-put_all key (entry k v more) es = elim (Bool-cases (k == key)) [
  | inl e ↦
      let same = (eq_iff k key).0 e in
      rw e (
        ap (λ j. lookup j (put k v (put_all more es))) (sym same)
        ∙ lookup-put k v (put_all more es))
  | inr e ↦ rw e (lookup-put_other key k v (put_all more es) e ∙ lookup-put_all key more es)
]

or_else-none : (o : Option Value) → or_else o none ≡ o
or_else-none none = refl
or_else-none (some v) = refl

lookup-nothing : (key : String) → lookup key end ≡ none
unfolding lookup
lookup-nothing key = refl

field_of-merged :
    (key : String) (left right : Entries)
    → field_of key (merged left right) ≡ lookup key (put_all right (put_all left end))
unfolding lookup put_all
field_of-merged key end end = refl
field_of-merged key end (entry k v right) = refl
field_of-merged key (entry k v left) right = refl

field_of-entries_of :
    (key : String) (fields : Fields) → lookup key (entries_of fields) ≡ field_of key fields
unfolding lookup
field_of-entries_of key none = refl
field_of-entries_of key (some es) = refl

-- In merged fields, a key has the value of the right fields, or else the one of the left fields.
pub field_of-merge_fields :
    (key : String) (left right : Fields)
    → field_of key (merge_fields left right) ≡ or_else (field_of key right) (field_of key left)
unfolding merge_fields
field_of-merge_fields key left right =
    field_of-merged key (entries_of left) (entries_of right)
    ∙ lookup-put_all key (entries_of right) (put_all (entries_of left) end)
    ∙ ap (or_else (lookup key (entries_of right))) (
        lookup-put_all key (entries_of left) end
        ∙ ap (or_else (lookup key (entries_of left))) (lookup-nothing key)
        ∙ or_else-none (lookup key (entries_of left)))
    ∙ ap (λ o. or_else o (lookup key (entries_of left))) (field_of-entries_of key right)
    ∙ ap (or_else (field_of key right)) (field_of-entries_of key left)
