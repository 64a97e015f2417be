-- ===== src/Requests/Merge.antt =====
-- The values of a request under a context that carries some of them.
use logcenter_sdk_go.Base.{
  String, [], ◌∷◌, true, false, none, some, ◌==◌, if◌then◌else◌, ◌≡◌, refl, sym, ap, Bool-cases,
  inl, inr, eq_iff, if-true, if-false,
}
use logcenter_sdk_go.Context.{RequestContext, Context, default_to}
use logcenter_sdk_go.Requests.Defs.{first_non_empty, merge_request_context}

pub if-same : {A : Type 0} (b : _) (x : A) → (if b then x else x) ≡ x
if-same true x = refl
if-same false x = refl

if-if :
    {A : Type 0} (b : _) (x y : A) → (if b then (if b then x else y) else y) ≡ (if b then x else y)
if-if true x y = refl
if-if false x y = refl

pub first_non_empty-pair : (a b : String) → first_non_empty (a ∷ b ∷ []) ≡ default_to a b
unfolding first_non_empty
first_non_empty-pair a b = elim (Bool-cases (b == "")) [
  | inl e ↦ rw e (ap (default_to a) (sym ((eq_iff b "").0 e)))
  | inr e ↦ rw e refl
]

-- Merging a context that carries the values themselves, or none, changes nothing.
pub merge_request_context_self :
    (values : RequestContext) → merge_request_context values (some values) ≡ values
unfolding merge_request_context
merge_request_context_self values = simp if-same

-- Merging twice is merging once.
pub merge_request_context_twice :
    (base : RequestContext) (ctx : Context)
    → merge_request_context (merge_request_context base ctx) ctx ≡ merge_request_context base ctx
unfolding merge_request_context
merge_request_context_twice base none = refl
merge_request_context_twice base (some values) = simp if-if

pub default_to_assoc :
    (a b c : String) → default_to a (default_to b c) ≡ default_to (default_to a b) c
default_to_assoc a b c = elim (Bool-cases (a == "")) [
  | inl e ↦ rw (if-true (a == "") b a e, if-true (a == "") (default_to b c) a e) refl
  | inr e ↦ rw (if-false (a == "") b a e, if-false (a == "") (default_to b c) a e, e) refl
]

-- A value that has its default is not given another one.
pub default_to_twice :
    (s fallback other : String)
    → fallback == "" ≡ false
    → default_to (default_to s fallback) other ≡ default_to s fallback
default_to_twice s fallback other h = elim (Bool-cases (s == "")) [
  | inl e ↦ rw (if-true (s == "") fallback s e, h) refl
  | inr e ↦ rw (if-false (s == "") fallback s e, e) refl
]
