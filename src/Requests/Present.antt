-- ===== src/Requests/Present.antt =====
-- When the texts that have a default are not blank.
use Prim.Native.String.{◌++◌}
use text.Mathlib.TextLemmas.{append-eq-nil_iff, cons-ne-nil}
use logcenter_sdk_go.Base.{
  Bool, String, true, false, ◌==◌, ◌&&◌, not, if◌then◌else◌, is_blank, trim_space, ◌≡◌, ◌↔◌, ◌⊎◌,
  refl, sym, subst, ap, ◌∙◌, Bool-cases, inl, inr, eq_iff, arith,
}
use logcenter_sdk_go.Base.Blank.{is_blank-append, is_blank-trim_space}
use logcenter_sdk_go.Context.{default_to, trimmed_or, new_id}
use logcenter_sdk_go.Validation.Rules.{Present}
use logcenter_sdk_go.Requests.RequestDefs.{named_operation}

-- A text that is empty or not blank: what has a default may be left out, but not filled with spaces.
abbrev pub IsClean : String → Type 0
IsClean s = (s ≡ "") ⊎ Present s

not_empty : (s : String) → s == "" ≡ false → ¬ (s ≡ "")
not_empty s e h = let n : true ≡ false = sym ((eq_iff s "").1 h) ∙ e in cc

pub empty-not-Present : (s : String) → s ≡ "" → ¬ Present s
unfolding trim_space
empty-not-Present s h p = let q : true ≡ false = subst Present h p in cc

-- A default that satisfies P, where the empty text does not.
pub default_to_iff :
    (P : String → Type 0) (s fallback : String)
    → P fallback
    → ¬ P ""
    → P (default_to s fallback) ↔ ((s ≡ "") ⊎ P s)
default_to_iff P s fallback p n = elim (Bool-cases (s == "")) [
  | inl e ↦ rw e (λ h. inl ((eq_iff s "").0 e), λ h. p)
  | inr e ↦ rw e (λ h. inr h, λ h. elim h [ inl empty ↦ absurd (not_empty s e empty) | inr q ↦ q ])
]

pub default_to-Present :
    (s fallback : String) → Present fallback → Present (default_to s fallback) ↔ IsClean s
default_to-Present s fallback p = default_to_iff Present s fallback p (empty-not-Present "" refl)

pub trimmed_or-Present : (s fallback : String) → Present fallback → Present (trimmed_or s fallback)
trimmed_or-Present s fallback p = elim (Bool-cases (trim_space s == "")) [
  | inl e ↦ rw e p
  | inr e ↦ rw e (is_blank-trim_space s ∙ e)
]

-- An identifier is not blank, since its prefix is not.
pub new_id-Present : (prefix random : String) → Present prefix → Present (new_id prefix random)
new_id-Present prefix random p = is_blank-append prefix random ∙ ap (λ b. b && is_blank random) p

joined-ne-nil : (method path : String) → ¬ (method ++ " " ++ path ≡ "")
joined-ne-nil method path h =
    let parts = append-eq-nil_iff.0 h in
    let space = append-eq-nil_iff.0 parts.1 in cons-ne-nil _ _ space.0

is_blank-joined :
    (method path : String) → is_blank (method ++ " " ++ path) ≡ (is_blank method && is_blank path)
unfolding trim_space
is_blank-joined method path =
    is_blank-append method (" " ++ path) ∙ ap (◌&&◌ (is_blank method)) (is_blank-append " " path)

and-false : (a b : Bool) → ((a && b) ≡ false) ↔ ((a ≡ false) ⊎ (b ≡ false))
and-false a b = ground arith

and-true : (a b : Bool) → ((a && b) ≡ true) ↔ ((a ≡ true) × (b ≡ true))
and-true a b = ground arith

joined-Clean :
    (method path : String) → IsClean (method ++ " " ++ path) ↔ (Present method ⊎ Present path)
joined-Clean method path = (
  λ h. elim h [
    | inl n ↦ absurd (joined-ne-nil method path n)
    | inr p ↦ (and-false _ _).0 (sym (is_blank-joined method path) ∙ p)
  ],
  λ h. inr (is_blank-joined method path ∙ (and-false _ _).1 h),
)

-- The operation that is chosen before its default.
abbrev chosen : String → String → String → String
chosen method path operation =
    if operation == "" && not (method == "" && path == "") then method ++ " " ++ path else operation

abbrev Named : String → String → String → Type 0
Named method path operation =
    Present operation
    ⊎ ((operation ≡ "") × (Present method ⊎ Present path ⊎ ((method ≡ "") × (path ≡ ""))))

or_parts : {A B C : Type 0} → A ⊎ B → A ⊎ B ⊎ C
or_parts (inl a) = inl a
or_parts (inr b) = inr (inl b)

parts-of :
    {method path operation : String}
    → operation == "" ≡ true
    → (method == "" && path == "") ≡ false
    → Named method path operation
    → Present method ⊎ Present path
parts-of e n (inl p) = absurd (empty-not-Present _ ((eq_iff _ "").0 e) p)
parts-of e n (inr (_, inl p)) = inl p
parts-of e n (inr (_, inr (inl p))) = inr p
parts-of e n (inr (_, inr (inr (m, p)))) =
    let both = (and-true _ _).1 ((eq_iff _ "").1 m, (eq_iff _ "").1 p) in
    let h : true ≡ false = sym both ∙ n in cc

chosen-Clean :
    (method path operation : String)
    → IsClean (chosen method path operation) ↔ Named method path operation
chosen-Clean method path operation = elim (Bool-cases (operation == "")) [
  | inr e ↦ rw e (
    λ h. elim h [ inl n ↦ absurd (not_empty operation e n) | inr p ↦ inl p ],
    λ h. elim h [ inl p ↦ inr p | inr n ↦ absurd (not_empty operation e n.0) ],
  )
  | inl e ↦ elim (Bool-cases (method == "" && path == "")) [
    | inl both ↦
        let (m, p) = (and-true _ _).0 both in
        let empty = (eq_iff operation "").0 e in
        rw (e, both)
          (
            λ h. inr (empty, inr (inr ((eq_iff method "").0 m, (eq_iff path "").0 p))),
            λ h. inl empty,
          )
    | inr some_part ↦
        let (to, from) = joined-Clean method path in
        rw (e, some_part)
          (
            λ h. inr ((eq_iff operation "").0 e, or_parts (to h)),
            λ h. from (parts-of e some_part h),
          )
  ]
]

-- The operation of a request is not blank just if it is given so, or it is left out and the method or the
-- path is not blank, or both are left out too.
pub named_operation-Present :
    (method path operation : String)
    → Present (named_operation method path operation) ↔ (
        Present operation
        ⊎ ((operation ≡ "") × (Present method ⊎ Present path ⊎ ((method ≡ "") × (path ≡ "")))))
unfolding named_operation trim_space
named_operation-Present method path operation =
    let (to, from) = default_to-Present (chosen method path operation) "request" refl in
    let (out, back) = chosen-Clean method path operation in (λ h. out (to h), λ h. from (back h))

pub req-Present : Present "req_"
unfolding trim_space
req-Present = refl

pub trc-Present : Present "trc_"
unfolding trim_space
trc-Present = refl

pub spn-Present : Present "spn_"
unfolding trim_space
spn-Present = refl

pub Present-not_empty : (s : String) → Present s → s == "" ≡ false
Present-not_empty s p = elim (Bool-cases (s == "")) [
  | inl e ↦ absurd (empty-not-Present s ((eq_iff s "").0 e) p)
  | inr e ↦ e
]
