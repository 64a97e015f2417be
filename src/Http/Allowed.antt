-- ===== src/Http/Allowed.antt =====
-- Which types of content are captured.
use Prim.Native.String.{String, [], ◌∷◌, ◌++◌, slice, len}
use text.Mathlib.Text.{starts_with}
use text.Mathlib.TextLemmas.{nil-append, cons-append, append_assoc}
use text.Mathlib.TextPositions.{slice-append_left, len-append}
use logcenter_sdk_go.Base.{
  ◌-◌, Bool, true, ◌==◌, ◌&&◌, ◌||◌, not, ends_with, ◌≡◌, ◌↔◌, ◌⊎◌, inl, inr, refl, sym, ap, ◌∙◌,
  eq_iff, eq_refl, arith,
}
use logcenter_sdk_go.Http.Body.{without_last, type_covers}

or_true : (a b : Bool) → ((a || b) ≡ true) ↔ ((a ≡ true) ⊎ (b ≡ true))
or_true a b = ground arith

and_true : (a b : Bool) → ((a && b) ≡ true) ↔ ((a ≡ true) × (b ≡ true))
and_true a b = ground arith

ends_with-to : (s t : String) → ends_with s t ≡ true → (before : String) × (s ≡ before ++ t)
unfolding ends_with
ends_with-to [] t h = ("", sym (nil-append t ∙ (eq_iff t "").0 h))
ends_with-to (c ∷ s) t h = elim ((or_true (c ∷ s == t) (ends_with s t)).0 h) [
  | inl e ↦ ("", (eq_iff (c ∷ s) t).0 e ∙ sym (nil-append t))
  | inr e ↦
      let (before, k) = ends_with-to s t e in
      (c ∷ before, ap (◌∷◌ c) k ∙ sym (cons-append c before t))
]

ends_with_self : (t : String) → ends_with t t ≡ true
unfolding ends_with
ends_with_self [] = refl
ends_with_self (c ∷ t) = (or_true (c ∷ t == c ∷ t) (ends_with t (c ∷ t))).1 (inl (eq_refl (c ∷ t)))

ends_with-append : (before t : String) → ends_with (before ++ t) t ≡ true
unfolding ends_with
ends_with-append [] t = ap (λ s. ends_with s t) (nil-append t) ∙ ends_with_self t
ends_with-append (c ∷ before) t =
    ap (λ s. ends_with s t) (cons-append c before t)
    ∙ (or_true (c ∷ (before ++ t) == t) (ends_with (before ++ t) t)).1
        (inr (ends_with-append before t))

-- A text ends with another just if something stands before it.
pub ends_with_iff :
    (s t : String) → (ends_with s t ≡ true) ↔ ((before : String) × (s ≡ before ++ t))
ends_with_iff s t = (
  ends_with-to s t,
  λ h. let (before, e) = h in ap (λ s. ends_with s t) e ∙ ends_with-append before t,
)

without_last-star : (main : String) → without_last (main ++ "/*") ≡ main ++ "/"
without_last-star main =
    let kept = main ++ "/" in
    let whole : main ++ "/*" ≡ kept ++ "*" = sym (append_assoc main "/" "*") in
    let size : len (main ++ "/*") - 1 ≡ len kept =
      rw (len-append main "/*", len-append main "/") (ground arith) in
    ap (λ n. slice (main ++ "/*") 0 n) size
    ∙ ap (λ s. slice s 0 (len kept)) whole
    ∙ slice-append_left kept "*"

-- What an allowed type stands for: itself, all types of a main type (`text/*`), or all JSON types of
-- applications (`application/*+json`).
abbrev pub Covers : String → String → Type 0
Covers value media_type =
    (value ≡ media_type)
    ⊎ ((main : String) × (value ≡ main ++ "/*") × (starts_with media_type (main ++ "/") ≡ true))
    ⊎ ((value ≡ "application/*+json")
        × (starts_with media_type "application/" ≡ true)
        × (ends_with media_type "+json" ≡ true))

-- An allowed type, trimmed and in lower case, covers a type of content just if it is not empty and stands
-- for it.
pub type_covers_iff :
    (value media_type : String)
    → (type_covers value media_type ≡ true) ↔ ((not (value == "") ≡ true) × Covers value media_type)
unfolding type_covers
type_covers_iff value media_type = (
  λ h.
      let (filled, any) = (and_true _ _).0 h in
      (
        filled,
        elim ((or_true _ _).0 any) [
          | inl e ↦ inl ((eq_iff value media_type).0 e)
          | inr more ↦ elim ((or_true _ _).0 more) [
            | inl wild ↦ inr (inl (wildcard-to ((and_true _ _).0 wild)))
            | inr json ↦
                let (v, rest) = (and_true _ _).0 json in
                let (main, suffix) = (and_true _ _).0 rest in
                inr (inr ((eq_iff value "application/*+json").0 v, main, suffix))
          ]
        ],
      ),
  λ h. (and_true _ _).1 (
    h.0,
    elim h.1 [
      | inl e ↦ (or_true _ _).1 (inl ((eq_iff value media_type).1 e))
      | inr (inl (main, e, begins)) ↦ (or_true _ _).1 (
          inr (
            (or_true _ _).1 (
              inl (
                (and_true _ _).1 (
                  (ends_with_iff value "/*").1 (main, e),
                  ap (starts_with media_type) (ap without_last e ∙ without_last-star main) ∙ begins,
                )))))
      | inr (inr (v, main, suffix)) ↦ (or_true _ _).1 (
          inr (
            (or_true _ _).1 (
              inr (
                (and_true _ _).1
                  ((eq_iff value "application/*+json").1 v, (and_true _ _).1 (main, suffix))))))
    ],
  ),
)
  where
    wildcard-to :
        (ends_with value "/*" ≡ true) × (starts_with media_type (without_last value) ≡ true)
        → (main : String) × (value ≡ main ++ "/*") × (starts_with media_type (main ++ "/") ≡ true)
    wildcard-to (ends, begins) =
        let (main, e) = (ends_with_iff value "/*").0 ends in
        (
          main,
          e,
          sym (ap (starts_with media_type) (ap without_last e ∙ without_last-star main)) ∙ begins,
        )
