-- ===== src/Base/Blank.antt =====
-- When a text is blank, by its characters and its parts.
use Prim.Native.String.{String, [], ◌∷◌, ◌++◌}
use Prim.Native.Char.{Char}
use mathlib.Core.Path.{◌≡◌, refl, ◌∙◌, ap, sym}
use mathlib.Core.Logic.{inl, inr}
use mathlib.Core.Bool.{true, false, ◌&&◌}
use text.Mathlib.Text.{◌==◌}
use text.Mathlib.TextEquality.{eq_iff}
use text.Mathlib.TextLemmas.{nil-append, cons-append, cons-ne-nil}
use logcenter_sdk_go.Base.Tests.{Bool-cases, if◌then◌else◌}
use logcenter_sdk_go.Base.Text.{is_space, trim_left, trim_right, trim_space, is_blank}

pub trim_left-space : (c : Char) (s : String) → is_space c ≡ true → trim_left (c ∷ s) ≡ trim_left s
unfolding trim_left
trim_left-space c s h = rw (trim_left, h) refl

pub trim_left-char : (c : Char) (s : String) → is_space c ≡ false → trim_left (c ∷ s) ≡ c ∷ s
unfolding trim_left
trim_left-char c s h = rw (trim_left, h) refl

pub trim_right-char :
    (c : Char) (s : String) → is_space c ≡ false → trim_right (c ∷ s) ≡ c ∷ trim_right s
unfolding trim_right
trim_right-char c s h = rw (trim_right, h) refl

pub cons-eq-nil : (c : Char) (s : String) → (c ∷ s == "") ≡ false
cons-eq-nil c s = elim (Bool-cases (c ∷ s == "")) [
  | inl h ↦ absurd (cons-ne-nil c s ((eq_iff (c ∷ s) "").0 h))
  | inr h ↦ h
]

-- A text that starts with no space is not blank.
pub is_blank-char : (c : Char) (s : String) → is_space c ≡ false → is_blank (c ∷ s) ≡ false
unfolding trim_space
is_blank-char c s h =
    rw (trim_left-char c s h, trim_right-char c s h) (cons-eq-nil c (trim_right s))

is_blank-space : (c : Char) (s : String) → is_space c ≡ true → is_blank (c ∷ s) ≡ is_blank s
unfolding trim_space
is_blank-space c s h = ap (λ t. trim_right t == "") (trim_left-space c s h)

pub is_blank-append : (a b : String) → is_blank (a ++ b) ≡ (is_blank a && is_blank b)
unfolding trim_space
is_blank-append [] b = ap is_blank (nil-append b)
is_blank-append (c ∷ a) b = elim (Bool-cases (is_space c)) [
  | inl h ↦
      rw (cons-append c a b, is_blank-space c (a ++ b) h, is_blank-space c a h)
        (is_blank-append a b)
  | inr h ↦ rw (cons-append c a b, is_blank-char c (a ++ b) h, is_blank-char c a h) refl
]

pub trim_right-space :
    (c : Char) (s : String)
    → is_space c ≡ true
    → trim_right (c ∷ s) ≡ (if trim_right s == "" then "" else c ∷ trim_right s)
unfolding trim_right
trim_right-space c s h = rw (trim_right, h) refl

is_blank-trim_left : (s : String) → is_blank (trim_left s) ≡ is_blank s
unfolding trim_left
is_blank-trim_left [] = refl
is_blank-trim_left (c ∷ s) = elim (Bool-cases (is_space c)) [
  | inl h ↦ ap is_blank (trim_left-space c s h) ∙ is_blank-trim_left s ∙ sym (is_blank-space c s h)
  | inr h ↦ ap is_blank (trim_left-char c s h)
]

is_blank-trim_right : (s : String) → is_blank (trim_right s) ≡ is_blank s
unfolding trim_right
is_blank-trim_right [] = refl
is_blank-trim_right (c ∷ s) = elim (Bool-cases (is_space c)) [
  | inr h ↦
      ap is_blank (trim_right-char c s h)
      ∙ is_blank-char c (trim_right s) h
      ∙ sym (is_blank-char c s h)
  | inl h ↦
      ap is_blank (trim_right-space c s h)
      ∙ space-case h (trim_right s)
      ∙ is_blank-trim_right s
      ∙ sym (is_blank-space c s h)
]
  where
    space-case :
        is_space c ≡ true
        → (rest : String) → is_blank (if rest == "" then "" else c ∷ rest) ≡ is_blank rest
    space-case h rest = elim (Bool-cases (rest == "")) [
      | inl e ↦ rw e (ap is_blank (sym ((eq_iff rest "").0 e)))
      | inr e ↦ rw e (is_blank-space c rest h)
    ]

-- A text with its spaces trimmed is blank just if the text is.
pub is_blank-trim_space : (s : String) → is_blank (trim_space s) ≡ is_blank s
is_blank-trim_space s =
    unfold trim_space in is_blank-trim_right (trim_left s) ∙ is_blank-trim_left s
