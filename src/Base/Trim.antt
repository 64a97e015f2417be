-- ===== src/Base/Trim.antt =====
-- Texts without spaces at their ends.
use Prim.Native.String.{String, [], ◌∷◌, ◌++◌}
use Prim.Native.Char.{Char}
use mathlib.Core.Path.{◌≡◌, refl, subst, ◌∙◌, ap, sym}
use mathlib.Core.Logic.{◌⊎◌, inl, inr}
use mathlib.Core.Bool.{true, false}
use mathlib.Core.List.{List}
use text.Mathlib.Text.{◌==◌}
use text.Mathlib.TextEquality.{eq_iff}
use text.Mathlib.TextLemmas.{nil-append, cons-append}
use logcenter_sdk_go.Base.Tests.{Bool-cases, if-false, if◌then◌else◌}
use logcenter_sdk_go.Base.Text.{is_space, trim_left, trim_right, trim_space}
use logcenter_sdk_go.Base.Lists.{All}
use logcenter_sdk_go.Base.Split.{join}
use logcenter_sdk_go.Base.Blank.{
  trim_left-space, trim_left-char, trim_right-char, trim_right-space, cons-eq-nil,
}

pub trim_right_twice : (s : String) → trim_right (trim_right s) ≡ trim_right s
unfolding trim_right
trim_right_twice [] = refl
trim_right_twice (c ∷ s) = elim (Bool-cases (is_space c)) [
  | inr h ↦
      rw (trim_right-char c s h)
        (trim_right-char c (trim_right s) h ∙ ap (◌∷◌ c) (trim_right_twice s))
  | inl h ↦ rw (trim_right-space c s h) (space-case h (trim_right s) (trim_right_twice s))
]
  where
    space-case :
        is_space c ≡ true
        → (rest : String) → trim_right rest ≡ rest
        → trim_right (if rest == "" then "" else c ∷ rest) ≡ (if rest == "" then "" else c ∷ rest)
    space-case h rest fixed = elim (Bool-cases (rest == "")) [
      | inl e ↦ rw e (unfold trim_right in refl)
      | inr e ↦ rw e (
          trim_right-space c rest h
          ∙ ap (λ (t : String). if t == "" then "" else c ∷ t) fixed
          ∙ if-false-of rest e)
    ]
      where
        if-false-of :
            (rest : String) → rest == "" ≡ false → (if rest == "" then "" else c ∷ rest) ≡ c ∷ rest
        if-false-of rest e = rw e refl

-- A text that does not start with a space.
Starts : String → Type 0
Starts s = (s ≡ "") ⊎ ((c : Char) × (t : String) × (s ≡ c ∷ t) × (is_space c ≡ false))

trim_left-Starts : (s : String) → Starts (trim_left s)
unfolding trim_left Starts
trim_left-Starts [] = inl refl
trim_left-Starts (c ∷ s) = elim (Bool-cases (is_space c)) [
  | inl h ↦ subst Starts (sym (trim_left-space c s h)) (trim_left-Starts s)
  | inr h ↦ inr (c, s, trim_left-char c s h, h)
]

Starts-trim_right : (s : String) → Starts s → Starts (trim_right s)
unfolding Starts trim_right
Starts-trim_right s (inl e) = inl (ap trim_right e)
Starts-trim_right s (inr (c, t, e, h)) =
    inr (c, trim_right t, ap trim_right e ∙ trim_right-char c t h, h)

trim_left-fixed : (s : String) → Starts s → trim_left s ≡ s
unfolding Starts trim_left
trim_left-fixed s (inl e) = ap trim_left e ∙ sym e
trim_left-fixed s (inr (c, t, e, h)) = ap trim_left e ∙ trim_left-char c t h ∙ sym e

trim_space-Starts : (s : String) → Starts (trim_space s)
trim_space-Starts s = unfold trim_space in Starts-trim_right (trim_left s) (trim_left-Starts s)

trim_right-trim_space : (s : String) → trim_right (trim_space s) ≡ trim_space s
unfolding trim_space
trim_right-trim_space s = trim_right_twice (trim_left s)

pub trim_space_twice : (s : String) → trim_space (trim_space s) ≡ trim_space s
trim_space_twice s =
    unfold trim_space in
    (ap trim_right (trim_left-fixed (trim_space s) (trim_space-Starts s)) ∙ trim_right-trim_space s)

-- A text with a character, and without spaces at its ends.
abbrev pub IsTrimmed : String → Type 0
IsTrimmed s = (trim_space s ≡ s) × (s == "" ≡ false)

trim_right-cons :
    (c : Char) (s : String) → trim_right s ≡ s → s == "" ≡ false → trim_right (c ∷ s) ≡ c ∷ s
trim_right-cons c s fixed n = elim (Bool-cases (is_space c)) [
  | inr h ↦ trim_right-char c s h ∙ ap (◌∷◌ c) fixed
  | inl h ↦
      trim_right-space c s h
      ∙ ap (λ (t : String). if t == "" then "" else c ∷ t) fixed
      ∙ if-false (s == "") "" (c ∷ s) n
]

append-not_empty : (a b : String) → b == "" ≡ false → a ++ b == "" ≡ false
append-not_empty [] b n = ap (λ t. t == "") (nil-append b) ∙ n
append-not_empty (c ∷ a) b n = ap (λ t. t == "") (cons-append c a b) ∙ cons-eq-nil c (a ++ b)

trim_right-append :
    (a b : String) → trim_right b ≡ b → b == "" ≡ false → trim_right (a ++ b) ≡ a ++ b
trim_right-append [] b fixed n = rw (nil-append b) fixed
trim_right-append (c ∷ a) b fixed n =
    rw (cons-append c a b)
      (trim_right-cons c (a ++ b) (trim_right-append a b fixed n) (append-not_empty a b n))

trim_right_of : (s : String) → IsTrimmed s → trim_right s ≡ s
trim_right_of s (h, n) = ap trim_right (sym h) ∙ trim_right-trim_space s ∙ h

module _ (sep : Char) where
  join-not_empty :
      (part : String) (parts : List String)
      → IsTrimmed part
      → join sep (List.◌∷◌ part parts) == "" ≡ false
  unfolding join
  join-not_empty part List.[] h = h.1
  join-not_empty part (List.◌∷◌ next parts) h =
      append-not_empty part (sep ∷ join sep (List.◌∷◌ next parts)) (cons-eq-nil sep _)

  join-Starts :
      (part : String) (parts : List String)
      → IsTrimmed part
      → Starts (join sep (List.◌∷◌ part parts))
  unfolding join Starts
  join-Starts part List.[] h = subst Starts h.0 (trim_space-Starts part)
  join-Starts part (List.◌∷◌ next parts) h = elim (subst Starts h.0 (trim_space-Starts part)) [
    | inl e ↦ absurd (cons-ne-nil-of part h.1 e)
    | inr (c, t, e, k) ↦
        let rest = sep ∷ join sep (List.◌∷◌ next parts) in
        inr (c, t ++ rest, ap (λ p. p ++ rest) e ∙ cons-append c t rest, k)
  ]
    where
      cons-ne-nil-of : (s : String) → s == "" ≡ false → ¬ (s ≡ "")
      cons-ne-nil-of s n e = let q : true ≡ false = sym ((eq_iff s "").1 e) ∙ n in cc

  trim_right-join :
      (part : String) (parts : List String)
      → All IsTrimmed (List.◌∷◌ part parts)
      → trim_right (join sep (List.◌∷◌ part parts)) ≡ join sep (List.◌∷◌ part parts)
  unfolding join
  trim_right-join part List.[] (h, hs) = trim_right_of part h
  trim_right-join part (List.◌∷◌ next parts) (h, hs) =
      trim_right-append part (sep ∷ join sep (List.◌∷◌ next parts))
        (trim_right-cons sep _ (trim_right-join next parts hs) (join-not_empty next parts hs.0))
        (cons-eq-nil sep _)

  -- Parts without spaces at their ends make up such a text.
  pub join-IsTrimmed :
      (part : String) (parts : List String)
      → All IsTrimmed (List.◌∷◌ part parts)
      → IsTrimmed (join sep (List.◌∷◌ part parts))
  unfolding trim_space
  join-IsTrimmed part parts h = (
    ap trim_right (trim_left-fixed _ (join-Starts part parts h.0)) ∙ trim_right-join part parts h,
    join-not_empty part parts h.0,
  )
