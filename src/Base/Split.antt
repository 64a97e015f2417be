-- ===== src/Base/Split.antt =====
-- `strings.Split` with a separator of one character, and the joining that it undoes.
use Prim.Native.String.{String, ◌++◌}
use Prim.Native.Char.{Char, code}
use mathlib.Core.Path.{◌≡◌, refl, ap, ◌∙◌}
use mathlib.Core.Bool.{false}
use mathlib.Core.List.{List, [], ◌∷◌}
use text.Mathlib.TextLemmas.{nil-append, cons-append}
use logcenter_sdk_go.Base.Tests.{num_eq, num_eq_iff, if-true, if◌then◌else◌}
use logcenter_sdk_go.Base.Lists.{All}

-- The character in front of the first part.
abbrev pub before_first : Char → List String → List String
before_first c [] = String.◌∷◌ c "" ∷ []
before_first c (part ∷ parts) = String.◌∷◌ c part ∷ parts

unfoldable pub split : Char → String → List String
split sep String.[] = "" ∷ []
split sep (String.◌∷◌ c s) =
    let parts = split sep s in
    if num_eq (code c) (code sep) then "" ∷ parts else before_first c parts

unfoldable pub join : Char → List String → String
join sep [] = ""
join sep (part ∷ []) = part
join sep (part ∷ next ∷ parts) = part ++ String.◌∷◌ sep (join sep (next ∷ parts))

-- The separator is no character of the text.
abbrev pub Lacks : Char → String → Type 0
Lacks sep String.[] = Unit
Lacks sep (String.◌∷◌ c s) = (num_eq (code c) (code sep) ≡ false) × Lacks sep s

split-char :
    (sep c : Char) (s : String)
    → num_eq (code c) (code sep) ≡ false
    → split sep (String.◌∷◌ c s) ≡ before_first c (split sep s)
unfolding split
split-char sep c s h = rw (split, h) refl

split-sep : (sep : Char) (s : String) → split sep (String.◌∷◌ sep s) ≡ "" ∷ split sep s
unfolding split
split-sep sep s =
    if-true (num_eq (code sep) (code sep)) ("" ∷ split sep s) (before_first sep (split sep s))
      ((num_eq_iff (code sep) (code sep)).1 refl)

split-part : (sep : Char) (part : String) → Lacks sep part → split sep part ≡ part ∷ []
unfolding split
split-part sep String.[] h = refl
split-part sep (String.◌∷◌ c s) (h, hs) =
    split-char sep c s h ∙ ap (before_first c) (split-part sep s hs)

split-append :
    (sep : Char) (part rest : String)
    → Lacks sep part
    → split sep (part ++ String.◌∷◌ sep rest) ≡ part ∷ split sep rest
split-append sep String.[] rest h =
    ap (split sep) (nil-append (String.◌∷◌ sep rest)) ∙ split-sep sep rest
split-append sep (String.◌∷◌ c s) rest (h, hs) =
    ap (split sep) (cons-append c s (String.◌∷◌ sep rest))
    ∙ split-char sep c (s ++ String.◌∷◌ sep rest) h
    ∙ ap (before_first c) (split-append sep s rest hs)

-- Splitting a joined text gives its parts back, if there is one and none has the separator in it.
pub split-join :
    (sep : Char) (part : String) (parts : List String)
    → All (Lacks sep) (part ∷ parts)
    → split sep (join sep (part ∷ parts)) ≡ part ∷ parts
unfolding join
split-join sep part [] (h, hs) = split-part sep part h
split-join sep part (next ∷ parts) (h, hs) =
    split-append sep part (join sep (next ∷ parts)) h ∙ ap (◌∷◌ part) (split-join sep next parts hs)
