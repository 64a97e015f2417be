-- ===== src/Base/Text.antt =====
-- What the code uses of Go's `strings` package. A Go string is a `String`: its text is valid UTF-8,
-- `len` counts its bytes and `slice` cuts it at byte positions.
use Prim.Native.Nat.{ℕ, zero, suc, ◌+◌, ◌/◌, ◌%◌}
use Prim.Native.Char.{Char, code}
use Prim.Native.String.{String, [], ◌∷◌, slice}
use mathlib.Core.Path.{◌≡◌, refl}
use mathlib.Core.Bool.{Bool, true, false, ◌&&◌, ◌||◌}
use mathlib.Core.List.{List}
use text.Mathlib.Text.{◌==◌, starts_with}
use Prim.Native.String
use logcenter_sdk_go.Base.Int.{ℤ, pos, negsuc}
use logcenter_sdk_go.Base.Tests.{leb, ltb, num_eq, if◌then◌else◌}

-- `unicode.IsSpace`.
abbrev pub is_space : Char → Bool
is_space c =
    let n = code c in
    (leb 9 n && leb n 13)
    || num_eq n 32
    || num_eq n 0x85
    || num_eq n 0xa0
    || num_eq n 0x1680
    || (leb 0x2000 n && leb n 0x200a)
    || num_eq n 0x2028
    || num_eq n 0x2029
    || num_eq n 0x202f
    || num_eq n 0x205f
    || num_eq n 0x3000

unfoldable pub trim_left : String → String
trim_left [] = ""
trim_left (c ∷ s) = elim (is_space c) [ true ↦ trim_left s | false ↦ c ∷ s ]

unfoldable pub trim_right : String → String
trim_right [] = ""
trim_right (c ∷ s) = let rest = trim_right s in if is_space c && rest == "" then "" else c ∷ rest

-- `strings.TrimSpace`.
unfoldable pub trim_space : String → String
unfolding trim_left trim_right
trim_space s = trim_right (trim_left s)

-- `strings.TrimSpace(s) == ""`.
abbrev pub is_blank : String → Bool
is_blank s = trim_space s == ""

-- `strings.Contains`.
unfoldable pub contains : String → String → Bool
contains [] fragment = fragment == ""
contains (c ∷ s) fragment = starts_with (c ∷ s) fragment || contains s fragment

-- `strings.HasSuffix`.
unfoldable pub ends_with : String → String → Bool
ends_with [] suffix = suffix == ""
ends_with (c ∷ s) suffix = c ∷ s == suffix || ends_with s suffix

-- Membership in a set of strings that is kept as a list.
unfoldable pub str_mem : String → List String → Bool
str_mem s List.[] = false
str_mem s (List.◌∷◌ x xs) = x == s || str_mem s xs

abbrev digit : ℕ → String
digit n = slice "0123456789" n (n + 1)

decimal_from : ℕ → ℕ → String → String
decimal_from zero n acc = acc
decimal_from (suc fuel) n acc =
    let shown = String.◌++◌ (digit (n % 10)) acc in
    let rest = decimal_from fuel (n / 10) shown in if ltb n 10 then shown else rest

-- `%d`. A number has fewer digits than its successor has units, so that the fuel suffices.
unfoldable pub decimal : ℕ → String
unfolding decimal_from
decimal n = decimal_from (suc n) n ""

unfoldable pub decimal_ℤ : ℤ → String
unfolding decimal
decimal_ℤ (pos n) = decimal n
decimal_ℤ (negsuc n) = String.◌++◌ "-" (decimal (suc n))

prints : decimal_ℤ (negsuc 1204) ≡ "-1205"
unfolding decimal_ℤ
prints = refl

trims : trim_space " \t a b \n" ≡ "a b"
unfolding trim_space
trims = refl

finds : contains "x_Token" "oke" ≡ true
unfolding contains
finds = refl
