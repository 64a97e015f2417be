-- ===== src/Base/Bytes.antt =====
-- Byte lengths and byte positions of texts: the clauses of the native operations, as equations.
use Prim.Native.Nat.{ℕ, ◌+◌, ◌-◌, ◌≤◌, ◌<◌}
use Prim.Native.Char.{Char, len_utf8}
use Prim.Native.String.{String, [], ◌∷◌, len, slice}
use Prim.Native.String.len
use Prim.Native.String.slice
use mathlib.Core.Path.{◌≡◌, ap, sym, ◌∙◌}
use mathlib.Core.Logic.{◌⊎◌, inl, inr}
use native.Mathlib.Omega.{arith}
use text.Mathlib.TextPositions.{len_utf8-pos}

pub len-nil : len [] ≡ 0
len-nil = len.nil

pub len-cons : (c : Char) (s : String) → len (c ∷ s) ≡ len_utf8 c + len s
len-cons c s = len.cons c s

pub 0-lt-len_utf8 : (c : Char) → 0 < len_utf8 c
0-lt-len_utf8 c = let (k, e) = len_utf8-pos c in omega (arith, e)

pub slice-nil : (b : ℕ) → slice [] 0 b ≡ []
slice-nil b = slice.nil 0 b

-- `slice s 0 b` is the longest run of whole characters at the start of s that takes at most b bytes.
pub slice-cons_fits :
    (c : Char) (s : String) (b : ℕ)
    → len_utf8 c ≤ b
    → slice (c ∷ s) 0 b ≡ c ∷ slice s 0 (b - len_utf8 c)
slice-cons_fits c s b h = slice.cons-zero c s b ∙ ground arith

pub slice-cons_over : (c : Char) (s : String) (b : ℕ) → b < len_utf8 c → slice (c ∷ s) 0 b ≡ []
slice-cons_over c s b h = slice.cons-zero c s b ∙ ground arith

pub fits_cases : (c : Char) (b : ℕ) → (len_utf8 c ≤ b) ⊎ (b < len_utf8 c)
fits_cases c b = omega arith

pub len-slice-le : (s : String) (b : ℕ) → len (slice s 0 b) ≤ b
len-slice-le [] b = rw (slice-nil b, len-nil) (omega arith)
len-slice-le (c ∷ s) b = elim (fits_cases c b) [
  | inl h ↦
      rw (slice-cons_fits c s b h, len-cons c (slice s 0 (b - len_utf8 c)))
        (omega (arith, len-slice-le s (b - len_utf8 c)))
  | inr h ↦ rw (slice-cons_over c s b h, len-nil) (omega arith)
]

-- A text that is cut where a cut ended is not cut further.
pub slice-len-slice : (s : String) (b : ℕ) → slice s 0 (len (slice s 0 b)) ≡ slice s 0 b
slice-len-slice [] b = slice-nil (len (slice [] 0 b)) ∙ sym (slice-nil b)
slice-len-slice (c ∷ s) b = elim (fits_cases c b) [
  | inl h ↦
      let k = len (slice s 0 (b - len_utf8 c)) in
      let e : len_utf8 c + k - len_utf8 c ≡ k = omega arith in
      rw (slice-cons_fits c s b h, len-cons c (slice s 0 (b - len_utf8 c)))
        (slice-cons_fits c s (len_utf8 c + k) (omega arith)
          ∙ ap (λ n. c ∷ slice s 0 n) e
          ∙ ap (◌∷◌ c) (slice-len-slice s (b - len_utf8 c)))
  | inr h ↦ rw (slice-cons_over c s b h) (slice-cons_over c s (len []) (0-lt-len_utf8 c))
]
