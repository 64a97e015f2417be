-- ===== src/Limit/Prefix.antt =====
-- A string is cut to the whole characters that fit.
use Prim.Native.Char.{len_utf8}
use Prim.Native.String
use Prim.Native.String.{slice}
use logcenter_sdk_go.Base.{
  ℕ, zero, suc, ◌+◌, ◌-◌, ◌≤◌, ◌<◌, pos, negsuc, ◌≡◌, refl, ap, sym, ◌∙◌, String, len, arith, inl,
  inr, if◌then◌else◌, leb, ◌⊎◌,
}
use logcenter_sdk_go.Base.Bytes.{
  len-nil, len-cons, slice-nil, slice-cons_fits, slice-cons_over, fits_cases, len-slice-le,
  slice-len-slice,
}
use text.Mathlib.TextPositions.{len-append, slice-zero-zero}
use logcenter_sdk_go.Limit.Truncate.{
  prefix_end, valid_string_prefix, truncate_string_bytes, truncated_suffix,
}

-- A position behind the limit ends the loop at once.
prefix_end_over : (m index end : ℕ) (s : String) → m < index → prefix_end (pos m) index end s ≡ end
unfolding prefix_end
prefix_end_over m index end String.[] h = refl
prefix_end_over m index end (String.◌∷◌ c s) h = ground arith

-- In a string that is too long, the loop ends where the longest fitting run of characters ends.
prefix_end-len-slice :
    (m index end : ℕ) (s : String)
    → index ≤ m
    → m < index + len s
    → prefix_end (pos m) index end s ≡ index + len (slice s 0 (m - index))
unfolding prefix_end
prefix_end-len-slice m index end String.[] h k = absurd (omega (arith, len-nil))
prefix_end-len-slice m index end (String.◌∷◌ c s) h k =
    let next = index + len_utf8 c in
    elim (fits_cases c (m - index)) [
      | inl fit ↦
          let e : m - next ≡ m - index - len_utf8 c = omega arith in
          ground (
            arith,
            prefix_end-len-slice m next index s (omega arith) (omega (arith, len-cons c s)),
            ap len (slice-cons_fits c s (m - index) fit),
            len-cons c (slice s 0 (m - index - len_utf8 c)),
            ap (λ n. len (slice s 0 n)) e,
          )
      | inr over ↦ ground (
        arith,
        prefix_end_over m next index s (omega arith),
        ap len (slice-cons_over c s (m - index) over),
        len-nil,
      )
    ]

slice_all_le : (s : String) (m : ℕ) → len s ≤ m → slice s 0 m ≡ s
slice_all_le String.[] m h = slice-nil m
slice_all_le (String.◌∷◌ c s) m h =
    let e = len-cons c s in
    slice-cons_fits c s m (omega arith)
    ∙ ap (String.◌∷◌ c) (slice_all_le s (m - len_utf8 c) (omega arith))

le_or_lt : (a b : ℕ) → (a ≤ b) ⊎ (b < a)
le_or_lt a b = omega arith

-- `validStringPrefix` returns the longest run of whole characters from the start of the string that
-- takes at most the given number of bytes.
pub valid_string_prefix-eq-slice :
    (value : String) (m : ℕ) → valid_string_prefix value (pos m) ≡ slice value 0 m
unfolding valid_string_prefix
valid_string_prefix-eq-slice value zero = sym (slice-zero-zero value)
valid_string_prefix-eq-slice value (suc n) = elim (le_or_lt (len value) (suc n)) [
  | inl fit ↦ ground (arith, slice_all_le value (suc n) fit)
  | inr over ↦
      let e : suc n - 0 ≡ suc n = omega arith in
      let stop : prefix_end (pos (suc n)) 0 0 value ≡ len (slice value 0 (suc n)) =
        prefix_end-len-slice (suc n) 0 0 value (omega arith) (omega arith)
        ∙ ground (arith, ap (λ k. len (slice value 0 k)) e) in
      ground (arith, ap (slice value 0) stop, slice-len-slice value (suc n))
]

-- What truncation makes of a string at a positive limit of m bytes.
abbrev pub cut : String → ℕ → String
cut value m =
    if leb (len value) m
    then value
    else if leb m 14
    then slice value 0 m
    else String.◌++◌ (slice value 0 (m - 14)) truncated_suffix

-- `truncateStringBytes` leaves a string alone where the limit is not positive or not exceeded. At a
-- limit of up to 14 bytes it keeps the whole characters that fit; above, it keeps those that fit in 14
-- bytes less and marks the cut by the suffix.
pub truncate_string_bytes-eq-cut :
    (value : String) (m : ℕ)
    → (truncate_string_bytes value (pos (suc m)) ≡ cut value (suc m))
      × (truncate_string_bytes value (pos 0) ≡ value)
      × (truncate_string_bytes value (negsuc m) ≡ value)
unfolding truncate_string_bytes
truncate_string_bytes-eq-cut value m = (
  ground (
    arith,
    valid_string_prefix-eq-slice value (suc m),
    valid_string_prefix-eq-slice value (suc m - 14),
  ),
  refl,
  ground arith,
)

len-cut-le : (value : String) (m : ℕ) → len (cut value m) ≤ m
len-cut-le value m = ground (
  arith,
  len-slice-le value m,
  len-slice-le value (m - 14),
  len-append (slice value 0 (m - 14)) truncated_suffix,
)

-- A truncated string fits its limit, and a second truncation at the same limit changes nothing.
pub truncate_string_bytes-le :
    (value : String) (m : ℕ)
    → let short = truncate_string_bytes value (pos (suc m)) in
      (len short ≤ suc m) × (truncate_string_bytes short (pos (suc m)) ≡ short)
truncate_string_bytes-le value m =
    let e = (truncate_string_bytes-eq-cut value m).0 in
    let again = (truncate_string_bytes-eq-cut (truncate_string_bytes value (pos (suc m))) m).0 in
    let fits = len-cut-le value (suc m) in (rw e fits, ground (arith, e, again, fits))
