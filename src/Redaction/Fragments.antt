-- ===== src/Redaction/Fragments.antt =====
-- The fragments that a redactor looks for.
use logcenter_sdk_go.Base.{
  ◌≡◌, refl, String, List, [], ◌∷◌, true, false, inl, inr, ◌≢◌, Bool-cases, arith, ◌||◌, ◌==◌,
  str_mem, contains, eq_iff, eq_refl,
}
use mathlib.Core.List.{◌++◌}
use logcenter_sdk_go.Platform.{Platform}
use logcenter_sdk_go.Redaction.Defs.{
  normal, add_fragment, add_fragments, normalize_fragments, new_redactor, any_contained,
  is_sensitive_key, default_sensitive_key_fragments,
}

str_mem-append_left :
    (s : String) (xs ys : List String) → str_mem s xs ≡ true → str_mem s (xs ++ ys) ≡ true
unfolding str_mem
str_mem-append_left s [] ys h = cc
str_mem-append_left s (x ∷ xs) ys h = ground (arith, str_mem-append_left s xs ys)

str_mem-append_last : (s : String) (xs : List String) → str_mem s (xs ++ s ∷ []) ≡ true
unfolding str_mem
str_mem-append_last s [] = ground (arith, eq_refl s)
str_mem-append_last s (x ∷ xs) = ground (arith, str_mem-append_last s xs)

-- A fragment that is in the list is found in every key that contains it.
any_contained-mem :
    (key f : String) (fs : List String)
    → str_mem f fs ≡ true
    → contains key f ≡ true
    → any_contained key fs ≡ true
unfolding any_contained str_mem
any_contained-mem key f [] h k = cc
any_contained-mem key f (x ∷ xs) h k = ground (arith, eq_iff x f, any_contained-mem key f xs)

-- No entry twice.
abbrev pub IsDistinct : List String → Type 0
IsDistinct [] = Unit
IsDistinct (x ∷ xs) = (str_mem x xs ≡ false) × IsDistinct xs

str_mem-append_fresh :
    (x y : String) (xs : List String)
    → str_mem x xs ≡ false
    → (y == x) ≡ false
    → str_mem x (xs ++ y ∷ []) ≡ false
unfolding str_mem
str_mem-append_fresh x y [] h k = ground arith
str_mem-append_fresh x y (z ∷ xs) h k = ground (arith, str_mem-append_fresh x y xs)

IsDistinct-append :
    (xs : List String) (y : String)
    → IsDistinct xs
    → str_mem y xs ≡ false
    → IsDistinct (xs ++ y ∷ [])
unfolding str_mem
IsDistinct-append [] y d h = (refl, tt)
IsDistinct-append (x ∷ xs) y (p, d) h = (
  str_mem-append_fresh x y xs p (ground (arith, eq_iff x y, eq_iff y x)),
  IsDistinct-append xs y d (ground arith),
)

module _ (platform : Platform) where
  add_fragment-keeps :
      (s : String) (acc : List String) (f : String)
      → str_mem s acc ≡ true
      → str_mem s (add_fragment platform acc f) ≡ true
  unfolding add_fragment
  add_fragment-keeps s acc f h = ground (arith, str_mem-append_left s acc (normal platform f ∷ []))

  add_fragments-keeps :
      (s : String) (acc fs : List String)
      → str_mem s acc ≡ true
      → str_mem s (add_fragments platform acc fs) ≡ true
  unfolding add_fragments
  add_fragments-keeps s acc [] h = h
  add_fragments-keeps s acc (f ∷ fs) h =
      add_fragments-keeps s (add_fragment platform acc f) fs (add_fragment-keeps s acc f h)

  add_fragment-mem :
      (acc : List String) (f : String)
      → normal platform f ≢ ""
      → str_mem (normal platform f) (add_fragment platform acc f) ≡ true
  unfolding add_fragment
  add_fragment-mem acc f n =
      ground (arith, eq_iff (normal platform f) "", str_mem-append_last (normal platform f) acc)

  -- Every fragment that is not blank is in the result, in its normal form.
  add_fragments-mem :
      (f : String) (acc fs : List String)
      → str_mem f fs ≡ true
      → normal platform f ≢ ""
      → str_mem (normal platform f) (add_fragments platform acc fs) ≡ true
  unfolding add_fragments str_mem
  add_fragments-mem f acc [] h n = cc
  add_fragments-mem f acc (g ∷ fs) h n = elim (Bool-cases (g == f)) [
    | inl e ↦
        let e' : g ≡ f = (eq_iff g f).0 e in
        add_fragments-keeps (normal platform f) (add_fragment platform acc g) fs
          (rw e' (add_fragment-mem acc f n))
    | inr e ↦ add_fragments-mem f (add_fragment platform acc g) fs (ground arith) n
  ]

  add_fragment-IsDistinct :
      (acc : List String) (f : String) → IsDistinct acc → IsDistinct (add_fragment platform acc f)
  unfolding add_fragment
  add_fragment-IsDistinct acc f d =
      elim (Bool-cases (normal platform f == "" || str_mem (normal platform f) acc)) [
        | inl e ↦ rw e d
        | inr e ↦ rw e (IsDistinct-append acc (normal platform f) d (ground arith))
      ]

  add_fragments-IsDistinct :
      (acc fs : List String) → IsDistinct acc → IsDistinct (add_fragments platform acc fs)
  unfolding add_fragments
  add_fragments-IsDistinct acc [] d = d
  add_fragments-IsDistinct acc (f ∷ fs) d =
      add_fragments-IsDistinct (add_fragment platform acc f) fs (add_fragment-IsDistinct acc f d)

-- A redactor with the caller's extra fragments lists each of its fragments once.
pub new_redactor-IsDistinct :
    (platform : Platform) (extra : List String) → IsDistinct (new_redactor platform extra).fragments
unfolding new_redactor normalize_fragments
new_redactor-IsDistinct platform extra =
    add_fragments-IsDistinct platform [] (default_sensitive_key_fragments ++ extra) tt

-- A key is sensitive to a redactor if it contains, in lower case and without the space around it, one of
-- the default fragments or of the caller's extra ones, which must not be blank.
pub new_redactor-is_sensitive_key :
    (platform : Platform) (extra : List String) (key fragment : String)
    → str_mem fragment (default_sensitive_key_fragments ++ extra) ≡ true
    → normal platform fragment ≢ ""
    → contains (normal platform key) (normal platform fragment) ≡ true
    → is_sensitive_key platform (new_redactor platform extra) key ≡ true
unfolding new_redactor normalize_fragments is_sensitive_key
new_redactor-is_sensitive_key platform extra key f h n c =
    any_contained-mem (normal platform key) (normal platform f) _
      (add_fragments-mem platform f [] (default_sensitive_key_fragments ++ extra) h n) c
