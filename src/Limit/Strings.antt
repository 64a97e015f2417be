-- ===== src/Limit/Strings.antt =====
-- The strings that the limiter looks at fit the limit, keys and fields of changes included.
use logcenter_sdk_go.Base.{
  ℕ, suc, ◌≤◌, pos, ◌≡◌, String, len, List, [], ◌∷◌, All, ◌==◌, Bool-cases, inl, inr,
}
use logcenter_sdk_go.Types.{
  Value, null, str, bool, int, map, fields, arr, strs, changes, other, Entries, end, entry, Items,
  nil, cons, Changes, done, change,
}
use logcenter_sdk_go.Limit.Values.{
  Limiter, put, limit_string, limit_strings, limit_value, limit_entries, limit_items, limit_changes,
}
use logcenter_sdk_go.Limit.Prefix.{truncate_string_bytes-le}

unfoldable mutual
  pub Fits : ℕ → Value → Type 0
  Fits m (str s) = len s ≤ m
  Fits m (map es) = FitsEntries m es
  Fits m (fields es) = FitsEntries m es
  Fits m (arr xs) = FitsItems m xs
  Fits m (strs ss) = All (λ s. len s ≤ m) ss
  Fits m (changes cs) = FitsChanges m cs
  Fits m null = Unit
  Fits m (bool b) = Unit
  Fits m (int z) = Unit
  Fits m (other o) = Unit

  pub FitsEntries : ℕ → Entries → Type 0
  FitsEntries m end = Unit
  FitsEntries m (entry k v es) = (len k ≤ m) × Fits m v × FitsEntries m es

  pub FitsItems : ℕ → Items → Type 0
  FitsItems m nil = Unit
  FitsItems m (cons v vs) = Fits m v × FitsItems m vs

  pub FitsChanges : ℕ → Changes → Type 0
  FitsChanges m done = Unit
  FitsChanges m (change f old new cs) = (len f ≤ m) × Fits m old × Fits m new × FitsChanges m cs

put-FitsEntries :
    (m : ℕ) (k : String) (v : Value) (es : Entries)
    → len k ≤ m
    → Fits m v
    → FitsEntries m es
    → FitsEntries m (put k v es)
unfolding put Fits
put-FitsEntries m k v end h p q = (h, p, tt)
put-FitsEntries m k v (entry j w es) h p (hj, pw, q) = elim (Bool-cases (j == k)) [
  | inl e ↦ rw e (h, p, q)
  | inr e ↦ rw e (hj, pw, put-FitsEntries m k v es h p q)
]

module _ (limiter : Limiter) (m : ℕ) (limit : limiter.max_string_bytes ≡ pos (suc m)) where
  limit_string-le : (s : String) → len (limit_string limiter s) ≤ suc m
  unfolding limit_string
  limit_string-le s = rw limit ((truncate_string_bytes-le s m).0)

  limit_strings-All : (ss : List String) → All (λ s. len s ≤ suc m) (limit_strings limiter ss)
  unfolding limit_strings
  limit_strings-All [] = tt
  limit_strings-All (s ∷ ss) = (limit_string-le s, limit_strings-All ss)

  mutual
    unfolding limit_value Fits

    value-Fits : (v : Value) → Fits (suc m) (limit_value limiter v)
    value-Fits (str s) = limit_string-le s
    value-Fits (map es) = entries-Fits es
    value-Fits (fields es) = entries-Fits es
    value-Fits (arr xs) = items-Fits xs
    value-Fits (strs ss) = limit_strings-All ss
    value-Fits (changes cs) = changes-Fits cs
    value-Fits null = tt
    value-Fits (bool b) = tt
    value-Fits (int z) = tt
    value-Fits (other o) = tt

    entries-Fits : (es : Entries) → FitsEntries (suc m) (limit_entries limiter es)
    entries-Fits end = tt
    entries-Fits (entry k v es) =
        put-FitsEntries (suc m) (limit_string limiter k) (limit_value limiter v)
          (limit_entries limiter es) (limit_string-le k) (value-Fits v) (entries-Fits es)

    items-Fits : (xs : Items) → FitsItems (suc m) (limit_items limiter xs)
    items-Fits nil = tt
    items-Fits (cons v vs) = (value-Fits v, items-Fits vs)

    changes-Fits : (cs : Changes) → FitsChanges (suc m) (limit_changes limiter cs)
    changes-Fits done = tt
    changes-Fits (change f old new cs) =
        (limit_string-le f, value-Fits old, value-Fits new, changes-Fits cs)

-- At a positive limit, in a limited value the strings, the keys of maps, the items of a `[]string` and the
-- fields of changes fit it, as deep as `map[string]any`, `Fields`, `[]any` and `[]Change` nest. Nothing
-- is said of the strings inside a value of any other Go type, such as a named string or a
-- `map[string]string`.
pub limit_value-Fits :
    (limiter : Limiter) (m : ℕ) (v : Value)
    → limiter.max_string_bytes ≡ pos (suc m)
    → Fits (suc m) (limit_value limiter v)
limit_value-Fits limiter m v limit = value-Fits limiter m limit v
