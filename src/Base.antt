-- ===== src/Base.antt =====
-- The names that the other modules share: the libraries', passed on, and those of the children.
pub mod Tests
pub mod Lists
pub mod Int
pub mod Text
pub mod Bytes
pub mod Blank
pub mod Split
pub mod Trim
pub mod Base64
pub use Tests.{
  ltb, leb, num_eq, if◌then◌else◌, ltb→lt, lt→ltb, leb→le, le→leb, num_eq_iff, Bool-cases,
  Option-cases, Sum-cases, if-true, if-false,
}
pub use Lists.{
  length, get_elem?, set, take, drop, length-append, length-set, length-take, length-drop,
  take-append-drop,
}
pub use Lists.{List-cases, All, All-append, All-take, All-drop, All-set}
pub use Int.{ℤ, pos, negsuc, leb_ℤ, ltb_ℤ, to_nat, wrap_int64, to_uint64, ◌+ℤ◌, ◌-ℤ◌, add_uint64}
unfoldable pub use Text.{
  is_space, trim_space, contains, ends_with, str_mem, is_blank, decimal, decimal_ℤ,
}
pub use Prim.Native.Nat.{ℕ, zero, suc, ◌+◌, ◌-◌, ◌*◌, ◌/◌, ◌%◌, ◌^◌, ◌≤◌, ◌<◌, min, max}
pub use Prim.Native.String.{String, len}
pub use mathlib.Core.Path.{◌≡◌, refl, sym, ap, ◌∙◌, subst}
pub use mathlib.Core.Logic.{◌≢◌, ◌↔◌, ◌⊎◌, inl, inr}
pub use mathlib.Core.Bool.{Bool, true, false, not, ◌&&◌, ◌||◌}
pub use mathlib.Core.Option.{Option, none, some}
pub use mathlib.Core.List.{List, [], ◌∷◌, ◌++◌, map}
pub use native.Mathlib.Omega.{arith}
pub use text.Mathlib.Text.{◌==◌}
pub use text.Mathlib.TextEquality.{eq_iff}
pub use text.Mathlib.TextPositions.{eq_refl}
