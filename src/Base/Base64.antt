-- ===== src/Base/Base64.antt =====
-- `base64.StdEncoding`: three bytes become four characters, and the last group is padded.
use Prim.Native.Nat.{ℕ, ◌+◌, ◌*◌, ◌/◌, ◌%◌}
use Prim.Native.String.{String, ◌++◌, slice}
use mathlib.Core.List.{List, [], ◌∷◌}
use mathlib.Core.Path.{◌≡◌, refl}

-- The character of six bits.
sextet : ℕ → String
sextet n =
    slice "ABCDEFGHIJKLMNOPQRSTUVWXYZabcdefghijklmnopqrstuvwxyz0123456789+/" (n % 64) (n % 64 + 1)

unfoldable pub base64 : List ℕ → String
unfolding sextet
base64 [] = ""
base64 (a ∷ []) = sextet (a / 4) ++ sextet (a % 4 * 16) ++ "=="
base64 (a ∷ b ∷ []) = sextet (a / 4) ++ sextet (a % 4 * 16 + b / 16) ++ sextet (b % 16 * 4) ++ "="
base64 (a ∷ b ∷ c ∷ bytes) =
    sextet (a / 4)
    ++ sextet (a % 4 * 16 + b / 16)
    ++ sextet (b % 16 * 4 + c / 64)
    ++ sextet c
    ++ base64 bytes

encodes : base64 (77 ∷ 97 ∷ 110 ∷ 77 ∷ []) ≡ "TWFuTQ=="
unfolding base64
encodes = refl
