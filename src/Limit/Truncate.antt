-- ===== src/Limit/Truncate.antt =====
-- Truncation of a string at a number of bytes.
use Prim.Native.Char.{len_utf8}
use Prim.Native.String
use Prim.Native.String.{slice}
use logcenter_sdk_go.Base.{ℕ, ◌+◌, ℤ, pos, ◌-ℤ◌, String, len, ◌||◌, if◌then◌else◌, leb_ℤ, ltb_ℤ}

abbrev pub truncated_suffix : String
truncated_suffix = "...[TRUNCATED]"

-- `for index := range value`: the start of each character, until one lies behind maxBytes.
unfoldable pub prefix_end : ℤ → ℕ → ℕ → String → ℕ
prefix_end max_bytes index end String.[] = end
prefix_end max_bytes index end (String.◌∷◌ c rest) =
    let further = prefix_end max_bytes (index + len_utf8 c) index rest in
    if ltb_ℤ max_bytes (pos index) then end else further

unfoldable pub valid_string_prefix : String → ℤ → String
unfolding prefix_end
valid_string_prefix value max_bytes =
    if leb_ℤ max_bytes (pos 0)
    then ""
    else if leb_ℤ (pos (len value)) max_bytes
    then value
    else slice value 0 (prefix_end max_bytes 0 0 value)

unfoldable pub truncate_string_bytes : String → ℤ → String
truncate_string_bytes value max_bytes =
    if leb_ℤ max_bytes (pos 0) || leb_ℤ (pos (len value)) max_bytes
    then value
    else if leb_ℤ max_bytes (pos (len truncated_suffix))
    then valid_string_prefix value max_bytes
    else String.◌++◌ (valid_string_prefix value (max_bytes -ℤ pos (len truncated_suffix)))
        truncated_suffix
