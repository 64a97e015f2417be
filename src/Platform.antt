-- ===== src/Platform.antt =====
-- What the code takes from Go's tables, regular expressions, clock formats, hashes and decoders: the
-- arguments of the model. A module that uses one takes a `Platform`.
use Prim.Native.Char.{Char}
use logcenter_sdk_go.Base.{String, List, Bool, Option}
use logcenter_sdk_go.Types.{Event}

-- A text cut up by a regular expression: what lies between the matches, and the matches, in order.
pub data Piece : Type 0 where
  kept : String → Piece
  matched : String → Piece

-- `lower` is `unicode.ToLower`. `bearer` and `pairs` cut a text at the matches of `bearerPattern`, and
-- of `sensitivePairPattern(fragments)`. `is_rfc3339` says whether `time.Parse(time.RFC3339Nano, s)`
-- succeeds. `decode_event` is `json.Unmarshal` of one line of the outbox into an event. `sha256` and
-- `hmac_sha256 secret` are the hexadecimal digests.
pub record Platform : Type 0 where
  pub lower : Char → Char
  pub bearer : String → List Piece
  pub pairs : List String → String → List Piece
  pub is_rfc3339 : String → Bool
  pub decode_event : String → Option Event
  pub sha256 : String → String
  pub hmac_sha256 : String → String → String
