-- ===== src/Http/Body.antt =====
-- logcenter/bodycapture.go: the body of a request, read up to a limit and put back. What the standard
-- library makes of bytes and texts is the record `Decoders`.
use Prim.Native.String.{slice, len}
use text.Mathlib.Text.{starts_with}
use logcenter_sdk_go.Base.{
  ℕ, ◌-◌, ◌*◌, ℤ, pos, String, List, [], ◌∷◌, ◌++◌, ends_with, Bool, true, false, Option, none,
  some, ◌==◌, ◌&&◌, ◌||◌, not, if◌then◌else◌, leb_ℤ, ltb, ltb_ℤ, ◌+ℤ◌, wrap_int64, to_nat, take,
  drop, length, trim_space,
}
use logcenter_sdk_go.Base.Split.{split}
use logcenter_sdk_go.Types.{
  Value, str, bool, int, arr, fields, Items, nil, cons, Entries, end, entry, Fields,
}
use logcenter_sdk_go.Limit.Values.{put}
use logcenter_sdk_go.Http.Request.{Reader, HttpRequest}
use Prim.Native.Char.{Char}

-- `decode_first` is the first JSON value of the bytes, `parse_query` is `url.ParseQuery` with each key once,
-- `text` is `string(body)`, `media_type` is the type that `mime.ParseMediaType` finds, and `lower` is
-- `strings.ToLower`.
pub record Decoders : Type 0 where
  pub decode_first : List ℕ → Option Value
  pub parse_query : String → Option (List (String × List String))
  pub text : List ℕ → String
  pub media_type : String → Option String
  pub lower : String → String

pub record RequestBodyCaptureOptions : Type 0 where
  pub max_bytes : ℤ
  pub content_types : List String

abbrev pub default_request_body_capture_max_bytes : ℤ
default_request_body_capture_max_bytes = pos (8 * 1024)

-- `io.ReadAll(io.LimitReader(original, limit))`: the error is seen only before the limit is reached.
abbrev pub failure_before : ℕ → Reader → Option String
failure_before limit reader = if ltb (length reader.bytes) limit then reader.failure else none

-- What is captured, and whether it is cut off; `none` where the body cannot be read.
unfoldable pub captured_part : ℤ → Option String → List ℕ → Option (List ℕ × Bool)
captured_part max_bytes (some text) buffer = none
captured_part max_bytes none buffer =
    if ltb_ℤ max_bytes (pos (length buffer))
    then some (take (to_nat max_bytes) buffer, true)
    else some (buffer, false)

-- `readAndRestoreBody`, with the body that it leaves: the bytes that were read, and then the rest.
unfoldable pub read_and_restore_body : ℤ → Reader → Option (List ℕ × Bool) × Reader
read_and_restore_body max_bytes original =
    let limit = to_nat (wrap_int64 (max_bytes +ℤ pos 1)) in
    let buffer = take limit original.bytes in
    let rest = drop limit original.bytes in
    (
      captured_part max_bytes (failure_before limit original) buffer,
      record original { bytes = buffer ++ rest },
    )

unfoldable pub is_json_media_type : String → Bool
is_json_media_type media_type = media_type == "application/json" || ends_with media_type "+json"

-- `strings.TrimSuffix(value, "*")` of a text that ends with it.
abbrev pub without_last : String → String
without_last value = slice value 0 (len value - 1)

-- Whether an allowed type, in lower case and trimmed, covers a media type.
unfoldable pub type_covers : String → String → Bool
type_covers value media_type =
    not (value == "")
    && (value == media_type
        || ((ends_with value "/*" && starts_with media_type (without_last value))
            || (value == "application/*+json"
                && (starts_with media_type "application/" && ends_with media_type "+json"))))

module _ (decoders : Decoders) where
  unfoldable pub any_covers : String → List String → Bool
  any_covers media_type [] = false
  any_covers media_type (value ∷ values) =
      type_covers (decoders.lower (trim_space value)) media_type || any_covers media_type values

  unfoldable pub content_type_allowed : String → List String → Bool
  content_type_allowed media_type [] = not (media_type == "") && is_json_media_type media_type
  content_type_allowed media_type (value ∷ values) =
      not (media_type == "") && any_covers media_type (value ∷ values)

  abbrev semicolon : Char
  semicolon = ";"

  abbrev first_part : List String → String
  first_part [] = ""
  first_part (part ∷ parts) = part

  unfoldable pub media_type_of : String → String
  media_type_of content_type = elim (decoders.media_type content_type) [
    | none ↦ decoders.lower (trim_space (first_part (split semicolon content_type)))
    | some media_type ↦ decoders.lower media_type
  ]

  abbrev pub items_of : List String → Items
  items_of [] = nil
  items_of (value ∷ values) = cons (str value) (items_of values)

  abbrev pub form_value : List String → Value
  form_value (value ∷ []) = str value
  form_value values = arr (items_of values)

  unfoldable pub form_values_to_fields : List (String × List String) → Entries
  form_values_to_fields [] = end
  form_values_to_fields ((key, values) ∷ more) =
      put key (form_value values) (form_values_to_fields more)

  abbrev pub as_text : List ℕ → Value × String
  as_text body = (str (decoders.text body), "text")

  abbrev pub as_form : List ℕ → Option (List (String × List String)) → Value × String
  as_form body none = as_text body
  as_form body (some values) = (fields (form_values_to_fields values), "form")

  -- The attempt at a form, and the text if there is none.
  abbrev pub form_or_text : List ℕ → String → Value × String
  form_or_text body media_type =
      if media_type == "application/x-www-form-urlencoded"
      then as_form body (decoders.parse_query (decoders.text body))
      else as_text body

  abbrev pub as_json : List ℕ → String → Option Value → Value × String
  as_json body media_type none = form_or_text body media_type
  as_json body media_type (some value) = (value, "json")

  unfoldable pub decode_captured_body : List ℕ → String → Bool → Value × String
  decode_captured_body body media_type truncated =
      if truncated
      then as_text body
      else if is_json_media_type media_type
      then as_json body media_type (decoders.decode_first body)
      else form_or_text body media_type

  -- `if maxBytes <= 0 { maxBytes = DefaultRequestBodyCaptureMaxBytes }`.
  abbrev pub max_bytes_of : RequestBodyCaptureOptions → ℤ
  max_bytes_of options =
      if leb_ℤ options.max_bytes (pos 0)
      then default_request_body_capture_max_bytes
      else options.max_bytes

  unfoldable pub body_fields : String → ℤ → Option (List ℕ × Bool) → Fields
  body_fields content_type max_bytes none = none
  body_fields content_type max_bytes (some ([], truncated)) = none
  body_fields content_type max_bytes (some (b ∷ captured, truncated)) =
      let (value, encoding) =
        decode_captured_body (b ∷ captured) (media_type_of content_type) truncated in
      some (
        entry "request_body"
          (fields (
            entry "content_type" (str content_type) (
              entry "encoding" (str encoding) (
                entry "size_bytes" (int (pos (length (b ∷ captured)))) (
                  entry "max_bytes" (int max_bytes)
                    (entry "truncated" (bool truncated) (entry "value" value end)))))))
          end)

  abbrev pub captured_with :
      String → ℤ → Option (List ℕ × Bool) × Reader → HttpRequest → Fields × HttpRequest
  captured_with content_type max_bytes (captured, restored) r =
      (body_fields content_type max_bytes captured, record r { body = some restored })

  -- The body that is there.
  abbrev pub capture_body :
      RequestBodyCaptureOptions → HttpRequest → Option Reader → Fields × HttpRequest
  capture_body options r none = (none, r)
  capture_body options r (some original) =
      let content_type = r.header "Content-Type" in
      if content_type_allowed (media_type_of content_type) options.content_types
      then captured_with content_type (max_bytes_of options)
          (read_and_restore_body (max_bytes_of options) original) r
      else (none, r)

  -- `CaptureHTTPRequestBody`: the fields, `none` where it gives nil and false, and the request after it.
  unfoldable pub capture_http_request_body :
      RequestBodyCaptureOptions → HttpRequest → Fields × HttpRequest
  capture_http_request_body options r = capture_body options r r.body
