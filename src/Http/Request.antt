-- ===== src/Http/Request.antt =====
-- The parts of `net/http` that the code looks at: requests with their headers, and bodies as readers.
use logcenter_sdk_go.Base.{
  ℕ, String, List, [], ◌∷◌, Option, none, some, ◌==◌, if◌then◌else◌, trim_space,
}
use logcenter_sdk_go.Base.Split.{split}
use logcenter_sdk_go.Types.{Entries, end, entry, Fields}
use logcenter_sdk_go.Limit.Values.{put}
use logcenter_sdk_go.Context.{Context}
use Prim.Native.Char.{Char}

-- An `io.Reader`: the bytes that it gives, and the text of the error that it ends with, `none` for the
-- end of the file. After an error it gives the error again.
pub record Reader : Type 0 where
  pub bytes : List ℕ
  pub failure : Option String

-- A `*http.Request`. `header` is `Header.Get`, which gives "" for a name that is not there; a body that is
-- nil or `http.NoBody` is `none`.
pub record HttpRequest : Type 0 where
  pub method : String
  pub scheme : String
  pub host : String
  pub path : String
  pub pattern : String
  pub remote_addr : String
  pub user_agent : String
  pub header : String → String
  pub body : Option Reader
  pub context : Context

unfoldable pub with_context : Context → HttpRequest → HttpRequest
with_context ctx r = record r { context = ctx }

unfoldable pub first_header : HttpRequest → List String → String
first_header r [] = ""
first_header r (name ∷ names) =
    let rest = first_header r names in
    if trim_space (r.header name) == "" then rest else trim_space (r.header name)

abbrev pub dash : Char
dash = "-"

-- The parts of a `traceparent`. `strings.EqualFold` with "00" is equality, since no other character folds
-- to a digit.
abbrev pub trace_of_parts : List String → String × String
trace_of_parts (version ∷ trace ∷ parent ∷ flags ∷ []) =
    if version == "00" then (trace, parent) else ("", "")
trace_of_parts _ = ("", "")

unfoldable pub trace_from_headers : HttpRequest → String × String
trace_from_headers r =
    let trace_id = first_header r ("X-LogCenter-Trace-Id" ∷ "X-Trace-Id" ∷ []) in
    if trace_id == ""
    then trace_of_parts (split dash (first_header r ("Traceparent" ∷ [])))
    else (trace_id, "")

-- All entries set in a map, in the order last to first; Go leaves the order open.
unfoldable pub put_all : Entries → Entries → Entries
put_all end es = es
put_all (entry k v more) es = put k v (put_all more es)

abbrev pub entries_of : Fields → Entries
entries_of none = end
entries_of (some es) = es

-- `len(left) == 0 && len(right) == 0` gives nil.
abbrev pub merged : Entries → Entries → Fields
merged end end = none
merged left right = some (put_all right (put_all left end))

unfoldable pub merge_fields : Fields → Fields → Fields
merge_fields left right = merged (entries_of left) (entries_of right)
