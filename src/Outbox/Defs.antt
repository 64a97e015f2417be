-- ===== src/Outbox/Defs.antt =====
-- The outbox and its methods. Its file is the list of its lines, `none` where it does not exist; `mu`
-- is held for the whole of a method.
use logcenter_sdk_go.Base.{
  ℕ, suc, ◌*◌, ℤ, pos, String, len, List, [], ◌∷◌, ◌++◌, Bool, true, false, Option, none, some,
  ◌&&◌, ◌==◌, if◌then◌else◌, leb, leb_ℤ, ltb_ℤ, str_mem, ◌⊎◌, inl, inr,
}
use logcenter_sdk_go.Types.{Event}
use logcenter_sdk_go.Config.{max_json_value_bytes}
use logcenter_sdk_go.Errors.{Error, failure}
use logcenter_sdk_go.Json.{marshal_event}
use logcenter_sdk_go.Files.{ReplaceFaults, replace_file}
use logcenter_sdk_go.Platform.{Platform}

pub record DurableOutbox : Type 0 where
  pub path : String
  pub file : Option (List String)

-- Which calls of the operating system fail: `write_fails n` is the write after n others. A write that
-- fails writes nothing.
pub record OutboxFaults : Type 0 where
  pub mkdir_fails : Bool
  pub open_fails : Bool
  pub create_fails : Bool
  pub write_fails : ℕ → Bool
  pub close_source_fails : Bool
  pub close_temp_fails : Bool
  pub remove_fails : Bool
  pub replace_faults : ReplaceFaults

-- nil for an empty path. What the file holds is an argument.
unfoldable pub new_durable_outbox : String → Option (List String) → Option DurableOutbox
new_durable_outbox path file =
    if path == "" then none else some (record { path = path; file = file })

abbrev pub lines_of : Option (List String) → List String
lines_of none = []
lines_of (some lines) = lines

-- One `Encode` after another: the lines that are written, and the error.
unfoldable pub encode_all : (ℕ → Bool) → ℕ → List Event → List String × Option Error
encode_all write_fails n [] = ([], none)
encode_all write_fails n (event ∷ events) = elim (marshal_event event) [
  | none ↦ ([], some (failure "append outbox event"))
  | some line ↦ elim (write_fails n) [
    | true ↦ ([], some (failure "append outbox event"))
    | false ↦ let (lines, err) = encode_all write_fails (suc n) events in (line ∷ lines, err)
  ]
]

unfoldable pub append_lines :
    OutboxFaults → DurableOutbox → List Event → DurableOutbox × Option Error
append_lines faults outbox events =
    if faults.mkdir_fails
    then (outbox, some (failure "create outbox directory"))
    else if faults.open_fails
    then (outbox, some (failure "open outbox"))
    else let (lines, err) = encode_all faults.write_fails 0 events in
      (record outbox { file = some (lines_of outbox.file ++ lines) }, err)

unfoldable pub append :
    OutboxFaults → Option DurableOutbox → List Event → Option DurableOutbox × Option Error
append faults none events = (none, none)
append faults (some outbox) [] = (some outbox, none)
append faults (some outbox) (event ∷ events) =
    let (after, err) = append_lines faults outbox (event ∷ events) in (some after, err)

-- `bufio.Scanner` gives up at a line of this many bytes.
abbrev pub max_line : ℕ
max_line = max_json_value_bytes * 2

-- `append(events, event)`, where the scan goes on without an error.
abbrev pub with_first {ℓ} : {A : Type ℓ} → A → Option (List A) → Option (List A)
with_first a none = none
with_first a (some rest) = some (a ∷ rest)

module _ (platform : Platform) where
  -- The scan of `Peek`, after n events; `none` is the scanner's error. The scanner reads a line before
  -- the test of `max`, so that a line which is too long is an error behind the last event too.
  unfoldable pub peek_lines : ℤ → ℕ → List String → Option (List Event)
  peek_lines max n [] = some []
  peek_lines max n (line ∷ lines) = elim (leb max_line (len line)) [
    | true ↦ none
    | false ↦ elim (ltb_ℤ (pos 0) max && leb_ℤ max (pos n)) [
      | true ↦ some []
      | false ↦ elim (platform.decode_event line) [
        | none ↦ peek_lines max n lines
        | some event ↦ with_first event (peek_lines max (suc n) lines)
      ]
    ]
  ]

  -- The events and the error of a scan.
  abbrev pub scanned : Option (List Event) → List Event × Option Error
  scanned none = ([], some (failure "scan outbox"))
  scanned (some events) = (events, none)

  -- `Peek`, `none` for a panic: `make([]Event, 0, max)` does not take a negative capacity.
  unfoldable pub peek : Bool → Option DurableOutbox → ℤ → Option (List Event × Option Error)
  peek open_fails none max = some ([], none)
  peek open_fails (some outbox) max = elim outbox.file [
    | none ↦ some ([], none)
    | some lines ↦
        if open_fails
        then some ([], some (failure "open outbox"))
        else if ltb_ℤ max (pos 0)
        then none
        else some (scanned (peek_lines max 0 lines))
  ]

  -- The test of `Remove`: the line is an event with one of the identifiers.
  unfoldable pub is_removed : List String → String → Bool
  is_removed ids line = elim (platform.decode_event line) [
    | none ↦ false
    | some event ↦ str_mem event.event_id ids
  ]

  -- The lines that the scan of `Remove` writes, after n others, or the error that ends it.
  unfoldable pub keep_lines : (ℕ → Bool) → List String → ℕ → List String → Error ⊎ List String
  keep_lines write_fails ids n [] = inr []
  keep_lines write_fails ids n (line ∷ lines) = elim (leb max_line (len line)) [
    | true ↦ inl (failure "scan outbox")
    | false ↦ elim (is_removed ids line) [
      | true ↦ keep_lines write_fails ids n lines
      | false ↦ elim (write_fails n) [
        | true ↦ inl (failure "write temp outbox")
        | false ↦ elim (keep_lines write_fails ids (suc n) lines) [
          | inl err ↦ inl err
          | inr kept ↦ inr (line ∷ kept)
        ]
      ]
    ]
  ]

  -- What `Remove` does with the lines that it keeps.
  unfoldable pub store_kept :
      OutboxFaults → List String → List String → Option (List String) × Option Error
  store_kept faults lines kept =
      if faults.close_source_fails
      then (some lines, some (failure "close outbox"))
      else if faults.close_temp_fails
      then (some lines, some (failure "close temp outbox"))
      else elim kept [
        | [] ↦
            if faults.remove_fails
            then (some lines, some (failure "remove empty outbox"))
            else (none, none)
        | line ∷ rest ↦ replace_file faults.replace_faults (line ∷ rest) (some lines)
      ]

  unfoldable pub remove_lines :
      OutboxFaults → List String → List String → Option (List String) × Option Error
  remove_lines faults ids lines =
      if faults.open_fails
      then (some lines, some (failure "open outbox"))
      else if faults.mkdir_fails
      then (some lines, some (failure "create outbox directory"))
      else if faults.create_fails
      then (some lines, some (failure "create temp outbox"))
      else elim (keep_lines faults.write_fails ids 0 lines) [
        | inl err ↦ (some lines, some err)
        | inr kept ↦ store_kept faults lines kept
      ]

-- The set of the identifiers that are not empty.
unfoldable pub id_set : List String → List String
id_set [] = []
id_set (id ∷ ids) = if id == "" then id_set ids else id ∷ id_set ids

module _ (platform : Platform) where
  -- `Remove` from the set of the identifiers on.
  unfoldable pub remove_ids :
      OutboxFaults → DurableOutbox → List String → DurableOutbox × Option Error
  remove_ids faults outbox [] = (outbox, none)
  remove_ids faults outbox (id ∷ ids) = elim outbox.file [
    | none ↦ (outbox, none)
    | some lines ↦
        let (file, err) = remove_lines platform faults (id ∷ ids) lines in
        (record outbox { file = file }, err)
  ]

  unfoldable pub remove :
      OutboxFaults → Option DurableOutbox → List String → Option DurableOutbox × Option Error
  remove faults none event_ids = (none, none)
  remove faults (some outbox) event_ids =
      let (after, err) = remove_ids faults outbox (id_set event_ids) in (some after, err)

unfoldable pub event_ids : List Event → List String
event_ids [] = []
event_ids (event ∷ events) =
    if event.event_id == "" then event_ids events else event.event_id ∷ event_ids events

unfoldable pub copy_events : List Event → List Event
copy_events events = events
