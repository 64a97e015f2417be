-- ===== src/Outbox/Pending.antt =====
-- What the outbox promises: it is the list of the events that are still to be sent.
use logcenter_sdk_go.Base.{
  ℕ, suc, String, len, List, [], ◌∷◌, ◌++◌, Bool, false, Option, none, some, if◌then◌else◌, leb,
  str_mem, All, inl, inr, ◌≡◌, refl, sym, ap, ◌∙◌, Option-cases,
}
use mathlib.Core.List.{append-nil}
use logcenter_sdk_go.Types.{Event}
use logcenter_sdk_go.Json.{marshal_event}
use logcenter_sdk_go.Platform.{Platform}
use logcenter_sdk_go.Outbox.Defs.{
  DurableOutbox, OutboxFaults, lines_of, encode_all, append_lines, append, max_line,
}

-- A line that the scanner takes.
abbrev pub IsShort : String → Type 0
IsShort line = leb max_line (len line) ≡ false

-- The events that are not among the ones with these identifiers.
abbrev pub without_ids : List String → List Event → List Event
without_ids ids [] = []
without_ids ids (event ∷ events) =
    let rest = without_ids ids events in if str_mem event.event_id ids then rest else event ∷ rest

module _ (platform : Platform) where
  -- The lines that can be decoded.
  abbrev pub decoded : List String → List Event
  decoded [] = []
  decoded (line ∷ lines) = elim (platform.decode_event line) [
    | none ↦ decoded lines
    | some event ↦ event ∷ decoded lines
  ]

  abbrev pub pending : Option DurableOutbox → List Event
  pending none = []
  pending (some outbox) = decoded (lines_of outbox.file)

  -- An event that the decoder reads back from its own line.
  abbrev pub IsStorable : Event → Type 0
  IsStorable event =
      (line : String) × (marshal_event event ≡ some line)
      × (platform.decode_event line ≡ some event)
      × IsShort line

  pub decoded-none :
      (line : String) (lines : List String)
      → platform.decode_event line ≡ none
      → decoded (line ∷ lines) ≡ decoded lines
  decoded-none line lines h = rw (h, decoded)

  pub decoded-some :
      (line : String) (lines : List String) (event : Event)
      → platform.decode_event line ≡ some event
      → decoded (line ∷ lines) ≡ event ∷ decoded lines
  decoded-some line lines event h = rw (h, decoded)

  decoded-append : (xs ys : List String) → decoded (xs ++ ys) ≡ decoded xs ++ decoded ys
  decoded-append [] ys = refl
  decoded-append (x ∷ xs) ys = elim (Option-cases (platform.decode_event x)) [
    | inl h ↦ rw (decoded-none x (xs ++ ys) h, decoded-none x xs h) (decoded-append xs ys)
    | inr (e, h) ↦
        rw (decoded-some x (xs ++ ys) e h, decoded-some x xs e h)
          (ap (λ rest. e ∷ rest) (decoded-append xs ys))
  ]

  decoded-encode_all :
      (write_fails : ℕ → Bool) (n : ℕ) (events : List Event)
      → ((k : ℕ) → write_fails k ≡ false)
      → All IsStorable events
      → (decoded (encode_all write_fails n events).0 ≡ events)
        × ((encode_all write_fails n events).1 ≡ none)
  unfolding encode_all
  decoded-encode_all write_fails n [] w all = (refl, refl)
  decoded-encode_all write_fails n (e ∷ es) w ((line, m, d, s), all) =
      let (p, q) = decoded-encode_all write_fails (suc n) es w all in
      rw (m, w n, encode_all) (decoded-some line _ e d ∙ ap (λ rest. e ∷ rest) p, q)

  -- A run of `Append` in which no call fails puts the events behind those that are pending and returns no
  -- error. Here each event can be encoded to a line that is short enough for the scanner and is decoded to
  -- the same event.
  pub append-pending :
      (faults : OutboxFaults) (outbox : DurableOutbox) (events : List Event)
      → faults.mkdir_fails ≡ false
      → faults.open_fails ≡ false
      → ((k : ℕ) → faults.write_fails k ≡ false)
      → All IsStorable events
      → (pending (append faults (some outbox) events).0 ≡ pending (some outbox) ++ events)
        × ((append faults (some outbox) events).1 ≡ none)
  unfolding append append_lines
  append-pending faults outbox [] m o w all = (sym (append-nil (pending (some outbox))), refl)
  append-pending faults outbox (e ∷ es) m o w all =
      let (p, q) = decoded-encode_all faults.write_fails 0 (e ∷ es) w all in
      rw (m, o)
        (
          decoded-append (lines_of outbox.file) _
              ∙ ap (λ rest. decoded (lines_of outbox.file) ++ rest) p,
          q,
        )
