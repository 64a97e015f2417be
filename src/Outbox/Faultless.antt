-- ===== src/Outbox/Faultless.antt =====
-- `Remove` where no call of the operating system fails.
use logcenter_sdk_go.Base.{
  ℕ, suc, ◌≤◌, ◌<◌, String, List, [], ◌∷◌, Bool, true, false, Option, none, some, ◌==◌, str_mem,
  length, All, inl, inr, ◌≡◌, refl, sym, ap, ◌∙◌, subst, arith, Bool-cases, Option-cases, eq_refl,
}
use logcenter_sdk_go.Types.{Event}
use logcenter_sdk_go.Files.{replace_file}
use logcenter_sdk_go.Platform.{Platform}
use logcenter_sdk_go.Outbox.Defs.{
  DurableOutbox, OutboxFaults, lines_of, is_removed, keep_lines, store_kept, remove_lines, id_set,
  remove_ids, remove, event_ids,
}
use logcenter_sdk_go.Outbox.Pending.{IsShort, without_ids, decoded}
use logcenter_sdk_go.Outbox.Removal.{
  kept, kept-removed, kept-left, is_removed-none, is_removed-some, decoded-kept,
}

-- No call fails.
abbrev pub IsFaultless : OutboxFaults → Type 0
IsFaultless faults =
    (faults.mkdir_fails ≡ false)
    × (faults.open_fails ≡ false)
    × (faults.create_fails ≡ false)
    × ((n : ℕ) → faults.write_fails n ≡ false)
    × (faults.close_source_fails ≡ false)
    × (faults.close_temp_fails ≡ false)
    × (faults.remove_fails ≡ false)
    × (faults.replace_faults.remove_fails ≡ false)
    × (faults.replace_faults.rename_fails ≡ false)

-- An event that `Remove` can find by its identifier.
abbrev pub HasId : Event → Type 0
HasId event = (event.event_id == "") ≡ false

module _ (platform : Platform) where
  keep_lines-faultless :
      (write_fails : ℕ → Bool) (ids : List String) (n : ℕ) (lines : List String)
      → ((k : ℕ) → write_fails k ≡ false)
      → All IsShort lines
      → keep_lines platform write_fails ids n lines ≡ inr (kept platform ids lines)
  unfolding keep_lines
  keep_lines-faultless write_fails ids n [] w short = refl
  keep_lines-faultless write_fails ids n (line ∷ lines) w (s, short) =
      elim (Bool-cases (is_removed platform ids line)) [
        | inl r ↦
            rw (kept-removed platform ids line lines r, s, r, keep_lines)
              (keep_lines-faultless write_fails ids n lines w short)
        | inr r ↦
            rw
              (
                kept-left platform ids line lines r,
                s,
                r,
                w n,
                keep_lines-faultless write_fails ids (suc n) lines w short,
                keep_lines,
              )
              refl
      ]

  All-kept : (ids lines : List String) → All IsShort lines → All IsShort (kept platform ids lines)
  All-kept ids [] short = tt
  All-kept ids (line ∷ lines) (s, short) = elim (Bool-cases (is_removed platform ids line)) [
    | inl r ↦ rw (kept-removed platform ids line lines r) (All-kept ids lines short)
    | inr r ↦ rw (kept-left platform ids line lines r) (s, All-kept ids lines short)
  ]

  store_kept-faultless :
      (faults : OutboxFaults) (lines after : List String)
      → faults.close_source_fails ≡ false
      → faults.close_temp_fails ≡ false
      → faults.remove_fails ≡ false
      → faults.replace_faults.remove_fails ≡ false
      → faults.replace_faults.rename_fails ≡ false
      → lines_of (store_kept platform faults lines after).0 ≡ after
  unfolding store_kept replace_file
  store_kept-faultless faults lines [] s t r p q = rw (s, t, r, store_kept) refl
  store_kept-faultless faults lines (line ∷ after) s t r p q =
      rw (s, t, p, q, store_kept, replace_file) refl

  remove_lines-faultless :
      (faults : OutboxFaults) (ids lines : List String)
      → IsFaultless faults
      → All IsShort lines
      → lines_of (remove_lines platform faults ids lines).0 ≡ kept platform ids lines
  unfolding remove_lines
  remove_lines-faultless faults ids lines (m, o, c, w, s, t, r, p, q) short =
      let k = keep_lines-faultless faults.write_fails ids 0 lines w short in
      rw (o, m, c, k, remove_lines)
        (store_kept-faultless faults lines (kept platform ids lines) s t r p q)

  is_removed-nil : (line : String) → is_removed platform [] line ≡ false
  unfolding str_mem
  is_removed-nil line = elim (Option-cases (platform.decode_event line)) [
    | inl d ↦ is_removed-none platform [] line d
    | inr (e, d) ↦ is_removed-some platform [] line e d
  ]

  kept-nil : (lines : List String) → kept platform [] lines ≡ lines
  kept-nil [] = refl
  kept-nil (line ∷ lines) =
      kept-left platform [] line lines (is_removed-nil line)
      ∙ ap (λ rest. line ∷ rest) (kept-nil lines)

  remove_ids-faultless :
      (faults : OutboxFaults) (path : String) (file : Option (List String)) (ids : List String)
      → IsFaultless faults
      → All IsShort (lines_of file)
      → lines_of (remove_ids platform faults (record { path = path; file = file }) ids).0.file
        ≡ kept platform ids (lines_of file)
  unfolding remove_ids
  remove_ids-faultless faults path file [] f short = sym (kept-nil (lines_of file))
  remove_ids-faultless faults path none (id ∷ ids) f short = refl
  remove_ids-faultless faults path (some lines) (id ∷ ids) f short =
      remove_lines-faultless faults (id ∷ ids) lines f short

  -- What a removal leaves: an outbox whose lines are the old ones without those of the events.
  pub remove-faultless :
      (faults : OutboxFaults) (outbox : DurableOutbox) (ids : List String)
      → IsFaultless faults
      → All IsShort (lines_of outbox.file)
      → (after : DurableOutbox) × ((remove platform faults (some outbox) ids).0 ≡ some after)
        × All IsShort (lines_of after.file)
        × (decoded platform (lines_of after.file)
            ≡ without_ids (id_set ids) (decoded platform (lines_of outbox.file)))
  unfolding remove
  remove-faultless faults outbox ids f short =
      let after = (remove_ids platform faults outbox (id_set ids)).0 in
      let k = remove_ids-faultless faults outbox.path outbox.file (id_set ids) f short in
      (
        after,
        refl,
        subst (λ lines. All IsShort lines) (sym k)
            (All-kept (id_set ids) (lines_of outbox.file) short),
        ap (decoded platform) k ∙ decoded-kept platform (id_set ids) (lines_of outbox.file),
      )

-- The events that are left are fewer, if the first of them is among those whose identifiers are given.
without_ids-le :
    (ids : List String) (events : List Event) → length (without_ids ids events) ≤ length events
without_ids-le ids [] = omega arith
without_ids-le ids (event ∷ events) = elim (Bool-cases (str_mem event.event_id ids)) [
  | inl m ↦ rw m (omega (arith, without_ids-le ids events))
  | inr m ↦ rw m (omega (arith, without_ids-le ids events))
]

event_ids-first :
    (event : Event) (batch : List Event)
    → HasId event
    → str_mem event.event_id (id_set (event_ids (event ∷ batch))) ≡ true
unfolding event_ids id_set str_mem
event_ids-first event batch h = rw (h, event_ids, h, id_set, eq_refl event.event_id) refl

pub without_ids_shrinks :
    (event : Event) (batch rest : List Event)
    → HasId event
    → length (without_ids (id_set (event_ids (event ∷ batch))) (event ∷ rest))
      < length (event ∷ rest)
without_ids_shrinks event batch rest h =
    let ids = id_set (event_ids (event ∷ batch)) in
    rw (event_ids-first event batch h) (omega (arith, without_ids-le ids rest))

pub All-without_ids :
    (ids : List String) (events : List Event)
    → All HasId events
    → All HasId (without_ids ids events)
All-without_ids ids [] h = tt
All-without_ids ids (event ∷ events) (p, h) = elim (Bool-cases (str_mem event.event_id ids)) [
  | inl m ↦ rw m (All-without_ids ids events h)
  | inr m ↦ rw m (p, All-without_ids ids events h)
]
