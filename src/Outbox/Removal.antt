-- ===== src/Outbox/Removal.antt =====
-- `Remove` against the list of the pending events.
use logcenter_sdk_go.Base.{
  ℕ, suc, String, len, List, [], ◌∷◌, Bool, true, false, Option, none, some, if◌then◌else◌, leb,
  str_mem, ◌⊎◌, inl, inr, ◌≡◌, ◌≢◌, refl, sym, ap, ◌∙◌, arith, Bool-cases, Option-cases,
}
use logcenter_sdk_go.Types.{Event}
use logcenter_sdk_go.Errors.{Error}
use logcenter_sdk_go.Files.{replace_file}
use logcenter_sdk_go.Platform.{Platform}
use logcenter_sdk_go.Outbox.Defs.{
  DurableOutbox, OutboxFaults, lines_of, max_line, is_removed, keep_lines, store_kept, remove_lines,
  id_set, remove_ids, remove,
}
use logcenter_sdk_go.Outbox.Pending.{without_ids, decoded, pending, decoded-none, decoded-some}

module _ (platform : Platform) where
  -- The lines of `Remove`.
  abbrev pub kept : List String → List String → List String
  kept ids [] = []
  kept ids (line ∷ lines) =
      let rest = kept ids lines in if is_removed platform ids line then rest else line ∷ rest

  pub kept-removed :
      (ids : List String) (line : String) (lines : List String)
      → is_removed platform ids line ≡ true
      → kept ids (line ∷ lines) ≡ kept ids lines
  kept-removed ids line lines h = rw (h, kept)

  pub kept-left :
      (ids : List String) (line : String) (lines : List String)
      → is_removed platform ids line ≡ false
      → kept ids (line ∷ lines) ≡ line ∷ kept ids lines
  kept-left ids line lines h = rw (h, kept)

  keep_lines_lem :
      (write_fails : ℕ → Bool) (ids : List String) (n : ℕ) (lines : List String)
      → ((err : Error) × (keep_lines platform write_fails ids n lines ≡ inl err))
        ⊎ (keep_lines platform write_fails ids n lines ≡ inr (kept ids lines))
  unfolding keep_lines
  keep_lines_lem write_fails ids n [] = inr refl
  keep_lines_lem write_fails ids n (line ∷ lines) = elim (Bool-cases (leb max_line (len line))) [
    | inl l ↦ rw (l, keep_lines) (inl (_, refl))
    | inr l ↦ elim (Bool-cases (is_removed platform ids line)) [
      | inl r ↦
          rw (kept-removed ids line lines r, l, r, keep_lines)
            (keep_lines_lem write_fails ids n lines)
      | inr r ↦ elim (Bool-cases (write_fails n)) [
        | inl w ↦ rw (l, r, w, keep_lines) (inl (_, refl))
        | inr w ↦ elim (keep_lines_lem write_fails ids (suc n) lines) [
          | inl (err, k) ↦ rw (l, r, w, k, keep_lines) (inl (err, refl))
          | inr k ↦ rw (kept-left ids line lines r, l, r, w, k, keep_lines) (inr refl)
        ]
      ]
    ]
  ]

  pub is_removed-none :
      (ids : List String) (line : String)
      → platform.decode_event line ≡ none
      → is_removed platform ids line ≡ false
  unfolding is_removed
  is_removed-none ids line d = rw (d, is_removed)

  pub is_removed-some :
      (ids : List String) (line : String) (event : Event)
      → platform.decode_event line ≡ some event
      → is_removed platform ids line ≡ str_mem event.event_id ids
  unfolding is_removed
  is_removed-some ids line event d = rw (d, is_removed)

  pub decoded-kept :
      (ids lines : List String)
      → decoded platform (kept ids lines) ≡ without_ids ids (decoded platform lines)
  decoded-kept ids [] = refl
  decoded-kept ids (line ∷ lines) = elim (Option-cases (platform.decode_event line)) [
    | inl d ↦
        let r = is_removed-none ids line d in
        ap (decoded platform) (kept-left ids line lines r)
        ∙ decoded-none platform line (kept ids lines) d
        ∙ decoded-kept ids lines
        ∙ sym (ap (without_ids ids) (decoded-none platform line lines d))
    | inr (e, d) ↦ elim (Bool-cases (str_mem e.event_id ids)) [
      | inl m ↦
          let r = is_removed-some ids line e d ∙ m in
          rw (kept-removed ids line lines r, decoded-some platform line lines e d, m)
            (decoded-kept ids lines)
      | inr m ↦
          let r = is_removed-some ids line e d ∙ m in
          rw
            (
              kept-left ids line lines r,
              decoded-some platform line (kept ids lines) e d,
              decoded-some platform line lines e d,
              m,
            )
            (ap (λ rest. e ∷ rest) (decoded-kept ids lines))
    ]
  ]

  -- `Remove` ends without an error and keeps just the other lines, in their order, or with an error; an
  -- error leaves the file as it was, unless the renaming failed: then the file is gone.
  abbrev Removed : OutboxFaults → List String → List String → Type 0
  Removed faults ids lines =
      ((remove_lines platform faults ids lines).1 ≡ none)
        × (lines_of (remove_lines platform faults ids lines).0 ≡ kept ids lines)
      ⊎ ((remove_lines platform faults ids lines).1 ≢ none)
        × (((remove_lines platform faults ids lines).0 ≡ some lines)
            ⊎ (faults.replace_faults.rename_fails ≡ true)
              × ((remove_lines platform faults ids lines).0 ≡ none))

  store_kept-cases :
      (faults : OutboxFaults) (lines after : List String)
      → ((store_kept platform faults lines after).1 ≡ none)
          × (lines_of (store_kept platform faults lines after).0 ≡ after)
        ⊎ ((store_kept platform faults lines after).1 ≢ none)
          × (((store_kept platform faults lines after).0 ≡ some lines)
              ⊎ (faults.replace_faults.rename_fails ≡ true)
                × ((store_kept platform faults lines after).0 ≡ none))
  unfolding store_kept replace_file
  store_kept-cases faults lines [] = ground arith
  store_kept-cases faults lines (line ∷ after) = ground arith

  remove_lines-cases :
      (faults : OutboxFaults) (ids lines : List String)
      → (((remove_lines platform faults ids lines).1 ≢ none)
          × ((remove_lines platform faults ids lines).0 ≡ some lines))
        ⊎ (remove_lines platform faults ids lines
            ≡ store_kept platform faults lines (kept ids lines))
  unfolding remove_lines
  remove_lines-cases faults ids lines = elim (keep_lines_lem faults.write_fails ids 0 lines) [
    | inl (err, k) ↦ rw (k, remove_lines) (ground arith)
    | inr k ↦ rw (k, remove_lines) (ground arith)
  ]

  remove_lines-Removed :
      (faults : OutboxFaults) (ids lines : List String) → Removed faults ids lines
  remove_lines-Removed faults ids lines = elim (remove_lines-cases faults ids lines) [
    | inl (e, f) ↦ inr (e, inl f)
    | inr k ↦ rw k (store_kept-cases faults lines (kept ids lines))
  ]

  pub without_ids-nil : (events : List Event) → without_ids [] events ≡ events
  unfolding str_mem
  without_ids-nil [] = refl
  without_ids-nil (event ∷ events) = ap (λ rest. event ∷ rest) (without_ids-nil events)

  -- What a removal leaves of the pending events.
  abbrev pub Leaves :
      OutboxFaults → List String → List Event → Option DurableOutbox × Option Error → Type 0
  Leaves faults ids before r =
      (r.1 ≡ none) × (pending platform r.0 ≡ without_ids ids before)
      ⊎ (r.1 ≢ none)
        × ((pending platform r.0 ≡ before)
            ⊎ (faults.replace_faults.rename_fails ≡ true) × (pending platform r.0 ≡ []))

  remove_lines-Leaves :
      (faults : OutboxFaults) (path : String) (ids lines : List String)
      → Leaves faults ids (decoded platform lines) (
        some (record { path = path; file = (remove_lines platform faults ids lines).0 }),
        (remove_lines platform faults ids lines).1,
      )
  remove_lines-Leaves faults path ids lines = elim (remove_lines-Removed faults ids lines) [
    | inl (e, k) ↦ inl (e, ap (decoded platform) k ∙ decoded-kept ids lines)
    | inr (e, inl f) ↦ inr (e, inl (ap (λ file. decoded platform (lines_of file)) f))
    | inr (e, inr (r, f)) ↦ inr (e, inr (r, ap (λ file. decoded platform (lines_of file)) f))
  ]

  remove_ids-Leaves :
      (faults : OutboxFaults) (path : String) (file : Option (List String)) (ids : List String)
      → let (after, err) = remove_ids platform faults (record { path = path; file = file }) ids in
        Leaves faults ids (decoded platform (lines_of file)) (some after, err)
  unfolding remove_ids
  remove_ids-Leaves faults path file [] = inl (refl, sym (without_ids-nil _))
  remove_ids-Leaves faults path none (id ∷ ids) = inl (refl, refl)
  remove_ids-Leaves faults path (some lines) (id ∷ ids) =
      remove_lines-Leaves faults path (id ∷ ids) lines

  -- `Remove` that reports no error leaves the pending events without those of the identifiers that are
  -- not empty, in their order. If it reports one, they are as before, or the renaming failed and
  -- nothing is pending any more.
  pub remove-Leaves :
      (faults : OutboxFaults) (outbox : DurableOutbox) (ids : List String)
      → Leaves faults
          (id_set ids)
          (pending platform (some outbox))
          (remove platform faults (some outbox) ids)
  unfolding remove
  remove-Leaves faults outbox ids = remove_ids-Leaves faults outbox.path outbox.file (id_set ids)
