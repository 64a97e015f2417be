-- ===== src/Tamper/Saved.antt =====
-- The file of the chain's state.
use logcenter_sdk_go.Base.{
  ℕ, String, true, false, Option, none, some, is_blank, eq_refl, ◌⊎◌, inl, inr, ◌≡◌, ◌≢◌, arith,
}
use logcenter_sdk_go.Files.{replace_file}
use logcenter_sdk_go.Tamper.Defs.{TamperEvidence, TamperEvidenceState}
use logcenter_sdk_go.Tamper.State.{SaveFaults, marshal_state, state_of, save_state, load_state}

module _ (faults : SaveFaults) (evidence : TamperEvidence) (file : Option String) where
  -- What a save that is not skipped leaves in the file.
  abbrev pub Saved : Type 0
  Saved =
      (save_state faults evidence file ≡ (some (marshal_state (state_of evidence)), none))
      ⊎ ((save_state faults evidence file).1 ≢ none)
        × (((save_state faults evidence file).0 ≡ file)
            ⊎ (faults.replace_faults.rename_fails ≡ true)
              × ((save_state faults evidence file).0 ≡ none))

  pub save_state_lem :
      ((is_blank evidence.config.state_path ≡ true)
        × (save_state faults evidence file ≡ (file, none)))
      ⊎ (is_blank evidence.config.state_path ≡ false) × Saved
  unfolding save_state replace_file
  save_state_lem = ground arith

  -- A chain that is started anew with the configuration of another one, after that has saved its state
  -- without an error, takes up where the other stood. The decoder is assumed to read that state back.
  pub load_state-save_state :
      (decode : String → Option TamperEvidenceState) (previous_hash : String) (sequence : ℕ)
      → decode (marshal_state (state_of evidence)) ≡ some (state_of evidence)
      → is_blank evidence.config.state_path ≡ false
      → (save_state faults evidence file).1 ≡ none
      → load_state decode false
          (record evidence { previous_hash = previous_hash; sequence = sequence })
          (save_state faults evidence file).0
        ≡ (evidence, none)
  unfolding load_state
  load_state-save_state decode previous_hash sequence d b e = elim save_state_lem [
    | inl (b', _) ↦ ground arith
    | inr (_, inl saved) ↦ rw (saved, b, d, eq_refl evidence.config.chain_id) (ground arith)
    | inr (_, inr (e', _)) ↦ ground arith
  ]
