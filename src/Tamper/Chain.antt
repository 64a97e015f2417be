-- ===== src/Tamper/Chain.antt =====
-- The chain as one who checks it reads it: from the events alone, without the chain's state.
use logcenter_sdk_go.Base.{
  ℕ, String, List, [], ◌∷◌, true, false, Option, none, some, ◌==◌, eq_refl, Bool-cases, ap, ◌∙◌,
  add_uint64, ◌⊎◌, inl, inr, ◌≡◌, refl,
}
use logcenter_sdk_go.Types.{Event, Value, Entries, end, entry, Fields}
use logcenter_sdk_go.Json.{marshal_event, marshal_event-empty}
use logcenter_sdk_go.Limit.Values.{put, lookup}
use logcenter_sdk_go.Platform.{Platform}
use logcenter_sdk_go.Tamper.Defs.{
  TamperEvidence, matches, hash_evidence, hash_event_for_evidence, without_key,
  clone_fields_without_key, evidence_fields, with_evidence, fields_or_empty,
}
use logcenter_sdk_go.Tamper.State.{SaveFaults, applied_with, apply}

abbrev pub evidence_of : String → Event → Option Value
evidence_of key event = elim event.metadata [ none ↦ none | some es ↦ lookup key es ]

without_key-put :
    (key : String) (v : Value) (es : Entries) → without_key key (put key v es) ≡ without_key key es
unfolding without_key put
without_key-put key v end = rw (eq_refl key)
without_key-put key v (entry k w es) = elim (Bool-cases (k == key)) [
  | inl h ↦ rw (h, eq_refl key)
  | inr h ↦ rw (h, h) (ap (λ rest. entry k w rest) (without_key-put key v es))
]

module _ (platform : Platform) where
  abbrev digest : Option String → Option String
  digest none = none
  digest (some encoded) = some (platform.sha256 encoded)

  hash_metadata :
      (event : Event) (metadata_key : String) (value : Value) (metadata : Fields)
      → hash_event_for_evidence platform
          (record event { metadata = some (put metadata_key value (fields_or_empty metadata)) })
          metadata_key
        ≡ hash_event_for_evidence platform (record event { metadata = metadata }) metadata_key
  unfolding hash_event_for_evidence clone_fields_without_key
  hash_metadata event metadata_key value none =
      ap (λ es. digest (marshal_event (record event { metadata = some es })))
        (without_key-put metadata_key value end)
      ∙ ap digest (marshal_event-empty event)
  hash_metadata event metadata_key value (some es) =
      ap (λ fs. digest (marshal_event (record event { metadata = some fs })))
        (without_key-put metadata_key value es)

  -- The canonical hash does not see what stands under the key.
  pub hash_event-with_evidence :
      (evidence : TamperEvidence) (value : Value) (event : Event)
      → hash_event_for_evidence platform (with_evidence evidence value event) evidence.metadata_key
        ≡ hash_event_for_evidence platform event evidence.metadata_key
  unfolding with_evidence
  hash_event-with_evidence evidence value event =
      hash_metadata event evidence.metadata_key value event.metadata

  -- The events in their order continue a chain of which the last sequence number and the last hash are
  -- given: an event that the chain takes carries the next number, the hash before it, its own canonical
  -- hash and the hash over these, and the events after it continue from there.
  abbrev pub Continues : TamperEvidence → ℕ → String → List Event → Type 0
  Continues evidence sequence previous_hash [] = Unit
  Continues evidence sequence previous_hash (event ∷ events) =
      (((matches evidence event ≡ false)
          ⊎ (hash_event_for_evidence platform event evidence.metadata_key ≡ none))
        × Continues evidence sequence previous_hash events)
      ⊎ ((canonical_hash : String) × (hash_event_for_evidence platform event evidence.metadata_key
            ≡ some canonical_hash)
          × (evidence_of evidence.metadata_key event
              ≡ some (
                  evidence_fields evidence (add_uint64 sequence 1) previous_hash canonical_hash (
                    hash_evidence platform evidence (add_uint64 sequence 1) previous_hash
                      canonical_hash)))
          × Continues evidence (add_uint64 sequence 1)
              (hash_evidence platform evidence (add_uint64 sequence 1) previous_hash canonical_hash)
              events)

  -- A run of `Apply`: what each save does and the event, and then the events that come out.
  pub apply_all :
      TamperEvidence → Option String → List (SaveFaults × Event) → TamperEvidence × List Event
  unfolding apply
  apply_all evidence file [] = (evidence, [])
  apply_all evidence file ((faults, event) ∷ rest) =
      let applied = apply platform faults evidence file event in
      let (last, events) = apply_all applied.evidence applied.file rest in
      (last, applied.event ∷ events)

  module _ (faults : SaveFaults) (evidence : TamperEvidence) (file : Option String)
      (event : Event) where
    -- An event that the chain does not take, or that has no JSON text, comes out as it went in, and
    -- the chain stays where it is.
    pub apply-skipped :
        (matches evidence event ≡ false)
          ⊎ (hash_event_for_evidence platform event evidence.metadata_key ≡ none)
        → ((apply platform faults evidence file event).evidence ≡ evidence)
          × ((apply platform faults evidence file event).event ≡ event)
    unfolding apply
    apply-skipped (inl h) = rw h (refl, refl)
    apply-skipped (inr h) = elim (Bool-cases (matches evidence event)) [
      | inl m ↦ rw (m, h) (refl, refl)
      | inr m ↦ rw m (refl, refl)
    ]

    pub apply-linked :
        (canonical_hash : String)
        → matches evidence event ≡ true
        → hash_event_for_evidence platform event evidence.metadata_key ≡ some canonical_hash
        → apply platform faults evidence file event
          ≡ applied_with platform faults evidence file event canonical_hash
    unfolding apply
    apply-linked canonical_hash m h = rw (m, h)

  at : TamperEvidence → ℕ → String → TamperEvidence
  at base sequence previous_hash = record base {
    sequence = sequence;
    previous_hash = previous_hash;
  }
