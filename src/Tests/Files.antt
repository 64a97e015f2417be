-- ===== src/Tests/Files.antt =====
-- The outbox and the chain of evidence.
use logcenter_sdk_go.Base.{
  pos, negsuc, String, [], ◌∷◌, ◌++◌, false, Option, none, some, ◌≡◌, refl, trim_space,
}
use logcenter_sdk_go.Types.{str}
use logcenter_sdk_go.Json.{marshal_event}
use logcenter_sdk_go.Files.{replace_file}
use logcenter_sdk_go.Outbox.{append, peek, remove, id_set}
use logcenter_sdk_go.Outbox.Pending.{pending, append-pending}
use logcenter_sdk_go.Outbox.Peeking.{budget, peek_lem}
use logcenter_sdk_go.Outbox.Removal.{Leaves, remove-Leaves}
use logcenter_sdk_go.Tamper.{
  TamperEvidenceState, save_state, load_state, state_of, hash_event_for_evidence, with_evidence,
}
use logcenter_sdk_go.Tamper.Chain.{hash_event-with_evidence}
use logcenter_sdk_go.Tamper.Saved.{Saved, load_state-save_state}
use logcenter_sdk_go.Tests.Data.{
  platform, outbox, no_outbox_faults, no_save_faults, evidence, info_event, debug_event, warn_event,
}

append-pending_example :
    (pending platform (append no_outbox_faults (some outbox) (info_event ∷ [])).0
      ≡ pending platform (some outbox) ++ info_event ∷ [])
    × ((append no_outbox_faults (some outbox) (info_event ∷ [])).1 ≡ none)
unfolding marshal_event
append-pending_example =
    append-pending platform no_outbox_faults outbox (info_event ∷ []) refl refl (λ k. refl)
      ((_, refl, refl, refl), tt)

peek_lem_example :
    (peek platform false (some outbox) (pos 1) ≡ some (debug_event ∷ [], none))
    × (peek platform false (some outbox) (negsuc 1) ≡ none)
unfolding budget
peek_lem_example = peek_lem platform outbox 1 (refl, (refl, tt))

remove-Leaves_example :
    Leaves platform no_outbox_faults
      (id_set ("b" ∷ "" ∷ []))
      (pending platform (some outbox))
      (remove platform no_outbox_faults (some outbox) ("b" ∷ "" ∷ []))
remove-Leaves_example = remove-Leaves platform no_outbox_faults outbox ("b" ∷ "" ∷ [])

hash_event-with_evidence_example :
    hash_event_for_evidence platform (with_evidence evidence (str "v") warn_event) "k"
    ≡ hash_event_for_evidence platform warn_event "k"
hash_event-with_evidence_example = hash_event-with_evidence platform evidence (str "v") warn_event

abbrev decode : String → Option TamperEvidenceState
decode body = some (state_of evidence)

load_state-save_state_example :
    load_state decode false
      (record evidence { previous_hash = ""; sequence = 0 })
      (save_state no_save_faults evidence none).0
    ≡ (evidence, none)
unfolding save_state replace_file trim_space
load_state-save_state_example =
    load_state-save_state no_save_faults evidence none decode "" 0 refl refl refl
