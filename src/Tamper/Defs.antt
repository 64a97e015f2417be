-- ===== src/Tamper/Defs.antt =====
-- The evidence of an event.
use Prim.Native.String.{◌++◌}
use logcenter_sdk_go.Base.{
  ℕ, pos, String, List, [], ◌∷◌, Bool, true, Option, none, some, ◌&&◌, ◌==◌, if◌then◌else◌, decimal,
  str_mem, trim_space, is_blank,
}
use logcenter_sdk_go.Types.{Value, str, int, fields, Entries, end, entry, Fields, Event}
use logcenter_sdk_go.Config.{TamperEvidenceConfig}
use logcenter_sdk_go.Json.{marshal_event}
use logcenter_sdk_go.Limit.Values.{put}
use logcenter_sdk_go.Platform.{Platform}

abbrev pub default_tamper_evidence_metadata_key : String
default_tamper_evidence_metadata_key = "logcenter_integrity"

pub record TamperEvidence : Type 0 where
  pub config : TamperEvidenceConfig
  pub event_types : List String
  pub classes : List String
  pub metadata_key : String
  pub previous_hash : String
  pub sequence : ℕ

pub record TamperEvidenceState : Type 0 where
  pub chain_id : String
  pub previous_hash : String
  pub sequence : ℕ

-- The set as a list: an entry may stand in it twice.
unfoldable pub string_set : List String → List String
string_set [] = []
string_set (value ∷ values) =
    if is_blank value then string_set values else trim_space value ∷ string_set values

-- A filter that is empty lets everything pass.
abbrev pub passes : String → List String → Bool
passes value [] = true
passes value (x ∷ xs) = str_mem value (x ∷ xs)

unfoldable pub matches : TamperEvidence → Event → Bool
matches evidence event =
    passes event.event_type evidence.event_types && passes event.classification evidence.classes

unfoldable pub without_key : String → Entries → Entries
without_key key end = end
without_key key (entry k v es) =
    if k == key then without_key key es else entry k v (without_key key es)

unfoldable pub clone_fields_without_key : Fields → String → Fields
unfolding without_key
clone_fields_without_key none key = none
clone_fields_without_key (some es) key = some (without_key key es)

module _ (platform : Platform) where
  unfoldable pub hash_evidence : TamperEvidence → ℕ → String → String → String
  hash_evidence evidence sequence previous_hash canonical_hash =
      let message =
        evidence.config.chain_id
        ++ "\n"
        ++ decimal sequence
        ++ "\n"
        ++ previous_hash
        ++ "\n"
        ++ canonical_hash in
      if evidence.config.secret == ""
      then platform.sha256 message
      else platform.hmac_sha256 evidence.config.secret message

  -- `none` is an event that has no JSON text.
  unfoldable pub hash_event_for_evidence : Event → String → Option String
  unfolding clone_fields_without_key
  hash_event_for_evidence event metadata_key =
      elim (marshal_event
        (record event { metadata = clone_fields_without_key event.metadata metadata_key })) [
          | none ↦ none
          | some encoded ↦ some (platform.sha256 encoded)
        ]

unfoldable pub algorithm : TamperEvidence → String
algorithm evidence = if evidence.config.secret == "" then "sha256" else "hmac-sha256"

abbrev pub fields_or_empty : Fields → Entries
fields_or_empty none = end
fields_or_empty (some es) = es

-- What is written under the key.
unfoldable pub evidence_fields : TamperEvidence → ℕ → String → String → String → Value
unfolding algorithm
evidence_fields evidence sequence previous_hash canonical_hash hash = fields (
    entry "version" (str "v1") (
      entry "algorithm" (str (algorithm evidence)) (
        entry "chain_id" (str evidence.config.chain_id) (
          entry "sequence" (int (pos sequence)) (
            entry "previous_hash" (str previous_hash)
              (entry "canonical_hash" (str canonical_hash) (entry "hash" (str hash) end)))))))

unfoldable pub with_evidence : TamperEvidence → Value → Event → Event
with_evidence evidence value event = record event {
  metadata = some (put evidence.metadata_key value (fields_or_empty event.metadata));
}
