-- ===== src/Tamper/State.antt =====
-- The state of the chain and its file.
use Prim.Native.String.{◌++◌}
use logcenter_sdk_go.Base.{
  String, Bool, Option, none, some, ◌&&◌, not, ◌==◌, if◌then◌else◌, decimal, trim_space, is_blank,
  add_uint64,
}
use logcenter_sdk_go.Types.{Event}
use logcenter_sdk_go.Config.{TamperEvidenceConfig}
use logcenter_sdk_go.Json.{json_string}
use logcenter_sdk_go.Errors.{Error, failure}
use logcenter_sdk_go.Files.{ReplaceFaults, replace_file}
use logcenter_sdk_go.Platform.{Platform}
use logcenter_sdk_go.Tamper.Defs.{
  TamperEvidence, TamperEvidenceState, string_set, matches, hash_evidence, hash_event_for_evidence,
  evidence_fields, with_evidence, default_tamper_evidence_metadata_key,
}

-- Which calls of `saveState` fail.
pub record SaveFaults : Type 0 where
  pub mkdir_fails : Bool
  pub create_fails : Bool
  pub write_fails : Bool
  pub close_fails : Bool
  pub replace_faults : ReplaceFaults

-- `json.Marshal(state)`.
unfoldable pub marshal_state : TamperEvidenceState → String
marshal_state state =
    "{\"chain_id\":"
    ++ json_string state.chain_id
    ++ ",\"previous_hash\":"
    ++ json_string state.previous_hash
    ++ ",\"sequence\":"
    ++ decimal state.sequence
    ++ "}"

abbrev pub state_of : TamperEvidence → TamperEvidenceState
state_of evidence = record {
  chain_id = evidence.config.chain_id;
  previous_hash = evidence.previous_hash;
  sequence = evidence.sequence;
}

-- The new content of the state file, and the error.
unfoldable pub save_state :
    SaveFaults → TamperEvidence → Option String → Option String × Option Error
save_state faults evidence file =
    if is_blank evidence.config.state_path
    then (file, none)
    else if faults.mkdir_fails
    then (file, some (failure "create tamper evidence state directory"))
    else if faults.create_fails
    then (file, some (failure "create tamper evidence temp state"))
    else if faults.write_fails
    then (file, some (failure "write tamper evidence state"))
    else if faults.close_fails
    then (file, some (failure "close tamper evidence state"))
    else replace_file faults.replace_faults (marshal_state (state_of evidence)) file

-- `json.Unmarshal` into a state is an argument. A read can fail for another reason than that the file
-- does not exist.
unfoldable pub load_state :
    (String → Option TamperEvidenceState)
    → Bool
    → TamperEvidence
    → Option String
    → TamperEvidence × Option Error
load_state decode read_fails evidence file =
    if is_blank evidence.config.state_path
    then (evidence, none)
    else if read_fails
    then (evidence, some (failure "read tamper evidence state"))
    else elim file [
      | none ↦ (evidence, none)
      | some body ↦ elim (decode body) [
        | none ↦ (evidence, some (failure "decode tamper evidence state"))
        | some state ↦
            if not (state.chain_id == "") && not (state.chain_id == evidence.config.chain_id)
            then (
              evidence,
              some (
                  failure (
                    "tamper evidence state chain_id \"" ++ state.chain_id
                    ++ "\" does not match config \"" ++ evidence.config.chain_id ++ "\"")),
            )
            else (
              record evidence { previous_hash = state.previous_hash; sequence = state.sequence },
              none,
            )
      ]
    ]

-- The evidence before its state is loaded.
unfoldable pub fresh_evidence : TamperEvidenceConfig → TamperEvidence
fresh_evidence config = record {
  config = record config {
    chain_id = if is_blank config.chain_id then "default" else config.chain_id;
  };
  event_types = string_set config.event_types;
  classes = string_set config.classifications;
  metadata_key =
      if is_blank config.metadata_key
      then default_tamper_evidence_metadata_key
      else trim_space config.metadata_key;
  previous_hash = "";
  sequence = 0;
}

-- No evidence if it is not enabled or if its state cannot be loaded.
unfoldable pub new_tamper_evidence :
    (String → Option TamperEvidenceState)
    → Bool
    → Option String
    → TamperEvidenceConfig
    → Option TamperEvidence × Option Error
new_tamper_evidence decode read_fails file config =
    if not config.enabled
    then (none, none)
    else let (evidence, err) = load_state decode read_fails (fresh_evidence config) file in
      elim err [ none ↦ (some evidence, none) | some e ↦ (none, some e) ]

-- What `Apply` leaves behind: the evidence, its file, the event and the error.
pub record Applied : Type 0 where
  pub evidence : TamperEvidence
  pub file : Option String
  pub event : Event
  pub err : Option Error

module _ (platform : Platform) where
  -- The new evidence with its hash, for a canonical hash.
  unfoldable pub advance : TamperEvidence → String → TamperEvidence
  advance evidence canonical_hash =
      let sequence = add_uint64 evidence.sequence 1 in
      record evidence {
        sequence = sequence;
        previous_hash =
            hash_evidence platform evidence sequence evidence.previous_hash canonical_hash;
      }

  unfoldable pub applied_with :
      SaveFaults → TamperEvidence → Option String → Event → String → Applied
  applied_with faults evidence file event canonical_hash =
      let next = advance evidence canonical_hash in
      let (file', err) = save_state faults next file in
      record {
        evidence = next;
        file = file';
        event =
            with_evidence evidence
              (evidence_fields evidence next.sequence evidence.previous_hash canonical_hash
                next.previous_hash)
              event;
        err = err;
      }

  -- `Apply` of an evidence that is not nil. `mu` is held while the chain is read and moved on.
  unfoldable pub apply : SaveFaults → TamperEvidence → Option String → Event → Applied
  apply faults evidence file event =
      if matches evidence event
      then elim (hash_event_for_evidence platform event evidence.metadata_key) [
        | none ↦ record {
          evidence = evidence;
          file = file;
          event = event;
          err = some (failure "encode tamper evidence event");
        }
        | some canonical_hash ↦ applied_with faults evidence file event canonical_hash
      ]
      else record { evidence = evidence; file = file; event = event; err = none }
