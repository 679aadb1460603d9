-- ===== src/Kernel/Examples/Supersede.antt =====
-- A memory candidate, created and superseded.
use genesis.Prelude.{arith, ◌≡◌, refl, none, some, [], ◌∷◌}
use genesis.Prelude.Text.{trim}
use genesis.Prelude.Dict.{get, put}
use genesis.Prelude.Results.{and_then}
use genesis.Kernel.Types.{MemoryStatus, EventType}
use genesis.Kernel.Ledger.{new_id, Ledger, append_event, with_value}
use genesis.Kernel.Refs.{
  validate_kernel_ref, validate_kernel_authority, validate_kernel_control_token, required,
  first_error,
}
use genesis.Kernel.Memory.Requests.{
  MemoryCandidateRequest, MemorySupersessionRequest, validate_memory_supersession_request,
  validate_memory_candidate_request, normalized_memory_candidate_metadata, valid_memory_kind,
  valid_memory_scope, valid_memory_strength,
}
use genesis.Kernel.Memory.Replay.{
  no_candidates, memory_candidates, replay, replay_event, replay_typed, record_from_event,
  record_replacement, candidate_from_event, record_memory_candidate,
  merge_memory_candidate_projection, same_memory_candidate_core,
}
use genesis.Kernel.Memory.Replay.Appended.{Reads}
use genesis.Kernel.Memory.Review.{
  find_candidate, reviewed, candidate_event, create_memory_candidate,
}
use genesis.Kernel.Memory.Supersede.{
  MemorySupersessionProjection, supersede_memory_candidate, superseded_candidate, replacement_for,
}
use genesis.Kernel.Memory.Supersede.Reread.{IsFresh, create_reread, supersede_reread, ReadsBoth}
use genesis.Kernel.Examples.Env.{env_at}
use genesis.Kernel.Examples.Review.{note, note_ledger}

abbrev request : MemoryCandidateRequest
request = record {
  session_id = "s1";
  text = " prefers tabs";
  source_ref = "turn:t1";
  kind = "";
  scope = "";
  applies_when = "";
  yields_to = "";
  strength = "";
}

IsFresh-first : IsFresh (env_at 5 "a") [] "mem_a"
unfolding reviewed find_candidate memory_candidates replay replay_event replay_typed new_id
    record_from_event candidate_from_event record_memory_candidate merge_memory_candidate_projection
    same_memory_candidate_core and_then with_value append_event get put trim required first_error
    validate_kernel_ref validate_kernel_authority
IsFresh-first = record { named = refl; unknown = λ c h. ground arith }

create_reread_example :
    (note.status ≡ MemoryStatus.pending) × Reads (env_at 5 "a") note_ledger "mem_a" note
unfolding reviewed find_candidate memory_candidates replay replay_event replay_typed new_id
    record_from_event candidate_from_event record_memory_candidate merge_memory_candidate_projection
    same_memory_candidate_core and_then with_value append_event get put trim required first_error
    validate_kernel_ref validate_kernel_authority create_memory_candidate
    validate_memory_candidate_request normalized_memory_candidate_metadata valid_memory_kind
    valid_memory_scope valid_memory_strength validate_kernel_control_token
create_reread_example =
    create_reread (env_at 5 "a") request [] note_ledger no_candidates note refl IsFresh-first refl

abbrev supersession : MemorySupersessionRequest
supersession = record {
  replacement_text = "prefers spaces";
  replacement_source_ref = "turn:t3";
  supersession_authority = "operator:ann";
  supersession_reason = "changed";
  supersession_evidence_ref = "review:r2";
}

abbrev replacing : MemorySupersessionProjection
replacing = record {
  superseded = record note {
    status = MemoryStatus.superseded;
    supersession_authority = "operator:ann";
    supersession_reason = "changed";
    supersession_evidence_ref = "review:r2";
    replacement_candidate_id = "mem_e";
    superseded_at = some 11;
  };
  replacement = record note {
    candidate_id = "mem_e";
    text = "prefers spaces";
    source_ref = "turn:t3";
    created_at = 11;
  };
}

abbrev superseded_ledger : Ledger
superseded_ledger =
    candidate_event (env_at 5 "a") EventType.memory_created note none
    ∷ candidate_event (env_at 11 "e") EventType.memory_superseded replacing.superseded
        (some replacing.replacement)
    ∷ []

IsFresh-replacement : IsFresh (env_at 11 "e") note_ledger "mem_e"
unfolding reviewed find_candidate memory_candidates replay replay_event replay_typed new_id
    record_from_event candidate_from_event record_memory_candidate merge_memory_candidate_projection
    same_memory_candidate_core and_then with_value append_event get put trim required first_error
    validate_kernel_ref validate_kernel_authority
IsFresh-replacement = record { named = refl; unknown = λ c h. ground arith }

supersede_reread_example : ReadsBoth (env_at 11 "e") superseded_ledger "mem_a" replacing
unfolding reviewed find_candidate memory_candidates replay replay_event replay_typed new_id
    record_from_event candidate_from_event record_memory_candidate merge_memory_candidate_projection
    same_memory_candidate_core and_then with_value append_event get put trim required first_error
    validate_kernel_ref validate_kernel_authority supersede_memory_candidate superseded_candidate
    replacement_for validate_memory_supersession_request record_replacement
supersede_reread_example =
    supersede_reread (env_at 11 "e") "mem_a" note_ledger superseded_ledger replacing supersession
      IsFresh-replacement refl
