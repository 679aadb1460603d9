-- ===== src/Kernel/Examples/Review.antt =====
-- Reviews of one memory candidate.
use genesis.Prelude.{◌≡◌, refl, none, some, [], ◌∷◌}
use genesis.Prelude.Text.{trim}
use genesis.Prelude.Dict.{get, put}
use genesis.Prelude.Results.{ok, and_then}
use genesis.Kernel.Types.{MemoryStatus, MemoryCandidateProjection, EventType, StoredEvent}
use genesis.Kernel.Ledger.{new_id, Ledger, append_event, with_value}
use genesis.Kernel.Refs.{validate_kernel_ref, validate_kernel_authority, required, first_error}
use genesis.Kernel.Memory.Requests.{
  MemoryApprovalRequest, MemoryRejectionRequest, MemoryForgetRequest,
  validate_memory_approval_request, validate_memory_rejection_request,
  validate_memory_forget_request,
}
use genesis.Kernel.Memory.Replay.{
  Candidates, memory_candidates, replay, replay_event, replay_typed, record_from_event,
  candidate_from_event, record_memory_candidate, merge_memory_candidate_projection,
  same_memory_candidate_core, same_memory_forget_decision, same_optional_time,
}
use genesis.Kernel.Memory.Replay.History.{replay-Extends, forgotten_final, Extends}
use genesis.Kernel.Memory.Review.{
  find_candidate, reviewed, memory_candidate, candidate_event, pending_candidate,
  approve_memory_candidate, reject_memory_candidate, forget_memory_candidate, approved_candidate,
  rejected_candidate, forgotten_candidate,
}
use genesis.Kernel.Memory.Review.Accepts.{Given, Approved, Rejected, Forgotten, review_pending}
use genesis.Kernel.Memory.Review.Reread.{approve_reread, reject_reread, forget_reread}
use genesis.Kernel.Examples.Env.{env_at}

abbrev pub note : MemoryCandidateProjection
note =
    pending_candidate "mem_a" "s1" "prefers tabs" "turn:t1"
      (record {
        kind = "memory_fact";
        scope = "global";
        applies_when = "";
        yields_to = "";
        strength = "weak_hint";
      })
      5

abbrev pub note_ledger : Ledger
note_ledger = candidate_event (env_at 5 "a") EventType.memory_created note none ∷ []

abbrev approval : MemoryApprovalRequest
approval = record {
  approval_authority = "operator:ann";
  approval_reason = "fits";
  approval_evidence_ref = "review:r1";
}

abbrev rejection : MemoryRejectionRequest
rejection = record {
  rejection_authority = "operator:ann";
  rejection_reason = "wrong";
  rejection_evidence_ref = "review:r1";
}

abbrev forget : MemoryForgetRequest
forget = record {
  forget_authority = "user:bob";
  forget_reason = "asked";
  forget_evidence_ref = "turn:t2";
}

abbrev approved_note : MemoryCandidateProjection
approved_note = record note {
  status = MemoryStatus.approved;
  approval_authority = "operator:ann";
  approval_reason = "fits";
  approval_evidence_ref = "review:r1";
  approved_at = some 7;
}

abbrev approved_ledger : Ledger
approved_ledger =
    candidate_event (env_at 5 "a") EventType.memory_created note none
    ∷ candidate_event (env_at 7 "b") EventType.memory_approved approved_note none
    ∷ []

approve_reread_example : memory_candidate (env_at 7 "b") " mem_a" approved_ledger ≡ ok approved_note
unfolding approve_memory_candidate reviewed find_candidate memory_candidates replay replay_event
    new_id replay_typed record_from_event candidate_from_event record_memory_candidate
    merge_memory_candidate_projection and_then with_value append_event get put trim
    validate_memory_approval_request required first_error validate_kernel_ref
    validate_kernel_authority approved_candidate
approve_reread_example =
    approve_reread (env_at 7 "b") " mem_a" approved_note note_ledger approved_ledger approval refl

abbrev rejected_note : MemoryCandidateProjection
rejected_note = record note {
  status = MemoryStatus.rejected;
  rejection_authority = "operator:ann";
  rejection_reason = "wrong";
  rejection_evidence_ref = "review:r1";
  rejected_at = some 7;
}

abbrev rejected_ledger : Ledger
rejected_ledger =
    candidate_event (env_at 5 "a") EventType.memory_created note none
    ∷ candidate_event (env_at 7 "b") EventType.memory_rejected rejected_note none
    ∷ []

reject_reread_example : memory_candidate (env_at 7 "b") "mem_a" rejected_ledger ≡ ok rejected_note
unfolding reviewed find_candidate memory_candidates replay replay_event replay_typed new_id
    record_from_event candidate_from_event record_memory_candidate merge_memory_candidate_projection
    same_memory_candidate_core and_then with_value append_event get put trim required first_error
    validate_kernel_ref validate_kernel_authority reject_memory_candidate rejected_candidate
    validate_memory_rejection_request
reject_reread_example =
    reject_reread (env_at 7 "b") "mem_a" rejected_note note_ledger rejected_ledger rejection refl

abbrev forgotten_note : MemoryCandidateProjection
forgotten_note = record approved_note {
  status = MemoryStatus.forgotten;
  forget_authority = "user:bob";
  forget_reason = "asked";
  forget_evidence_ref = "turn:t2";
  forgotten_at = some 9;
}

abbrev forgetting : StoredEvent
forgetting = candidate_event (env_at 9 "c") EventType.memory_forgotten forgotten_note none

abbrev forgotten_ledger : Ledger
forgotten_ledger =
    candidate_event (env_at 5 "a") EventType.memory_created note none
    ∷ candidate_event (env_at 7 "b") EventType.memory_approved approved_note none
    ∷ forgetting
    ∷ []

forget_reread_example : memory_candidate (env_at 9 "c") "mem_a" forgotten_ledger ≡ ok forgotten_note
unfolding reviewed find_candidate memory_candidates replay replay_event replay_typed new_id
    record_from_event candidate_from_event record_memory_candidate merge_memory_candidate_projection
    same_memory_candidate_core and_then with_value append_event get put trim required first_error
    validate_kernel_ref validate_kernel_authority forget_memory_candidate forgotten_candidate
    validate_memory_forget_request
forget_reread_example =
    forget_reread (env_at 9 "c") "mem_a" forgotten_note approved_ledger forgotten_ledger forget refl

abbrev holding : MemoryCandidateProjection → Candidates
holding a = record { by_id = ("mem_a", a) ∷ []; order = "mem_a" ∷ [] }

replay-Extends_example : Extends (holding note) (holding forgotten_note)
unfolding reviewed find_candidate memory_candidates replay replay_event replay_typed new_id
    record_from_event candidate_from_event record_memory_candidate merge_memory_candidate_projection
    same_memory_candidate_core and_then with_value append_event get put trim required first_error
    validate_kernel_ref validate_kernel_authority
replay-Extends_example =
    replay-Extends (env_at 9 "c")
      (candidate_event (env_at 7 "b") EventType.memory_approved approved_note none
        ∷ forgetting
        ∷ [])
      (holding note) (holding forgotten_note) refl

forgotten_final_example : get (holding forgotten_note).by_id "mem_a" ≡ some forgotten_note
unfolding reviewed find_candidate memory_candidates replay replay_event replay_typed new_id
    record_from_event candidate_from_event record_memory_candidate merge_memory_candidate_projection
    same_memory_candidate_core and_then with_value append_event get put trim required first_error
    validate_kernel_ref validate_kernel_authority same_memory_forget_decision same_optional_time
forgotten_final_example =
    forgotten_final (env_at 9 "d") (forgetting ∷ []) (holding forgotten_note)
      (holding forgotten_note) "mem_a" forgotten_note refl refl refl

review_pending_example :
    Given
      (env_at 7 "b")
      "mem_a"
      note
      (approve_memory_candidate (env_at 7 "b") "mem_a" approval note_ledger)
      (Approved (env_at 7 "b") approval)
    × Given
        (env_at 7 "b")
        "mem_a"
        note
        (reject_memory_candidate (env_at 7 "b") "mem_a" rejection note_ledger)
        (Rejected (env_at 7 "b") rejection)
    × Given
        (env_at 7 "b")
        "mem_a"
        note
        (forget_memory_candidate (env_at 7 "b") "mem_a" forget note_ledger)
        (Forgotten (env_at 7 "b") forget)
unfolding memory_candidate find_candidate memory_candidates replay replay_event replay_typed
    record_from_event candidate_from_event record_memory_candidate merge_memory_candidate_projection
    and_then get put trim required first_error validate_kernel_ref validate_kernel_authority
    validate_memory_approval_request validate_memory_rejection_request
    validate_memory_forget_request
review_pending_example =
    review_pending (env_at 7 "b") "mem_a" note_ledger note approval rejection forget refl refl
      (record { ready = refl; appends = refl }) refl refl refl
