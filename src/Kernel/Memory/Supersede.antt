-- ===== src/Kernel/Memory/Supersede.antt =====
-- memory.go: the supersession of a memory candidate by a new one.
pub mod Reread
use genesis.Prelude.{
  String, Bool, true, false, not, ◌&&◌, Option, none, some, List, [], ◌∷◌, map, str_eq,
  if◌then◌else◌,
}
use genesis.Prelude.Text.{is_empty, append, trim}
use genesis.Prelude.Dict.{Dict, get}
use genesis.Prelude.Results.{Result, err, ok, and_then}
use genesis.Kernel.Types.{
  Time, MemoryStatus, MemoryCandidateProjection, EventType, EventData, StoredEvent,
}
use genesis.Kernel.Ledger.{new_id, KernelEnv, Ledger, append_event, refuse_with, with_value}
use genesis.Kernel.Memory.Requests.{
  MemoryCandidateRequest, MemoryApprovalRequest, MemoryRejectionRequest, MemorySupersessionRequest,
  MemoryForgetRequest, MemoryCandidateMetadata, validate_memory_candidate_request,
  normalized_memory_candidate_metadata, validate_memory_approval_request,
  validate_memory_rejection_request, validate_memory_supersession_request,
  validate_memory_forget_request,
}
use genesis.Kernel.Memory.Replay.{Candidates, memory_candidates}
use genesis.Kernel.Memory.Review.{pending_candidate, candidate_event, reviewed}

-- MemorySupersessionProjection
pub record MemorySupersessionProjection : Type 0 where
  pub superseded : MemoryCandidateProjection
  pub replacement : MemoryCandidateProjection

-- The pending candidate that takes the place of a superseded one.
unfoldable pub replacement_for :
    KernelEnv → MemorySupersessionRequest → MemoryCandidateProjection → MemoryCandidateProjection
replacement_for k req candidate =
    pending_candidate (new_id k "mem" k.clock) candidate.session_id (trim req.replacement_text)
      (trim req.replacement_source_ref)
      (record {
        kind = candidate.kind;
        scope = candidate.scope;
        applies_when = candidate.applies_when;
        yields_to = candidate.yields_to;
        strength = candidate.strength;
      })
      k.clock

unfoldable pub superseded_candidate :
    KernelEnv → MemorySupersessionRequest → MemoryCandidateProjection → MemoryCandidateProjection
superseded_candidate k req candidate = record candidate {
  status = MemoryStatus.superseded;
  supersession_authority = trim req.supersession_authority;
  supersession_reason = trim req.supersession_reason;
  supersession_evidence_ref = trim req.supersession_evidence_ref;
  replacement_candidate_id = new_id k "mem" k.clock;
  superseded_at = some k.clock;
}

-- existingMemorySupersession
unfoldable pub existing_memory_supersession :
    MemoryCandidateProjection → Candidates → Result MemorySupersessionProjection
existing_memory_supersession candidate candidates =
    if is_empty (trim candidate.replacement_candidate_id)
    then err "superseded memory candidate missing replacement id"
    else elim (get candidates.by_id candidate.replacement_candidate_id) [
      | none ↦ err "superseded memory candidate replacement not found"
      | some replacement ↦ ok (record { superseded = candidate; replacement = replacement })
    ]

abbrev decide_supersede :
    KernelEnv
    → MemorySupersessionRequest
    → MemoryStatus
    → MemoryCandidateProjection
    → Candidates
    → Ledger
    → Result MemorySupersessionProjection × Ledger
decide_supersede k req MemoryStatus.superseded candidate candidates ledger =
    (existing_memory_supersession candidate candidates, ledger)
decide_supersede k req MemoryStatus.forgotten candidate candidates ledger =
    refuse_with "forgotten memory candidate cannot be superseded" ledger
decide_supersede k req _ candidate candidates ledger =
    let replacement = replacement_for k req candidate in
    let candidate' = superseded_candidate k req candidate in
    append_event k (candidate_event k EventType.memory_superseded candidate' (some replacement))
      (record { superseded = candidate'; replacement = replacement }) ledger

-- SupersedeMemoryCandidate
unfoldable pub supersede_memory_candidate :
    KernelEnv
    → String
    → MemorySupersessionRequest
    → Ledger
    → Result MemorySupersessionProjection × Ledger
supersede_memory_candidate k candidate_id req =
    reviewed k candidate_id (validate_memory_supersession_request req)
      (λ candidate. decide_supersede k req candidate.status candidate)
