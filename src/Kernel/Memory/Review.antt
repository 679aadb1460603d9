-- ===== src/Kernel/Memory/Review.antt =====
-- memory.go: the operations on memory candidates. The review lock makes each of them one step.
pub mod Reread
pub mod Accepts
use genesis.Prelude.{
  String, Bool, true, false, not, ◌&&◌, Option, none, some, List, [], ◌∷◌, map, str_eq,
  if◌then◌else◌,
}
use genesis.Prelude.Text.{is_empty, append, trim}
use genesis.Prelude.Dict.{Dict, get}
use genesis.Prelude.Results.{Result, err, ok, and_then}
use genesis.Kernel.Types.{
  Time, MemoryStatus, MemoryCandidateProjection, EventType, StoredEvent, no_data,
}
use genesis.Kernel.Ledger.{new_id, KernelEnv, Ledger, append_event, refuse_with, with_value}
use genesis.Kernel.Memory.Requests.{
  MemoryCandidateRequest, MemoryApprovalRequest, MemoryRejectionRequest, MemorySupersessionRequest,
  MemoryForgetRequest, MemoryCandidateMetadata, validate_memory_candidate_request,
  normalized_memory_candidate_metadata, validate_memory_approval_request,
  validate_memory_rejection_request, validate_memory_supersession_request,
  validate_memory_forget_request,
}
use genesis.Kernel.Memory.Replay.{Candidates, memory_candidates}

abbrev pub Answer : Type 0
Answer = Result MemoryCandidateProjection × Ledger

-- The event that carries a candidate.
abbrev pub candidate_event :
    KernelEnv
    → EventType
    → MemoryCandidateProjection
    → Option MemoryCandidateProjection
    → StoredEvent
candidate_event k type candidate replacement = record {
  event_id = new_id k "evt" k.clock;
  session_id = candidate.session_id;
  turn_id = "";
  operation_id = "";
  work_id = "";
  candidate_id = candidate.candidate_id;
  approval_id = "";
  type = type;
  created_at = k.clock;
  event_data = record no_data {
    memory_candidate = some candidate;
    replacement_memory_candidate = replacement;
  };
}

-- A pending candidate that nobody has reviewed.
abbrev pub pending_candidate :
    String → String → String → String → MemoryCandidateMetadata → Time → MemoryCandidateProjection
pending_candidate id session_id text source_ref m now = record {
  candidate_id = id;
  session_id = session_id;
  text = text;
  source_ref = source_ref;
  kind = m.kind;
  scope = m.scope;
  applies_when = m.applies_when;
  yields_to = m.yields_to;
  strength = m.strength;
  status = MemoryStatus.pending;
  created_at = now;
  approval_authority = "";
  approval_reason = "";
  approval_evidence_ref = "";
  approved_at = none;
  rejection_authority = "";
  rejection_reason = "";
  rejection_evidence_ref = "";
  rejected_at = none;
  supersession_authority = "";
  supersession_reason = "";
  supersession_evidence_ref = "";
  replacement_candidate_id = "";
  superseded_at = none;
  forget_authority = "";
  forget_reason = "";
  forget_evidence_ref = "";
  forgotten_at = none;
}

-- CreateMemoryCandidate
unfoldable pub create_memory_candidate : KernelEnv → MemoryCandidateRequest → Ledger → Answer
create_memory_candidate k req ledger = elim (validate_memory_candidate_request k req) [
  | some e ↦ refuse_with e ledger
  | none ↦
      with_value (normalized_memory_candidate_metadata k req)
        (λ m.
          let candidate =
            pending_candidate (new_id k "mem" k.clock) (trim req.session_id) (trim req.text)
              (trim req.source_ref) m k.clock in
          append_event k (candidate_event k EventType.memory_created candidate none) candidate)
        ledger
]

-- The candidate of an id, with all candidates: the start of each review.
unfoldable pub find_candidate :
    KernelEnv → String → Ledger → Result (MemoryCandidateProjection × Candidates)
find_candidate k candidate_id ledger = and_then (memory_candidates k ledger) (λ candidates.
    elim (get candidates.by_id candidate_id) [
      | none ↦ err "memory candidate not found"
      | some candidate ↦ ok (candidate, candidates)
    ])

-- The guards that the reviews share: an id, a valid request and a known candidate.
unfoldable pub reviewed {ℓ} :
    {A : Type ℓ}
    → KernelEnv
    → String
    → Option String
    → (MemoryCandidateProjection → Candidates → Ledger → Result A × Ledger)
    → Ledger
    → Result A × Ledger
reviewed k candidate_id invalid decide ledger =
    if is_empty (trim candidate_id)
    then refuse_with "candidate id is required" ledger
    else elim invalid [
      | some e ↦ refuse_with e ledger
      | none ↦
          with_value (find_candidate k (trim candidate_id) ledger) (λ found. decide found.0 found.1)
            ledger
    ]

unfoldable pub approved_candidate :
    KernelEnv → MemoryApprovalRequest → MemoryCandidateProjection → MemoryCandidateProjection
approved_candidate k req candidate = record candidate {
  status = MemoryStatus.approved;
  approval_authority = trim req.approval_authority;
  approval_reason = trim req.approval_reason;
  approval_evidence_ref = trim req.approval_evidence_ref;
  approved_at = some k.clock;
}

-- What the decision on a known candidate does, by its status.
abbrev decide_approve :
    KernelEnv → MemoryApprovalRequest → MemoryStatus → MemoryCandidateProjection → Ledger → Answer
decide_approve k req MemoryStatus.approved candidate ledger = (ok candidate, ledger)
decide_approve k req MemoryStatus.rejected candidate ledger =
    refuse_with "rejected memory candidate cannot be approved" ledger
decide_approve k req MemoryStatus.superseded candidate ledger =
    refuse_with "superseded memory candidate cannot be approved" ledger
decide_approve k req MemoryStatus.forgotten candidate ledger =
    refuse_with "forgotten memory candidate cannot be approved" ledger
decide_approve k req _ candidate ledger =
    let candidate' = approved_candidate k req candidate in
    append_event k (candidate_event k EventType.memory_approved candidate' none) candidate' ledger

-- ApproveMemoryCandidate
unfoldable pub approve_memory_candidate :
    KernelEnv → String → MemoryApprovalRequest → Ledger → Answer
approve_memory_candidate k candidate_id req =
    reviewed k candidate_id (validate_memory_approval_request req)
      (λ candidate candidates. decide_approve k req candidate.status candidate)

unfoldable pub rejected_candidate :
    KernelEnv → MemoryRejectionRequest → MemoryCandidateProjection → MemoryCandidateProjection
rejected_candidate k req candidate = record candidate {
  status = MemoryStatus.rejected;
  rejection_authority = trim req.rejection_authority;
  rejection_reason = trim req.rejection_reason;
  rejection_evidence_ref = trim req.rejection_evidence_ref;
  rejected_at = some k.clock;
}

-- What the decision on a known candidate does, by its status.
abbrev decide_reject :
    KernelEnv → MemoryRejectionRequest → MemoryStatus → MemoryCandidateProjection → Ledger → Answer
decide_reject k req MemoryStatus.rejected candidate ledger = (ok candidate, ledger)
decide_reject k req MemoryStatus.approved candidate ledger =
    refuse_with "approved memory candidate cannot be rejected" ledger
decide_reject k req MemoryStatus.superseded candidate ledger =
    refuse_with "superseded memory candidate cannot be rejected" ledger
decide_reject k req MemoryStatus.forgotten candidate ledger =
    refuse_with "forgotten memory candidate cannot be rejected" ledger
decide_reject k req _ candidate ledger =
    let candidate' = rejected_candidate k req candidate in
    append_event k (candidate_event k EventType.memory_rejected candidate' none) candidate' ledger

-- RejectMemoryCandidate
unfoldable pub reject_memory_candidate :
    KernelEnv → String → MemoryRejectionRequest → Ledger → Answer
reject_memory_candidate k candidate_id req =
    reviewed k candidate_id (validate_memory_rejection_request req)
      (λ candidate candidates. decide_reject k req candidate.status candidate)

unfoldable pub forgotten_candidate :
    KernelEnv → MemoryForgetRequest → MemoryCandidateProjection → MemoryCandidateProjection
forgotten_candidate k req candidate = record candidate {
  status = MemoryStatus.forgotten;
  forget_authority = trim req.forget_authority;
  forget_reason = trim req.forget_reason;
  forget_evidence_ref = trim req.forget_evidence_ref;
  forgotten_at = some k.clock;
}

-- What the decision on a known candidate does, by its status.
abbrev decide_forget :
    KernelEnv → MemoryForgetRequest → MemoryStatus → MemoryCandidateProjection → Ledger → Answer
decide_forget k req MemoryStatus.forgotten candidate ledger = (ok candidate, ledger)
decide_forget k req _ candidate ledger =
    let candidate' = forgotten_candidate k req candidate in
    append_event k (candidate_event k EventType.memory_forgotten candidate' none) candidate' ledger

-- ForgetMemoryCandidate
unfoldable pub forget_memory_candidate : KernelEnv → String → MemoryForgetRequest → Ledger → Answer
forget_memory_candidate k candidate_id req =
    reviewed k candidate_id (validate_memory_forget_request req)
      (λ candidate candidates. decide_forget k req candidate.status candidate)

-- MemoryCandidate
unfoldable pub memory_candidate : KernelEnv → String → Ledger → Result MemoryCandidateProjection
memory_candidate k candidate_id ledger =
    if is_empty (trim candidate_id)
    then err "candidate id is required"
    else and_then (find_candidate k (trim candidate_id) ledger) (λ found. ok found.0)
