-- ===== src/Kernel/Memory/Replay.antt =====
-- memory.go: the candidates that a ledger holds, by replay of its events.
pub mod Induction
pub mod Merge
pub mod History
pub mod Keys
pub mod Appended
use genesis.Prelude.{
  String, Bool, true, false, not, ◌&&◌, ◌==◌, Option, none, some, List, [], ◌∷◌, ◌++◌, map, str_eq,
  if◌then◌else◌,
}
use genesis.Prelude.Text.{is_empty, append}
use genesis.Prelude.Dict.{Dict, get, put}
use genesis.Prelude.Results.{Result, err, ok, and_then}
use genesis.Kernel.Types.{
  Time, MemoryStatus, MemoryCandidateProjection, EventType, event_type_text, StoredEvent,
}
use genesis.Kernel.Ledger.{KernelEnv, Ledger, load_events}

-- sameOptionalTime
unfoldable pub same_optional_time : Option Time → Option Time → Bool
same_optional_time none none = true
same_optional_time (some t) (some u) = t == u
same_optional_time none (some u) = false
same_optional_time (some t) none = false

-- sameMemoryCandidateCore
unfoldable pub same_memory_candidate_core :
    MemoryCandidateProjection → MemoryCandidateProjection → Bool
same_memory_candidate_core left right =
    str_eq left.candidate_id right.candidate_id
    && str_eq left.session_id right.session_id
    && str_eq left.text right.text
    && str_eq left.source_ref right.source_ref
    && str_eq left.kind right.kind
    && str_eq left.scope right.scope
    && str_eq left.applies_when right.applies_when
    && str_eq left.yields_to right.yields_to
    && str_eq left.strength right.strength
    && (left.created_at == right.created_at)

-- sameMemoryApprovalDecision
unfoldable pub same_memory_approval_decision :
    MemoryCandidateProjection → MemoryCandidateProjection → Bool
same_memory_approval_decision left right =
    str_eq left.approval_authority right.approval_authority
    && str_eq left.approval_reason right.approval_reason
    && str_eq left.approval_evidence_ref right.approval_evidence_ref
    && same_optional_time left.approved_at right.approved_at

-- sameMemoryRejectionDecision
unfoldable pub same_memory_rejection_decision :
    MemoryCandidateProjection → MemoryCandidateProjection → Bool
same_memory_rejection_decision left right =
    str_eq left.rejection_authority right.rejection_authority
    && str_eq left.rejection_reason right.rejection_reason
    && str_eq left.rejection_evidence_ref right.rejection_evidence_ref
    && same_optional_time left.rejected_at right.rejected_at

-- sameMemorySupersessionDecision
unfoldable pub same_memory_supersession_decision :
    MemoryCandidateProjection → MemoryCandidateProjection → Bool
same_memory_supersession_decision left right =
    str_eq left.supersession_authority right.supersession_authority
    && str_eq left.supersession_reason right.supersession_reason
    && str_eq left.supersession_evidence_ref right.supersession_evidence_ref
    && str_eq left.replacement_candidate_id right.replacement_candidate_id
    && same_optional_time left.superseded_at right.superseded_at

-- sameMemoryForgetDecision
unfoldable pub same_memory_forget_decision :
    MemoryCandidateProjection → MemoryCandidateProjection → Bool
same_memory_forget_decision left right =
    str_eq left.forget_authority right.forget_authority
    && str_eq left.forget_reason right.forget_reason
    && str_eq left.forget_evidence_ref right.forget_evidence_ref
    && same_optional_time left.forgotten_at right.forgotten_at

abbrev competing : MemoryCandidateProjection → Result MemoryCandidateProjection
competing current = err (append "competing memory review evidence for " current.candidate_id)

-- The part of mergeMemoryCandidateProjection after its check of the core, by the two statuses.
abbrev pub merge_statuses :
    KernelEnv
    → MemoryStatus
    → MemoryStatus
    → MemoryCandidateProjection
    → MemoryCandidateProjection
    → Result MemoryCandidateProjection
merge_statuses k MemoryStatus.forgotten MemoryStatus.forgotten current incoming =
    if same_memory_forget_decision current incoming then ok current else competing current
merge_statuses k MemoryStatus.forgotten _ current incoming = competing current
merge_statuses k MemoryStatus.superseded MemoryStatus.forgotten current incoming = ok incoming
merge_statuses k MemoryStatus.superseded MemoryStatus.superseded current incoming =
    if same_memory_supersession_decision current incoming then ok current else competing current
merge_statuses k MemoryStatus.superseded _ current incoming = competing current
merge_statuses k _ MemoryStatus.forgotten current incoming = ok incoming
merge_statuses k _ MemoryStatus.superseded current incoming = ok incoming
merge_statuses k MemoryStatus.rejected MemoryStatus.approved current incoming = competing current
merge_statuses k MemoryStatus.approved MemoryStatus.approved current incoming =
    if same_memory_approval_decision current incoming then ok current else competing current
merge_statuses k _ MemoryStatus.approved current incoming = ok incoming
merge_statuses k MemoryStatus.approved MemoryStatus.rejected current incoming = competing current
merge_statuses k MemoryStatus.rejected MemoryStatus.rejected current incoming =
    if same_memory_rejection_decision current incoming then ok current else competing current
merge_statuses k _ MemoryStatus.rejected current incoming = ok incoming
merge_statuses k MemoryStatus.pending MemoryStatus.pending current incoming = ok current
merge_statuses k _ MemoryStatus.pending current incoming = competing current
merge_statuses k _ (MemoryStatus.other s) current incoming =
    err (append "unsupported memory candidate status " (k.quote s))

-- mergeMemoryCandidateProjection; `exists` is the presence of `current`.
unfoldable pub merge_memory_candidate_projection :
    KernelEnv
    → Option MemoryCandidateProjection
    → MemoryCandidateProjection
    → Result MemoryCandidateProjection
merge_memory_candidate_projection k none incoming = ok incoming
merge_memory_candidate_projection k (some current) incoming =
    if not (same_memory_candidate_core current incoming)
    then competing current
    else merge_statuses k current.status incoming.status current incoming

-- The map of candidates, and the ids in the order of their first events.
pub record Candidates : Type 0 where
  pub by_id : Dict MemoryCandidateProjection
  pub order : List String

-- recordMemoryCandidate
unfoldable pub record_memory_candidate :
    KernelEnv → MemoryCandidateProjection → Candidates → Result Candidates
record_memory_candidate k candidate c =
    let current = get c.by_id candidate.candidate_id in
    and_then (merge_memory_candidate_projection k current candidate) (λ merged. ok (record {
      by_id = put c.by_id candidate.candidate_id merged;
      order = elim current [ none ↦ c.order ++ candidate.candidate_id ∷ [] | some _ ↦ c.order ];
    }))

-- candidateFromEvent
unfoldable pub candidate_from_event :
    StoredEvent → MemoryCandidateProjection → String → Result MemoryCandidateProjection
candidate_from_event event candidate fallback =
    let id = if is_empty candidate.candidate_id then fallback else candidate.candidate_id in
    if is_empty id
    then err (append (event_type_text event.type) " event missing candidate id")
    else ok (record candidate { candidate_id = id })

-- The candidate of an event, recorded.
unfoldable pub record_from_event :
    KernelEnv → StoredEvent → MemoryCandidateProjection → String → Candidates → Result Candidates
record_from_event k event candidate fallback c =
    and_then (candidate_from_event event candidate fallback) (λ it. record_memory_candidate k it c)

-- The replacement that a superseding event must carry.
unfoldable pub record_replacement :
    KernelEnv → StoredEvent → Option MemoryCandidateProjection → Candidates → Result Candidates
record_replacement k event none c = err "superseded memory candidate missing replacement candidate"
record_replacement k event (some candidate) c = record_from_event k event candidate "" c

-- One round of memoryCandidateList's loop, for an event with a memory candidate.
unfoldable pub replay_typed :
    KernelEnv → EventType → StoredEvent → MemoryCandidateProjection → Candidates → Result Candidates
replay_typed k EventType.memory_superseded event candidate c =
    and_then (record_from_event k event candidate event.candidate_id c)
      (record_replacement k event event.event_data.replacement_memory_candidate)
replay_typed k EventType.memory_created event candidate c =
    record_from_event k event candidate event.candidate_id c
replay_typed k EventType.memory_approved event candidate c =
    record_from_event k event candidate event.candidate_id c
replay_typed k EventType.memory_rejected event candidate c =
    record_from_event k event candidate event.candidate_id c
replay_typed k EventType.memory_forgotten event candidate c =
    record_from_event k event candidate event.candidate_id c
replay_typed k _ event candidate c = ok c

-- One round of the loop.
unfoldable pub replay_event : KernelEnv → StoredEvent → Candidates → Result Candidates
replay_event k event c = elim event.event_data.memory_candidate [
  | none ↦ ok c
  | some candidate ↦ replay_typed k event.type event candidate c
]

-- The loop over the events.
unfoldable pub replay : KernelEnv → Ledger → Candidates → Result Candidates
replay k [] c = ok c
replay k (event ∷ events) c = and_then (replay_event k event c) (replay k events)

abbrev pub no_candidates : Candidates
no_candidates = record { by_id = []; order = [] }

-- memoryCandidates
unfoldable pub memory_candidates : KernelEnv → Ledger → Result Candidates
memory_candidates k ledger =
    and_then (load_events k ledger) (λ events. replay k events no_candidates)
