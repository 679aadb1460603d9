-- ===== src/Kernel/Memory/Review/Accepts.antt =====
-- Reviews of a pending candidate are accepted.
use native.Mathlib.Omega.{arith}
use genesis.Prelude.{
  String, ◌≡◌, refl, ap, ◌∙◌, false, inl, inr, none, [], ◌∷◌, ◌++◌, some, Bool-cases,
}
use genesis.Prelude.Text.{is_empty, trim}
use genesis.Prelude.Results.{Result, ok, and_then, and_then_lem}
use genesis.Kernel.Types.{MemoryStatus, MemoryCandidateProjection, EventType, StoredEvent}
use genesis.Kernel.Ledger.{KernelEnv, Ledger, append_event, with_value}
use genesis.Kernel.Memory.Requests.{
  MemoryApprovalRequest, MemoryRejectionRequest, MemoryForgetRequest,
  validate_memory_approval_request, validate_memory_rejection_request,
  validate_memory_forget_request,
}
use genesis.Kernel.Memory.Replay.{Candidates}
use genesis.Kernel.Memory.Review.Reread.{approve_reread, reject_reread, forget_reread}
use genesis.Kernel.Memory.Review.{
  Answer, find_candidate, reviewed, memory_candidate, candidate_event, approve_memory_candidate,
  reject_memory_candidate, forget_memory_candidate, decide_approve, decide_reject, decide_forget,
  approved_candidate, rejected_candidate, forgotten_candidate,
}

-- The ledger can be written.
pub record IsWritable (k : KernelEnv) : Type 0 where
  pub ready : k.ready_error ≡ none
  pub appends : k.append_error ≡ none

-- What a review leaves of a candidate.
pub record IsSameMemory (c a : MemoryCandidateProjection) : Type 0 where
  pub id : c.candidate_id ≡ a.candidate_id
  pub session : c.session_id ≡ a.session_id
  pub text : c.text ≡ a.text
  pub source : c.source_ref ≡ a.source_ref
  pub kind : c.kind ≡ a.kind
  pub scope : c.scope ≡ a.scope
  pub applies : c.applies_when ≡ a.applies_when
  pub yields : c.yields_to ≡ a.yields_to
  pub strength : c.strength ≡ a.strength
  pub created : c.created_at ≡ a.created_at

module _ (k : KernelEnv) (id : String) (ledger : Ledger) (a : MemoryCandidateProjection) where
  found_of :
      memory_candidate k id ledger ≡ ok a
      → (is_empty (trim id) ≡ false)
        × (c : Candidates) × (find_candidate k (trim id) ledger ≡ ok (a, c))
  unfolding memory_candidate
  found_of h = elim (Bool-cases (is_empty (trim id))) [
    | inl t ↦ ground arith
    | inr n ↦
        let rest : and_then (find_candidate k (trim id) ledger) (λ found. ok found.0) ≡ ok a =
          ground arith in
        let ((b, c), f, g) = and_then_lem (find_candidate k (trim id) ledger) _ a rest in
        let same : b ≡ a = ground arith in
        (n, c, f ∙ ap (λ (x : MemoryCandidateProjection). ok (x, c)) same)
  ]

  -- A review that is not refused decides on the candidate that a read gives.
  reviewed_found :
      (decide : MemoryCandidateProjection
        → Candidates
        → Ledger
        → Result MemoryCandidateProjection × Ledger)
      → memory_candidate k id ledger ≡ ok a
      → (c : Candidates) × (reviewed k id none decide ledger ≡ decide a c ledger)
  unfolding reviewed with_value
  reviewed_found decide h = let (n, c, f) = found_of h in (c, rw (n, f) refl)

  appended :
      (x : MemoryCandidateProjection) (ev : StoredEvent)
      → IsWritable k
      → append_event k ev x ledger ≡ (ok x, ledger ++ ev ∷ [])
  unfolding append_event
  appended x ev w = ground (arith, w.ready, w.appends)

  approve_pending :
      (req : MemoryApprovalRequest)
      → memory_candidate k id ledger ≡ ok a
      → a.status ≡ MemoryStatus.pending
      → validate_memory_approval_request req ≡ none
      → IsWritable k
      → approve_memory_candidate k id req ledger ≡ (
        ok (approved_candidate k req a),
        ledger
            ++ candidate_event k EventType.memory_approved (approved_candidate k req a) none ∷ [],
      )
  unfolding approve_memory_candidate
  approve_pending req h s v w =
      let decide = λ (candidate : MemoryCandidateProjection) (candidates : Candidates).
        decide_approve k req candidate.status candidate in
      let (c, e) = reviewed_found decide h in
      ap (λ o. reviewed k id o decide ledger) v
      ∙ e
      ∙ ap (λ t. decide_approve k req t a ledger) s
      ∙ appended (approved_candidate k req a) _ w

  reject_pending :
      (req : MemoryRejectionRequest)
      → memory_candidate k id ledger ≡ ok a
      → a.status ≡ MemoryStatus.pending
      → validate_memory_rejection_request req ≡ none
      → IsWritable k
      → reject_memory_candidate k id req ledger ≡ (
        ok (rejected_candidate k req a),
        ledger
            ++ candidate_event k EventType.memory_rejected (rejected_candidate k req a) none ∷ [],
      )
  unfolding reject_memory_candidate
  reject_pending req h s v w =
      let decide = λ (candidate : MemoryCandidateProjection) (candidates : Candidates).
        decide_reject k req candidate.status candidate in
      let (c, e) = reviewed_found decide h in
      ap (λ o. reviewed k id o decide ledger) v
      ∙ e
      ∙ ap (λ t. decide_reject k req t a ledger) s
      ∙ appended (rejected_candidate k req a) _ w

  forget_pending :
      (req : MemoryForgetRequest)
      → memory_candidate k id ledger ≡ ok a
      → a.status ≡ MemoryStatus.pending
      → validate_memory_forget_request req ≡ none
      → IsWritable k
      → forget_memory_candidate k id req ledger ≡ (
        ok (forgotten_candidate k req a),
        ledger
            ++ candidate_event k EventType.memory_forgotten (forgotten_candidate k req a) none ∷ [],
      )
  unfolding forget_memory_candidate
  forget_pending req h s v w =
      let decide = λ (candidate : MemoryCandidateProjection) (candidates : Candidates).
        decide_forget k req candidate.status candidate in
      let (c, e) = reviewed_found decide h in
      ap (λ o. reviewed k id o decide ledger) v
      ∙ e
      ∙ ap (λ t. decide_forget k req t a ledger) s
      ∙ appended (forgotten_candidate k req a) _ w

-- An answer without an error, whose candidate a read of the id then gives from the new ledger.
abbrev pub Given :
    KernelEnv
    → String
    → MemoryCandidateProjection
    → Answer
    → (MemoryCandidateProjection → Type 0)
    → Type 0
Given k id a answer P =
    (c : MemoryCandidateProjection) × (answer.0 ≡ ok c)
    × (memory_candidate k id answer.1 ≡ ok c)
    × IsSameMemory c a
    × P c

abbrev pub Approved : KernelEnv → MemoryApprovalRequest → MemoryCandidateProjection → Type 0
Approved k req c =
    (c.status ≡ MemoryStatus.approved)
    × (c.approval_authority ≡ trim req.approval_authority)
    × (c.approval_reason ≡ trim req.approval_reason)
    × (c.approval_evidence_ref ≡ trim req.approval_evidence_ref)
    × (c.approved_at ≡ some k.clock)

abbrev pub Rejected : KernelEnv → MemoryRejectionRequest → MemoryCandidateProjection → Type 0
Rejected k req c =
    (c.status ≡ MemoryStatus.rejected)
    × (c.rejection_authority ≡ trim req.rejection_authority)
    × (c.rejection_reason ≡ trim req.rejection_reason)
    × (c.rejection_evidence_ref ≡ trim req.rejection_evidence_ref)
    × (c.rejected_at ≡ some k.clock)

abbrev pub Forgotten : KernelEnv → MemoryForgetRequest → MemoryCandidateProjection → Type 0
Forgotten k req c =
    (c.status ≡ MemoryStatus.forgotten)
    × (c.forget_authority ≡ trim req.forget_authority)
    × (c.forget_reason ≡ trim req.forget_reason)
    × (c.forget_evidence_ref ≡ trim req.forget_evidence_ref)
    × (c.forgotten_at ≡ some k.clock)

given :
    (k : KernelEnv) (id : String) (a c : MemoryCandidateProjection) (ledger : Ledger)
    (answer : Answer) (P : MemoryCandidateProjection → Type 0)
    → answer ≡ (ok c, ledger)
    → memory_candidate k id ledger ≡ ok c
    → IsSameMemory c a
    → P c
    → Given k id a answer P
given k id a c ledger answer P e read same p = (
  c,
  ap (λ (r : Answer). r.0) e,
  ap (λ (r : Answer). memory_candidate k id r.1) e ∙ read,
  same,
  p,
)

-- If a read of an id gives a pending candidate and the ledger can be written, then a valid
-- approval, a valid rejection and a valid forgetting of the id are not refused: each gives a
-- candidate that a read of the id then gives too. It has the status of the decision, with the
-- trimmed authority, reason and evidence of the request and the time of the review, and its id,
-- session, text, source, metadata and creation are those of the pending one.
pub review_pending :
    (k : KernelEnv) (id : String) (ledger : Ledger) (a : MemoryCandidateProjection)
    (approval : MemoryApprovalRequest) (rejection : MemoryRejectionRequest)
    (forget : MemoryForgetRequest)
    → memory_candidate k id ledger ≡ ok a
    → a.status ≡ MemoryStatus.pending
    → IsWritable k
    → validate_memory_approval_request approval ≡ none
    → validate_memory_rejection_request rejection ≡ none
    → validate_memory_forget_request forget ≡ none
    → Given k id a (approve_memory_candidate k id approval ledger) (Approved k approval)
      × Given k id a (reject_memory_candidate k id rejection ledger) (Rejected k rejection)
      × Given k id a (forget_memory_candidate k id forget ledger) (Forgotten k forget)
unfolding approved_candidate rejected_candidate forgotten_candidate
review_pending k id ledger a approval rejection forget h s w u v x =
    let e = approve_pending k id ledger a approval h s u w in
    let f = reject_pending k id ledger a rejection h s v w in
    let g = forget_pending k id ledger a forget h s x w in
    (
      given k id a _ _ _ (Approved k approval) e (approve_reread k id _ ledger _ approval e)
          (ground arith) (refl, refl, refl, refl, refl),
      given k id a _ _ _ (Rejected k rejection) f (reject_reread k id _ ledger _ rejection f)
          (ground arith) (refl, refl, refl, refl, refl),
      given k id a _ _ _ (Forgotten k forget) g (forget_reread k id _ ledger _ forget g)
          (ground arith) (refl, refl, refl, refl, refl),
    )
