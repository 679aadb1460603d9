-- ===== src/Kernel/Memory/Review/Reread.antt =====
-- What a review answers is what the ledger then holds.
use genesis.Prelude.{
  String, ◌≡◌, refl, sym, subst, ap, ◌∙◌, true, false, inl, inr, Option, none, some, [], ◌∷◌, ◌++◌,
  Option-cases, Bool-cases, arith,
}
use genesis.Prelude.Text.{is_empty, trim}
use genesis.Prelude.Dict.{get}
use genesis.Prelude.Results.{Result, ok, and_then, Result-cases}
use genesis.Kernel.Types.{MemoryStatus, MemoryCandidateProjection, EventType, StoredEvent}
use genesis.Kernel.Ledger.{KernelEnv, Ledger, append_event, with_value}
use genesis.Kernel.Memory.Requests.{
  validate_memory_approval_request, validate_memory_rejection_request,
  validate_memory_forget_request, MemoryApprovalRequest, MemoryRejectionRequest,
  MemoryForgetRequest,
}
use genesis.Kernel.Memory.Replay.{
  Candidates, merge_statuses, same_memory_candidate_core, record_from_event, replay_event,
  replay_typed, replay, no_candidates, memory_candidates,
}
use genesis.Kernel.Memory.Replay.Merge.{same_core_refl}
use genesis.Kernel.Memory.Replay.Appended.{Reads, Reads-decision}
use genesis.Kernel.Memory.Review.{
  Answer, find_candidate, reviewed, memory_candidate, candidate_event, approve_memory_candidate,
  reject_memory_candidate, forget_memory_candidate, decide_approve, decide_reject, decide_forget,
  approved_candidate, rejected_candidate, forgotten_candidate,
}

module _ (k : KernelEnv) (id : String) where
  pub find_ok :
      (ledger : Ledger) (a : MemoryCandidateProjection) (c : Candidates)
      → find_candidate k id ledger ≡ ok (a, c)
      → (k.load_error ≡ none) × (replay k ledger no_candidates ≡ ok c) × (get c.by_id id ≡ some a)
  unfolding find_candidate memory_candidates and_then
  find_ok ledger a c h = elim (Option-cases k.load_error) [
    | inr (e, n) ↦ ground arith
    | inl n ↦ elim (Result-cases (replay k ledger no_candidates)) [
      | inl (e, f) ↦ ground arith
      | inr (c', f) ↦ elim (Option-cases (get c'.by_id id)) [
        | inl g ↦ ground arith
        | inr (a', g) ↦
            let same : (a', c') ≡ (a, c) = ground arith in
            (
              n,
              f ∙ ap (λ (p : MemoryCandidateProjection × Candidates). ok p.1) same,
              ap (λ (p : MemoryCandidateProjection × Candidates). get p.1.by_id id) (sym same)
                  ∙ g
                  ∙ ap (λ (p : MemoryCandidateProjection × Candidates). some p.0) same,
            )
      ]
    ]
  ]

  -- A review that gives a result found a candidate, and its decision gave the result.
  pub reviewed_ok {ℓ} :
      {A : Type ℓ} (invalid : Option String)
      (decide : MemoryCandidateProjection → Candidates → Ledger → Result A × Ledger)
      (ledger ledger' : Ledger) (x : A)
      → reviewed k id invalid decide ledger ≡ (ok x, ledger')
      → (is_empty (trim id) ≡ false)
        × (a : MemoryCandidateProjection) × (c : Candidates) × (find_candidate k (trim id) ledger
            ≡ ok (a, c))
        × (decide a c ledger ≡ (ok x, ledger'))
  unfolding reviewed with_value
  reviewed_ok invalid decide ledger ledger' x h = elim (Bool-cases (is_empty (trim id))) [
    | inl t ↦ ground arith
    | inr f ↦ elim (Option-cases invalid) [
      | inr (e, n) ↦ ground arith
      | inl n ↦ elim (Result-cases (find_candidate k (trim id) ledger)) [
        | inl (e, g) ↦ ground arith
        | inr ((a, c), g) ↦ (f, a, c, g, ground arith)
      ]
    ]
  ]

pub append_ok {ℓ} :
    {A : Type ℓ} (k : KernelEnv) (ev : StoredEvent) (a x : A) (ledger ledger' : Ledger)
    → append_event k ev a ledger ≡ (ok x, ledger')
    → (a ≡ x) × (ledger ++ ev ∷ [] ≡ ledger')
unfolding append_event
append_ok k ev a x ledger ledger' h = ground arith

-- A read of the id gives the candidate.
pub Reads-found :
    (k : KernelEnv) (id : String) (ledger : Ledger) (a : MemoryCandidateProjection)
    → k.load_error ≡ none
    → is_empty (trim id) ≡ false
    → Reads k ledger (trim id) a
    → memory_candidate k id ledger ≡ ok a
unfolding memory_candidate find_candidate memory_candidates and_then
Reads-found k id ledger a loads named (c, h, e) = ground arith

module _ (k : KernelEnv) (id : String) (a x : MemoryCandidateProjection)
    (ledger ledger' : Ledger) where
  kept :
      Reads k ledger id a → ◌≡◌ {A = Answer} (ok a, ledger) (ok x, ledger') → Reads k ledger' id x
  kept r h =
      let same : a ≡ x = ground arith in
      let log : ledger ≡ ledger' = ground arith in
      subst (λ l. Reads k l id x) log (subst (Reads k ledger id) same r)

  -- A decision that was appended is read.
  decided :
      (a' : MemoryCandidateProjection) (type : EventType) (o : Option MemoryCandidateProjection)
      → Reads k ledger id a
      → is_empty id ≡ false
      → ((c : Candidates)
          → replay_event k (candidate_event k type a' none) c
            ≡ record_from_event k (candidate_event k type a' none) a' a'.candidate_id c)
      → a'.candidate_id ≡ a.candidate_id
      → same_memory_candidate_core a a' ≡ true
      → merge_statuses k a.status a'.status a a' ≡ ok a'
      → append_event k (candidate_event k type a' none) a' ledger ≡ (ok x, ledger')
      → Reads k ledger' id x
  decided a' type o r named shape same core merged h =
      let (e, f) = append_ok k (candidate_event k type a' none) a' x ledger ledger' h in
      subst (λ l. Reads k l id x) f
        (subst (Reads k _ id) e (
          Reads-decision k ledger id a a' (candidate_event k type a' none) r named shape same core
            merged))

  approve_decided :
      (req : MemoryApprovalRequest) (t : MemoryStatus)
      → a.status ≡ t
      → is_empty id ≡ false
      → Reads k ledger id a
      → decide_approve k req t a ledger ≡ (ok x, ledger')
      → Reads k ledger' id x
  unfolding replay_event replay_typed approved_candidate
  approve_decided req MemoryStatus.approved e named r h = kept r h
  approve_decided req MemoryStatus.rejected e named r h = ground arith
  approve_decided req MemoryStatus.superseded e named r h = ground arith
  approve_decided req MemoryStatus.forgotten e named r h = ground arith
  approve_decided req t e named r h =
      decided (approved_candidate k req a) EventType.memory_approved none r named (λ c. refl) refl
        (same_core_refl a (approved_candidate k req a) refl refl refl refl refl refl refl refl refl
          refl)
        (ap (λ s. merge_statuses k s MemoryStatus.approved a (approved_candidate k req a)) e) h

  reject_decided :
      (req : MemoryRejectionRequest) (t : MemoryStatus)
      → a.status ≡ t
      → is_empty id ≡ false
      → Reads k ledger id a
      → decide_reject k req t a ledger ≡ (ok x, ledger')
      → Reads k ledger' id x
  unfolding replay_event replay_typed rejected_candidate
  reject_decided req MemoryStatus.rejected e named r h = kept r h
  reject_decided req MemoryStatus.approved e named r h = ground arith
  reject_decided req MemoryStatus.superseded e named r h = ground arith
  reject_decided req MemoryStatus.forgotten e named r h = ground arith
  reject_decided req t e named r h =
      decided (rejected_candidate k req a) EventType.memory_rejected none r named (λ c. refl) refl
        (same_core_refl a (rejected_candidate k req a) refl refl refl refl refl refl refl refl refl
          refl)
        (ap (λ s. merge_statuses k s MemoryStatus.rejected a (rejected_candidate k req a)) e) h

  forget_decided :
      (req : MemoryForgetRequest) (t : MemoryStatus)
      → a.status ≡ t
      → is_empty id ≡ false
      → Reads k ledger id a
      → decide_forget k req t a ledger ≡ (ok x, ledger')
      → Reads k ledger' id x
  unfolding replay_event replay_typed forgotten_candidate
  forget_decided req MemoryStatus.forgotten e named r h = kept r h
  forget_decided req t e named r h =
      decided (forgotten_candidate k req a) EventType.memory_forgotten none r named (λ c. refl) refl
        (same_core_refl a (forgotten_candidate k req a) refl refl refl refl refl refl refl refl refl
          refl)
        (ap (λ s. merge_statuses k s MemoryStatus.forgotten a (forgotten_candidate k req a)) e) h

module _ (k : KernelEnv) (id : String) (x : MemoryCandidateProjection)
    (ledger ledger' : Ledger) where
  -- An approval that gives a candidate leaves a ledger whose replay succeeds, and a read of the
  -- same id then gives that candidate.
  pub approve_reread :
      (req : MemoryApprovalRequest)
      → approve_memory_candidate k id req ledger ≡ (ok x, ledger')
      → memory_candidate k id ledger' ≡ ok x
  unfolding approve_memory_candidate
  approve_reread req h =
      let (named, a, c, found, decided) =
        reviewed_ok k id (validate_memory_approval_request req)
          (λ candidate candidates. decide_approve k req candidate.status candidate) ledger ledger' x
          h in
      let (loads, replayed, e) = find_ok k (trim id) ledger a c found in
      Reads-found k id ledger' x loads named (
        approve_decided k (trim id) a x ledger ledger' req a.status refl named (c, replayed, e)
          decided)

  -- A rejection that gives a candidate leaves a ledger whose replay succeeds, and a read of the
  -- same id then gives that candidate.
  pub reject_reread :
      (req : MemoryRejectionRequest)
      → reject_memory_candidate k id req ledger ≡ (ok x, ledger')
      → memory_candidate k id ledger' ≡ ok x
  unfolding reject_memory_candidate
  reject_reread req h =
      let (named, a, c, found, decided) =
        reviewed_ok k id (validate_memory_rejection_request req)
          (λ candidate candidates. decide_reject k req candidate.status candidate) ledger ledger' x
          h in
      let (loads, replayed, e) = find_ok k (trim id) ledger a c found in
      Reads-found k id ledger' x loads named (
        reject_decided k (trim id) a x ledger ledger' req a.status refl named (c, replayed, e)
          decided)

  -- A forgetting that gives a candidate leaves a ledger whose replay succeeds, and a read of the
  -- same id then gives that candidate.
  pub forget_reread :
      (req : MemoryForgetRequest)
      → forget_memory_candidate k id req ledger ≡ (ok x, ledger')
      → memory_candidate k id ledger' ≡ ok x
  unfolding forget_memory_candidate
  forget_reread req h =
      let (named, a, c, found, decided) =
        reviewed_ok k id (validate_memory_forget_request req)
          (λ candidate candidates. decide_forget k req candidate.status candidate) ledger ledger' x
          h in
      let (loads, replayed, e) = find_ok k (trim id) ledger a c found in
      Reads-found k id ledger' x loads named (
        forget_decided k (trim id) a x ledger ledger' req a.status refl named (c, replayed, e)
          decided)
