-- ===== src/Kernel/Approval/Final/Reread.antt =====
-- What a decision answers is what the ledger then has.
use genesis.Prelude.{
  String, ◌≡◌, refl, subst, ◌∙◌, not, ◌&&◌, inl, inr, Option, none, some, [], ◌∷◌, ◌++◌, str_eq,
  if_cases, Bool-cases, Option-cases, arith, eq_refl,
}
use genesis.Prelude.Text.{trim, is_empty}
use genesis.Prelude.Results.{Result-cases}
use genesis.Kernel.Types.{EventType, StoredEvent}
use genesis.Kernel.Ledger.{KernelEnv, Ledger, append_event}
use genesis.Kernel.Approval.Types.{
  ApprovalStatus, ApprovalDecisionRequest, ApprovalProjection, OperationProjection,
}
use genesis.Kernel.Approval.Replay.{
  named_approval, scan_approval, latest_approval, approval_by_id, raw_operation_by_id,
}
use genesis.Kernel.Approval.Request.{
  ApprovalEnv, ApprovalWorld, Decided, validate_approval_decision_request,
  decide_approval_projection, is_pending, is_approved, approval_event, operation_event,
  terminal_blocked,
}
use genesis.Kernel.Approval.Decide.{
  fail, effect_request, ensure_approved_approval_effect, with_operation, after_append,
  append_terminal_blocked, turn_down, approve, is_over, is_current, is_waiting, decide_pending,
  decide_found, decide_approval,
}
use genesis.Kernel.Approval.Final.{Names, IsQuiet, Names-id, Names-operation_event, latest-append}
use genesis.Kernel.Approval.Final.Settled.{found-Names}

own_approval :
    (k : KernelEnv) (type : EventType) (b : ApprovalProjection) (start : Option ApprovalProjection)
    → scan_approval b.approval_id (approval_event k type b) start ≡ some b
unfolding approval_event scan_approval named_approval
own_approval k type b start = elim (Bool-cases (is_empty b.approval_id)) [
  | inl e ↦ rw (e, eq_refl b.approval_id) refl
  | inr e ↦ rw (e, eq_refl b.approval_id) refl
]

Names-own :
    (k : KernelEnv) (type : EventType) (b : ApprovalProjection) (ledger : Ledger)
    → Names b.approval_id b (ledger ++ approval_event k type b ∷ [])
Names-own k type b ledger =
    latest-append b.approval_id ledger (approval_event k type b) none
    ∙ own_approval k type b (latest_approval b.approval_id ledger none)

after_append_cases :
    (P : Decided → Type 0) (k : KernelEnv) (ev : StoredEvent) (next : ApprovalWorld → Decided)
    (w : ApprovalWorld)
    → ((e : String) (w' : ApprovalWorld) → P (fail e w'))
    → P (next (record w { ledger = w.ledger ++ ev ∷ [] }))
    → P (after_append (append_event k ev (tt {0}) w.ledger) next w)
unfolding append_event
after_append_cases P k ev next w failed h = elim (Option-cases k.ready_error) [
  | inr (e, f) ↦ rw (f, after_append) (failed e _)
  | inl f ↦ elim (Option-cases k.append_error) [
    | inr (e, g) ↦ rw (f, g, after_append) (failed e _)
    | inl g ↦ rw (f, g, after_append) h
  ]
]

module _ (env : ApprovalEnv) (req : ApprovalDecisionRequest) (w : ApprovalWorld)
    (quiet : IsQuiet env) (id : String) where
  -- An answer without an error is what the ledger then has.
  abbrev IsRead : Decided → Type 0
  IsRead p = p.1 ≡ none → Names id p.0 p.2.ledger

  fail-IsRead : (e : String) (w' : ApprovalWorld) → IsRead (fail e w')
  fail-IsRead e w' h = ground arith

  turn_down-IsRead :
      (type : EventType) (b : ApprovalProjection) (op : OperationProjection) (reason : String)
      (error : Option String)
      → b.approval_id ≡ id
      → IsRead (turn_down env type b op reason error w)
  unfolding turn_down
  turn_down-IsRead type b op reason error same =
      let op' = terminal_blocked op reason env.kernel.clock in
      let l = w.ledger ++ approval_event env.kernel type b ∷ [] in
      after_append_cases IsRead env.kernel (approval_event env.kernel type b)
        (λ w'.
          after_append (append_terminal_blocked env op reason w'.ledger) (λ w''. (b, error, w''))
            w')
        w fail-IsRead
        (after_append_cases IsRead env.second (operation_event env.second op')
          (λ w''. (b, error, w'')) (record w { ledger = l }) fail-IsRead
          (λ h.
            Names-operation_event env.second op' id b l
              (subst (λ i. Names i b l) same (Names-own env.kernel type b w.ledger))))

  approve-IsRead :
      (b : ApprovalProjection) (op : OperationProjection)
      → b.approval_id ≡ id
      → IsRead (approve env b op w)
  unfolding approve ensure_approved_approval_effect
  approve-IsRead b op same =
      let ev = approval_event env.kernel EventType.approval_approved b in
      let l = w.ledger ++ ev ∷ [] in
      after_append_cases IsRead env.kernel ev (ensure_approved_approval_effect env b op) w
        fail-IsRead
        (λ h. quiet op (effect_request b op) l id b (
          subst (λ i. Names i b l) same
            (Names-own env.kernel EventType.approval_approved b w.ledger)))

  decide_pending-IsRead :
      (b : ApprovalProjection) (op : OperationProjection)
      → b.approval_id ≡ id
      → IsRead (decide_pending env req b op w)
  unfolding decide_pending decide_approval_projection
  decide_pending-IsRead b op same =
      let down : (type : EventType) (status : ApprovalStatus) (reason : String)
            (error : Option String)
          → IsRead (
              turn_down env type (decide_approval_projection b req status reason env.kernel.clock)
                op reason error w) =
        λ type status reason error.
          turn_down-IsRead type (decide_approval_projection b req status reason env.kernel.clock) op
            reason error same in
      if_cases IsRead (is_over b env.kernel.clock) _ _ (λ e. down _ _ _ _)
        (λ e.
          if_cases IsRead (not (is_current env b)) _ _ (λ f. down _ _ _ _)
            (λ f.
              if_cases IsRead (not (is_waiting op)) _ _ (λ g. down _ _ _ _)
                (λ g.
                  if_cases IsRead (str_eq (trim req.decision) "denied") _ _ (λ i. down _ _ _ _)
                    (λ i.
                      if_cases IsRead (str_eq (trim req.decision) "approved") _ _
                        (λ j.
                          approve-IsRead
                            (decide_approval_projection b req ApprovalStatus.approved ""
                              env.kernel.clock)
                            op same)
                        (λ j. fail-IsRead _ w)))))

  with_operation-IsRead :
      (b : ApprovalProjection) (next : OperationProjection → ApprovalWorld → Decided)
      → ((op : OperationProjection) → IsRead (next op w))
      → IsRead (with_operation env b next w)
  unfolding with_operation
  with_operation-IsRead b next h =
      elim (Result-cases (raw_operation_by_id env.kernel b.session_id b.operation_id w.ledger)) [
        | inl (e, f) ↦ rw (f, with_operation) (fail-IsRead e w)
        | inr (none, f) ↦ rw (f, with_operation) (fail-IsRead _ w)
        | inr (some op, f) ↦ rw (f, with_operation) (h op)
      ]

  decide_found-IsRead :
      (b : ApprovalProjection) → Names id b w.ledger → IsRead (decide_found env req b w)
  unfolding decide_found ensure_approved_approval_effect
  decide_found-IsRead b named =
      if_cases IsRead (is_pending b.status) _ _
        (λ e.
          with_operation-IsRead b (decide_pending env req b)
            (λ op. decide_pending-IsRead b op (Names-id id b w.ledger named)))
        (λ e.
          if_cases IsRead (is_approved b.status && str_eq (trim req.decision) "approved") _ _
            (λ f.
              with_operation-IsRead b (ensure_approved_approval_effect env b)
                (λ op h. quiet op (effect_request b op) w.ledger id b named))
            (λ f. fail-IsRead _ w))

-- What a DecideApproval answers without an error is the approval that the new ledger has under the
-- trimmed id asked for; provided that a run of the shell leaves every approval as it is.
pub decide_reread :
    (env : ApprovalEnv) (req : ApprovalDecisionRequest) (w : ApprovalWorld)
    → IsQuiet env
    → (decide_approval env req w).1 ≡ none
    → latest_approval (trim req.approval_id) (decide_approval env req w).2.ledger none
      ≡ some (decide_approval env req w).0
unfolding decide_approval
decide_reread env req w quiet = elim (Option-cases (validate_approval_decision_request env req)) [
  | inr (e, f) ↦ rw (f, decide_approval) (λ h. ground arith)
  | inl f ↦ elim (Result-cases (approval_by_id env.kernel req.approval_id w.ledger)) [
    | inl (e, g) ↦ rw (f, g, decide_approval) (λ h. ground arith)
    | inr (none, g) ↦ rw (f, g, decide_approval) (λ h. ground arith)
    | inr (some b, g) ↦
        rw (f, g, decide_approval)
          (decide_found-IsRead env req w quiet (trim req.approval_id) b
            (found-Names env.kernel req.approval_id w.ledger b g))
  ]
]
