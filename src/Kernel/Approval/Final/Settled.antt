-- ===== src/Kernel/Approval/Final/Settled.antt =====
-- A decided approval stays as it is, whatever is decided afterwards.
use genesis.Prelude.{
  String, ◌≡◌, sym, ap, ◌∙◌, true, false, ◌&&◌, inl, inr, none, some, str_eq, if_cases, Bool-cases,
  Option-cases, arith, eq_iff,
}
use genesis.Prelude.Text.{trim}
use genesis.Prelude.Results.{ok, and_then, Result-cases}
use genesis.Kernel.Ledger.{KernelEnv, Ledger}
use genesis.Kernel.Approval.Types.{ApprovalDecisionRequest, ApprovalProjection}
use genesis.Kernel.Approval.Replay.{latest_approval, approval_by_id}
use genesis.Kernel.Approval.Request.{
  ApprovalEnv, ApprovalWorld, Decided, validate_approval_decision_request, is_pending, is_approved,
}
use genesis.Kernel.Approval.Decide.{
  effect_request, ensure_approved_approval_effect, decide_pending, decide_found, decide_approval,
}
use genesis.Kernel.Approval.Final.{
  Names, IsQuiet, Names-id, Stays, with_operation-Stays, decide_pending-Stays,
}

pub found-Names :
    (k : KernelEnv) (id : String) (ledger : Ledger) (a : ApprovalProjection)
    → approval_by_id k id ledger ≡ ok (some a)
    → Names (trim id) a ledger
unfolding approval_by_id and_then
found-Names k id ledger a h = elim (Option-cases k.load_error) [
  | inr (e, f) ↦ ground arith
  | inl f ↦ ground arith
]

module _ (env : ApprovalEnv) (req : ApprovalDecisionRequest) (w : ApprovalWorld)
    (quiet : IsQuiet env) (id : String) (a : ApprovalProjection) (named : Names id a w.ledger) where
  decide_found-Stays :
      (b : ApprovalProjection)
      → (is_pending b.status ≡ true → str_eq b.approval_id id ≡ false)
      → Stays env req w quiet id a named (decide_found env req b w)
  unfolding decide_found ensure_approved_approval_effect
  decide_found-Stays b other =
      let P : Decided → Type 0 = Stays env req w quiet id a named in
      if_cases P (is_pending b.status) _ _
        (λ pending.
          with_operation-Stays env req w quiet id a named b (decide_pending env req b)
            (λ op. decide_pending-Stays env req w quiet id a named b op (other pending)))
        (λ e.
          if_cases P (is_approved b.status && str_eq (trim req.decision) "approved") _ _
            (λ f.
              with_operation-Stays env req w quiet id a named b
                (ensure_approved_approval_effect env b)
                (λ op. quiet op (effect_request b op) w.ledger id a named))
            (λ f. named))

-- An approval that the ledger has and that is not pending is there exactly as it was after any
-- DecideApproval, of this or of another approval; provided that a run of the shell leaves every
-- approval as it is.
pub decided_final :
    (env : ApprovalEnv) (req : ApprovalDecisionRequest) (w : ApprovalWorld) (id : String)
    (a : ApprovalProjection)
    → IsQuiet env
    → Names id a w.ledger
    → is_pending a.status ≡ false
    → Names id a (decide_approval env req w).2.ledger
unfolding decide_approval
decided_final env req w id a quiet named decided =
    elim (Option-cases (validate_approval_decision_request env req)) [
      | inr (e, f) ↦ rw (f, decide_approval) named
      | inl f ↦ elim (Result-cases (approval_by_id env.kernel req.approval_id w.ledger)) [
        | inl (e, g) ↦ rw (f, g, decide_approval) named
        | inr (none, g) ↦ rw (f, g, decide_approval) named
        | inr (some b, g) ↦
            let there = found-Names env.kernel req.approval_id w.ledger b g in
            rw (f, g, decide_approval)
              (decide_found-Stays env req w quiet id a named b (λ pending.
                elim (Bool-cases (str_eq b.approval_id id)) [
                  | inr e ↦ e
                  | inl e ↦
                      let same : trim req.approval_id ≡ id =
                        sym (Names-id (trim req.approval_id) b w.ledger there)
                        ∙ (eq_iff b.approval_id id).0 e in
                      let both : some a ≡ some b =
                        sym named ∙ ap (λ i. latest_approval i w.ledger none) (sym same) ∙ there in
                      let it : a ≡ b = ground arith in
                      ground (arith, ap (λ (c : ApprovalProjection). is_pending c.status) it)
                ]))
      ]
    ]
