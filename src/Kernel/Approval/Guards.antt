-- ===== src/Kernel/Approval/Guards.antt =====
-- A command is run only for an approval that covers it.
use genesis.Prelude.{
  String, ◌≡◌, refl, true, false, not, ◌&&◌, ◌⊎◌, inl, inr, Option, none, some, [], ◌∷◌, ◌++◌,
  str_eq, if_cases, Option-cases, arith,
}
use genesis.Prelude.Text.{append, trim}
use genesis.Prelude.Results.{Result, err, ok, Result-cases}
use genesis.Kernel.Types.{EventType}
use genesis.Kernel.Ledger.{Ledger}
use genesis.Kernel.Approval.Types.{
  ApprovalStatus, ApprovalDecisionRequest, ApprovalProjection, OperationProjection,
  ShellExecRequest,
}
use genesis.Kernel.Approval.Replay.{approval_by_id, raw_operation_by_id}
use genesis.Kernel.Approval.Request.{
  ApprovalEnv, ApprovalWorld, Decided, validate_approval_decision_request,
  decide_approval_projection, is_pending, is_approved,
}
use genesis.Kernel.Approval.Decide.{
  effect_request, ensure_approved_approval_effect, with_operation, after_append,
  append_approval_event, append_terminal_blocked, turn_down, approve, is_over, is_current,
  is_waiting, decide_by, decide_pending, decide_found, decide_approval,
}

abbrev Same : ApprovalWorld → Decided → Type 0
Same w p = p.2.executed ≡ w.executed

after_append-Same :
    (r : Result (Unit {0}) × Ledger) (next : ApprovalWorld → Decided) (w : ApprovalWorld)
    → ((w' : ApprovalWorld) → Same w' (next w'))
    → Same w (after_append r next w)
after_append-Same (err e, ledger) next w h = refl
after_append-Same (ok _, ledger) next w h = h (record w { ledger = ledger })

-- Nothing was run, or the request was.
abbrev Runs : ApprovalWorld → ShellExecRequest → Decided → Type 0
Runs w request p = Same w p ⊎ (p.2.executed ≡ w.executed ++ request ∷ [])

after_append-Runs :
    (r : Result (Unit {0}) × Ledger) (next : ApprovalWorld → Decided) (request : ShellExecRequest)
    (w : ApprovalWorld)
    → ((w' : ApprovalWorld) → Runs w' request (next w'))
    → Runs w request (after_append r next w)
after_append-Runs (err e, ledger) next request w h = inl refl
after_append-Runs (ok _, ledger) next request w h = h (record w { ledger = ledger })

module _ (env : ApprovalEnv) where
  turn_down-Same :
      (type : EventType) (a : ApprovalProjection) (op : OperationProjection) (reason : String)
      (error : Option String) (w : ApprovalWorld)
      → Same w (turn_down env type a op reason error w)
  unfolding turn_down
  turn_down-Same type a op reason error w =
      after_append-Same (append_approval_event env type a w.ledger)
        (λ w'.
          after_append (append_terminal_blocked env op reason w'.ledger) (λ w''. (a, error, w''))
            w')
        w
        (λ w'.
          after_append-Same (append_terminal_blocked env op reason w'.ledger)
            (λ w''. (a, error, w'')) w' (λ w''. refl))

  ensure-Runs :
      (a : ApprovalProjection) (op : OperationProjection) (w : ApprovalWorld)
      → Runs w (effect_request a op) (ensure_approved_approval_effect env a op w)
  unfolding ensure_approved_approval_effect
  ensure-Runs a op w = inr refl

  -- Why the command of an approval and its operation may be run for a decision.
  pub record Covers (req : ApprovalDecisionRequest) (w : ApprovalWorld) (a : ApprovalProjection)
      (op : OperationProjection) : Type 0 where
    pub found : approval_by_id env.kernel req.approval_id w.ledger ≡ ok (some a)
    pub known : raw_operation_by_id env.kernel a.session_id a.operation_id w.ledger ≡ ok (some op)
    pub asked : str_eq (trim req.decision) "approved" ≡ true
    pub allowed :
        (is_approved a.status ≡ true)
        ⊎ ((is_pending a.status ≡ true)
            × (is_over a env.kernel.clock ≡ false)
            × (is_current env a ≡ true)
            × (is_waiting op ≡ true))

  -- Nothing was run, or the command of an operation whose approval covers it, in its directory
  -- and with its timeout, under a key of that approval.
  abbrev pub Guarded : ApprovalDecisionRequest → ApprovalWorld → Decided → Type 0
  Guarded req w p =
      Same w p
      ⊎ ((a : ApprovalProjection) × (op : OperationProjection) × Covers req w a op
          × (p.2.executed
              ≡ w.executed
                ++ record {
                  session_id = op.session_id;
                  cwd = op.cwd;
                  command = op.command;
                  timeout_sec = op.timeout_sec;
                  idempotency_key = append "approval:" a.approval_id;
                  approved_by_id = a.approval_id;
                }
                  ∷ []))

module _ (env : ApprovalEnv) (req : ApprovalDecisionRequest) (w : ApprovalWorld)
    (a : ApprovalProjection)
    (found : approval_by_id env.kernel req.approval_id w.ledger ≡ ok (some a)) where
  by_operation :
      (next : OperationProjection → ApprovalWorld → Decided)
      → ((op : OperationProjection)
          → raw_operation_by_id env.kernel a.session_id a.operation_id w.ledger ≡ ok (some op)
          → Guarded env req w (next op w))
      → Guarded env req w (with_operation env a next w)
  unfolding with_operation
  by_operation next h =
      elim (Result-cases (raw_operation_by_id env.kernel a.session_id a.operation_id w.ledger)) [
        | inl (e, f) ↦ rw (f, with_operation) (inl refl)
        | inr (none, f) ↦ rw (f, with_operation) (inl refl)
        | inr (some op, f) ↦ rw (f, with_operation) (h op f)
      ]

  approve-Guarded :
      (op : OperationProjection)
      → Covers env req w a op
      → Guarded env req w (
          approve env
            (decide_approval_projection a req ApprovalStatus.approved "" env.kernel.clock)
            op
            w)
  unfolding approve decide_approval_projection
  approve-Guarded op covers =
      let b = decide_approval_projection a req ApprovalStatus.approved "" env.kernel.clock in
      elim (after_append-Runs (append_approval_event env EventType.approval_approved b w.ledger)
        (ensure_approved_approval_effect env b op) (effect_request a op) w
        (λ w'. ensure-Runs env b op w')) [
          | inl same ↦ inl same
          | inr runs ↦ inr (a, op, covers, runs)
        ]

  decide_by-Guarded :
      (op : OperationProjection)
      → raw_operation_by_id env.kernel a.session_id a.operation_id w.ledger ≡ ok (some op)
      → ((is_approved a.status ≡ true)
          ⊎ ((is_pending a.status ≡ true)
              × (is_over a env.kernel.clock ≡ false)
              × (is_current env a ≡ true)
              × (is_waiting op ≡ true)))
      → Guarded env req w (decide_by env req a op w)
  decide_by-Guarded op known allowed =
      let P : Decided → Type 0 = Guarded env req w in
      if_cases P (str_eq (trim req.decision) "denied") _ _
        (λ e. inl (turn_down-Same env _ _ op _ _ w))
        (λ e.
          if_cases P (str_eq (trim req.decision) "approved") _ _
            (λ asked.
              approve-Guarded op
                (record { found = found; known = known; asked = asked; allowed = allowed }))
            (λ e'. inl refl))

  decide_pending-Guarded :
      (op : OperationProjection)
      → raw_operation_by_id env.kernel a.session_id a.operation_id w.ledger ≡ ok (some op)
      → is_pending a.status ≡ true
      → Guarded env req w (decide_pending env req a op w)
  unfolding decide_pending
  decide_pending-Guarded op known pending =
      let now = env.kernel.clock in
      let P : Decided → Type 0 = Guarded env req w in
      let decided = decide_approval_projection a req in
      if_cases P (is_over a now) _ _ (λ e. inl (turn_down-Same env _ _ op _ _ w))
        (λ fresh.
          if_cases P (not (is_current env a)) _ _ (λ e. inl (turn_down-Same env _ _ op _ _ w))
            (λ current.
              if_cases P (not (is_waiting op)) _ _ (λ e. inl (turn_down-Same env _ _ op _ _ w))
                (λ waits.
                  decide_by-Guarded op known (inr (pending, fresh, ground arith, ground arith)))))

  decide_found-Guarded : Guarded env req w (decide_found env req a w)
  unfolding decide_found ensure_approved_approval_effect
  decide_found-Guarded =
      let P : Decided → Type 0 = Guarded env req w in
      if_cases P (is_pending a.status) _ _
        (λ pending.
          by_operation (decide_pending env req a)
            (λ op known. decide_pending-Guarded op known pending))
        (λ e.
          if_cases P (is_approved a.status && str_eq (trim req.decision) "approved") _ _
            (λ both. by_operation (ensure_approved_approval_effect env a) (λ op known. inr (
              a,
              op,
              record {
                found = found;
                known = known;
                asked = ground arith;
                allowed = inl (ground arith);
              },
              refl,
            )))
            (λ e'. inl refl))

-- A DecideApproval either runs no command, or it runs exactly one: that of the operation of the
-- approval asked for, both of which the ledger has, for the decision approved, and where the
-- approval is approved already, or is pending, not expired, and taken under the policy in force,
-- and the operation is blocked with approval_required. The command, its directory and its timeout
-- are the operation's, and the key and the approver that go with it are the approval's.
pub decide-Guarded :
    (env : ApprovalEnv) (req : ApprovalDecisionRequest) (w : ApprovalWorld)
    → Guarded env req w (decide_approval env req w)
unfolding decide_approval
decide-Guarded env req w = elim (Option-cases (validate_approval_decision_request env req)) [
  | inr (e, f) ↦ rw (f, decide_approval) (inl refl)
  | inl f ↦ elim (Result-cases (approval_by_id env.kernel req.approval_id w.ledger)) [
    | inl (e, g) ↦ rw (f, g, decide_approval) (inl refl)
    | inr (none, g) ↦ rw (f, g, decide_approval) (inl refl)
    | inr (some a, g) ↦ rw (f, g, decide_approval) (decide_found-Guarded env req w a g)
  ]
]
