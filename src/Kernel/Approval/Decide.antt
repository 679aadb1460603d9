-- ===== src/Kernel/Approval/Decide.antt =====
-- DecideApproval: a decision on an approval, and the shell command that an approval lets run. The
-- approval lock makes everything up to that command one step.
use genesis.Prelude.{
  ℤ, pos, ℕ, String, Bool, false, not, ◌&&◌, Option, none, some, [], ◌∷◌, ◌++◌, str_eq, ltb, ◌==◌,
  if◌then◌else◌,
}
use genesis.Prelude.Text.{append, trim}
use genesis.Prelude.Results.{Result, err, ok}
use genesis.Kernel.Types.{EventType}
use genesis.Kernel.Ledger.{Ledger, append_event}
use genesis.Kernel.Authority.{resolve_tool_policy}
use genesis.Kernel.Approval.Types.{
  ApprovalStatus, ApprovalDecisionRequest, ApprovalProjection, OperationProjection,
  ShellExecRequest, approval_status_text, zero_approval, greater,
}
use genesis.Kernel.Approval.Replay.{approval_by_id, raw_operation_by_id}
use genesis.Kernel.Approval.Request.{
  ApprovalEnv, ApprovalWorld, Decided, approval_policy_snapshot, same_approval_policy_snapshot,
  validate_approval_decision_request, decide_approval_projection, is_pending, is_approved,
  approval_event, operation_event, terminal_blocked,
}

abbrev pub fail : String → ApprovalWorld → Decided
fail e w = (zero_approval, some e, w)

abbrev is_zero_int : ℤ → Bool
is_zero_int (pos n) = n == 0
is_zero_int _ = false

-- normalizedShellTimeoutSec
unfoldable pub normalized_shell_timeout_sec : ApprovalEnv → ℤ → ℤ
normalized_shell_timeout_sec env timeout_sec =
    if is_zero_int timeout_sec then env.default_foreground_timeout_sec else timeout_sec

-- shellTimeoutExceedsForeground
abbrev shell_timeout_exceeds_foreground : ApprovalEnv → ℤ → Bool
shell_timeout_exceeds_foreground env timeout_sec = greater timeout_sec env.managed_job_threshold_sec

abbrev pub effect_request : ApprovalProjection → OperationProjection → ShellExecRequest
effect_request approval operation = record {
  session_id = operation.session_id;
  cwd = operation.cwd;
  command = operation.command;
  timeout_sec = operation.timeout_sec;
  idempotency_key = append "approval:" approval.approval_id;
  approved_by_id = approval.approval_id;
}

-- What the shell does with a request.
unfoldable pub run_shell :
    ApprovalEnv → OperationProjection → ShellExecRequest → Ledger → Option String × Ledger
run_shell env operation request ledger =
    if shell_timeout_exceeds_foreground env (normalized_shell_timeout_sec env operation.timeout_sec)
    then env.invoke_shell request operation.turn_id ledger
    else env.exec_shell request operation.turn_id ledger

-- ensureApprovedApprovalEffect, and the answer of its callers.
unfoldable pub ensure_approved_approval_effect :
    ApprovalEnv → ApprovalProjection → OperationProjection → ApprovalWorld → Decided
ensure_approved_approval_effect env approval operation w =
    let request = effect_request approval operation in
    let (error, ledger) = run_shell env operation request w.ledger in
    (approval, error, record { ledger = ledger; executed = w.executed ++ request ∷ [] })

-- The operation of an approval, and the rest of the decision.
unfoldable pub with_operation :
    ApprovalEnv
    → ApprovalProjection
    → (OperationProjection → ApprovalWorld → Decided)
    → ApprovalWorld
    → Decided
with_operation env approval next w =
    elim (raw_operation_by_id env.kernel approval.session_id approval.operation_id w.ledger) [
      | err e ↦ fail e w
      | ok none ↦ fail "approval rejected: approval operation evidence is missing" w
      | ok (some operation) ↦ next operation w
    ]

-- if err := k.appendApprovalEvent(...); err != nil { return ApprovalProjection{}, err }
abbrev pub after_append :
    Result (Unit {0}) × Ledger → (ApprovalWorld → Decided) → ApprovalWorld → Decided
after_append (err e, ledger) next w = fail e (record w { ledger = ledger })
after_append (ok _, ledger) next w = next (record w { ledger = ledger })

-- appendApprovalEvent
abbrev pub append_approval_event :
    ApprovalEnv → EventType → ApprovalProjection → Ledger → Result (Unit {0}) × Ledger
append_approval_event env type approval =
    append_event env.kernel (approval_event env.kernel type approval) (tt {0})

-- appendApprovalTerminalBlockedOperation
abbrev pub append_terminal_blocked :
    ApprovalEnv → OperationProjection → String → Ledger → Result (Unit {0}) × Ledger
append_terminal_blocked env operation reason =
    append_event env.second
      (operation_event env.second (terminal_blocked operation reason env.kernel.clock)) (tt {0})

-- An approval that ends without the command: its event and that of the operation.
unfoldable pub turn_down :
    ApprovalEnv
    → EventType
    → ApprovalProjection
    → OperationProjection
    → String
    → Option String
    → ApprovalWorld
    → Decided
turn_down env type approval operation reason error w =
    after_append (append_approval_event env type approval w.ledger)
      (λ w'.
        after_append (append_terminal_blocked env operation reason w'.ledger)
          (λ w''. (approval, error, w'')) w')
      w

-- An approval that lets the command run.
unfoldable pub approve :
    ApprovalEnv → ApprovalProjection → OperationProjection → ApprovalWorld → Decided
approve env approval operation w =
    after_append (append_approval_event env EventType.approval_approved approval w.ledger)
      (ensure_approved_approval_effect env approval operation) w

-- !approval.ExpiresAt.IsZero() && now.After(approval.ExpiresAt)
unfoldable pub is_over : ApprovalProjection → ℕ → Bool
is_over approval now = not (approval.expires_at == 0) && ltb approval.expires_at now

-- The snapshot is that of the policy in force.
unfoldable pub is_current : ApprovalEnv → ApprovalProjection → Bool
is_current env approval =
    same_approval_policy_snapshot approval.policy_snapshot
      (approval_policy_snapshot (resolve_tool_policy env.lower env.tool_policy))

abbrev pub is_waiting : OperationProjection → Bool
is_waiting operation =
    str_eq operation.status "blocked" && str_eq operation.blocked_reason "approval_required"

-- The switch on the decision.
abbrev pub decide_by :
    ApprovalEnv
    → ApprovalDecisionRequest
    → ApprovalProjection
    → OperationProjection
    → ApprovalWorld
    → Decided
decide_by env req approval operation w =
    let decided = decide_approval_projection approval req in
    let now = env.kernel.clock in
    if str_eq (trim req.decision) "denied"
    then turn_down env EventType.approval_denied
        (decided ApprovalStatus.denied "approval_denied" now) operation "approval_denied" none w
    else if str_eq (trim req.decision) "approved"
    then approve env (decided ApprovalStatus.approved "" now) operation w
    else fail "approval rejected: unknown approval decision" w

-- DecideApproval on a pending approval with its operation.
unfoldable pub decide_pending :
    ApprovalEnv
    → ApprovalDecisionRequest
    → ApprovalProjection
    → OperationProjection
    → ApprovalWorld
    → Decided
decide_pending env req approval operation w =
    let decided = decide_approval_projection approval req in
    let now = env.kernel.clock in
    if is_over approval now
    then turn_down env EventType.approval_expired
        (decided ApprovalStatus.expired "approval_expired" now) operation "approval_expired"
        (some "approval rejected: approval expired") w
    else if not (is_current env approval)
    then turn_down env EventType.approval_denied
        (decided ApprovalStatus.denied "policy_snapshot_mismatch" now) operation
        "policy_snapshot_mismatch" (some "approval rejected: policy snapshot mismatch") w
    else if not (is_waiting operation)
    then turn_down env EventType.approval_denied
        (decided ApprovalStatus.denied "approval_operation_stale" now) operation
        "approval_operation_stale" (some "approval rejected: approval operation is stale") w
    else decide_by env req approval operation w

-- DecideApproval on an approval that is there.
unfoldable pub decide_found :
    ApprovalEnv → ApprovalDecisionRequest → ApprovalProjection → ApprovalWorld → Decided
decide_found env req approval w =
    if is_pending approval.status
    then with_operation env approval (decide_pending env req approval) w
    else if is_approved approval.status && str_eq (trim req.decision) "approved"
    then with_operation env approval (ensure_approved_approval_effect env approval) w
    else fail
        (append "approval rejected: approval is already " (approval_status_text approval.status)) w

-- DecideApproval
unfoldable pub decide_approval : ApprovalEnv → ApprovalDecisionRequest → ApprovalWorld → Decided
decide_approval env req w = elim (validate_approval_decision_request env req) [
  | some e ↦ fail e w
  | none ↦ elim (approval_by_id env.kernel req.approval_id w.ledger) [
    | err e ↦ fail e w
    | ok none ↦ fail "approval rejected: approval not found" w
    | ok (some approval) ↦ decide_found env req approval w
  ]
]
