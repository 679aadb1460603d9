-- ===== src/Kernel/Approval/Authorize.antt =====
-- approvalAuthorizesShellExecution: whether an approval covers a shell request.
use genesis.Prelude.{String, Bool, true, false, not, ◌&&◌, none, some, str_eq, if◌then◌else◌}
use genesis.Prelude.Text.{append, is_empty, trim}
use genesis.Prelude.Results.{Result, err, ok}
use genesis.Kernel.Ledger.{Ledger}
use genesis.Kernel.Authority.{ResolvedToolPolicy}
use genesis.Kernel.Approval.Types.{OperationProjection, ShellExecRequest, same_int}
use genesis.Kernel.Approval.Replay.{approval_by_id, raw_operation_by_id}
use genesis.Kernel.Approval.Request.{
  ApprovalEnv, approval_policy_snapshot, same_approval_policy_snapshot, is_approved,
}
use genesis.Kernel.Approval.Decide.{normalized_shell_timeout_sec}

-- The tests of approvalAuthorizesShellExecution on the operation.
abbrev same_effect : ApprovalEnv → OperationProjection → ShellExecRequest → String → Bool
same_effect env operation req turn_id =
    str_eq operation.tool "shell_exec"
    && str_eq operation.session_id (trim req.session_id)
    && str_eq operation.turn_id (trim turn_id)
    && str_eq operation.cwd (trim req.cwd)
    && str_eq operation.command (trim req.command)
    && same_int (normalized_shell_timeout_sec env operation.timeout_sec)
        (normalized_shell_timeout_sec env req.timeout_sec)

abbrev refused : String → Result (Bool × String)
refused reason = ok (false, reason)

-- approvalAuthorizesShellExecution
unfoldable pub approval_authorizes_shell_execution :
    ApprovalEnv
    → String
    → ShellExecRequest
    → String
    → ResolvedToolPolicy
    → Ledger
    → Result (Bool × String)
approval_authorizes_shell_execution env id req turn_id resolved ledger =
    if is_empty (trim id)
    then refused "approval_required"
    else elim (approval_by_id env.kernel (trim id) ledger) [
      | err e ↦ err e
      | ok none ↦ refused "approval_not_found"
      | ok (some approval) ↦
          if not (is_approved approval.status)
          then refused "approval_not_approved"
          else if not (str_eq (trim req.idempotency_key) (append "approval:" (trim id)))
          then refused "approval_effect_mismatch"
          else if not (
              same_approval_policy_snapshot approval.policy_snapshot
                (approval_policy_snapshot resolved))
          then refused "policy_snapshot_mismatch"
          else elim (raw_operation_by_id env.kernel approval.session_id approval.operation_id
              ledger) [
                | err e ↦ err e
                | ok none ↦ refused "approval_operation_missing"
                | ok (some operation) ↦
                    if not (same_effect env operation req turn_id)
                    then refused "approval_effect_mismatch"
                    else ok (true, "")
              ]
    ]
