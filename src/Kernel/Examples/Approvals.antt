-- ===== src/Kernel/Examples/Approvals.antt =====
-- A blocked command, and the decisions on its approval.
use genesis.Prelude.{pos, String, ◌≡◌, refl, false, none, some, [], ◌∷◌, arith}
use genesis.Prelude.Text.{trim}
use genesis.Prelude.Results.{and_then}
use genesis.Kernel.Ledger.{Ledger, append_event, new_id}
use genesis.Kernel.Refs.{
  validate_kernel_ref, validate_kernel_authority, validate_kernel_control_token, required,
  first_error,
}
use genesis.Kernel.Authority.{
  ToolPolicy, resolve_tool_policy, apply_tool_policy_overrides, policy_of_mode,
  normalized_permission_mode, with_sandbox, with_approval, normalized_policy_value,
  approval_override,
}
use genesis.Kernel.Approval.Types.{ApprovalDecisionRequest, ApprovalProjection, OperationProjection}
use genesis.Kernel.Approval.Replay.{
  named_approval, scan_approval, latest_approval, approval_by_id, latest_operation,
  raw_operation_by_id,
}
use genesis.Kernel.Approval.Request.{
  ApprovalEnv, ApprovalWorld, requested_approval, approval_event, operation_event, terminal_blocked,
  operation_elapsed_ms, approval_policy_snapshot, same_approval_policy_snapshot,
  approval_effect_summary, validate_approval_decision_request, decide_approval_projection,
}
use genesis.Kernel.Approval.Decide.{
  effect_request, run_shell, normalized_shell_timeout_sec, ensure_approved_approval_effect,
  with_operation, turn_down, approve, is_over, is_current, decide_pending, decide_found,
  decide_approval,
}
use genesis.Kernel.Approval.Guards.{Guarded, decide-Guarded}
use genesis.Kernel.Approval.Final.{IsQuiet, Names}
use genesis.Kernel.Approval.Final.Settled.{decided_final}
use genesis.Kernel.Approval.Final.Reread.{decide_reread}
use genesis.Kernel.Types.{EventType}
use genesis.Kernel.Examples.Env.{env_at}

abbrev policy : ToolPolicy
policy = record {
  permission_mode = "default";
  workspace_root = "/w";
  sandbox_profile = "";
  approval_policy = "on_request";
}

abbrev env : ApprovalEnv
env = record {
  kernel = env_at 7 "a";
  second = env_at 7 "b";
  lower = λ s. s;
  tool_policy = policy;
  is_secret = λ s. false;
  default_foreground_timeout_sec = pos 30;
  managed_job_threshold_sec = pos 180;
  invoke_shell = λ request turn_id ledger. (none, ledger);
  exec_shell = λ request turn_id ledger. (none, ledger);
}

env-IsQuiet : IsQuiet env
unfolding run_shell normalized_shell_timeout_sec
env-IsQuiet op request ledger id a named = ground arith

abbrev blocked : OperationProjection
blocked = record {
  operation_id = "op1";
  session_id = "s1";
  turn_id = "t1";
  tool = "shell_exec";
  idempotency_key = "";
  status = "blocked";
  permission_mode = "default";
  authority_policy = "workspace_write";
  sandbox_profile = "controlled_workspace";
  approval_policy = "on_request";
  cwd = "/w";
  command = "make";
  timeout_sec = pos 0;
  timed_out = false;
  timeout_reason = "";
  interrupted = false;
  interrupt_reason = "";
  elapsed_ms = 0;
  exit_code = none;
  stdout = "";
  stderr = "";
  stdout_truncated = false;
  stderr_truncated = false;
  stdout_original_bytes = 0;
  stderr_original_bytes = 0;
  stdout_omitted_bytes = 0;
  stderr_omitted_bytes = 0;
  output_truncation = "";
  blocked_reason = "approval_required";
  infrastructure_reason = "";
  started_at = 3;
  ended_at = 3;
}

abbrev asked : ApprovalProjection
asked = requested_approval env blocked

-- The operation is blocked, and its approval asked for.
abbrev pending_ledger : Ledger
pending_ledger =
    operation_event (env_at 3 "o") blocked
    ∷ approval_event (env_at 5 "a") EventType.approval_requested asked
    ∷ []

abbrev pending_world : ApprovalWorld
pending_world = record { ledger = pending_ledger; executed = [] }

abbrev decision : String → ApprovalDecisionRequest
decision d = record {
  approval_id = "approval_a";
  decision = d;
  decision_authority = "user:ann";
  decision_reason = "looks right";
  decision_evidence_ref = "turn:t1";
}

decide-Guarded_example :
    Guarded env
      (decision "approved")
      pending_world
      (decide_approval env (decision "approved") pending_world)
decide-Guarded_example = decide-Guarded env (decision "approved") pending_world

decide_reread_example :
    latest_approval
      (trim "approval_a")
      (decide_approval env (decision "denied") pending_world).2.ledger
      none
    ≡ some (decide_approval env (decision "denied") pending_world).0
unfolding requested_approval operation_event approval_event decide_approval
    validate_approval_decision_request first_error required validate_kernel_ref
    validate_kernel_authority validate_kernel_control_token trim approval_by_id latest_approval
    scan_approval named_approval decide_found with_operation raw_operation_by_id latest_operation
    decide_pending is_over is_current same_approval_policy_snapshot approval_policy_snapshot
    resolve_tool_policy apply_tool_policy_overrides policy_of_mode normalized_permission_mode
    with_sandbox with_approval normalized_policy_value approval_override turn_down approve
    append_event new_id and_then terminal_blocked operation_elapsed_ms decide_approval_projection
    approval_effect_summary
decide_reread_example = decide_reread env (decision "denied") pending_world env-IsQuiet refl

-- The approval lets the command run.
approved_runs :
    (decide_approval env (decision "approved") pending_world).2.executed
    ≡ effect_request asked blocked ∷ []
unfolding requested_approval operation_event approval_event decide_approval
    validate_approval_decision_request first_error required validate_kernel_ref
    validate_kernel_authority validate_kernel_control_token trim approval_by_id latest_approval
    scan_approval named_approval decide_found with_operation raw_operation_by_id latest_operation
    decide_pending is_over is_current same_approval_policy_snapshot approval_policy_snapshot
    resolve_tool_policy apply_tool_policy_overrides policy_of_mode normalized_permission_mode
    with_sandbox with_approval normalized_policy_value approval_override turn_down approve
    append_event new_id and_then terminal_blocked operation_elapsed_ms decide_approval_projection
    approval_effect_summary ensure_approved_approval_effect
approved_runs = refl

abbrev approved_world : ApprovalWorld
approved_world = (decide_approval env (decision "approved") pending_world).2

decided_final_example :
    let a = (decide_approval env (decision "approved") pending_world).0 in
    Names (trim "approval_a") a (decide_approval env (decision "denied") approved_world).2.ledger
unfolding requested_approval operation_event approval_event decide_approval
    validate_approval_decision_request first_error required validate_kernel_ref
    validate_kernel_authority validate_kernel_control_token trim approval_by_id latest_approval
    scan_approval named_approval decide_found with_operation raw_operation_by_id latest_operation
    decide_pending is_over is_current same_approval_policy_snapshot approval_policy_snapshot
    resolve_tool_policy apply_tool_policy_overrides policy_of_mode normalized_permission_mode
    with_sandbox with_approval normalized_policy_value approval_override turn_down approve
    append_event new_id and_then terminal_blocked operation_elapsed_ms decide_approval_projection
    approval_effect_summary ensure_approved_approval_effect run_shell normalized_shell_timeout_sec
decided_final_example =
    decided_final env (decision "denied") approved_world (trim "approval_a")
      (decide_approval env (decision "approved") pending_world).0 env-IsQuiet
      (decide_reread env (decision "approved") pending_world env-IsQuiet refl) refl
