-- ===== src/Kernel/Approval/Request.antt =====
-- What decisions rest on: policy snapshots, validation and events; and the request of an approval,
-- which the approval lock makes one step.
use genesis.Prelude.{
  ℤ, ℕ, ◌+◌, ◌-◌, ◌/◌, String, Bool, true, false, not, ◌&&◌, ◌||◌, Option, none, some, List, [],
  ◌∷◌, str_eq, ltb, ◌==◌, if◌then◌else◌,
}
use genesis.Prelude.Text.{append, trim}
use genesis.Prelude.Results.{Result, err, ok}
use genesis.Kernel.Types.{EventType, StoredEvent, no_data}
use genesis.Kernel.Ledger.{new_id, KernelEnv, Ledger, append_event}
use genesis.Kernel.Refs.{
  validate_kernel_ref, validate_kernel_authority, validate_kernel_control_token, required,
  first_error,
}
use genesis.Kernel.Authority.{
  ToolPolicy, ResolvedToolPolicy, AuthorityPolicy, SandboxProfile, resolve_tool_policy,
}
use genesis.Kernel.Approval.Types.{
  ApprovalStatus, ApprovalDecisionRequest, ApprovalPolicySnapshot, ApprovalEffectSummary,
  ApprovalProjection, OperationProjection, ShellExecRequest, approval_status_text,
  default_approval_ttl, zero_approval,
}
use genesis.Kernel.Approval.Replay.{approval_by_operation_id}

-- An error, if any, and the ledger after a run of the shell.
abbrev pub ShellRun : Type 0
ShellRun = ShellExecRequest → String → Ledger → Option String × Ledger

pub record ApprovalEnv : Type 0 where
  pub kernel : KernelEnv
  pub second : KernelEnv  -- what the ledger answers to a second event of one decision
  pub lower : String → String
  pub tool_policy : ToolPolicy
  pub is_secret : String → Bool  -- containsCredentialShapedText
  pub default_foreground_timeout_sec : ℤ
  pub managed_job_threshold_sec : ℤ
  pub invoke_shell : ShellRun
  pub exec_shell : ShellRun

-- The ledger, and the shell requests that were run for approvals so far.
pub record ApprovalWorld : Type 0 where
  pub ledger : Ledger
  pub executed : List ShellExecRequest

abbrev pub Decided : Type 0
Decided = ApprovalProjection × Option String × ApprovalWorld

abbrev authority_policy_text : AuthorityPolicy → String
authority_policy_text AuthorityPolicy.read_only = "read_only"
authority_policy_text AuthorityPolicy.workspace_write = "workspace_write"
authority_policy_text AuthorityPolicy.full_access = "full_access"
authority_policy_text AuthorityPolicy.unknown = "unknown"

abbrev sandbox_profile_text : SandboxProfile → String
sandbox_profile_text SandboxProfile.read_only = "read_only"
sandbox_profile_text SandboxProfile.controlled_workspace = "controlled_workspace"
sandbox_profile_text SandboxProfile.os_workspace = "os_workspace"
sandbox_profile_text SandboxProfile.host = "host"
sandbox_profile_text SandboxProfile.nothing = "none"

-- approvalPolicySnapshot
unfoldable pub approval_policy_snapshot : ResolvedToolPolicy → ApprovalPolicySnapshot
approval_policy_snapshot policy = record {
  permission_mode = trim policy.permission_mode;
  authority_policy = authority_policy_text policy.authority_policy;
  sandbox_profile = sandbox_profile_text policy.sandbox_profile;
  approval_policy = trim policy.approval_policy;
  workspace_root = trim policy.workspace_root;
  executor_adapter = "local_shell";
}

-- sameApprovalPolicySnapshot
unfoldable pub same_approval_policy_snapshot :
    ApprovalPolicySnapshot → ApprovalPolicySnapshot → Bool
same_approval_policy_snapshot left right =
    str_eq left.permission_mode right.permission_mode
    && str_eq left.authority_policy right.authority_policy
    && str_eq left.sandbox_profile right.sandbox_profile
    && str_eq left.approval_policy right.approval_policy
    && str_eq left.workspace_root right.workspace_root
    && str_eq left.executor_adapter right.executor_adapter

-- approvalEffectSummaryFromOperation
unfoldable pub approval_effect_summary : OperationProjection → ApprovalEffectSummary
approval_effect_summary operation = record {
  tool = operation.tool;
  execution_kind = "sandboxed_process";
  side_effect = "write";
  cwd = operation.cwd;
  command_preview = operation.command;
  timeout_sec = operation.timeout_sec;
}

-- validateApprovalDecisionRequest
unfoldable pub validate_approval_decision_request :
    ApprovalEnv → ApprovalDecisionRequest → Option String
validate_approval_decision_request env req = first_error (
    validate_kernel_control_token "approval_id" (trim req.approval_id)
    ∷ required "approval_id" req.approval_id
    ∷ (if str_eq (trim req.decision) "approved" || str_eq (trim req.decision) "denied"
        then none
        else some "decision must be approved or denied")
    ∷ validate_kernel_authority "decision_authority" req.decision_authority
    ∷ required "decision_reason" req.decision_reason
    ∷ (if env.is_secret req.decision_reason
        then some "decision_reason must not contain secret-shaped content"
        else none)
    ∷ validate_kernel_ref "decision_evidence_ref" req.decision_evidence_ref
    ∷ [])

-- decideApprovalProjection
unfoldable pub decide_approval_projection :
    ApprovalProjection → ApprovalDecisionRequest → ApprovalStatus → String → ℕ → ApprovalProjection
decide_approval_projection approval req status blocked_reason now = record approval {
  status = status;
  decided_at = now;
  decision_authority = trim req.decision_authority;
  decision_reason = trim req.decision_reason;
  decision_evidence_ref = trim req.decision_evidence_ref;
  blocked_reason = trim blocked_reason;
}

abbrev pub is_pending : ApprovalStatus → Bool
is_pending ApprovalStatus.pending = true
is_pending _ = false

abbrev pub is_approved : ApprovalStatus → Bool
is_approved ApprovalStatus.approved = true
is_approved _ = false

-- createdAt of appendApprovalEvent
abbrev approval_created_at : ApprovalProjection → ℕ
approval_created_at approval =
    if not (str_eq (trim (approval_status_text approval.status)) "pending")
      && not (approval.decided_at == 0)
    then approval.decided_at
    else approval.requested_at

-- The event that appendApprovalEvent appends.
unfoldable pub approval_event : KernelEnv → EventType → ApprovalProjection → StoredEvent
approval_event k type approval =
    let created_at = approval_created_at approval in
    record {
      event_id = new_id k "evt" created_at;
      session_id = approval.session_id;
      turn_id = approval.turn_id;
      operation_id = approval.operation_id;
      work_id = "";
      candidate_id = "";
      approval_id = approval.approval_id;
      type = type;
      created_at = created_at;
      event_data = record no_data { approval = some approval };
    }

-- operationElapsedMs
unfoldable pub operation_elapsed_ms : ℕ → ℕ → ℕ
operation_elapsed_ms started_at ended_at =
    let elapsed = (ended_at - started_at) / 1000000 in
    if (started_at == 0) || (ended_at == 0) || ltb ended_at started_at
    then 0
    else if elapsed == 0
    then 1
    else elapsed

-- The event that appendOperationEvent appends.
unfoldable pub operation_event : KernelEnv → OperationProjection → StoredEvent
operation_event k operation =
    let created_at = if operation.ended_at == 0 then operation.started_at else operation.ended_at in
    record {
      event_id = new_id k "evt" created_at;
      session_id = operation.session_id;
      turn_id = operation.turn_id;
      operation_id = operation.operation_id;
      work_id = "";
      candidate_id = "";
      approval_id = "";
      type = EventType.other (append "operation." operation.status);
      created_at = created_at;
      event_data = record no_data { operation = some operation };
    }

-- The operation that appendApprovalTerminalBlockedOperation appends.
unfoldable pub terminal_blocked : OperationProjection → String → ℕ → OperationProjection
terminal_blocked operation reason now = record operation {
  status = "blocked";
  blocked_reason = trim reason;
  ended_at = now;
  elapsed_ms = operation_elapsed_ms operation.started_at now;
}

-- The approval that requestApprovalForBlockedShellOperation appends.
unfoldable pub requested_approval : ApprovalEnv → OperationProjection → ApprovalProjection
requested_approval env operation = record zero_approval {
  approval_id = new_id env.kernel "approval" env.kernel.clock;
  session_id = operation.session_id;
  turn_id = operation.turn_id;
  operation_id = operation.operation_id;
  status = ApprovalStatus.pending;
  tool = operation.tool;
  policy_snapshot = approval_policy_snapshot (resolve_tool_policy env.lower env.tool_policy);
  effect = approval_effect_summary operation;
  requested_at = env.kernel.clock;
  expires_at = env.kernel.clock + default_approval_ttl;
}

abbrev is_pending_approval : Option ApprovalProjection → Bool
is_pending_approval none = false
is_pending_approval (some approval) = is_pending approval.status

-- requestApprovalForBlockedShellOperation
unfoldable pub request_approval :
    ApprovalEnv → OperationProjection → Ledger → Result (Unit {0}) × Ledger
request_approval env operation ledger =
    if not (str_eq (trim operation.blocked_reason) "approval_required")
    then (ok tt, ledger)
    else elim (approval_by_operation_id env.kernel operation.session_id operation.operation_id
        ledger) [
          | err e ↦ (err e, ledger)
          | ok existing ↦
              if is_pending_approval existing
              then (ok tt, ledger)
              else append_event env.kernel
                  (approval_event env.kernel EventType.approval_requested
                    (requested_approval env operation))
                  tt ledger
        ]
