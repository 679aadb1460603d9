-- ===== src/Kernel/Approval/Types.antt =====
-- authority/types.go, and the operations and shell requests of tool_types.go.
use genesis.Prelude.{ℕ, ℤ, pos, negsuc, String, Bool, true, false, Option, ltb, ◌==◌}

pub data ApprovalStatus : Type 0 where
  pending : ApprovalStatus
  approved : ApprovalStatus
  denied : ApprovalStatus
  expired : ApprovalStatus
  other : String → ApprovalStatus

abbrev pub approval_status_text : ApprovalStatus → String
approval_status_text ApprovalStatus.pending = "pending"
approval_status_text ApprovalStatus.approved = "approved"
approval_status_text ApprovalStatus.denied = "denied"
approval_status_text ApprovalStatus.expired = "expired"
approval_status_text (ApprovalStatus.other t) = t

-- DefaultApprovalTTL, 15 min in nanoseconds
abbrev pub default_approval_ttl : ℕ
default_approval_ttl = 900000000000

pub record ApprovalDecisionRequest : Type 0 where
  pub approval_id : String
  pub decision : String
  pub decision_authority : String
  pub decision_reason : String
  pub decision_evidence_ref : String

pub record ApprovalPolicySnapshot : Type 0 where
  pub permission_mode : String
  pub authority_policy : String
  pub sandbox_profile : String
  pub approval_policy : String
  pub workspace_root : String
  pub executor_adapter : String

pub record ApprovalEffectSummary : Type 0 where
  pub tool : String
  pub execution_kind : String
  pub side_effect : String
  pub cwd : String
  pub command_preview : String
  pub timeout_sec : ℤ

pub record ApprovalProjection : Type 0 where
  pub approval_id : String
  pub session_id : String
  pub turn_id : String
  pub tool_call_event_id : String
  pub operation_id : String
  pub status : ApprovalStatus
  pub tool : String
  pub policy_snapshot : ApprovalPolicySnapshot
  pub effect : ApprovalEffectSummary
  pub requested_at : ℕ
  pub expires_at : ℕ
  pub decided_at : ℕ
  pub decision_authority : String
  pub decision_reason : String
  pub decision_evidence_ref : String
  pub blocked_reason : String

pub record OperationProjection : Type 0 where
  pub operation_id : String
  pub session_id : String
  pub turn_id : String
  pub tool : String
  pub idempotency_key : String
  pub status : String
  pub permission_mode : String
  pub authority_policy : String
  pub sandbox_profile : String
  pub approval_policy : String
  pub cwd : String
  pub command : String
  pub timeout_sec : ℤ
  pub timed_out : Bool
  pub timeout_reason : String
  pub interrupted : Bool
  pub interrupt_reason : String
  pub elapsed_ms : ℕ
  pub exit_code : Option ℤ
  pub stdout : String
  pub stderr : String
  pub stdout_truncated : Bool
  pub stderr_truncated : Bool
  pub stdout_original_bytes : ℕ
  pub stderr_original_bytes : ℕ
  pub stdout_omitted_bytes : ℕ
  pub stderr_omitted_bytes : ℕ
  pub output_truncation : String
  pub blocked_reason : String
  pub infrastructure_reason : String
  pub started_at : ℕ
  pub ended_at : ℕ

pub record ShellExecRequest : Type 0 where
  pub session_id : String
  pub cwd : String
  pub command : String
  pub timeout_sec : ℤ
  pub idempotency_key : String
  pub approved_by_id : String

-- ApprovalPolicySnapshot{} and ApprovalEffectSummary{}
abbrev pub zero_snapshot : ApprovalPolicySnapshot
zero_snapshot = record {
  permission_mode = "";
  authority_policy = "";
  sandbox_profile = "";
  approval_policy = "";
  workspace_root = "";
  executor_adapter = "";
}

abbrev pub zero_effect : ApprovalEffectSummary
zero_effect = record {
  tool = "";
  execution_kind = "";
  side_effect = "";
  cwd = "";
  command_preview = "";
  timeout_sec = pos 0;
}

-- ApprovalProjection{}
abbrev pub zero_approval : ApprovalProjection
zero_approval = record {
  approval_id = "";
  session_id = "";
  turn_id = "";
  tool_call_event_id = "";
  operation_id = "";
  status = ApprovalStatus.other "";
  tool = "";
  policy_snapshot = zero_snapshot;
  effect = zero_effect;
  requested_at = 0;
  expires_at = 0;
  decided_at = 0;
  decision_authority = "";
  decision_reason = "";
  decision_evidence_ref = "";
  blocked_reason = "";
}

-- a > b on ints
abbrev pub greater : ℤ → ℤ → Bool
greater (pos a) (pos b) = ltb b a
greater (pos a) (negsuc b) = true
greater (negsuc a) (pos b) = false
greater (negsuc a) (negsuc b) = ltb a b

-- a == b on ints
abbrev pub same_int : ℤ → ℤ → Bool
same_int (pos a) (pos b) = a == b
same_int (negsuc a) (negsuc b) = a == b
same_int _ _ = false
