-- ===== src/Kernel/Authority.antt =====
-- authority_gate.go and normalizedPermissionMode (shell.go): what a tool is allowed to do.
pub mod Writes
use genesis.Prelude.{
  String, Bool, true, false, not, ◌&&◌, ◌||◌, Option, none, some, str_eq, if◌then◌else◌,
}
use genesis.Prelude.Text.{is_empty, trim}

-- ToolPolicy
pub record ToolPolicy : Type 0 where
  pub permission_mode : String
  pub workspace_root : String
  pub sandbox_profile : String
  pub approval_policy : String

pub data AuthorityPolicy : Type 0 where
  read_only : AuthorityPolicy
  workspace_write : AuthorityPolicy
  full_access : AuthorityPolicy
  unknown : AuthorityPolicy

pub data SandboxProfile : Type 0 where
  read_only : SandboxProfile
  controlled_workspace : SandboxProfile
  os_workspace : SandboxProfile
  host : SandboxProfile
  nothing : SandboxProfile

pub record ResolvedToolPolicy : Type 0 where
  pub permission_mode : String
  pub authority_policy : AuthorityPolicy
  pub sandbox_profile : SandboxProfile
  pub approval_policy : String
  pub workspace_root : String
  pub known : Bool
  pub invalid_reason : String

pub record ToolAuthorizationDecision : Type 0 where
  pub allowed : Bool
  pub reason : String

abbrev pub allow : ToolAuthorizationDecision
allow = record { allowed = true; reason = "" }

abbrev pub block : String → ToolAuthorizationDecision
block reason = record { allowed = false; reason = reason }

-- sandboxProfileAllowedForAuthority
unfoldable pub sandbox_profile_allowed_for_authority : AuthorityPolicy → SandboxProfile → Bool
sandbox_profile_allowed_for_authority AuthorityPolicy.read_only SandboxProfile.read_only = true
sandbox_profile_allowed_for_authority AuthorityPolicy.workspace_write
      SandboxProfile.controlled_workspace =
    true
sandbox_profile_allowed_for_authority AuthorityPolicy.workspace_write SandboxProfile.os_workspace =
    true
sandbox_profile_allowed_for_authority AuthorityPolicy.full_access
      SandboxProfile.controlled_workspace =
    true
sandbox_profile_allowed_for_authority AuthorityPolicy.full_access SandboxProfile.os_workspace = true
sandbox_profile_allowed_for_authority AuthorityPolicy.full_access SandboxProfile.host = true
sandbox_profile_allowed_for_authority _ _ = false

-- The profiles that a policy can name.
unfoldable pub parse_sandbox_profile : String → Option SandboxProfile
parse_sandbox_profile s =
    if str_eq s "read_only"
    then some SandboxProfile.read_only
    else if str_eq s "controlled_workspace"
    then some SandboxProfile.controlled_workspace
    else if str_eq s "os_workspace"
    then some SandboxProfile.os_workspace
    else if str_eq s "host"
    then some SandboxProfile.host
    else none

-- applySandboxProfileOverride on a profile that the text names, if any.
unfoldable pub sandbox_override : Option SandboxProfile → ResolvedToolPolicy → ResolvedToolPolicy
sandbox_override none r = record r {
  sandbox_profile = SandboxProfile.nothing;
  invalid_reason = "unknown_sandbox_profile";
}
sandbox_override (some profile) r =
    if not (sandbox_profile_allowed_for_authority r.authority_policy profile)
    then record r {
      sandbox_profile = profile;
      invalid_reason = "sandbox_profile_not_allowed_for_permission_mode";
    }
    else record r {
      sandbox_profile = profile;
      invalid_reason = elim profile [
        | SandboxProfile.os_workspace ↦ "sandbox_profile_unavailable=os_workspace"
        | _ ↦ r.invalid_reason
      ];
    }

-- applyApprovalPolicyOverride
unfoldable pub approval_override : String → ResolvedToolPolicy → ResolvedToolPolicy
approval_override approval_policy r =
    if str_eq approval_policy "never" || str_eq approval_policy "on_request"
    then record r { approval_policy = approval_policy }
    else record r { approval_policy = approval_policy; invalid_reason = "unknown_approval_policy" }

-- What a permission mode gives before the overrides.
unfoldable pub policy_of_mode : String → ToolPolicy → ResolvedToolPolicy
policy_of_mode mode policy =
    let base : AuthorityPolicy → SandboxProfile → Bool → ResolvedToolPolicy =
      λ authority sandbox known. record {
        permission_mode = trim mode;
        authority_policy = authority;
        sandbox_profile = sandbox;
        approval_policy = "never";
        workspace_root = trim policy.workspace_root;
        known = known;
        invalid_reason = "";
      } in
    if str_eq mode "plan"
    then base AuthorityPolicy.read_only SandboxProfile.read_only true
    else if str_eq mode "default"
    then base AuthorityPolicy.workspace_write SandboxProfile.controlled_workspace true
    else if str_eq mode "yolo"
    then base AuthorityPolicy.full_access SandboxProfile.host true
    else base AuthorityPolicy.unknown SandboxProfile.nothing false

-- Go's strings.ToLower is a parameter.
module _ (lower : String → String) where
  -- normalizedPermissionMode
  unfoldable pub normalized_permission_mode : String → String
  normalized_permission_mode mode =
      if is_empty (lower (trim mode)) then "plan" else lower (trim mode)

  -- normalizedPolicyValue
  unfoldable pub normalized_policy_value : String → String
  normalized_policy_value value = lower (trim value)

  unfoldable pub with_sandbox : ToolPolicy → ResolvedToolPolicy → ResolvedToolPolicy
  with_sandbox policy r =
      let value = normalized_policy_value policy.sandbox_profile in
      if is_empty value then r else sandbox_override (parse_sandbox_profile value) r

  unfoldable pub with_approval : ToolPolicy → ResolvedToolPolicy → ResolvedToolPolicy
  with_approval policy r =
      let value = normalized_policy_value policy.approval_policy in
      if is_empty value then r else approval_override value r

  -- applyToolPolicyOverrides
  unfoldable pub apply_tool_policy_overrides : ToolPolicy → ResolvedToolPolicy → ResolvedToolPolicy
  apply_tool_policy_overrides policy r =
      if not r.known then r else with_approval policy (with_sandbox policy r)

  -- resolveToolPolicy
  unfoldable pub resolve_tool_policy : ToolPolicy → ResolvedToolPolicy
  resolve_tool_policy policy =
      apply_tool_policy_overrides policy
        (policy_of_mode (normalized_permission_mode policy.permission_mode) policy)

-- The decision on a write, by the authority.
unfoldable pub authorize_write : AuthorityPolicy → String → ToolAuthorizationDecision
authorize_write AuthorityPolicy.read_only approval_policy = block "blocked_by_permission_mode=plan"
authorize_write AuthorityPolicy.unknown approval_policy = block "unknown_permission_mode"
authorize_write _ approval_policy =
    if str_eq approval_policy "on_request" then block "approval_required" else allow

-- authorizeKernelTool on a resolved policy and the tool's side-effect level.
unfoldable pub authorize_resolved : ResolvedToolPolicy → String → ToolAuthorizationDecision
authorize_resolved r side_effect_level =
    if not r.known
    then block "unknown_permission_mode"
    else if not (is_empty r.invalid_reason)
    then block r.invalid_reason
    else if str_eq side_effect_level "read"
    then allow
    else if str_eq side_effect_level "write"
    then authorize_write r.authority_policy r.approval_policy
    else block "unknown_tool_kind"

-- authorizeKernelTool
unfoldable pub authorize_kernel_tool :
    (String → String) → ToolPolicy → String → ToolAuthorizationDecision
authorize_kernel_tool lower policy = authorize_resolved (resolve_tool_policy lower policy)
