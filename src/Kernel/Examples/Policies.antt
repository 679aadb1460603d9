-- ===== src/Kernel/Examples/Policies.antt =====
-- A tool policy and a schedule.
use genesis.Prelude.{true, ◌≡◌, refl, [], ◌∷◌}
use genesis.Prelude.Text.{trim}
use genesis.Kernel.Authority.{
  ToolPolicy, authorize_kernel_tool, authorize_resolved, authorize_write, resolve_tool_policy,
  apply_tool_policy_overrides, with_sandbox, with_approval, sandbox_override, parse_sandbox_profile,
  sandbox_profile_allowed_for_authority, policy_of_mode, normalized_permission_mode,
  normalized_policy_value,
}
use genesis.Kernel.Authority.Writes.{MayWrite, write-MayWrite}
use genesis.Kernel.Schedule.{PlannedCall, plan_execution_batches}
use genesis.Kernel.Schedule.Partition.{all_indexes, plan-partition}
use genesis.Kernel.Schedule.Disjoint.{IsApart, plan-IsApart}
use genesis.Kernel.Schedule.Parallel.{ReadsOnly, plan-ReadsOnly}
use genesis.Prelude.{All}

abbrev policy : ToolPolicy
policy = record {
  permission_mode = " default";
  workspace_root = "/w";
  sandbox_profile = "controlled_workspace";
  approval_policy = "";
}

write-MayWrite_example : MayWrite (resolve_tool_policy (λ s. s) policy)
unfolding authorize_kernel_tool authorize_resolved authorize_write resolve_tool_policy
    apply_tool_policy_overrides with_sandbox with_approval sandbox_override parse_sandbox_profile
    sandbox_profile_allowed_for_authority policy_of_mode normalized_permission_mode
    normalized_policy_value trim
write-MayWrite_example = write-MayWrite (λ s. s) policy refl

abbrev read_call : PlannedCall
read_call = record {
  name = "resource_read";
  access_plan = record {
    tool_name = "resource_read";
    effect_class = "pure_read";
    parallel_policy = "compatible_locks";
    resource_footprint = record {
      read_scopes = "resource:a" ∷ [];
      write_scopes = [];
      state_scopes = [];
      handles = [];
      external_targets = [];
    };
    trusted = true;
    reason = "";
  };
}

plan-partition_example :
    all_indexes (plan_execution_batches (read_call ∷ read_call ∷ [])) ≡ 0 ∷ 1 ∷ []
plan-partition_example = plan-partition (read_call ∷ read_call ∷ [])

plan-ReadsOnly_example :
    All
      (ReadsOnly (read_call ∷ read_call ∷ []))
      (plan_execution_batches (read_call ∷ read_call ∷ []))
plan-ReadsOnly_example = plan-ReadsOnly (read_call ∷ read_call ∷ [])

abbrev input_call : PlannedCall
input_call = record read_call {
  name = "job_input";
  access_plan = record {
    tool_name = "job_input";
    effect_class = "process_io";
    parallel_policy = "per_handle_serial";
    resource_footprint = record {
      read_scopes = [];
      write_scopes = [];
      state_scopes = [];
      handles = "job:1" ∷ [];
      external_targets = [];
    };
    trusted = true;
    reason = "";
  };
}

plan-IsApart_example :
    All
      (IsApart (input_call ∷ input_call ∷ []))
      (plan_execution_batches (input_call ∷ input_call ∷ []))
plan-IsApart_example = plan-IsApart (input_call ∷ input_call ∷ [])
