-- ===== src/Kernel/Schedule.antt =====
-- toolruntime/scheduling.go: the batches in which the tool calls of one round are executed.
pub mod Partition
pub mod Parallel
pub mod Disjoint
use genesis.Prelude.{
  ℕ, suc, ◌+◌, String, Bool, true, false, not, ◌&&◌, ◌||◌, Option, none, some, List, [], ◌∷◌, ◌++◌,
  ltb, length, str_eq, if◌then◌else◌,
}
use genesis.Prelude.Text.{is_empty, append, trim}

pub record ResourceFootprint : Type 0 where
  pub read_scopes : List String
  pub write_scopes : List String
  pub state_scopes : List String
  pub handles : List String
  pub external_targets : List String

pub record AccessPlan : Type 0 where
  pub tool_name : String
  pub effect_class : String
  pub parallel_policy : String
  pub resource_footprint : ResourceFootprint
  pub trusted : Bool
  pub reason : String

pub record PlannedCall : Type 0 where
  pub name : String
  pub access_plan : AccessPlan

pub record ExecutionBatch : Type 0 where
  pub call_indexes : List ℕ
  pub parallel : Bool
  pub reason : String

-- The classes that ParallelClass returns; none for the empty text.
pub data ParallelClass : Type 0 where
  pure_read : ParallelClass
  process_io : ParallelClass

abbrev pub class_text : ParallelClass → String
class_text ParallelClass.pure_read = "pure_read"
class_text ParallelClass.process_io = "process_io"

abbrev member : String → List String → Bool
member h [] = false
member h (x ∷ xs) = str_eq x h || member h xs

abbrev normalized_from : List String → List String → List String
normalized_from seen [] = []
normalized_from seen (handle ∷ handles) =
    let h = trim handle in
    let skipped = normalized_from seen handles in
    let kept = normalized_from (h ∷ seen) handles in
    if is_empty h || member h seen then skipped else h ∷ kept

-- normalizedHandles
unfoldable pub normalized_handles : List String → List String
normalized_handles handles = normalized_from [] handles

-- hasAnyHandle
unfoldable pub has_any_handle : List String → List String → Bool
has_any_handle existing [] = false
has_any_handle existing (h ∷ hs) = member h existing || has_any_handle existing hs

abbrev is_nil : List String → Bool
is_nil [] = true
is_nil (x ∷ xs) = false

-- AccessPlan.ParallelClass
unfoldable pub parallel_class : AccessPlan → Option ParallelClass
parallel_class p =
    if not p.trusted
    then none
    else if str_eq (trim p.effect_class) "pure_read"
    then (if str_eq (trim p.parallel_policy) "compatible_locks"
        then some ParallelClass.pure_read
        else none)
    else if str_eq (trim p.effect_class) "process_io"
    then (if str_eq (trim p.parallel_policy) "per_handle_serial"
          && not (is_nil (normalized_handles p.resource_footprint.handles))
        then some ParallelClass.process_io
        else none)
    else none

-- AccessPlan.SerialReason
unfoldable pub serial_reason : AccessPlan → String → String
serial_reason p tool_name =
    let effect = trim p.effect_class in
    if not (is_empty (trim p.reason))
    then trim p.reason
    else if not p.trusted
    then "missing_or_untrusted_tool_access_plan"
    else if is_empty effect
    then "missing_tool_effect_class"
    else if str_eq effect "state_read"
    then "state_read_waits_for_prior_committed_facts"
    else if str_eq effect "workspace_write" || str_eq effect "kernel_state_write"
    then "write_effect_serial_fence"
    else if str_eq effect "process_start"
    then "process_start_serial_admission"
    else if str_eq effect "process_io"
    then "process_io_missing_handle_or_policy"
    else if str_eq effect "external_side_effect"
    then "external_side_effect_routes_through_owner"
    else append "unknown_tool_effect_class:" (trim tool_name)

-- The variables of PlanExecutionBatches; `indexes` and `reason` are those of `current`.
pub record Planner : Type 0 where
  pub batches : List ExecutionBatch
  pub indexes : List ℕ
  pub reason : String
  pub kind : Option ParallelClass
  pub current_handles : List String

abbrev pub no_batches : Planner
no_batches = record { batches = []; indexes = []; reason = ""; kind = none; current_handles = [] }

-- The batch that flush appends.
abbrev pub closed_batch : List ℕ → String → ExecutionBatch
closed_batch indexes reason = record {
  call_indexes = indexes;
  parallel = ltb 1 (length indexes) && str_eq reason "pure_read";
  reason = reason;
}

-- flush
unfoldable pub flush : List ℕ → Planner → Planner
flush [] p = p
flush (i ∷ is) p = record {
  batches = p.batches ++ closed_batch (i ∷ is) p.reason ∷ [];
  indexes = [];
  reason = "";
  kind = none;
  current_handles = [];
}

abbrev same_class : ParallelClass → ParallelClass → Bool
same_class ParallelClass.pure_read ParallelClass.pure_read = true
same_class ParallelClass.process_io ParallelClass.process_io = true
same_class _ _ = false

-- The fence between the current batch and a call: another class, or a handle in use.
unfoldable pub needs_fence : Option ParallelClass → List String → ParallelClass → List String → Bool
needs_fence none in_use class handles = false
needs_fence (some kind) in_use ParallelClass.process_io handles =
    not (same_class kind ParallelClass.process_io) || has_any_handle in_use handles
needs_fence (some kind) in_use class handles = not (same_class kind class)

-- The call joins the current batch.
unfoldable pub join_batch : ℕ → ParallelClass → List String → Planner → Planner
join_batch i class handles p = record p {
  indexes = p.indexes ++ i ∷ [];
  reason = class_text class;
  kind = some class;
  current_handles = elim class [
    | ParallelClass.pure_read ↦ p.current_handles
    | ParallelClass.process_io ↦ p.current_handles ++ handles
  ];
}

-- A call alone.
unfoldable pub alone_batch : ℕ → PlannedCall → Planner → Planner
alone_batch i call p = record p {
  batches =
      p.batches
      ++ record {
        call_indexes = i ∷ [];
        parallel = false;
        reason = serial_reason call.access_plan call.name;
      }
        ∷ [];
}

-- One round of the loop, by the call's class.
unfoldable pub plan_call : Option ParallelClass → ℕ → PlannedCall → Planner → Planner
plan_call none i call p = alone_batch i call (flush p.indexes p)
plan_call (some class) i call p =
    let handles = normalized_handles call.access_plan.resource_footprint.handles in
    if needs_fence p.kind p.current_handles class handles
    then join_batch i class handles (flush p.indexes p)
    else join_batch i class handles p

-- The loop from the call with index `i` on.
unfoldable pub plan_from : ℕ → List PlannedCall → Planner → Planner
plan_from i [] p = p
plan_from i (call ∷ calls) p =
    plan_from (suc i) calls (plan_call (parallel_class call.access_plan) i call p)

-- PlanExecutionBatches
unfoldable pub plan_execution_batches : List PlannedCall → List ExecutionBatch
plan_execution_batches calls = let p = plan_from 0 calls no_batches in (flush p.indexes p).batches
