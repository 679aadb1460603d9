-- ===== src/Kernel/LoopGuard.antt =====
-- tool_loop_guard.go: a turn's guard against the repetition of tool calls. Its callers pass one
-- that newToolLoopGuard made, so that the tests for nil are left out.
pub mod Types
pub mod Streak
pub mod Failures
use genesis.Prelude.{
  ℤ, ℕ, ◌+◌, String, Bool, true, false, not, ◌&&◌, ◌||◌, Option, none, some, List, [], ◌∷◌, ltb,
  str_eq, if◌then◌else◌,
}
use genesis.Prelude.Text.{is_empty, append, trim, sprint}
use genesis.Prelude.Dict.{Dict, get, put}
use genesis.Prelude.Results.{Result, err, ok, and_then}
use genesis.Kernel.LoopGuard.Types.{
  ToolLoopGuard, ToolLoopGuardProjection, ToolLoopGuardedToolResult, ModelToolResult,
  PreparedModelToolCall, Json,
}

abbrev pub failure_threshold : ℕ
failure_threshold = 3

abbrev pub success_threshold : ℕ
success_threshold = 2

-- A missing key of a map of ints reads as 0.
unfoldable pub count_of : Dict ℕ → String → ℕ
count_of d k = elim (get d k) [ none ↦ 0 | some n ↦ n ]

-- toolLoopStatusSucceeded
unfoldable pub status_succeeded : String → Bool
status_succeeded status =
    str_eq (trim status) "completed" || str_eq (trim status) "managed_job_started"

-- toolLoopStatusBlocked
unfoldable pub status_blocked : String → Bool
status_blocked status =
    str_eq (trim status) "permission_denied"
    || str_eq (trim status) "approval_required"
    || str_eq (trim status) "sandbox_profile_unavailable"
    || str_eq (trim status) "approval_policy_invalid"

-- toolLoopSuccessCountsOnlyTrackSignature
unfoldable pub only_tracks : Dict ℕ → String → Bool
only_tracks [] signature = true
only_tracks ((tracked, n) ∷ counts) signature =
    str_eq tracked signature && only_tracks counts signature

-- The counts that observeSuccess leaves after a success with this signature.
unfoldable pub counted_success : String → Dict ℕ → Dict ℕ
counted_success signature counts =
    if is_empty signature
    then []
    else (let kept = if only_tracks counts signature then counts else [] in
        put kept signature (count_of kept signature + 1))

abbrev itoa : ℤ → String
itoa (ℤ.pos n) = sprint n
itoa (ℤ.negsuc n) = append "-" (sprint (n + 1))

abbrev text_or_empty : Option String → String
text_or_empty none = ""
text_or_empty (some s) = s

abbrev first_text : String → String → String
first_text s t = if is_empty s then t else s

module _ {V : Type 0} (j : Json V) where
  abbrev string_value : Option V → String
  string_value none = ""
  string_value (some v) = text_or_empty (j.as_string v)

  -- stringMapValue
  unfoldable pub string_map_value : Dict V → String → String
  string_map_value payload key = trim (string_value (get payload key))

  abbrev exit_code : Option V → String
  exit_code none = ""
  exit_code (some v) = elim (j.as_int v) [ none ↦ "" | some n ↦ append "exit_code:" (itoa n) ]

  abbrev error_code : Option V → String
  error_code none = ""
  error_code (some v) = elim (j.as_object v) [
    | none ↦ ""
    | some fields ↦ string_map_value fields "code"
  ]

  abbrev failure_code : Dict V → String
  failure_code payload = first_text (error_code (get payload "error")) (
      first_text (string_map_value payload "timeout_reason")
        (first_text (exit_code (get payload "exit_code")) "unclassified_failure"))

  abbrev signature_in : String → Dict V → Option String
  signature_in name payload =
      let status = string_map_value payload "status" in
      if is_empty status || status_succeeded status || status_blocked status
      then none
      else some
          (append (trim name) (append "\0" (append status (append "\0" (failure_code payload)))))

  -- toolLoopFailureSignature
  abbrev pub failure_signature_of : ModelToolResult → Option String
  failure_signature_of result = elim (j.unmarshal result.content) [
    | none ↦ none
    | some payload ↦ signature_in result.name payload
  ]

  -- toolLoopResultSucceeded
  abbrev pub result_succeeded : ModelToolResult → Bool
  result_succeeded result = elim (j.unmarshal result.content) [
    | none ↦ false
    | some payload ↦ status_succeeded (string_map_value payload "status")
  ]

  abbrev pub failure_projection : ℕ → ToolLoopGuardProjection
  failure_projection repeat_count = record {
    code = "repeated_tool_failure";
    message =
        "this tool call or batch has failed repeatedly with the same error in this turn; change approach, reduce arguments, use a different tool, or produce a final answer explaining the blocker";
    repeat_count = repeat_count;
    signature_kind = "tool_failure";
  }

  -- resultWithFailureLoopGuard
  unfoldable pub result_with_failure_loop_guard : ModelToolResult → ℕ → Result ModelToolResult
  result_with_failure_loop_guard result repeat_count = elim (j.unmarshal result.content) [
    | none ↦ ok result
    | some payload ↦
        and_then
          (j.marshal (put payload "loop_guard" (j.of_projection (failure_projection repeat_count))))
          (λ content. ok (record result { content = content }))
  ]

  -- The body of observeFailure, on the signature of the result.
  unfoldable pub observe_signature :
      Option String → ModelToolResult → ToolLoopGuard → Result ModelToolResult × ToolLoopGuard
  observe_signature none result g =
      (ok result, record g { failure_signature = ""; failure_count = 0 })
  observe_signature (some signature) result g =
      if not (str_eq signature g.failure_signature)
      then (ok result, record g { failure_signature = signature; failure_count = 1 })
      else (
        (if ltb (g.failure_count + 1) failure_threshold
            then ok result
            else result_with_failure_loop_guard result (g.failure_count + 1)),
        record g { failure_count = g.failure_count + 1 },
      )

  -- observeFailure
  abbrev pub observe_failure :
      ModelToolResult → ToolLoopGuard → Result ModelToolResult × ToolLoopGuard
  observe_failure result g = observe_signature (failure_signature_of result) result g

  -- observeSuccess
  unfoldable pub observe_success :
      PreparedModelToolCall → ModelToolResult → ToolLoopGuard → ToolLoopGuard
  observe_success call result g = if not (result_succeeded result) then g else record g {
    repeated_success_count =
        counted_success (trim call.repeat_success_signature) g.repeated_success_count;
  }

  abbrev pub after_failure :
      PreparedModelToolCall
      → Result ModelToolResult × ToolLoopGuard
      → Result ModelToolResult × ToolLoopGuard
  after_failure call (err e, g) = (err e, g)
  after_failure call (ok result, g) = (ok result, observe_success call result g)

  -- afterExecute
  unfoldable pub after_execute :
      PreparedModelToolCall
      → ModelToolResult
      → ToolLoopGuard
      → Result ModelToolResult × ToolLoopGuard
  after_execute call result g = after_failure call (observe_failure result g)

  abbrev pub guarded : PreparedModelToolCall → ℕ → ToolLoopGuardedToolResult
  guarded call count = record {
    status = "tool_loop_guarded";
    tool = trim call.name;
    executed = false;
    error = record {
      code = "repeated_write_success";
      message = "tool loop guard blocked a repeated successful write-like effect before execution";
    };
    loop_guard = record {
      code = "repeated_write_success";
      message =
          "this write-like tool call already succeeded with the same effect signature in this turn; change approach, verify, or produce a final answer";
      repeat_count = count;
      signature_kind = "write_like_success";
    };
  }

  -- beforeExecute: a result in place of the execution, or none.
  unfoldable pub before_execute :
      PreparedModelToolCall → ToolLoopGuard → Result (Option ModelToolResult)
  before_execute call g =
      let signature = trim call.repeat_success_signature in
      let count = count_of g.repeated_success_count signature in
      if is_empty signature || ltb count success_threshold
      then ok none
      else and_then (j.marshal_guarded (guarded call count)) (λ content. ok (
          some (record {
            tool_call_id = trim call.provider_call_id;
            tool_call_event_id = trim call.event_id;
            name = trim call.name;
            content = content;
          })))
