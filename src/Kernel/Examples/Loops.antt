-- ===== src/Kernel/Examples/Loops.antt =====
-- A turn that repeats a successful command, and one that repeats a failing one.
use genesis.Prelude.{
  ◌<◌, ◌≤◌, ◌⊎◌, String, ◌≡◌, refl, sym, ◌↔◌, true, ◌||◌, Option, none, some, [], ◌∷◌, ltb, ◌+◌,
  arith, inl, inr, Option-cases,
}
use genesis.Prelude.Text.{is_empty, trim}
use genesis.Prelude.Dict.{Dict, get, put}
use genesis.Prelude.Results.{ok, and_then}
use genesis.Kernel.LoopGuard.Types.{ModelToolResult, PreparedModelToolCall, Json}
use genesis.Kernel.LoopGuard.{
  before_execute, after_execute, result_with_failure_loop_guard, failure_signature_of,
  string_map_value, status_succeeded, status_blocked, observe_signature, observe_success,
}
use genesis.Kernel.LoopGuard.Streak.{History, guard_after, streak, before_execute_iff}
use genesis.Kernel.LoopGuard.Failures.{same_failures, Annotated, after_execute_notes}

-- Of a payload, the text is its status.
abbrev status_text : Option String → String
status_text none = ""
status_text (some s) = s

abbrev status_json : Json String
status_json = record {
  unmarshal = λ text. some (("status", text) ∷ []);
  marshal = λ payload. ok (status_text (get payload "status"));
  marshal_guarded = λ r. ok r.status;
  of_projection = λ p. p.code;
  as_string = λ v. some v;
  as_int = λ v. none;
  as_object = λ v. none;
}

status_text_kept :
    (payload : Dict String)
    → string_map_value status_json (("status", status_text (get payload "status")) ∷ []) "status"
      ≡ string_map_value status_json payload "status"
unfolding string_map_value get
status_text_kept payload = elim (Option-cases (get payload "status")) [
  | inl e ↦ rw (e, string_map_value) refl
  | inr (text, e) ↦ rw (e, string_map_value) refl
]

kept_of :
    (payload : Dict String) (content : String)
    → status_json.marshal payload ≡ ok content
    → string_map_value status_json (("status", content) ∷ []) "status"
      ≡ string_map_value status_json payload "status"
kept_of payload content h =
    let e : status_text (get payload "status") ≡ content = ground (arith, h) in
    rw (sym e) (status_text_kept payload)

abbrev call_of : String → PreparedModelToolCall
call_of signature = record {
  event_id = "event";
  provider_call_id = "call";
  name = "shell_exec";
  repeat_success_signature = signature;
}

abbrev result_of : String → ModelToolResult
result_of status = record {
  tool_call_id = "call";
  tool_call_event_id = "event";
  name = "shell_exec";
  content = status;
}

abbrev two_writes : History
two_writes =
    (call_of "write a", result_of "completed")
    ∷ (call_of "", result_of "failed")
    ∷ (call_of "write a", result_of "completed")
    ∷ []

abbrev two_failures : History
two_failures = (call_of "", result_of "failed") ∷ (call_of "", result_of "failed") ∷ []

repeated_twice : (streak status_json "write a" two_writes) ≡ 2
unfolding streak string_map_value status_succeeded get trim
repeated_twice = refl

failed_signature :
    failure_signature_of status_json (result_of "failed")
    ≡ some "shell_exec\0failed\0unclassified_failure"
unfolding string_map_value status_succeeded status_blocked get trim
failed_signature = refl

noted_failure :
    (after_execute status_json
      (call_of "")
      (result_of "failed")
      (guard_after status_json two_failures)).0
    ≡ ok (result_of "failed")
unfolding after_execute guard_after string_map_value status_succeeded status_blocked get put trim
    observe_signature observe_success result_with_failure_loop_guard and_then
noted_failure = refl

before_execute_iff_example :
    before_execute status_json (call_of "write a") (guard_after status_json two_writes) ≡ ok none
    ↔ ((is_empty (trim "write a") || ltb (streak status_json (trim "write a") two_writes) 2) ≡ true)
before_execute_iff_example =
    before_execute_iff status_json
      (λ payload content h. ((("status", content) ∷ []), refl, kept_of payload content h))
      two_writes (call_of "write a")

after_execute_notes_example :
    let n = same_failures status_json "shell_exec\0failed\0unclassified_failure" two_failures in
    let answer =
      (after_execute status_json
        (call_of "")
        (result_of "failed")
        (guard_after status_json two_failures)).0 in
    (n < 2) × (answer ≡ ok (result_of "failed"))
    ⊎ (2 ≤ n) × Annotated status_json (result_of "failed") (n + 1) answer
after_execute_notes_example =
    after_execute_notes status_json two_failures (call_of "") (result_of "failed")
      "shell_exec\0failed\0unclassified_failure" failed_signature
