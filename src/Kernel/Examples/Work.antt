-- ===== src/Kernel/Examples/Work.antt =====
-- A work, submitted twice and canceled.
use genesis.Prelude.{arith, ◌≡◌, refl, none, some, [], ◌∷◌}
use genesis.Prelude.Text.{trim}
use genesis.Prelude.Dict.{get, put, values}
use genesis.Prelude.Results.{ok, and_then}
use genesis.Kernel.Types.{WorkStatus, WorkProjection, EventType}
use genesis.Kernel.Ledger.{new_id, Ledger, append_event, with_value}
use genesis.Kernel.Refs.{
  validate_kernel_ref, validate_kernel_authority, validate_kernel_control_token,
  validate_idempotency_key, required, first_error,
}
use genesis.Kernel.Work.{
  SubmitRequest, CancelRequest, submit_work, cancel_work, submitted_work, canceled_work, work_event,
  work_named, find_work, works_of, replay_works, replay_work_event, replay_work_typed, record_work,
  merge_work_projection, validate_work_submit_request, validate_work_cancel_request,
  work_by_idempotency_key, find_by_key,
}
use genesis.Kernel.Work.Reread.{cancel_reread}
use genesis.Kernel.Work.Final.{canceled_final}
use genesis.Kernel.Work.Idempotent.{submit_twice}
use genesis.Kernel.Examples.Env.{env_at}

abbrev submission : SubmitRequest
submission = record {
  session_id = "s1";
  title = "write the report";
  source_ref = "turn:t1";
  idempotency_key = "k1";
}

abbrev report : WorkProjection
report = record {
  work_id = "work_a";
  session_id = "s1";
  title = "write the report";
  source_ref = "turn:t1";
  idempotency_key = "k1";
  status = WorkStatus.alive;
  created_at = 5;
  cancel_authority = "";
  cancel_reason = "";
  cancel_evidence_ref = "";
  canceled_at = none;
}

abbrev report_ledger : Ledger
report_ledger = work_event (env_at 5 "a") EventType.work_submitted report ∷ []

submit_twice_example :
    submit_work (env_at 8 "b") submission report_ledger ≡ (ok report, report_ledger)
unfolding submitted_work works_of replay_works replay_work_event replay_work_typed record_work
    new_id merge_work_projection and_then with_value append_event get put values trim required
    first_error validate_kernel_ref submit_work validate_work_submit_request
    validate_kernel_control_token validate_idempotency_key work_by_idempotency_key find_by_key
submit_twice_example =
    submit_twice (env_at 5 "a") (env_at 8 "b") submission submission [] report_ledger report refl
      (refl, λ w h. ground arith) refl refl refl refl refl

abbrev cancellation : CancelRequest
cancellation = record {
  cancel_authority = "user:bob";
  cancel_reason = "done";
  cancel_evidence_ref = "turn:t4";
}

abbrev canceled_report : WorkProjection
canceled_report = record report {
  status = WorkStatus.canceled;
  cancel_authority = "user:bob";
  cancel_reason = "done";
  cancel_evidence_ref = "turn:t4";
  canceled_at = some 9;
}

abbrev canceled_ledger : Ledger
canceled_ledger =
    work_event (env_at 5 "a") EventType.work_submitted report
    ∷ work_event (env_at 9 "c") EventType.work_canceled canceled_report
    ∷ []

cancel_reread_example :
    (canceled_report.status ≡ WorkStatus.canceled)
    × (work_named (env_at 9 "c") "work_a" canceled_ledger ≡ ok canceled_report)
unfolding submitted_work works_of replay_works replay_work_event replay_work_typed record_work
    new_id merge_work_projection and_then with_value append_event get put values trim required
    first_error validate_kernel_ref cancel_work canceled_work find_work validate_work_cancel_request
    validate_kernel_authority
cancel_reread_example =
    cancel_reread (env_at 9 "c") report_ledger canceled_ledger canceled_report "work_a" cancellation
      refl

canceled_final_example : get (("work_a", canceled_report) ∷ []) "work_a" ≡ some canceled_report
unfolding submitted_work works_of replay_works replay_work_event replay_work_typed record_work
    new_id merge_work_projection and_then with_value append_event get put values trim required
    first_error validate_kernel_ref
canceled_final_example =
    canceled_final report_ledger (("work_a", canceled_report) ∷ [])
      (("work_a", canceled_report) ∷ []) "work_a" canceled_report refl refl refl
