-- ===== src/Kernel/Work.antt =====
-- work.go: submitted and canceled work, replayed from the ledger.
pub mod Final
pub mod Reread
pub mod Idempotent
use genesis.Prelude.{
  String, Bool, true, false, ◌&&◌, Option, none, some, List, [], ◌∷◌, str_eq, if◌then◌else◌,
}
use genesis.Prelude.Text.{is_empty, append, trim}
use genesis.Prelude.Dict.{Dict, get, put, values}
use genesis.Prelude.Results.{Result, err, ok, and_then}
use genesis.Kernel.Types.{
  WorkStatus, WorkProjection, EventType, event_type_text, StoredEvent, no_data,
}
use genesis.Kernel.Ledger.{
  new_id, KernelEnv, Ledger, load_events, append_event, refuse_with, with_value,
}
use genesis.Kernel.Refs.{
  validate_kernel_ref, validate_kernel_authority, validate_kernel_control_token,
  validate_idempotency_key, required, first_error,
}

pub record SubmitRequest : Type 0 where
  pub session_id : String
  pub title : String
  pub source_ref : String
  pub idempotency_key : String

pub record CancelRequest : Type 0 where
  pub cancel_authority : String
  pub cancel_reason : String
  pub cancel_evidence_ref : String

-- validateWorkSubmitRequest
unfoldable pub validate_work_submit_request : SubmitRequest → Option String
validate_work_submit_request req = first_error (
    required "session_id" req.session_id
    ∷ required "title" req.title
    ∷ required "source_ref" req.source_ref
    ∷ validate_kernel_control_token "session_id" req.session_id
    ∷ validate_kernel_ref "source_ref" req.source_ref
    ∷ validate_idempotency_key req.idempotency_key
    ∷ [])

-- validateWorkCancelRequest
unfoldable pub validate_work_cancel_request : CancelRequest → Option String
validate_work_cancel_request req = first_error (
    required "cancel_authority" req.cancel_authority
    ∷ required "cancel_reason" req.cancel_reason
    ∷ required "cancel_evidence_ref" req.cancel_evidence_ref
    ∷ validate_kernel_authority "cancel_authority" req.cancel_authority
    ∷ validate_kernel_ref "cancel_evidence_ref" req.cancel_evidence_ref
    ∷ [])

-- sameWorkCancelDecision
unfoldable pub same_work_cancel_decision : WorkProjection → WorkProjection → Bool
same_work_cancel_decision left right =
    str_eq left.cancel_authority right.cancel_authority
    && str_eq left.cancel_reason right.cancel_reason
    && str_eq left.cancel_evidence_ref right.cancel_evidence_ref

-- mergeWorkProjection for a work that exists, by the two statuses.
abbrev pub merge_work_statuses :
    WorkStatus → WorkStatus → WorkProjection → WorkProjection → Result WorkProjection
merge_work_statuses WorkStatus.canceled WorkStatus.canceled current incoming =
    if same_work_cancel_decision current incoming
    then ok current
    else err (append "competing work cancel evidence for " current.work_id)
merge_work_statuses WorkStatus.canceled _ current incoming = ok current
merge_work_statuses _ _ current incoming = ok incoming

-- mergeWorkProjection
unfoldable pub merge_work_projection :
    Option WorkProjection → WorkProjection → Result WorkProjection
merge_work_projection none incoming = ok incoming
merge_work_projection (some current) incoming =
    merge_work_statuses current.status incoming.status current incoming

abbrev pub Works : Type 0
Works = Dict WorkProjection

-- The id of the work of an event.
abbrev named_work : StoredEvent → WorkProjection → WorkProjection
named_work event work = record work {
  work_id = if is_empty work.work_id then event.work_id else work.work_id;
}

-- One round of the loop of works(), for a work event.
unfoldable pub record_work : StoredEvent → WorkProjection → Works → Result Works
record_work event work works =
    let it = named_work event work in
    if is_empty it.work_id
    then err (append (event_type_text event.type) " event missing work id")
    else and_then (merge_work_projection (get works it.work_id) it)
        (λ merged. ok (put works it.work_id merged))

unfoldable pub replay_work_typed : EventType → StoredEvent → WorkProjection → Works → Result Works
replay_work_typed EventType.work_submitted event work works = record_work event work works
replay_work_typed EventType.work_canceled event work works = record_work event work works
replay_work_typed _ event work works = ok works

unfoldable pub replay_work_event : StoredEvent → Works → Result Works
replay_work_event event works = elim event.event_data.work [
  | none ↦ ok works
  | some work ↦ replay_work_typed event.type event work works
]

unfoldable pub replay_works : Ledger → Works → Result Works
replay_works [] works = ok works
replay_works (event ∷ events) works = and_then (replay_work_event event works) (replay_works events)

-- works()
unfoldable pub works_of : KernelEnv → Ledger → Result Works
works_of k ledger = and_then (load_events k ledger) (λ events. replay_works events [])

-- The loop of workByIdempotencyKey. The source ranges over a map in any order; the model takes the
-- order of the list. The two can differ only where two works of one session have one key, and
-- SubmitWork, which looks the key up under its mutex, appends no second one.
unfoldable pub find_by_key : String → String → List WorkProjection → Option WorkProjection
find_by_key session_id key [] = none
find_by_key session_id key (work ∷ works) =
    if str_eq work.session_id session_id && str_eq work.idempotency_key key
    then some work
    else find_by_key session_id key works

-- workByIdempotencyKey, asked only for a key that is not empty.
unfoldable pub work_by_idempotency_key :
    KernelEnv → String → String → Ledger → Result (Option WorkProjection)
work_by_idempotency_key k session_id key ledger =
    if is_empty key
    then ok none
    else and_then (works_of k ledger) (λ works. ok (find_by_key session_id key (values works)))

abbrev pub WorkAnswer : Type 0
WorkAnswer = Result WorkProjection × Ledger

abbrev pub work_event : KernelEnv → EventType → WorkProjection → StoredEvent
work_event k type work = record {
  event_id = new_id k "evt" k.clock;
  session_id = work.session_id;
  turn_id = "";
  operation_id = "";
  work_id = work.work_id;
  candidate_id = "";
  approval_id = "";
  type = type;
  created_at = k.clock;
  event_data = record no_data { work = some work };
}

unfoldable pub submitted_work : KernelEnv → SubmitRequest → WorkProjection
submitted_work k req = record {
  work_id = new_id k "work" k.clock;
  session_id = trim req.session_id;
  title = trim req.title;
  source_ref = trim req.source_ref;
  idempotency_key = trim req.idempotency_key;
  status = WorkStatus.alive;
  created_at = k.clock;
  cancel_authority = "";
  cancel_reason = "";
  cancel_evidence_ref = "";
  canceled_at = none;
}

-- A known work is the answer; otherwise a new one is appended.
abbrev submit_unless : KernelEnv → SubmitRequest → Option WorkProjection → Ledger → WorkAnswer
submit_unless k req (some work) ledger = (ok work, ledger)
submit_unless k req none ledger =
    let work = submitted_work k req in
    append_event k (work_event k EventType.work_submitted work) work ledger

-- SubmitWork
unfoldable pub submit_work : KernelEnv → SubmitRequest → Ledger → WorkAnswer
submit_work k req ledger = elim (validate_work_submit_request req) [
  | some e ↦ refuse_with e ledger
  | none ↦
      with_value (work_by_idempotency_key k (trim req.session_id) (trim req.idempotency_key) ledger)
        (submit_unless k req) ledger
]

unfoldable pub find_work : KernelEnv → String → Ledger → Result WorkProjection
find_work k work_id ledger =
    and_then (works_of k ledger)
      (λ works. elim (get works work_id) [ none ↦ err "work not found" | some work ↦ ok work ])

-- Work
unfoldable pub work_named : KernelEnv → String → Ledger → Result WorkProjection
work_named k work_id ledger =
    if is_empty (trim work_id) then err "work id is required" else find_work k (trim work_id) ledger

unfoldable pub canceled_work : KernelEnv → CancelRequest → WorkProjection → WorkProjection
canceled_work k req work = record work {
  status = WorkStatus.canceled;
  cancel_authority = trim req.cancel_authority;
  cancel_reason = trim req.cancel_reason;
  cancel_evidence_ref = trim req.cancel_evidence_ref;
  canceled_at = some k.clock;
}

abbrev decide_cancel : KernelEnv → CancelRequest → WorkStatus → WorkProjection → Ledger → WorkAnswer
decide_cancel k req WorkStatus.canceled work ledger = (ok work, ledger)
decide_cancel k req _ work ledger =
    let work' = canceled_work k req work in
    append_event k (work_event k EventType.work_canceled work') work' ledger

-- CancelWork
unfoldable pub cancel_work : KernelEnv → String → CancelRequest → Ledger → WorkAnswer
cancel_work k work_id req ledger =
    if is_empty (trim work_id)
    then refuse_with "work id is required" ledger
    else elim (validate_work_cancel_request req) [
      | some e ↦ refuse_with e ledger
      | none ↦
          with_value (find_work k (trim work_id) ledger)
            (λ work. decide_cancel k req work.status work) ledger
    ]
