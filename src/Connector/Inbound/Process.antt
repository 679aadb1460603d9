-- ===== src/Connector/Inbound/Process.antt =====
-- inbound_runtime.go: an external event becomes at most one turn of the kernel, whose final text is
-- enqueued as a reply and delivered. Between the transactions of one event other processes may
-- change the inbound file.
use genesis.Prelude.{
  String, Bool, true, false, Option, none, some, List, [], ◌∷◌, ◌++◌, if◌then◌else◌,
}
use genesis.Prelude.Text.{is_empty, append, trim}
use genesis.Prelude.Results.{Result, err, ok}
use genesis.Connector.Types.{Time, AppCommand}
use genesis.Connector.Ids.{Host, stable_opaque_id}
use genesis.Connector.Store.{Io, enqueue_command}
use genesis.Connector.Execute.{Adapters, Schedule, World, execute_outbox_item}
use genesis.Connector.Inbound.Types.{
  ExternalEvent, RequestContext, ApplicationSessionMapping, TurnSubmitRequest, TurnSubmitResponse,
  InboundSubmissionRecord, SubmissionStatus, ProcessResult, zero_submission, result_with,
  source_validation_unchecked,
}
use genesis.Connector.Inbound.Event.{
  validate_event, request_context, format_request_context_for_turn, ApplicationSessionMapper,
}
use genesis.Connector.Inbound.Store.{Records, reserve, complete}

-- TurnClient.SubmitTurn
abbrev pub TurnClient : Type 0
TurnClient = TurnSubmitRequest → Result TurnSubmitResponse

-- The fields of Runtime that processing uses.
pub record Runtime : Type 0 where
  pub host : Host
  pub client : TurnClient
  pub mapper : ApplicationSessionMapper
  pub adapters : Adapters

pub record InboundSchedule : Type 0 where
  pub now : Time  -- the first reading of the clock
  pub completed_at : Time  -- the reading after the turn
  pub enqueued_at : Time  -- the reading of EnqueueCommand
  pub io_reserve : Io
  pub io_complete : Io
  pub io_enqueue : Io
  pub during_turn : Records → Records  -- others, between the reservation and the completion
  pub delivery : Schedule

-- The inbound file, the turns submitted so far, and the outbox with its calls of adapters.
pub record InboundWorld : Type 0 where
  pub records : Records
  pub submitted : List TurnSubmitRequest
  pub outbox : World

abbrev pub Processed : Type 0
Processed = ProcessResult × Option String × InboundWorld

-- The record that processExternalEvent reserves.
unfoldable pub pending_record : RequestContext → Time → InboundSubmissionRecord
pending_record ctx now = record zero_submission {
  request_id = ctx.request_id;
  dedupe_key = ctx.dedupe_key;
  kernel_idempotency_key = ctx.kernel_idempotency_key;
  connector = ctx.connector;
  event_type = ctx.event_type;
  application_session_id = ctx.application_session_id;
  kernel_session_id = ctx.kernel_session_id;
  status = SubmissionStatus.pending;
  created_at = now;
  updated_at = now;
}

unfoldable pub turn_request : Host → RequestContext → TurnSubmitRequest
turn_request h ctx = record {
  session_id = ctx.kernel_session_id;
  idempotency_key = ctx.kernel_idempotency_key;
  input_items = record { type = "text"; text = format_request_context_for_turn h ctx } ∷ [];
}

-- The command of deliverFinalText.
abbrev final_reply : Host → RequestContext → InboundSubmissionRecord → String → AppCommand
final_reply h ctx submission text = record {
  command_id = stable_opaque_id h "cmd" (ctx.request_id ∷ submission.turn_id ∷ "final_reply" ∷ []);
  kind = "send_message";
  target_ref = record ctx.thread_ref { metadata = [] };
  body = text;
  resource_refs = [];
  requires_confirmation = false;
  dedupe_key = stable_opaque_id h "reply" (ctx.request_id ∷ submission.turn_id ∷ []);
  metadata = ("source_request_id", ctx.request_id) ∷ ("kernel_turn_id", submission.turn_id) ∷ [];
  created_at = submission.updated_at;
}

abbrev error_text : Option String → String
error_text none = ""
error_text (some e) = e

-- deliverFinalText, with an outbox store
unfoldable pub deliver_final_text :
    Runtime
    → InboundSchedule
    → RequestContext
    → InboundSubmissionRecord
    → ProcessResult
    → World
    → ProcessResult × World
deliver_final_text r run ctx submission result w =
    if is_empty (trim result.final_text)
    then (result, w)
    else (let ((item, duplicate), error, disk) =
          enqueue_command r.host run.io_enqueue
            (final_reply r.host ctx submission result.final_text) run.enqueued_at run.enqueued_at
            w.disk in
        let w' : World = record w { disk = disk } in
        elim error [
          | some e ↦ (record result { delivery_error = e }, w')
          | none ↦
              let enqueued : ProcessResult = record result {
                outbox_item = some item;
                outbox_duplicate = duplicate;
              } in
              if duplicate
              then (enqueued, w')
              else (let (receipt, failure, w'') =
                    execute_outbox_item r.host r.adapters run.delivery item.outbox_id w' in
                  (
                    record enqueued {
                      delivery_receipt = some receipt;
                      delivery_error = error_text failure;
                    },
                    w'',
                  ))
        ])

-- A failed turn: the error of Complete is dropped.
abbrev fail_turn :
    InboundSchedule → InboundSubmissionRecord → String → String → InboundWorld → Processed
fail_turn run submission kernel_error error w =
    let failed : InboundSubmissionRecord = record submission {
      status = SubmissionStatus.failed;
      kernel_error = kernel_error;
      updated_at = run.completed_at;
    } in
    (
      result_with failed,
      some error,
      record w { records = (complete run.io_complete failed w.records).2 },
    )

-- The record with what the response says of the turn.
abbrev pub with_turn : TurnSubmitResponse → InboundSubmissionRecord → InboundSubmissionRecord
with_turn response submission = record submission {
  turn_id = response.turn_id;
  kernel_session_id =
      if is_empty response.session_id then submission.kernel_session_id else response.session_id;
}

-- processExternalEvent after a turn without an error.
abbrev pub complete_turn :
    Runtime
    → InboundSchedule
    → RequestContext
    → String
    → InboundSubmissionRecord
    → InboundWorld
    → Processed
complete_turn r run ctx final_text submission w =
    let submitted : InboundSubmissionRecord = record submission {
      status = SubmissionStatus.submitted;
      updated_at = run.completed_at;
    } in
    let (_, error, records) = complete run.io_complete submitted w.records in
    let w' : InboundWorld = record w { records = records } in
    elim error [
      | some e ↦ (result_with submitted, some e, w')
      | none ↦
          let (result, outbox) =
            deliver_final_text r run ctx submitted
              (record (result_with submitted) { final_text = final_text }) w'.outbox in
          (result, none, record w' { outbox = outbox })
    ]

-- processExternalEvent from the answer of SubmitTurn on.
abbrev pub finish_turn :
    Runtime
    → InboundSchedule
    → RequestContext
    → Result TurnSubmitResponse
    → InboundSubmissionRecord
    → InboundWorld
    → Processed
finish_turn r run ctx (err e) submission w = fail_turn run submission e e w
finish_turn r run ctx (ok response) submission w = elim response.error [
  | some error ↦
      let text = append error.code (append ": " error.message) in
      fail_turn run (with_turn response submission) text (append "kernel turn failed: " text) w
  | none ↦ complete_turn r run ctx response.final_text (with_turn response submission) w
]

-- What processExternalEvent does with the answer of Reserve.
abbrev pub process_reserved :
    Runtime
    → InboundSchedule
    → RequestContext
    → InboundWorld
    → (InboundSubmissionRecord × Bool) × Option String × Records
    → Processed
process_reserved r run ctx w (_, some e, records) =
    (result_with zero_submission, some e, record w { records = records })
process_reserved r run ctx w ((submission, true), none, records) =
    let request = turn_request r.host ctx in
    finish_turn r run ctx (r.client request) submission
      (record w { records = run.during_turn records; submitted = w.submitted ++ request ∷ [] })
process_reserved r run ctx w ((submission, false), none, records) =
    (record (result_with submission) { duplicate = true }, none, record w { records = records })

-- processExternalEvent from the reservation on.
unfoldable pub process_mapped :
    Runtime → InboundSchedule → ExternalEvent → ApplicationSessionMapping → InboundWorld → Processed
process_mapped r run event mapping w =
    let ctx = request_context r.host event mapping in
    process_reserved r run ctx w (reserve run.io_reserve (pending_record ctx run.now) w.records)

-- processExternalEvent, which is also ProcessSourceCommandEvent
unfoldable pub process_event : Runtime → InboundSchedule → ExternalEvent → InboundWorld → Processed
process_event r run event w = elim (validate_event event) [
  | some e ↦ (result_with zero_submission, some e, w)
  | none ↦ elim (r.mapper event) [
    | err e ↦ (result_with zero_submission, some e, w)
    | ok mapping ↦ process_mapped r run event mapping w
  ]
]

-- uncheckedDirectExternalEvent
abbrev unchecked : ExternalEvent → ExternalEvent
unchecked event = record event { source_validation = source_validation_unchecked }

-- ProcessExternalEvent
unfoldable pub process_external_event :
    Runtime → InboundSchedule → ExternalEvent → InboundWorld → Processed
process_external_event r run event w = process_event r run (unchecked event) w
