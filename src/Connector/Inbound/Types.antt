-- ===== src/Connector/Inbound/Types.antt =====
-- inbound_types.go: events, request contexts, turns, submission records and results.
use genesis.Prelude.{String, Bool, false, Option, none, List}
use genesis.Prelude.Dict.{Dict}
use genesis.Connector.Types.{
  Time, ExternalThreadRef, ExternalResourceRef, ConnectorOutboxItem, DeliveryReceipt, zero_time,
}

pub data SubmissionStatus : Type 0 where
  pending : SubmissionStatus
  submitted : SubmissionStatus
  failed : SubmissionStatus
  other : String → SubmissionStatus

-- SourceValidationUnchecked; a validation stays a text, since it is copied from the event.
abbrev pub source_validation_unchecked : String
source_validation_unchecked = "unchecked"

pub record ExternalRef : Type 0 where
  pub connector : String
  pub kind : String
  pub external_id : String
  pub display : String
  pub metadata : Dict String

pub record ExternalEvent : Type 0 where
  pub connector : String
  pub external_event_id : String
  pub event_type : String
  pub thread_ref : ExternalThreadRef
  pub sender_ref : ExternalRef
  pub message_ref : ExternalRef
  pub body : String
  pub resource_refs : List ExternalResourceRef
  pub received_at : Time
  pub source_validation : String
  pub metadata : Dict String

pub record RequestContext : Type 0 where
  pub request_id : String
  pub dedupe_key : String
  pub connector : String
  pub event_type : String
  pub thread_ref : ExternalThreadRef
  pub sender_ref : ExternalRef
  pub message_ref : ExternalRef
  pub resource_refs : List ExternalResourceRef
  pub source_validation : String
  pub application_session_id : String
  pub kernel_session_id : String
  pub kernel_idempotency_key : String
  pub body : String
  pub received_at : Time

pub record ApplicationSessionMapping : Type 0 where
  pub application_session_id : String
  pub kernel_session_id : String

pub record TurnInputItem : Type 0 where
  pub type : String
  pub text : String

pub record TurnSubmitRequest : Type 0 where
  pub session_id : String
  pub idempotency_key : String
  pub input_items : List TurnInputItem

pub record KernelTurnError : Type 0 where
  pub code : String
  pub message : String

-- `final_text` is the text of Final.
pub record TurnSubmitResponse : Type 0 where
  pub session_id : String
  pub turn_id : String
  pub final_text : String
  pub error : Option KernelTurnError

pub record InboundSubmissionRecord : Type 0 where
  pub request_id : String
  pub dedupe_key : String
  pub kernel_idempotency_key : String
  pub connector : String
  pub event_type : String
  pub application_session_id : String
  pub kernel_session_id : String
  pub turn_id : String
  pub status : SubmissionStatus
  pub kernel_error : String
  pub created_at : Time
  pub updated_at : Time

-- InboundSubmissionRecord{}
abbrev pub zero_submission : InboundSubmissionRecord
zero_submission = record {
  request_id = "";
  dedupe_key = "";
  kernel_idempotency_key = "";
  connector = "";
  event_type = "";
  application_session_id = "";
  kernel_session_id = "";
  turn_id = "";
  status = SubmissionStatus.other "";
  kernel_error = "";
  created_at = zero_time;
  updated_at = zero_time;
}

pub record ProcessResult : Type 0 where
  pub submission : InboundSubmissionRecord
  pub duplicate : Bool
  pub final_text : String
  pub outbox_item : Option ConnectorOutboxItem
  pub outbox_duplicate : Bool
  pub delivery_receipt : Option DeliveryReceipt
  pub delivery_error : String

-- ProcessResult{}, with a record.
abbrev pub result_with : InboundSubmissionRecord → ProcessResult
result_with submission = record {
  submission = submission;
  duplicate = false;
  final_text = "";
  outbox_item = none;
  outbox_duplicate = false;
  delivery_receipt = none;
  delivery_error = "";
}
