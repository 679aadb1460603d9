-- ===== src/Connector/Types.antt =====
-- types.go: the records of the connector runtime. A `time.Time` is a number of nanoseconds since
-- Go's zero time, so that 0 is the zero time. Status texts are data types: a constructor for each
-- constant of types.go, and `other` for a text that is none of the constants.
use genesis.Prelude.{ℕ, String, Bool, List, [], ◌==◌, ltb}
use genesis.Prelude.Dict.{Dict}

abbrev pub Time : Type 0
Time = ℕ

-- time.Time{}
abbrev pub zero_time : Time
zero_time = 0

-- t.IsZero()
abbrev pub is_zero : Time → Bool
is_zero t = t == zero_time

-- t.After(u)
abbrev pub after : Time → Time → Bool
after t u = ltb u t

-- A `time.Duration` of nanoseconds; `neg n` is -(n + 1).
pub data Duration : Type 0 where
  ns : ℕ → Duration
  neg : ℕ → Duration

pub data OutboxStatus : Type 0 where
  queued : OutboxStatus
  sent : OutboxStatus
  retrying : OutboxStatus
  dead_letter : OutboxStatus
  recovery_required : OutboxStatus
  other : String → OutboxStatus

-- `unset` is the empty text, which an adapter returns for no status.
pub data DeliveryStatus : Type 0 where
  unset : DeliveryStatus
  sent : DeliveryStatus
  failed : DeliveryStatus
  retrying : DeliveryStatus
  duplicate_suppressed : DeliveryStatus
  dead_lettered : DeliveryStatus
  partial_success : DeliveryStatus
  ambiguous : DeliveryStatus
  other : String → DeliveryStatus

abbrev pub outbox_status_text : OutboxStatus → String
outbox_status_text OutboxStatus.queued = "queued"
outbox_status_text OutboxStatus.sent = "sent"
outbox_status_text OutboxStatus.retrying = "retrying"
outbox_status_text OutboxStatus.dead_letter = "dead_lettered"
outbox_status_text OutboxStatus.recovery_required = "recovery_required"
outbox_status_text (OutboxStatus.other s) = s

abbrev pub delivery_status_text : DeliveryStatus → String
delivery_status_text DeliveryStatus.unset = ""
delivery_status_text DeliveryStatus.sent = "sent"
delivery_status_text DeliveryStatus.failed = "failed"
delivery_status_text DeliveryStatus.retrying = "retrying"
delivery_status_text DeliveryStatus.duplicate_suppressed = "duplicate_suppressed"
delivery_status_text DeliveryStatus.dead_lettered = "dead_lettered"
delivery_status_text DeliveryStatus.partial_success = "partial_success"
delivery_status_text DeliveryStatus.ambiguous = "ambiguous"
delivery_status_text (DeliveryStatus.other s) = s

pub record ExternalThreadRef : Type 0 where
  pub connector : String
  pub kind : String
  pub external_id : String
  pub display : String
  pub metadata : Dict String

pub record ExternalResourceRef : Type 0 where
  pub connector : String
  pub external_id : String
  pub kind : String

pub record AppCommand : Type 0 where
  pub command_id : String
  pub kind : String
  pub target_ref : ExternalThreadRef
  pub body : String
  pub resource_refs : List ExternalResourceRef
  pub requires_confirmation : Bool
  pub dedupe_key : String
  pub metadata : Dict String
  pub created_at : Time

pub record ConnectorOutboxItem : Type 0 where
  pub outbox_id : String
  pub command_id : String
  pub connector : String
  pub action_kind : String
  pub target_ref : ExternalThreadRef
  pub payload : Dict String
  pub status : OutboxStatus
  pub attempt_count : ℕ
  pub next_attempt_at : Time
  pub lease_id : String
  pub lease_owner : String
  pub lease_expires_at : Time
  pub idempotency_key : String
  pub last_receipt_id : String
  pub created_at : Time
  pub updated_at : Time

pub record ConnectorAction : Type 0 where
  pub outbox_id : String
  pub connector : String
  pub action_kind : String
  pub target_ref : ExternalThreadRef
  pub payload : Dict String
  pub idempotency_key : String
  pub attempt : ℕ

pub record ConnectorActionResult : Type 0 where
  pub external_action_ref : String
  pub status : DeliveryStatus
  pub reason : String
  pub next_attempt_at : Time

pub record DeliveryReceipt : Type 0 where
  pub receipt_id : String
  pub outbox_id : String
  pub connector : String
  pub external_action_ref : String
  pub status : DeliveryStatus
  pub reason : String
  pub attempt : ℕ
  pub next_attempt_at : Time
  pub recorded_at : Time

abbrev pub zero_thread_ref : ExternalThreadRef
zero_thread_ref = record {
  connector = "";
  kind = "";
  external_id = "";
  display = "";
  metadata = [];
}

-- ConnectorOutboxItem{}
abbrev pub zero_item : ConnectorOutboxItem
zero_item = record {
  outbox_id = "";
  command_id = "";
  connector = "";
  action_kind = "";
  target_ref = zero_thread_ref;
  payload = [];
  status = OutboxStatus.other "";
  attempt_count = 0;
  next_attempt_at = zero_time;
  lease_id = "";
  lease_owner = "";
  lease_expires_at = zero_time;
  idempotency_key = "";
  last_receipt_id = "";
  created_at = zero_time;
  updated_at = zero_time;
}

-- DeliveryReceipt{}
abbrev pub zero_receipt : DeliveryReceipt
zero_receipt = record {
  receipt_id = "";
  outbox_id = "";
  connector = "";
  external_action_ref = "";
  status = DeliveryStatus.unset;
  reason = "";
  attempt = 0;
  next_attempt_at = zero_time;
  recorded_at = zero_time;
}
