-- ===== src/Connector/Execute.antt =====
-- runtime.go: the delivery of outbox items by connector adapters. A handler makes several store
-- transactions and reads the clock more than once; other processes may change the file between two
-- transactions, so a `Schedule` names what the file system, the clock and the others do.
pub mod Effect
pub mod Stale
pub mod Budget
use genesis.Prelude.{
  ℕ, ◌+◌, String, Bool, true, false, not, ◌||◌, ◌&&◌, Option, none, some, List, [], ◌∷◌, ◌++◌,
  str_eq, if◌then◌else◌,
}
use genesis.Prelude.Text.{is_empty, append, sprint}
use genesis.Connector.Types.{
  Time, ns, ConnectorOutboxItem, ConnectorAction, ConnectorActionResult, DeliveryReceipt,
  OutboxStatus, DeliveryStatus, after, zero_time, zero_receipt, outbox_status_text,
  delivery_status_text,
}
use genesis.Connector.Ids.{Host, stable_opaque_id}
use genesis.Connector.Policy.{
  normalize_delivery_result, default_delivery_lease_owner, default_delivery_lease_ttl,
}
use genesis.Connector.Store.{
  OutboxStore, Io, get_outbox_item, record_delivery, delivery_lease_active,
}
use genesis.Connector.Claims.{claim_outbox_item}

-- ConnectorAdapter.Execute, and the map `Adapters`.
abbrev pub Adapter : Type 0
Adapter = ConnectorAction → ConnectorActionResult × Option String

abbrev pub Adapters : Type 0
Adapters = String → Option Adapter

pub record Schedule : Type 0 where
  pub now : Time  -- the first reading of the clock
  pub recorded_at : Time  -- the reading for the receipt
  pub io_get : Io
  pub io_claim : Io
  pub io_record : Io
  pub after_get : OutboxStore → OutboxStore  -- others, after the item was read
  pub after_claim : OutboxStore → OutboxStore  -- others, after the claim and during the delivery

-- The outbox file, and the actions that adapters were asked to execute so far.
pub record World : Type 0 where
  pub disk : OutboxStore
  pub calls : List ConnectorAction

abbrev pub Delivery : Type 0
Delivery = DeliveryReceipt × Option String × World

abbrev pub result_of : DeliveryStatus → String → Time → ConnectorActionResult
result_of status reason next = record {
  external_action_ref = "";
  status = status;
  reason = reason;
  next_attempt_at = next;
}

-- `receiptFor` with `attempt` one more than the item's count, `nonAttemptReceiptFor` with the count.
unfoldable pub receipt_with :
    Host → ℕ → ConnectorOutboxItem → ConnectorActionResult → Time → DeliveryReceipt
receipt_with h attempt item result recorded_at = record {
  receipt_id = stable_opaque_id h "receipt" (
      item.outbox_id
      ∷ delivery_status_text result.status
      ∷ result.external_action_ref
      ∷ result.reason
      ∷ sprint attempt
      ∷ h.rfc3339_nano recorded_at
      ∷ []);
  outbox_id = item.outbox_id;
  connector = item.connector;
  external_action_ref = result.external_action_ref;
  status = result.status;
  reason = result.reason;
  attempt = attempt;
  next_attempt_at = result.next_attempt_at;
  recorded_at = recorded_at;
}

unfoldable pub receipt_for :
    Host → ConnectorOutboxItem → ConnectorActionResult → Time → DeliveryReceipt
unfolding receipt_with
receipt_for h item result recorded_at =
    receipt_with h (item.attempt_count + 1) item result recorded_at

unfoldable pub non_attempt_receipt_for :
    Host → ConnectorOutboxItem → ConnectorActionResult → Time → DeliveryReceipt
unfolding receipt_with
non_attempt_receipt_for h item result recorded_at =
    receipt_with h item.attempt_count item result recorded_at

-- RecordDelivery with the receipt that the handler returns; an error of the store comes first.
unfoldable pub record_and_return :
    Io → ConnectorOutboxItem → DeliveryReceipt → Option String → World → Delivery
record_and_return io item receipt error w =
    let (_, record_error, disk) = record_delivery io item receipt w.disk in
    (receipt, elim record_error [ some e ↦ some e | none ↦ error ], record w { disk = disk })

-- The `switch` of `recordResult` on the receipt's status: the item's status and next attempt.
abbrev recorded_status : DeliveryStatus → OutboxStatus
recorded_status DeliveryStatus.sent = OutboxStatus.sent
recorded_status DeliveryStatus.retrying = OutboxStatus.retrying
recorded_status DeliveryStatus.dead_lettered = OutboxStatus.dead_letter
recorded_status DeliveryStatus.partial_success = OutboxStatus.recovery_required
recorded_status DeliveryStatus.ambiguous = OutboxStatus.recovery_required
recorded_status DeliveryStatus.duplicate_suppressed = OutboxStatus.sent
recorded_status _ = OutboxStatus.dead_letter

abbrev recorded_next : DeliveryStatus → Time → Time → Time
recorded_next DeliveryStatus.sent old new = old
recorded_next DeliveryStatus.retrying old new = new
recorded_next DeliveryStatus.duplicate_suppressed old new = old
recorded_next _ old new = zero_time

-- The item that `recordResult` writes.
unfoldable pub recorded_item : ConnectorOutboxItem → DeliveryReceipt → ConnectorOutboxItem
recorded_item item receipt = record item {
  attempt_count = receipt.attempt;
  last_receipt_id = receipt.receipt_id;
  lease_id = "";
  lease_owner = "";
  lease_expires_at = zero_time;
  updated_at = receipt.recorded_at;
  status = recorded_status receipt.status;
  next_attempt_at = recorded_next receipt.status item.next_attempt_at receipt.next_attempt_at;
}

unfoldable pub action_of : ConnectorOutboxItem → ConnectorAction
action_of item = record {
  outbox_id = item.outbox_id;
  connector = item.connector;
  action_kind = item.action_kind;
  target_ref = item.target_ref;
  payload = item.payload;
  idempotency_key = item.idempotency_key;
  attempt = item.attempt_count + 1;
}

-- An adapter's empty status stands for `failed` beside an error and for `sent` without one.
settle_by : DeliveryStatus → ConnectorActionResult → Option String → ConnectorActionResult
settle_by DeliveryStatus.unset result (some e) = record result {
  status = DeliveryStatus.failed;
  reason = e;
}
settle_by DeliveryStatus.unset result none = record result { status = DeliveryStatus.sent }
settle_by _ result error = result

unfoldable pub settle : ConnectorActionResult → Option String → ConnectorActionResult
unfolding settle_by
settle result error = settle_by result.status result error

-- executeLeasedOutboxItem
unfoldable pub execute_leased : Host → Adapters → Schedule → ConnectorOutboxItem → World → Delivery
unfolding action_of
execute_leased h adapters run item w = elim (adapters item.connector) [
  | none ↦
      let receipt =
        receipt_for h item (result_of DeliveryStatus.failed "connector_adapter_missing" zero_time)
          run.recorded_at in
      record_and_return run.io_record (recorded_item item receipt) receipt
        (some "connector adapter missing") (record w { disk = run.after_claim w.disk })
  | some adapter ↦
      let action = action_of item in
      let (result, exec_error) = adapter action in
      let result' = normalize_delivery_result item (settle result exec_error) run.now run.now in
      let receipt = receipt_for h item result' run.recorded_at in
      record_and_return run.io_record (recorded_item item receipt) receipt exec_error
        (record w { disk = run.after_claim w.disk; calls = w.calls ++ action ∷ [] })
]

unfoldable pub is_terminal : OutboxStatus → Bool
is_terminal OutboxStatus.sent = true
is_terminal OutboxStatus.dead_letter = true
is_terminal OutboxStatus.recovery_required = true
is_terminal _ = false

abbrev is_retrying : OutboxStatus → Bool
is_retrying OutboxStatus.retrying = true
is_retrying _ = false

-- The rest of ExecuteOutboxItem: the claim, and the delivery if it was granted.
unfoldable pub claim_and_execute : Host → Adapters → Schedule → String → World → Delivery
unfolding non_attempt_receipt_for
claim_and_execute h adapters run outbox_id w =
    let ((claimed_item, claimed), error, disk) =
      claim_outbox_item h run.io_claim outbox_id run.now run.now default_delivery_lease_owner
        (ns default_delivery_lease_ttl) w.disk in
    let w' = record w { disk = disk } in
    elim error [
      | some e ↦ (zero_receipt, some e, w')
      | none ↦
          if claimed
          then execute_leased h adapters run claimed_item w'
          else record_and_return run.io_record claimed_item
              (non_attempt_receipt_for h claimed_item
                (result_of DeliveryStatus.retrying "delivery_not_claimed" zero_time)
                run.recorded_at)
              (some "connector delivery was not claimed")
              (record w' { disk = run.after_claim disk })
    ]

-- ExecuteOutboxItem once the item is read.
execute_read : Host → Adapters → Schedule → String → ConnectorOutboxItem → World → Delivery
unfolding receipt_for non_attempt_receipt_for
execute_read h adapters run outbox_id item w =
    if is_terminal item.status
    then record_and_return run.io_record item
        (receipt_for h item
          (result_of DeliveryStatus.duplicate_suppressed
            (append "outbox_terminal_" (outbox_status_text item.status)) zero_time)
          run.recorded_at)
        none w
    else if is_retrying item.status && after item.next_attempt_at run.now
    then record_and_return run.io_record item
        (non_attempt_receipt_for h item
          (result_of DeliveryStatus.retrying "retry_not_eligible" item.next_attempt_at)
          run.recorded_at)
        (some "connector retry is not eligible yet") w
    else if delivery_lease_active item run.now
    then record_and_return run.io_record item
        (non_attempt_receipt_for h item
          (result_of DeliveryStatus.retrying "delivery_lease_active" item.lease_expires_at)
          run.recorded_at)
        (some "connector delivery lease is active") w
    else claim_and_execute h adapters run outbox_id w

-- ExecuteOutboxItem
unfoldable pub execute_outbox_item : Host → Adapters → Schedule → String → World → Delivery
unfolding execute_read
execute_outbox_item h adapters run outbox_id w =
    let (item, error, disk) = get_outbox_item run.io_get outbox_id w.disk in
    elim error [
      | some e ↦ (zero_receipt, some e, record w { disk = disk })
      | none ↦ execute_read h adapters run outbox_id item (record w { disk = run.after_get disk })
    ]

execute_claimed_read :
    Host → Adapters → Schedule → ConnectorOutboxItem → ConnectorOutboxItem → World → Delivery
unfolding non_attempt_receipt_for
execute_claimed_read h adapters run claimed item w =
    if is_empty claimed.lease_id
      || not (str_eq item.lease_id claimed.lease_id)
      || not (delivery_lease_active item run.now)
    then record_and_return run.io_record item
        (non_attempt_receipt_for h item
          (result_of DeliveryStatus.retrying "delivery_lease_invalid" zero_time) run.recorded_at)
        (some "connector delivery lease is invalid") w
    else execute_leased h adapters run item w

-- ExecuteClaimedOutboxItem
unfoldable pub execute_claimed_outbox_item :
    Host → Adapters → Schedule → ConnectorOutboxItem → World → Delivery
unfolding execute_claimed_read
execute_claimed_outbox_item h adapters run claimed w =
    if is_empty claimed.outbox_id
    then (zero_receipt, some "outbox id is required", w)
    else let (item, error, disk) = get_outbox_item run.io_get claimed.outbox_id w.disk in
      elim error [
        | some e ↦ (zero_receipt, some e, record w { disk = disk })
        | none ↦
            execute_claimed_read h adapters run claimed item
              (record w { disk = run.after_get disk })
      ]
