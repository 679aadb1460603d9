-- ===== src/Connector/Operator.antt =====
-- RequeueOutboxItem and ResolveRecoveryRequiredOutboxItem (store_file.go): operator recovery.
pub mod Guards
use genesis.Prelude.{String, not, ◌&&◌, Option, none, some, [], ◌∷◌, str_eq, if◌then◌else◌}
use genesis.Prelude.Text.{is_empty, append, trim, sprint}
use genesis.Prelude.Dict.{get}
use genesis.Connector.Types.{
  Time, ConnectorOutboxItem, DeliveryReceipt, OutboxStatus, DeliveryStatus, zero_item, zero_receipt,
  zero_time, delivery_status_text,
}
use genesis.Connector.Ids.{Host, stable_opaque_id}
use genesis.Connector.Safety.{safe_reason, safe_external_action_ref}
use genesis.Connector.Store.{
  Io, Transaction, with_locked_state, write_locked, with_receipt, or_clock,
}

abbrev pub Recovered : Type 0
Recovered = ConnectorOutboxItem × DeliveryReceipt

abbrev pub refuse : String → Transaction Recovered
refuse message disk = ((zero_item, zero_receipt), some message, disk)

-- The item with its lease and its next attempt cleared.
abbrev pub released : ConnectorOutboxItem → OutboxStatus → Time → ConnectorOutboxItem
released item status now = record item {
  status = status;
  next_attempt_at = zero_time;
  lease_id = "";
  lease_owner = "";
  lease_expires_at = zero_time;
  updated_at = now;
}

unfoldable pub requeue_receipt : Host → ConnectorOutboxItem → String → Time → DeliveryReceipt
requeue_receipt h item reason now = record {
  receipt_id =
      stable_opaque_id h "receipt" (
        item.outbox_id ∷ "retrying" ∷ reason ∷ sprint item.attempt_count ∷ h.rfc3339_nano now ∷ []);
  outbox_id = item.outbox_id;
  connector = item.connector;
  external_action_ref = "";
  status = DeliveryStatus.retrying;
  reason = reason;
  attempt = item.attempt_count;
  next_attempt_at = zero_time;
  recorded_at = now;
}

-- The rest of both transactions: the receipt's id goes into the item, and both are written.
unfoldable pub commit : Io → ConnectorOutboxItem → DeliveryReceipt → Transaction Recovered
unfolding write_locked with_receipt
commit io item receipt disk =
    let item' = record item { last_receipt_id = receipt.receipt_id } in
    write_locked io (item', receipt) (with_receipt disk item' receipt) disk

requeue_found :
    OutboxStatus → Host → Io → ConnectorOutboxItem → String → Time → Transaction Recovered
unfolding requeue_receipt commit
requeue_found OutboxStatus.dead_letter h io item reason now disk =
    commit io (released item OutboxStatus.queued now) (requeue_receipt h item reason now) disk
requeue_found _ h io item reason now disk =
    ((item, zero_receipt), some "outbox item is not dead-lettered", disk)

requeue_body : Host → Io → String → String → Time → Transaction Recovered
unfolding requeue_found
requeue_body h io outbox_id reason now disk = elim (get disk.items outbox_id) [
  | none ↦ ((zero_item, zero_receipt), some "outbox item not found", disk)
  | some item ↦ requeue_found item.status h io item reason now disk
]

-- RequeueOutboxItem
unfoldable pub requeue_outbox_item :
    Host → Io → String → String → Time → Time → Transaction Recovered
unfolding requeue_body
requeue_outbox_item h io outbox_id reason clock now disk =
    let reason' = if is_empty (trim reason) then "operator_requeued" else trim reason in
    if is_empty outbox_id
    then refuse "outbox id is required" disk
    else if not (safe_reason reason')
    then refuse "operator recovery reason is unsafe" disk
    else with_locked_state io (zero_item, zero_receipt)
        (requeue_body h io outbox_id reason' (or_clock clock now)) disk

unfoldable pub resolve_receipt :
    Host → ConnectorOutboxItem → DeliveryStatus → String → String → Time → DeliveryReceipt
resolve_receipt h item outcome reason external_action_ref now = record {
  receipt_id = stable_opaque_id h "receipt" (
      item.outbox_id
      ∷ delivery_status_text outcome
      ∷ external_action_ref
      ∷ reason
      ∷ sprint item.attempt_count
      ∷ h.rfc3339_nano now
      ∷ []);
  outbox_id = item.outbox_id;
  connector = item.connector;
  external_action_ref = external_action_ref;
  status = outcome;
  reason = reason;
  attempt = item.attempt_count;
  next_attempt_at = zero_time;
  recorded_at = now;
}

-- The two outcomes that an operator may name.
pub data Outcome : Type 0 where
  resolved_sent : Outcome
  resolved_dead_lettered : Outcome

abbrev pub outcome_delivery : Outcome → DeliveryStatus
outcome_delivery resolved_sent = DeliveryStatus.sent
outcome_delivery resolved_dead_lettered = DeliveryStatus.dead_lettered

abbrev pub outcome_outbox : Outcome → OutboxStatus
outcome_outbox resolved_sent = OutboxStatus.sent
outcome_outbox resolved_dead_lettered = OutboxStatus.dead_letter

unfoldable pub parse_outcome : String → Option Outcome
parse_outcome text =
    if str_eq text "sent"
    then some resolved_sent
    else if str_eq text "dead_lettered"
    then some resolved_dead_lettered
    else none

resolve_found :
    OutboxStatus
    → Host
    → Io
    → ConnectorOutboxItem
    → Outcome
    → String
    → String
    → Time
    → Transaction Recovered
unfolding resolve_receipt commit
resolve_found OutboxStatus.recovery_required h io item outcome reason action_ref now disk =
    commit io (released item (outcome_outbox outcome) now)
      (resolve_receipt h item (outcome_delivery outcome) reason action_ref now) disk
resolve_found _ h io item outcome reason action_ref now disk =
    ((item, zero_receipt), some "outbox item is not recovery-required", disk)

resolve_body : Host → Io → String → Outcome → String → String → Time → Transaction Recovered
unfolding resolve_found
resolve_body h io outbox_id outcome reason action_ref now disk = elim (get disk.items outbox_id) [
  | none ↦ ((zero_item, zero_receipt), some "outbox item not found", disk)
  | some item ↦ resolve_found item.status h io item outcome reason action_ref now disk
]

-- What ResolveRecoveryRequiredOutboxItem does once the outcome is known.
unfoldable pub resolve_as :
    Host → Io → String → Outcome → String → String → Time → Transaction Recovered
unfolding resolve_body
resolve_as h io outbox_id outcome reason external_action_ref now disk =
    let fallback = append "operator_resolved_" (delivery_status_text (outcome_delivery outcome)) in
    let reason' = if is_empty (trim reason) then fallback else trim reason in
    let action_ref = trim external_action_ref in
    if not (safe_reason reason')
    then refuse "operator recovery reason is unsafe" disk
    else if not (is_empty action_ref) && not (safe_external_action_ref action_ref)
    then refuse "operator recovery external action ref is unsafe" disk
    else with_locked_state io (zero_item, zero_receipt)
        (resolve_body h io outbox_id outcome reason' action_ref now) disk

-- ResolveRecoveryRequiredOutboxItem
unfoldable pub resolve_recovery_required :
    Host → Io → String → String → String → String → Time → Time → Transaction Recovered
unfolding resolve_as
resolve_recovery_required h io outbox_id outcome reason external_action_ref clock now disk =
    if is_empty outbox_id
    then refuse "outbox id is required" disk
    else elim (parse_outcome (trim outcome)) [
      | none ↦ refuse "operator recovery outcome must be sent or dead_lettered" disk
      | some o ↦ resolve_as h io outbox_id o reason external_action_ref (or_clock clock now) disk
    ]
