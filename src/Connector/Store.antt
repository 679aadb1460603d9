-- ===== src/Connector/Store.antt =====
-- FileOutboxStore (store_file.go): the durable outbox and its transactions. Each transaction takes
-- the file lock, reads the file, and mostly writes it back; what a failed write leaves in memory is
-- dropped by the next transaction's read, so the state is the file's content.
pub mod Keys
pub mod Recorded
pub mod Dedupe
use genesis.Prelude.{
  String, Bool, true, false, not, ◌&&◌, ◌||◌, Option, none, some, List, [], ◌∷◌, ◌++◌, str_eq,
  if◌then◌else◌,
}
use genesis.Prelude.Text.{is_empty}
use genesis.Prelude.Dict.{Dict, get, put}
use genesis.Connector.Types.{
  Time, ConnectorOutboxItem, DeliveryReceipt, AppCommand, OutboxStatus, after, is_zero, zero_item,
}
use genesis.Connector.Ids.{Host, validate, outbox_dedupe_key, to_outbox_item}

pub record OutboxStore : Type 0 where
  pub items : Dict ConnectorOutboxItem
  pub by_dedupe : Dict String
  pub receipts : Dict (List DeliveryReceipt)

abbrev pub empty_store : OutboxStore
empty_store = record { items = []; by_dedupe = []; receipts = [] }

-- What the file system answers in one transaction.
pub record Io : Type 0 where
  pub lock_error : Option String
  pub load_error : Option String
  pub write_error : Option String

abbrev pub io_ok : Io
io_ok = record { lock_error = none; load_error = none; write_error = none }

-- A transaction's result, its error, and the file after it.
abbrev pub Transaction : Type 0 → Type 0
Transaction A = OutboxStore → A × Option String × OutboxStore

-- withLockedState; `before` is the value that the caller returns if `body` does not run.
unfoldable pub with_locked_state :
    {S A : Type 0} → Io → A → (S → A × Option String × S) → S → A × Option String × S
with_locked_state io before body disk = elim io.lock_error [
  | some e ↦ (before, some e, disk)
  | none ↦ elim io.load_error [ some e ↦ (before, some e, disk) | none ↦ body disk ]
]

-- writeLocked: the file is replaced whole, or left as it was.
unfoldable pub write_locked : {S A : Type 0} → Io → A → S → S → A × Option String × S
write_locked io result changed disk = elim io.write_error [
  | some e ↦ (result, some e, disk)
  | none ↦ (result, none, changed)
]

-- A `now` that is the zero time is replaced by the clock.
abbrev pub or_clock : Time → Time → Time
or_clock clock now = if is_zero now then clock else now

abbrev pub item_or_zero : Option ConnectorOutboxItem → ConnectorOutboxItem
item_or_zero none = zero_item
item_or_zero (some item) = item

abbrev pub receipts_of : OutboxStore → String → List DeliveryReceipt
receipts_of s id = elim (get s.receipts id) [ none ↦ [] | some rs ↦ rs ]

-- deliveryLeaseActive
unfoldable pub delivery_lease_active : ConnectorOutboxItem → Time → Bool
delivery_lease_active item now = not (is_empty item.lease_id) && after item.lease_expires_at now

abbrev status_eligible : OutboxStatus → Time → Time → Bool
status_eligible OutboxStatus.queued next_attempt_at now = true
status_eligible OutboxStatus.retrying next_attempt_at now = not (after next_attempt_at now)
status_eligible _ next_attempt_at now = false

-- deliveryEligible
unfoldable pub delivery_eligible : ConnectorOutboxItem → Time → Bool
unfolding delivery_lease_active
delivery_eligible item now =
    if delivery_lease_active item now
    then false
    else status_eligible item.status item.next_attempt_at now

-- The body of EnqueueCommand.
enqueue_body : Host → Io → AppCommand → Time → Transaction (ConnectorOutboxItem × Bool)
unfolding write_locked
enqueue_body h io command now disk =
    let key = outbox_dedupe_key h command in
    let item = to_outbox_item h command now in
    elim (get disk.by_dedupe key) [
      | some existing_id ↦ ((item_or_zero (get disk.items existing_id), true), none, disk)
      | none ↦
          write_locked io (item, false)
            (record disk {
              items = put disk.items item.outbox_id item;
              by_dedupe = put disk.by_dedupe key item.outbox_id;
            })
            disk
    ]

-- EnqueueCommand
unfoldable pub enqueue_command :
    Host → Io → AppCommand → Time → Time → Transaction (ConnectorOutboxItem × Bool)
unfolding enqueue_body with_locked_state
enqueue_command h io command clock now disk = elim (validate command) [
  | some e ↦ ((zero_item, false), some e, disk)
  | none ↦
      with_locked_state io (zero_item, false) (enqueue_body h io command (or_clock clock now)) disk
]

-- GetOutboxItem
unfoldable pub get_outbox_item : Io → String → Transaction ConnectorOutboxItem
unfolding with_locked_state
get_outbox_item io outbox_id disk =
    if is_empty outbox_id
    then (zero_item, some "outbox id is required", disk)
    else with_locked_state io zero_item
        (λ s. elim (get s.items outbox_id) [
          | none ↦ (zero_item, some "outbox item not found", s)
          | some item ↦ (item, none, s)
        ])
        disk

-- The store with an item and one more receipt of it.
unfoldable pub with_receipt : OutboxStore → ConnectorOutboxItem → DeliveryReceipt → OutboxStore
with_receipt s item receipt = record s {
  items = put s.items item.outbox_id item;
  receipts = put s.receipts item.outbox_id (receipts_of s item.outbox_id ++ receipt ∷ []);
}

record_body : Io → ConnectorOutboxItem → DeliveryReceipt → Transaction (Unit {0})
unfolding write_locked with_receipt
record_body io item receipt disk = elim (get disk.items item.outbox_id) [
  | none ↦ (tt, some "outbox item not found", disk)
  | some _ ↦ write_locked io tt (with_receipt disk item receipt) disk
]

-- RecordDelivery
unfoldable pub record_delivery : Io → ConnectorOutboxItem → DeliveryReceipt → Transaction (Unit {0})
unfolding record_body with_locked_state
record_delivery io item receipt disk =
    if is_empty item.outbox_id || is_empty receipt.receipt_id || is_empty receipt.outbox_id
    then (tt, some "outbox item and receipt ids are required", disk)
    else if not (str_eq item.outbox_id receipt.outbox_id)
    then (tt, some "receipt outbox id does not match item", disk)
    else with_locked_state io tt (record_body io item receipt) disk
