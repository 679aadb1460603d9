-- ===== src/Connector/Store/Recorded.antt =====
-- What RecordDelivery does to the items.
use genesis.Prelude.{
  String, ◌≡◌, false, Option, none, some, inl, inr, arith, eq_iff, str_eq, Option-cases,
  if◌then◌else◌,
}
use genesis.Prelude.Text.{is_empty}
use genesis.Prelude.Dict.{get, get-put}
use genesis.Connector.Types.{ConnectorOutboxItem, DeliveryReceipt}
use genesis.Connector.Store.{
  OutboxStore, Io, io_ok, record_delivery, get_outbox_item, with_receipt, with_locked_state,
  Transaction,
}

-- A receipt for an item that is stored as it is given changes no item, whatever the file system does.
pub record_same :
    (io : Io) (item : ConnectorOutboxItem) (receipt : DeliveryReceipt) (s : OutboxStore)
    (k : String)
    → get s.items item.outbox_id ≡ some item
    → get (record_delivery io item receipt s).2.items k ≡ get s.items k
unfolding record_delivery
record_same io item receipt s k e =
    ground (arith, get-put s.items item.outbox_id k item, eq_iff item.outbox_id k)

-- With working files a receipt for a stored item is recorded, and the item is replaced.
pub record_ok :
    (item old : ConnectorOutboxItem) (receipt : DeliveryReceipt) (s : OutboxStore)
    → is_empty item.outbox_id ≡ false
    → is_empty receipt.receipt_id ≡ false
    → receipt.outbox_id ≡ item.outbox_id
    → get s.items item.outbox_id ≡ some old
    → record_delivery io_ok item receipt s ≡ (tt, none, with_receipt s item receipt)
unfolding record_delivery
record_ok item old receipt s a b c e = ground (arith, eq_iff item.outbox_id receipt.outbox_id)

pub get-with_receipt :
    (s : OutboxStore) (item : ConnectorOutboxItem) (receipt : DeliveryReceipt) (k : String)
    → get (with_receipt s item receipt).items k
      ≡ (if str_eq item.outbox_id k then some item else get s.items k)
unfolding with_receipt
get-with_receipt s item receipt k = get-put s.items item.outbox_id k item

-- GetOutboxItem only reads, and without an error it found the item.
pub get_result :
    (io : Io) (id : String) (s : OutboxStore)
    → ((get_outbox_item io id s).2 ≡ s)
      × ((get_outbox_item io id s).1 ≡ none
          → (is_empty id ≡ false) × (get s.items id ≡ some (get_outbox_item io id s).0))
unfolding get_outbox_item
get_result io id s = (ground arith, λ n. ground arith)

-- What holds of a failed lock or read and of the body holds of the transaction.
pub locked_cases :
    {A : Type 0} (P : A × Option String × OutboxStore → Type 0) (io : Io) (before : A)
    (body : Transaction A) (s : OutboxStore)
    → ((e : String) → P (before, some e, s))
    → P (body s)
    → P (with_locked_state io before body s)
unfolding with_locked_state
locked_cases P io before body s failed ran = elim (Option-cases io.lock_error) [
  | inr (e, p) ↦ rw (p, with_locked_state) (failed e)
  | inl p ↦ elim (Option-cases io.load_error) [
    | inr (e, q) ↦ rw (p, q, with_locked_state) (failed e)
    | inl q ↦ rw (p, q, with_locked_state) ran
  ]
]
