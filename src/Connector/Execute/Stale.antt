-- ===== src/Connector/Execute/Stale.antt =====
-- What a delivery writes when it does not get to an attempt: the item as it was read.
use genesis.Prelude.{
  ℕ, ◌≡◌, ◌⊎◌, inl, inr, refl, ◌&&◌, true, false, none, some, [], ◌∷◌, ◌++◌, arith, eq_iff, eq_refl,
  Bool-cases, Option-cases,
}
use genesis.Prelude.Text.{is_empty}
use genesis.Prelude.Dict.{get}
use genesis.Connector.Types.{after, ConnectorOutboxItem, ConnectorActionResult}
use genesis.Connector.Ids.{Host}
use genesis.Connector.Store.{
  OutboxStore, io_ok, record_delivery, delivery_lease_active, get_outbox_item, with_receipt,
}
use genesis.Connector.Store.Recorded.{record_ok, get-with_receipt}
use genesis.Connector.Execute.{
  Adapters, Schedule, World, execute_outbox_item, execute_read, execute_claimed_outbox_item,
  is_terminal, is_retrying, record_and_return, receipt_with, non_attempt_receipt_for, action_of,
}
use genesis.Connector.Execute.Effect.{receipt_not_empty, calls-execute_leased}

module _ (h : Host) (adapters : Adapters) (run : Schedule)
    (item current : ConnectorOutboxItem) where
  -- A recorded receipt of the item as it was read puts that item back.
  restored :
      (n : ℕ) (r : ConnectorActionResult) (s : OutboxStore)
      → is_empty item.outbox_id ≡ false
      → get s.items item.outbox_id ≡ some current
      → get
          (record_delivery io_ok item (receipt_with h n item r run.recorded_at) s).2.items
          item.outbox_id
        ≡ some item
  unfolding receipt_with
  restored n r s ne e =
      let receipt = receipt_with h n item r run.recorded_at in
      let ok : record_delivery io_ok item receipt s ≡ (tt, none, with_receipt s item receipt) =
        record_ok item current receipt s ne (receipt_not_empty h n item r run.recorded_at) refl e in
      rw ok (rw get-with_receipt (rw eq_refl))

  stale_read :
      (w : World)
      → run.io_record ≡ io_ok
      → is_empty item.outbox_id ≡ false
      → is_terminal item.status ≡ false
      → delivery_lease_active item run.now ≡ true
      → get w.disk.items item.outbox_id ≡ some current
      → get (execute_read h adapters run item.outbox_id item w).2.disk.items item.outbox_id
        ≡ some item
  unfolding execute_read record_and_return non_attempt_receipt_for
  stale_read w io ne alive active e =
      elim (Bool-cases (is_retrying item.status && after item.next_attempt_at run.now)) [
        | inl t ↦ rw (alive, t, io, execute_read) (restored item.attempt_count _ w.disk ne e)
        | inr f ↦
            rw (alive, f, active, io, execute_read) (restored item.attempt_count _ w.disk ne e)
      ]

  -- ExecuteOutboxItem that reads, without an I/O error, an item with a non-blank id that is not
  -- terminal and has an active lease, writes back the item that it read: where another process
  -- recorded a terminal item in between, that is overwritten and the item is open again.
  pub stale_delivery_reopens :
      (w : World)
      → run.io_get ≡ io_ok
      → run.io_record ≡ io_ok
      → is_empty item.outbox_id ≡ false
      → get w.disk.items item.outbox_id ≡ some item
      → is_terminal item.status ≡ false
      → delivery_lease_active item run.now ≡ true
      → get (run.after_get w.disk).items item.outbox_id ≡ some current
      → is_terminal current.status ≡ true
      → get (execute_outbox_item h adapters run item.outbox_id w).2.disk.items item.outbox_id
        ≡ some item
  unfolding execute_outbox_item get_outbox_item
  stale_delivery_reopens w get_ok io ne e alive active cur done =
      let r = get_outbox_item run.io_get item.outbox_id w.disk in
      let it : r.0 ≡ item = ground arith in
      let ok : r.1 ≡ none = ground arith in
      let same : r.2 ≡ w.disk = ground arith in
      rw (ok, it, same, execute_outbox_item)
        (stale_read (record w { disk = run.after_get w.disk }) io ne alive active cur)

module _ (h : Host) (adapters : Adapters) (run : Schedule) where
  -- The lease that a delivery of a claimed item rests on, and the one call that it makes.
  abbrev pub NeedsLease : ConnectorOutboxItem → World → ConnectorOutboxItem → Type 0
  NeedsLease claimed w item =
      (is_empty claimed.lease_id ≡ false)
      × (item.lease_id ≡ claimed.lease_id)
      × (delivery_lease_active item run.now ≡ true)
      × ((execute_claimed_outbox_item h adapters run claimed w).2.calls
          ≡ w.calls ++ action_of item ∷ [])

  -- ExecuteClaimedOutboxItem either leaves the calls of the adapters as they were, or it adds
  -- exactly one, for a stored item that still bears the lease of the claim, which is not blank and
  -- active.
  pub execute_claimed-NeedsLease :
      (claimed : ConnectorOutboxItem) (w : World)
      → ((execute_claimed_outbox_item h adapters run claimed w).2.calls ≡ w.calls)
        ⊎ ((item : ConnectorOutboxItem) × (get w.disk.items claimed.outbox_id ≡ some item)
            × NeedsLease claimed w item)
  unfolding execute_claimed_outbox_item record_and_return get_outbox_item
  execute_claimed-NeedsLease claimed w = elim (Option-cases (get w.disk.items claimed.outbox_id)) [
    | inl e ↦ inl (ground arith)
    | inr (item, e) ↦ lift item e (
        ground (
          arith,
          eq_iff item.lease_id claimed.lease_id,
          calls-execute_leased h adapters run item (record w { disk = run.after_get w.disk }),
        ))
  ]
    where
      lift :
          (item : ConnectorOutboxItem)
          → get w.disk.items claimed.outbox_id ≡ some item
          → ((execute_claimed_outbox_item h adapters run claimed w).2.calls ≡ w.calls)
            ⊎ NeedsLease claimed w item
          → ((execute_claimed_outbox_item h adapters run claimed w).2.calls ≡ w.calls)
            ⊎ ((it : ConnectorOutboxItem) × (get w.disk.items claimed.outbox_id ≡ some it)
                × NeedsLease claimed w it)
      lift item e (inl p) = inl p
      lift item e (inr p) = inr (item, e, p)
