-- ===== src/Connector/Execute/Effect.antt =====
-- What one ExecuteOutboxItem does to the items and to the calls of adapters.
use genesis.Prelude.{
  ℕ, ◌+◌, ◌<◌, String, ◌≡◌, ◌⊎◌, inl, inr, refl, Bool, true, false, Option, none, some, [], ◌∷◌,
  ◌++◌, arith, Option-cases, str_eq, if◌then◌else◌,
}
use genesis.Prelude.Text.{is_empty}
use genesis.Prelude.Dict.{get}
use genesis.Connector.Types.{
  Time, ns, zero_time, ConnectorOutboxItem, ConnectorActionResult, DeliveryStatus,
}
use genesis.Connector.Ids.{Host, stable_opaque_id}
use genesis.Connector.Policy.{
  normalize_delivery_result, default_delivery_lease_owner, default_delivery_lease_ttl,
}
use genesis.Connector.Store.{OutboxStore, io_ok, record_delivery, with_receipt, get_outbox_item}
use genesis.Connector.Store.Recorded.{record_ok, get-with_receipt}
use genesis.Connector.Claims.{claim_outbox_item}
use genesis.Connector.Execute.{
  Adapters, Schedule, World, execute_leased, execute_outbox_item, recorded_item, action_of,
  claim_and_execute, receipt_for, receipt_with, record_and_return, is_terminal, settle, result_of,
}

-- A normalised result is never `failed`, and is `retrying` only while attempts are left.
pub normalized_bounds :
    (item : ConnectorOutboxItem) (result : ConnectorActionResult) (clock now : Time)
    → let r = normalize_delivery_result item result clock now in
      ((r.status ≡ DeliveryStatus.failed) → ⊥)
      × (r.status ≡ DeliveryStatus.retrying → item.attempt_count + 1 < 3)
unfolding normalize_delivery_result
normalized_bounds item result clock now = (λ e. ground arith, λ e. ground arith)

-- The claim that ExecuteOutboxItem makes.
abbrev pub claim_of :
    Host → Schedule → String → World → (ConnectorOutboxItem × Bool) × Option String × OutboxStore
claim_of h run id w =
    claim_outbox_item h run.io_claim id run.now run.now default_delivery_lease_owner
      (ns default_delivery_lease_ttl) (run.after_get w.disk)

module _ (h : Host) (adapters : Adapters) (run : Schedule) where
  pub calls-execute_leased :
      (item : ConnectorOutboxItem) (w : World)
      → ((execute_leased h adapters run item w).2.calls ≡ w.calls)
        ⊎ ((execute_leased h adapters run item w).2.calls ≡ w.calls ++ action_of item ∷ [])
  unfolding execute_leased record_and_return
  calls-execute_leased item w = elim (Option-cases (adapters item.connector)) [
    | inl e ↦ inl (rw (e, execute_leased))
    | inr (adapter, e) ↦ inr (rw (e, execute_leased))
  ]

  -- One ExecuteOutboxItem either leaves the calls of the adapters as they were, or it adds exactly
  -- one call, for the item that its own claim was granted; whatever other processes do to the file
  -- meanwhile.
  pub execute_calls_once :
      (id : String) (w : World)
      → ((execute_outbox_item h adapters run id w).2.calls ≡ w.calls)
        ⊎ (((claim_of h run id w).0.1 ≡ true)
            × ((claim_of h run id w).1 ≡ none)
            × ((execute_outbox_item h adapters run id w).2.calls
                ≡ w.calls ++ action_of (claim_of h run id w).0.0 ∷ []))
  unfolding execute_outbox_item claim_and_execute record_and_return get_outbox_item
  execute_calls_once id w = ground (
    arith,
    calls-execute_leased (claim_of h run id w).0.0 (record w { disk = (claim_of h run id w).2 }),
  )

-- No other process changes the file during the delivery, and the receipt can be recorded.
pub record IsAlone (run : Schedule) : Type 0 where
  pub quiet_get : (s : OutboxStore) → run.after_get s ≡ s
  pub quiet_claim : (s : OutboxStore) → run.after_claim s ≡ s
  pub records : run.io_record ≡ io_ok

pub receipt_not_empty :
    (h : Host) (n : ℕ) (item : ConnectorOutboxItem) (r : ConnectorActionResult) (t : Time)
    → is_empty (receipt_with h n item r t).receipt_id ≡ false
unfolding receipt_with stable_opaque_id
receipt_not_empty h n item r t = refl

-- What a recorded attempt leaves of an item.
pub record IsAttempted (item item' : ConnectorOutboxItem) : Type 0 where
  pub same_id : item'.outbox_id ≡ item.outbox_id
  pub counted : item'.attempt_count ≡ item.attempt_count + 1
  pub open_below : is_terminal item'.status ≡ false → item'.attempt_count < 3
  pub released : item'.lease_id ≡ ""

recorded_IsAttempted :
    (h : Host) (item : ConnectorOutboxItem) (result : ConnectorActionResult) (t : Time)
    → (result.status ≡ DeliveryStatus.retrying → item.attempt_count + 1 < 3)
    → IsAttempted item (recorded_item item (receipt_for h item result t))
unfolding recorded_item receipt_for is_terminal
recorded_IsAttempted h item result t below = ground arith

-- The item that executeLeasedOutboxItem writes.
unfoldable pub attempted : Host → Adapters → Schedule → ConnectorOutboxItem → ConnectorOutboxItem
attempted h adapters run item = elim (adapters item.connector) [
  | none ↦ recorded_item item (
      receipt_for h item (result_of DeliveryStatus.failed "connector_adapter_missing" zero_time)
        run.recorded_at)
  | some adapter ↦ recorded_item item (
      receipt_for h item
        (normalize_delivery_result item
          (settle (adapter (action_of item)).0 (adapter (action_of item)).1) run.now run.now)
        run.recorded_at)
]

module _ (h : Host) (run : Schedule) (alone : IsAlone run) where
  -- The items after a recorded attempt.
  items-recorded :
      (item old : ConnectorOutboxItem) (result : ConnectorActionResult) (s : OutboxStore)
      (k : String)
      → is_empty item.outbox_id ≡ false
      → get s.items item.outbox_id ≡ some old
      → let receipt = receipt_for h item result run.recorded_at in
        let item' = recorded_item item receipt in
        get (record_delivery run.io_record item' receipt (run.after_claim s)).2.items k
        ≡ (if str_eq item.outbox_id k then some item' else get s.items k)
  unfolding recorded_item receipt_for
  items-recorded item old result s k ne e =
      let receipt = receipt_for h item result run.recorded_at in
      let item' = recorded_item item receipt in
      let ok : record_delivery io_ok item' receipt s ≡ (tt, none, with_receipt s item' receipt) =
        record_ok item' old receipt s ne
          (receipt_not_empty h (item.attempt_count + 1) item result run.recorded_at) refl e in
      rw (alone.records, alone.quiet_claim s, ok) (get-with_receipt s item' receipt k)

module _ (h : Host) (adapters : Adapters) (run : Schedule) where
  pub attempted_lem :
      (item : ConnectorOutboxItem) → IsAttempted item (attempted h adapters run item)
  unfolding attempted
  attempted_lem item = elim (Option-cases (adapters item.connector)) [
    | inl e ↦ rw (e, attempted) (recorded_IsAttempted h item _ run.recorded_at (λ p. cc))
    | inr (adapter, e) ↦
        let result = settle (adapter (action_of item)).0 (adapter (action_of item)).1 in
        rw (e, attempted)
          (recorded_IsAttempted h item (normalize_delivery_result item result run.now run.now)
            run.recorded_at (normalized_bounds item result run.now run.now).1)
  ]

  pub items-execute_leased :
      (alone : IsAlone run) (item old : ConnectorOutboxItem) (w : World) (k : String)
      → is_empty item.outbox_id ≡ false
      → get w.disk.items item.outbox_id ≡ some old
      → get (execute_leased h adapters run item w).2.disk.items k ≡ (
          if str_eq item.outbox_id k
          then some (attempted h adapters run item)
          else get w.disk.items k)
  unfolding execute_leased attempted record_and_return
  items-execute_leased alone item old w k ne e = elim (Option-cases (adapters item.connector)) [
    | inl a ↦
        rw (a, execute_leased, attempted) (items-recorded h run alone item old _ w.disk k ne e)
    | inr (adapter, a) ↦
        rw (a, execute_leased, attempted)
          (items-recorded h run alone item old
            (normalize_delivery_result item
              (settle (adapter (action_of item)).0 (adapter (action_of item)).1) run.now run.now)
            w.disk k ne e)
  ]
