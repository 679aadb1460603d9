-- ===== src/Connector/Examples.antt =====
-- Concrete outboxes, and the theorems of the connector runtime at them.
mod Mail
mod Feed
use genesis.Prelude.{
  ◌<◌, ◌≤◌, ◌*◌, ◌^◌, if◌then◌else◌, ℕ, ◌+◌, ◌≡◌, ◌⊎◌, refl, true, false, none, some, [], ◌∷◌, All,
  arith, eq_iff,
}
use genesis.Prelude.Text.{trim}
use genesis.Prelude.Dict.{get, put, values}
use genesis.Connector.Types.{
  ConnectorActionResult, is_zero, ns, AppCommand, ConnectorOutboxItem, OutboxStatus, DeliveryStatus,
  zero_item, zero_thread_ref, zero_time,
}
use genesis.Connector.Ids.{Host, validate}
use genesis.Connector.Store.{
  OutboxStore, io_ok, empty_store, enqueue_command, delivery_eligible, delivery_lease_active,
}
use genesis.Connector.Store.Keys.{IsKeyed}
use genesis.Connector.Store.Dedupe.{enqueue_twice}
use genesis.Connector.Claims.{
  claim_outbox_item, claim_next_outbox_item, leased, sort_by_created, first_eligible,
}
use genesis.Connector.Claims.Exclusive.{claim_excludes}
use genesis.Connector.Claims.Earliest.{claim_next_oldest, claim_next_nothing, IsOldestEligible}
use genesis.Connector.Execute.{
  Adapters, Schedule, World, execute_outbox_item, execute_claimed_outbox_item, is_terminal,
  action_of, result_of,
}
use genesis.Connector.Execute.Effect.{IsAlone, execute_calls_once, claim_of}
use genesis.Connector.Execute.Stale.{NeedsLease, stale_delivery_reopens, execute_claimed-NeedsLease}
use genesis.Connector.Execute.Budget.{IsBudgeted, deliver_all, deliver_all-IsBudgeted, count_calls}
use genesis.Connector.Operator.{requeue_outbox_item, resolve_recovery_required}
use genesis.Connector.Operator.Guards.{
  Requeued, SettledAs, Refused, requeue_guarded, resolve_guarded,
}
use genesis.Connector.Policy.{normalize_delivery_result}
use genesis.Connector.Policy.Backoff.{retry_closed}

abbrev host : Host
host = record { digest = λ s. s; rfc3339_nano = λ t. "2026-01-01T00:00:00Z" }

abbrev waiting : ConnectorOutboxItem
waiting = record zero_item {
  outbox_id = "o1";
  connector = "mail";
  status = OutboxStatus.queued;
  created_at = 1;
}

abbrev disk : OutboxStore
disk = record empty_store { items = ("o1", waiting) ∷ [] }

disk-IsKeyed : IsKeyed disk
unfolding get
disk-IsKeyed = record { at_key = λ k item p. ground (arith, eq_iff "o1" k) }

granted : (claim_outbox_item host io_ok "o1" 5 10 "w1" (ns 100) disk).0.1 ≡ true
unfolding claim_outbox_item get delivery_eligible
granted = refl

claim_excludes_example :
    let t = (claim_outbox_item host io_ok "o1" 5 10 "w1" (ns 100) disk).2 in
    ((claim_outbox_item host io_ok "o1" 5 50 "w2" (ns 30) t).0.1 ≡ false)
    × ((claim_outbox_item host io_ok "o1" 5 50 "w2" (ns 30) t).2 ≡ t)
claim_excludes_example =
    claim_excludes host io_ok io_ok "o1" 5 10 "w1" 100 disk 5 50 "w2" (ns 30) disk-IsKeyed granted
      (omega arith)

claim_next_oldest_example :
    (item : ConnectorOutboxItem) × (ttl : ℕ) × (ns 100 ≡ ns ttl)
    × IsOldestEligible 10 item (values disk.items)
    × (claim_next_outbox_item host io_ok 5 10 "w1" (ns 100) disk ≡ (
      (leased host "w1" 10 ttl item, true),
      none,
      record disk { items = put disk.items item.outbox_id (leased host "w1" 10 ttl item) },
    ))
unfolding claim_next_outbox_item first_eligible sort_by_created values delivery_eligible
claim_next_oldest_example = claim_next_oldest host io_ok 5 10 "w1" (ns 100) disk refl

claim_next_nothing_example :
    All (λ x. delivery_eligible x 10 ≡ false) (values {V = ConnectorOutboxItem} [])
    × ((claim_next_outbox_item host io_ok 5 10 "w1" (ns 100) empty_store).2 ≡ empty_store)
unfolding claim_next_outbox_item first_eligible sort_by_created values
claim_next_nothing_example = claim_next_nothing host io_ok 5 10 "w1" (ns 100) empty_store refl refl

abbrev command : AppCommand
command = record {
  command_id = "";
  kind = "send_message";
  target_ref = record zero_thread_ref { connector = "mail"; kind = "thread"; external_id = "t1" };
  body = "hello";
  resource_refs = [];
  requires_confirmation = false;
  dedupe_key = "k1";
  metadata = [];
  created_at = 7;
}

enqueue_twice_example :
    let t = (enqueue_command host io_ok command 5 10 disk).2 in
    enqueue_command host io_ok command 6 20 t
    ≡ (((enqueue_command host io_ok command 5 10 disk).0.0, true), none, t)
unfolding enqueue_command validate trim get
enqueue_twice_example = enqueue_twice host command io_ok 5 10 6 20 disk command refl refl refl

abbrev adapters : Adapters
adapters connector = some (λ action. (result_of DeliveryStatus.retrying "" zero_time, none))

abbrev run : Schedule
run = record {
  now = 10;
  recorded_at = 11;
  io_get = io_ok;
  io_claim = io_ok;
  io_record = io_ok;
  after_get = λ s. s;
  after_claim = λ s. s;
}

run-IsAlone : IsAlone run
run-IsAlone = record { quiet_get = λ s. refl; quiet_claim = λ s. refl; records = refl }

abbrev world : World
world = record { disk = disk; calls = [] }

world-IsBudgeted : IsBudgeted world
unfolding get is_terminal count_calls
world-IsBudgeted = record { keyed = disk-IsKeyed; within = λ k item p. ground arith }

execute_calls_once_example :
    ((execute_outbox_item host adapters run "o1" world).2.calls ≡ [])
    ⊎ (((claim_of host run "o1" world).0.1 ≡ true)
        × ((claim_of host run "o1" world).1 ≡ none)
        × ((execute_outbox_item host adapters run "o1" world).2.calls
            ≡ action_of (claim_of host run "o1" world).0.0 ∷ []))
execute_calls_once_example = execute_calls_once host adapters run "o1" world

deliver_all-IsBudgeted_example :
    IsBudgeted (deliver_all host adapters ((run, "o1") ∷ (run, "o1") ∷ []) world)
deliver_all-IsBudgeted_example =
    deliver_all-IsBudgeted host adapters ((run, "o1") ∷ (run, "o1") ∷ []) world
      (run-IsAlone, (run-IsAlone, tt)) world-IsBudgeted

-- An item under another worker's lease, and the same item once that worker is done.
abbrev busy : ConnectorOutboxItem
busy = record waiting { lease_id = "l1"; lease_owner = "w1"; lease_expires_at = 100 }

abbrev finished : ConnectorOutboxItem
finished = record waiting { status = OutboxStatus.sent; attempt_count = 1 }

abbrev busy_world : World
busy_world = record { disk = record disk { items = ("o1", busy) ∷ [] }; calls = [] }

abbrev racing : Schedule
racing = record run { after_get = λ s. record s { items = ("o1", finished) ∷ [] } }

stale_delivery_reopens_example :
    get (execute_outbox_item host adapters racing "o1" busy_world).2.disk.items "o1" ≡ some busy
unfolding get is_terminal delivery_lease_active
stale_delivery_reopens_example =
    stale_delivery_reopens host adapters racing busy finished busy_world refl refl refl refl refl
      refl refl refl

execute_claimed-NeedsLease_example :
    ((execute_claimed_outbox_item host adapters run busy busy_world).2.calls ≡ [])
    ⊎ ((item : ConnectorOutboxItem) × (get busy_world.disk.items "o1" ≡ some item)
        × NeedsLease host adapters run busy busy_world item)
execute_claimed-NeedsLease_example = execute_claimed-NeedsLease host adapters run busy busy_world

-- What an adapter answers for a delivery that it wants to be retried two minutes later.
abbrev retry_later : ConnectorActionResult
retry_later = record {
  external_action_ref = "";
  status = DeliveryStatus.retrying;
  reason = "busy";
  next_attempt_at = 120_000_000_007;
}

retry_closed_example :
    let next = normalize_delivery_result waiting retry_later 0 7 in
    ((0 < 2)
      × (next.status ≡ DeliveryStatus.retrying)
      × (next.next_attempt_at ≡ (
          if is_zero 120_000_000_007
          then (if is_zero 7 then 0 else 7) + 30_000_000_000 * 2 ^ 0
          else 120_000_000_007)))
    ⊎ ((2 ≤ 0)
        × (next.status ≡ DeliveryStatus.dead_lettered)
        × (is_zero next.next_attempt_at ≡ true))
retry_closed_example = retry_closed waiting retry_later 0 7 refl

requeue_guarded_example :
    Requeued host io_ok "o1" 10 disk (requeue_outbox_item host io_ok "o1" "" 5 10 disk)
requeue_guarded_example = requeue_guarded host io_ok "o1" 5 10 disk ""

abbrev in_recovery : OutboxStore
in_recovery = record disk {
  items = ("o1", record waiting { status = OutboxStatus.recovery_required }) ∷ [];
}

resolve_guarded_example :
    Refused (resolve_recovery_required host io_ok "o1" "sent" "" "" 5 10 in_recovery) in_recovery
    ⊎ SettledAs host io_ok "o1" 5 10 in_recovery "sent"
        (resolve_recovery_required host io_ok "o1" "sent" "" "" 5 10 in_recovery)
resolve_guarded_example = resolve_guarded host io_ok "o1" 5 10 in_recovery "sent" "" ""
