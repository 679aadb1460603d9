-- ===== src/Connector/Policy.antt =====
-- delivery_policy.go: what becomes of a delivery attempt's result.
pub mod Backoff
use Prim.Native.Nat.{zero, suc}
use genesis.Prelude.{ℕ, String, ◌+◌, ◌-◌, ◌*◌, leb, ltb, if◌then◌else◌}
use genesis.Prelude.Text.{is_empty}
use genesis.Connector.Types.{
  Time, ConnectorActionResult, ConnectorOutboxItem, DeliveryStatus, is_zero, zero_time,
}

abbrev pub default_max_delivery_attempts : ℕ
default_max_delivery_attempts = 3

-- 30 s, 5 min and 2 min in nanoseconds.
abbrev pub default_retry_base_delay : ℕ
default_retry_base_delay = 30_000_000_000

abbrev pub default_retry_max_delay : ℕ
default_retry_max_delay = 300_000_000_000

abbrev pub default_delivery_lease_ttl : ℕ
default_delivery_lease_ttl = 120_000_000_000

abbrev pub default_delivery_lease_owner : String
default_delivery_lease_owner = "connector-runtime"

-- The loop of `defaultNextAttemptAt`, on the rounds left; it breaks at the maximum.
unfoldable pub backoff : ℕ → ℕ → ℕ
backoff zero delay = delay
backoff (suc rounds) delay =
    let rest = backoff rounds (delay * 2) in
    if leb default_retry_max_delay (delay * 2) then default_retry_max_delay else rest

-- defaultNextAttemptAt; `clock` is `time.Now()`, which is read when `now` is the zero time.
unfoldable pub default_next_attempt_at : Time → Time → ℕ → Time
default_next_attempt_at clock now attempt =
    let start = if is_zero now then clock else now in
    let attempt' = if ltb attempt 1 then 1 else attempt in
    start + backoff (attempt' - 1) default_retry_base_delay

abbrev reason_or : String → String → String
reason_or reason fallback = if is_empty reason then fallback else reason

-- The `switch` of `normalizeDeliveryResult` on the status.
normalize_by : DeliveryStatus → ℕ → ConnectorActionResult → Time → Time → ConnectorActionResult
unfolding default_next_attempt_at
normalize_by DeliveryStatus.retrying attempt result clock now =
    if leb default_max_delivery_attempts attempt
    then record result {
      status = DeliveryStatus.dead_lettered;
      next_attempt_at = zero_time;
      reason = reason_or result.reason "retry_exhausted";
    }
    else if is_zero result.next_attempt_at
    then record result { next_attempt_at = default_next_attempt_at clock now attempt }
    else result
normalize_by DeliveryStatus.failed attempt result clock now = record result {
  status = DeliveryStatus.dead_lettered;
  reason = reason_or result.reason "delivery_failed";
}
normalize_by DeliveryStatus.partial_success attempt result clock now = record result {
  reason = reason_or result.reason "recovery_required";
}
normalize_by DeliveryStatus.ambiguous attempt result clock now = record result {
  reason = reason_or result.reason "recovery_required";
}
normalize_by _ attempt result clock now = result

unfoldable pub normalize_delivery_result :
    ConnectorOutboxItem → ConnectorActionResult → Time → Time → ConnectorActionResult
unfolding normalize_by
normalize_delivery_result item result clock now =
    normalize_by result.status (item.attempt_count + 1) result clock now
