-- ===== src/Connector/Policy/Backoff.antt =====
-- The retry delay in closed form.
use native.Mathlib.Nat.{pow-suc}
use Prim.Native.Nat.{min}
use genesis.Prelude.{
  ℕ, zero, suc, ◌+◌, ◌*◌, ◌^◌, ◌≤◌, ◌<◌, ◌≡◌, ap, ◌∙◌, ◌⊎◌, inl, inr, true, refl, arith, Bool-cases,
  leb, if◌then◌else◌,
}
use genesis.Connector.Types.{
  Time, is_zero, ConnectorOutboxItem, ConnectorActionResult, DeliveryStatus,
}
use genesis.Connector.Policy.{
  backoff, default_next_attempt_at, default_retry_base_delay, default_retry_max_delay, normalize_by,
  normalize_delivery_result,
}

pow_pos : (n : ℕ) → 0 < 2 ^ n
pow_pos zero = omega arith
pow_pos (suc n) = rw pow-suc (omega (arith, pow_pos n))

doubled : (d p : ℕ) → 0 < p → d * 2 ≤ d * (p * 2)
doubled d zero h = elim h [ ]
doubled d (suc q) h = omega arith

backoff_lem :
    (rounds delay : ℕ)
    → delay < default_retry_max_delay
    → backoff rounds delay ≡ min (delay * 2 ^ rounds) default_retry_max_delay
unfolding backoff
backoff_lem zero delay h = omega arith
backoff_lem (suc rounds) delay h = elim (Bool-cases (leb default_retry_max_delay (delay * 2))) [
  | inl e ↦ rw e (rw pow-suc (ground (arith, doubled delay (2 ^ rounds) (pow_pos rounds))))
  | inr e ↦ rw e (
      rw pow-suc (
        backoff_lem rounds (delay * 2) (ground arith)
        ∙ ap (λ n. min n default_retry_max_delay) (omega arith)))
]

-- defaultNextAttemptAt after the n-th attempt: 30 s * 2 ^ (n - 1) later, and at most 5 min later.
next_attempt_closed :
    (clock now : Time) (attempt : ℕ)
    → default_next_attempt_at clock now (suc attempt)
      ≡ (if is_zero now then clock else now)
        + min (default_retry_base_delay * 2 ^ attempt) default_retry_max_delay
unfolding default_next_attempt_at
next_attempt_closed clock now attempt =
    ground (arith, backoff_lem attempt default_retry_base_delay (omega arith))

-- Within the attempts that are retried, the delay has not met its maximum.
early_delay :
    (n : ℕ)
    → n < 2
    → min (default_retry_base_delay * 2 ^ n) default_retry_max_delay ≡ 30_000_000_000 * 2 ^ n
early_delay zero h = refl
early_delay (suc zero) h = refl
early_delay (suc (suc n)) h = omega (arith, h)

-- What becomes of a delivery that is to be retried, by the attempts made before it: a first or a
-- second one is retried, when the adapter says or else 30 s or 60 s later; from the third on it is
-- a dead letter without a next attempt. A time that is `now` is that of the clock where `now` is
-- the zero time.
pub retry_closed :
    (item : ConnectorOutboxItem) (result : ConnectorActionResult) (clock now : Time)
    → result.status ≡ DeliveryStatus.retrying
    → let next = normalize_delivery_result item result clock now in
      ((item.attempt_count < 2)
        × (next.status ≡ DeliveryStatus.retrying)
        × (next.next_attempt_at ≡ (
            if is_zero result.next_attempt_at
            then (if is_zero now then clock else now) + 30_000_000_000 * 2 ^ item.attempt_count
            else result.next_attempt_at)))
      ⊎ ((2 ≤ item.attempt_count)
          × (next.status ≡ DeliveryStatus.dead_lettered)
          × (is_zero next.next_attempt_at ≡ true))
unfolding normalize_delivery_result normalize_by
retry_closed item result clock now h = elim (Bool-cases (leb 2 item.attempt_count)) [
  | inl e ↦ inr (ground (arith, e), ground (arith, e, h), ground (arith, e, h))
  | inr e ↦
      let n = item.attempt_count in
      let few : n < 2 = ground (arith, e) in
      inl (
        few,
        ground (arith, e, h),
        ground (arith, e, h, next_attempt_closed clock now n, early_delay n few),
      )
]
