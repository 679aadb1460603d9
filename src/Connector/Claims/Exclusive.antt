-- ===== src/Connector/Claims/Exclusive.antt =====
-- Claims are exclusive while their lease lasts.
use genesis.Prelude.{
  ℕ, zero, suc, ◌+◌, ◌<◌, String, ◌≡◌, refl, true, false, ◌⊎◌, inl, inr, Bool-cases, Option-cases,
  none, some, arith,
}
use genesis.Prelude.Dict.{get, put, get-put_self}
use genesis.Connector.Types.{Time, Duration, ns, neg, ConnectorOutboxItem}
use genesis.Connector.Ids.{Host, stable_opaque_id}
use genesis.Connector.Store.{OutboxStore, Io, or_clock, delivery_eligible}
use genesis.Connector.Store.Keys.{IsKeyed}
use genesis.Connector.Claims.{claim_outbox_item, leased}

-- A leased item is not eligible before its lease runs out.
pub leased_not_eligible :
    (h : Host) (owner : String) (now later : Time) (ttl : ℕ) (item : ConnectorOutboxItem)
    → later < now + ttl
    → delivery_eligible (leased h owner now ttl item) later ≡ false
unfolding leased delivery_eligible stable_opaque_id
leased_not_eligible h owner now later ttl item lt = ground arith

module _ (h : Host) (io : Io) (id : String) (clock now : Time) (owner : String) where
  -- A claim of an item that is not eligible gives no lease and leaves the file as it was.
  pub claim_of_ineligible :
      (d : Duration) (s : OutboxStore) (item : ConnectorOutboxItem)
      → get s.items id ≡ some item
      → delivery_eligible item (or_clock clock now) ≡ false
      → ((claim_outbox_item h io id clock now owner d s).0.1 ≡ false)
        × ((claim_outbox_item h io id clock now owner d s).2 ≡ s)
  unfolding claim_outbox_item
  claim_of_ineligible (ns zero) s item e f = ground arith
  claim_of_ineligible (ns (suc n)) s item e f = ground arith
  claim_of_ineligible (neg n) s item e f = ground arith

  -- What a claim that was granted found and wrote.
  pub claim_granted :
      (d : Duration) (s : OutboxStore)
      → (claim_outbox_item h io id clock now owner d s).0.1 ≡ true
      → (item : ConnectorOutboxItem) × (ttl : ℕ) × (d ≡ ns ttl)
        × (get s.items id ≡ some item)
        × (delivery_eligible item (or_clock clock now) ≡ true)
        × ((claim_outbox_item h io id clock now owner d s).2 ≡ record s {
          items = put s.items item.outbox_id (leased h owner (or_clock clock now) ttl item);
        })
  unfolding claim_outbox_item
  claim_granted (ns zero) s granted = ground arith
  claim_granted (ns (suc n)) s granted = elim (Option-cases (get s.items id)) [
    | inl e ↦ ground arith
    | inr (item, e) ↦ (item, suc n, refl, e, ground arith, ground arith)
  ]
  claim_granted (neg n) s granted = ground arith

  -- A granted claim returns the leased item and no error; any other leaves the file as it was, and
  -- without an error it returns the stored item.
  pub claim_result :
      (d : Duration) (s : OutboxStore) (item : ConnectorOutboxItem)
      → get s.items id ≡ some item
      → let r = claim_outbox_item h io id clock now owner d s in
        ((r.0.1 ≡ true)
          × (r.1 ≡ none)
          × (ttl : ℕ) × (d ≡ ns ttl)
          × (delivery_eligible item (or_clock clock now) ≡ true)
          × (r.0.0 ≡ leased h owner (or_clock clock now) ttl item)
          × (r.2 ≡ record s {
            items = put s.items item.outbox_id (leased h owner (or_clock clock now) ttl item);
          }))
        ⊎ ((r.0.1 ≡ false) × (r.2 ≡ s) × (r.1 ≡ none → r.0.0 ≡ item))
  unfolding claim_outbox_item
  claim_result (ns zero) s item e = inr (ground arith, ground arith, λ n. ground arith)
  claim_result (ns (suc n)) s item e =
      elim (Bool-cases (claim_outbox_item h io id clock now owner (ns (suc n)) s).0.1) [
        | inl g ↦ inl (g, ground arith, suc n, refl, ground arith, ground arith, ground arith)
        | inr g ↦ inr (g, ground arith, λ n. ground arith)
      ]
  claim_result (neg n) s item e = inr (ground arith, ground arith, λ n. ground arith)

-- A granted claim leaves, under the claimed id, the item with its new lease.
pub get-claim_granted :
    (h : Host) (io : Io) (id : String) (clock now : Time) (owner : String) (ttl : ℕ)
    (s : OutboxStore)
    → IsKeyed s
    → (claim_outbox_item h io id clock now owner (ns ttl) s).0.1 ≡ true
    → (item : ConnectorOutboxItem) × (get s.items id ≡ some item)
      × (delivery_eligible item (or_clock clock now) ≡ true)
      × (get (claim_outbox_item h io id clock now owner (ns ttl) s).2.items id
          ≡ some (leased h owner (or_clock clock now) ttl item))
get-claim_granted h io id clock now owner ttl s keyed granted =
    let (item, ttl', d, e, f, t) = claim_granted h io id clock now owner (ns ttl) s granted in
    let same : ttl' ≡ ttl = cc in
    let own : item.outbox_id ≡ id = keyed.at_key id item e in
    (
      item,
      e,
      f,
      rw (t, own, same) (get-put_self s.items id (leased h owner (or_clock clock now) ttl item)),
    )

-- In an outbox whose items stand under their own ids: while the lease of a granted ClaimOutboxItem
-- lasts, no further claim of the same item is granted, by whatever owner and for whatever
-- duration, and such a claim leaves the outbox file as it was.
pub claim_excludes :
    (h : Host) (io io' : Io) (id : String) (clock now : Time) (owner : String) (ttl : ℕ)
    (s : OutboxStore) (clock' later : Time) (owner' : String) (d : Duration)
    → IsKeyed s
    → (claim_outbox_item h io id clock now owner (ns ttl) s).0.1 ≡ true
    → or_clock clock' later < or_clock clock now + ttl
    → let t = (claim_outbox_item h io id clock now owner (ns ttl) s).2 in
      ((claim_outbox_item h io' id clock' later owner' d t).0.1 ≡ false)
      × ((claim_outbox_item h io' id clock' later owner' d t).2 ≡ t)
claim_excludes h io io' id clock now owner ttl s clock' later owner' d keyed granted lt =
    let (item, e, f, g) = get-claim_granted h io id clock now owner ttl s keyed granted in
    claim_of_ineligible h io' id clock' later owner' d _ _ g
      (leased_not_eligible h owner (or_clock clock now) (or_clock clock' later) ttl item lt)
