-- ===== src/Connector/Claims.antt =====
-- ClaimNextOutboxItem and ClaimOutboxItem (store_file.go): delivery leases.
pub mod Exclusive
pub mod Earliest
use genesis.Prelude.{
  ℕ, zero, suc, ◌+◌, String, Bool, true, false, Option, none, some, List, [], ◌∷◌, ltb,
  if◌then◌else◌,
}
use genesis.Prelude.Text.{is_empty}
use genesis.Prelude.Dict.{get, put, values}
use genesis.Connector.Types.{Time, Duration, ns, neg, ConnectorOutboxItem, zero_item}
use genesis.Connector.Ids.{Host, stable_opaque_id}
use genesis.Connector.Store.{
  Io, Transaction, with_locked_state, write_locked, or_clock, delivery_eligible,
}

-- The item under a new lease.
unfoldable pub leased : Host → String → Time → ℕ → ConnectorOutboxItem → ConnectorOutboxItem
leased h owner now ttl item = record item {
  lease_id = stable_opaque_id h "lease" (item.outbox_id ∷ owner ∷ h.rfc3339_nano now ∷ []);
  lease_owner = owner;
  lease_expires_at = now + ttl;
  updated_at = now;
}

claim_body : Host → Io → String → Time → String → ℕ → Transaction (ConnectorOutboxItem × Bool)
claim_body h io outbox_id now owner ttl disk = elim (get disk.items outbox_id) [
  | none ↦ ((zero_item, false), some "outbox item not found", disk)
  | some item ↦
      let item' = leased h owner now ttl item in
      if delivery_eligible item now
      then elim io.write_error [
        | some e ↦ ((item', false), some e, disk)
        | none ↦ ((item', true), none, record disk { items = put disk.items item.outbox_id item' })
      ]
      else ((item, false), none, disk)
]

abbrev refuse : String → Transaction (ConnectorOutboxItem × Bool)
refuse message disk = ((zero_item, false), some message, disk)

-- `leaseDuration <= 0` is refused.
abbrev with_ttl :
    Duration
    → (ℕ → Transaction (ConnectorOutboxItem × Bool))
    → Transaction (ConnectorOutboxItem × Bool)
with_ttl (ns zero) body = refuse "delivery lease duration must be positive"
with_ttl (ns (suc n)) body = body (suc n)
with_ttl (neg n) body = refuse "delivery lease duration must be positive"

-- ClaimOutboxItem
unfoldable pub claim_outbox_item :
    Host → Io → String → Time → Time → String → Duration → Transaction (ConnectorOutboxItem × Bool)
unfolding claim_body with_locked_state
claim_outbox_item h io outbox_id clock now owner lease_duration disk =
    if is_empty outbox_id
    then refuse "outbox id is required" disk
    else if is_empty owner
    then refuse "delivery lease owner is required" disk
    else with_ttl lease_duration
        (λ ttl.
          with_locked_state io (zero_item, false)
            (claim_body h io outbox_id (or_clock clock now) owner ttl))
        disk

-- sort.Slice by CreatedAt, from the order in which `range` gives the items.
unfoldable pub insert_by_created :
    ConnectorOutboxItem → List ConnectorOutboxItem → List ConnectorOutboxItem
insert_by_created item [] = item ∷ []
insert_by_created item (x ∷ xs) =
    if ltb x.created_at item.created_at then x ∷ insert_by_created item xs else item ∷ x ∷ xs

unfoldable pub sort_by_created : List ConnectorOutboxItem → List ConnectorOutboxItem
unfolding insert_by_created
sort_by_created [] = []
sort_by_created (x ∷ xs) = insert_by_created x (sort_by_created xs)

-- The loop over the sorted items: the first that is eligible.
unfoldable pub first_eligible : Time → List ConnectorOutboxItem → Option ConnectorOutboxItem
first_eligible now [] = none
first_eligible now (x ∷ xs) = if delivery_eligible x now then some x else first_eligible now xs

claim_next_body : Host → Io → Time → String → ℕ → Transaction (ConnectorOutboxItem × Bool)
claim_next_body h io now owner ttl disk =
    elim (first_eligible now (sort_by_created (values disk.items))) [
      | none ↦ ((zero_item, false), none, disk)
      | some item ↦
          let item' = leased h owner now ttl item in
          elim io.write_error [
            | some e ↦ ((zero_item, false), some e, disk)
            | none ↦
                ((item', true), none, record disk { items = put disk.items item.outbox_id item' })
          ]
    ]

-- ClaimNextOutboxItem
unfoldable pub claim_next_outbox_item :
    Host → Io → Time → Time → String → Duration → Transaction (ConnectorOutboxItem × Bool)
unfolding claim_next_body with_locked_state
claim_next_outbox_item h io clock now owner lease_duration disk =
    if is_empty owner
    then refuse "delivery lease owner is required" disk
    else with_ttl lease_duration
        (λ ttl.
          with_locked_state io (zero_item, false)
            (claim_next_body h io (or_clock clock now) owner ttl))
        disk
