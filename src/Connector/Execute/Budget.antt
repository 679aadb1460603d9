-- ===== src/Connector/Execute/Budget.antt =====
-- Deliveries one after the other: an item has at most three attempts.
use genesis.Prelude.{
  ℕ, ◌+◌, ◌≤◌, ◌<◌, String, ◌≡◌, ◌⊎◌, inl, inr, refl, sym, ap, ◌∙◌, ◌&&◌, true, false, some, List,
  [], ◌∷◌, ◌++◌, arith, eq_iff, Bool-cases, Option-cases, str_eq, if◌then◌else◌,
}
use genesis.Prelude.Text.{is_empty}
use genesis.Prelude.Dict.{get, put, get-put, get-put_self}
use genesis.Connector.Types.{Time, ns, after, ConnectorOutboxItem, ConnectorAction, DeliveryReceipt}
use genesis.Connector.Ids.{Host}
use genesis.Connector.Policy.{default_delivery_lease_owner, default_delivery_lease_ttl}
use genesis.Connector.Store.{
  record_delivery, get_outbox_item, or_clock, delivery_eligible, delivery_lease_active,
}
use genesis.Connector.Store.Keys.{IsKeyed}
use genesis.Connector.Store.Recorded.{record_same, get_result}
use genesis.Connector.Claims.{claim_outbox_item, leased}
use genesis.Connector.Claims.Exclusive.{claim_result}
use genesis.Connector.Execute.{
  Adapters, Schedule, World, execute_leased, execute_outbox_item, execute_read, claim_and_execute,
  is_retrying, record_and_return, action_of, is_terminal,
}
use genesis.Connector.Execute.Effect.{
  IsAlone, IsAttempted, attempted, attempted_lem, items-execute_leased, calls-execute_leased,
}

-- The two things that a delivery does: it leaves the items and the calls as they were, or it
-- records an attempt of the item and makes at most one call, for that item.
pub data Effect (id : String) (w w' : World) : Type 0 where
  idle :
      ((k : String) → get w'.disk.items k ≡ get w.disk.items k)
      → w'.calls ≡ w.calls
      → Effect id w w'
  attempt :
      (item item' : ConnectorOutboxItem)
      → get w.disk.items id ≡ some item
      → is_terminal item.status ≡ false
      → IsAttempted item item'
      → ((k : String)
          → get w'.disk.items k ≡ (if str_eq id k then some item' else get w.disk.items k))
      → (w'.calls ≡ w.calls)
        ⊎ ((action : ConnectorAction) × (action.outbox_id ≡ id)
            × (w'.calls ≡ w.calls ++ action ∷ []))
      → Effect id w w'

eligible_not_terminal :
    (item : ConnectorOutboxItem) (now : Time)
    → delivery_eligible item now ≡ true
    → is_terminal item.status ≡ false
unfolding delivery_eligible is_terminal
eligible_not_terminal item now e = ground arith

leased-IsAttempted :
    (h : Host) (owner : String) (now : Time) (ttl : ℕ) (item item' : ConnectorOutboxItem)
    → IsAttempted (leased h owner now ttl item) item'
    → IsAttempted item item'
unfolding leased
leased-IsAttempted h owner now ttl item item' a = record {
  same_id = a.same_id;
  counted = a.counted;
  open_below = a.open_below;
  released = a.released;
}

module _ (h : Host) (adapters : Adapters) (run : Schedule) (alone : IsAlone run) (id : String)
    (w : World) where
  -- The two cases of a delivery that gets as far as reading the item.
  Effect-leased :
      (item : ConnectorOutboxItem) (owner : String) (now : Time) (ttl : ℕ)
      → IsKeyed w.disk
      → is_empty id ≡ false
      → get w.disk.items id ≡ some item
      → is_terminal item.status ≡ false
      → let it = leased h owner now ttl item in
        Effect id w
          (execute_leased h adapters run it
            (record w { disk = record w.disk { items = put w.disk.items item.outbox_id it } })).2
  unfolding leased action_of
  Effect-leased item owner now ttl keyed ne e alive =
      let it = leased h owner now ttl item in
      let own : item.outbox_id ≡ id = keyed.at_key id item e in
      let w₁ = record w { disk = record w.disk { items = put w.disk.items item.outbox_id it } } in
      let ne' : is_empty it.outbox_id ≡ false = rw own ne in
      let stored : get w₁.disk.items it.outbox_id ≡ some it =
        get-put_self w.disk.items item.outbox_id it in
      attempt item (attempted h adapters run it) e alive
        (leased-IsAttempted h owner now ttl item _ (attempted_lem h adapters run it))
        (λ k. ground (
          arith,
          own,
          items-execute_leased h adapters run alone it it w₁ k ne' stored,
          get-put w.disk.items item.outbox_id k it,
        ))
        (called it (calls-execute_leased h adapters run it w₁) own)
    where
      called :
          (it : ConnectorOutboxItem) {cs : List ConnectorAction}
          → (cs ≡ w.calls) ⊎ (cs ≡ w.calls ++ action_of it ∷ [])
          → it.outbox_id ≡ id
          → (cs ≡ w.calls)
            ⊎ ((action : ConnectorAction) × (action.outbox_id ≡ id) × (cs ≡ w.calls ++ action ∷ []))
      called it (inl p) own = inl p
      called it (inr p) own = inr (action_of it, own, p)

  Effect-recorded :
      (item : ConnectorOutboxItem) (receipt : DeliveryReceipt)
      → IsKeyed w.disk
      → get w.disk.items id ≡ some item
      → Effect id w (record w { disk = (record_delivery run.io_record item receipt w.disk).2 })
  Effect-recorded item receipt keyed e =
      idle
        (λ k.
          record_same run.io_record item receipt w.disk k
            (ap (get w.disk.items) (keyed.at_key id item e) ∙ e))
        refl

  -- The claim of a delivery that has read the item, and what follows it.
  Effect-claimed :
      (item : ConnectorOutboxItem)
      → IsKeyed w.disk
      → is_empty id ≡ false
      → get w.disk.items id ≡ some item
      → Effect id w (claim_and_execute h adapters run id w).2
  unfolding claim_and_execute record_and_return
  Effect-claimed item keyed ne e =
      elim (claim_result h run.io_claim id run.now run.now default_delivery_lease_owner
        (ns default_delivery_lease_ttl) w.disk item e) [
          | inl (g, n, ttl, d, el, it, t) ↦
              rw (n, g, it, t, claim_and_execute)
                (Effect-leased item default_delivery_lease_owner (or_clock run.now run.now) ttl
                  keyed ne e (eligible_not_terminal item (or_clock run.now run.now) el))
          | inr (g, t, it) ↦
              elim (Option-cases
                (claim_outbox_item h run.io_claim id run.now run.now default_delivery_lease_owner
                  (ns default_delivery_lease_ttl) w.disk).1) [
                    | inl n ↦
                        rw (n, g, t, it n, alone.quiet_claim w.disk, claim_and_execute)
                          (Effect-recorded item _ keyed e)
                    | inr (x, n) ↦ rw (n, t, claim_and_execute) (idle (λ k. refl) refl)
                  ]
        ]

  -- A delivery that has read the item.
  Effect-read :
      (item : ConnectorOutboxItem)
      → IsKeyed w.disk
      → is_empty id ≡ false
      → get w.disk.items id ≡ some item
      → Effect id w (execute_read h adapters run id item w).2
  unfolding execute_read record_and_return
  Effect-read item keyed ne e = elim (Bool-cases (is_terminal item.status)) [
    | inl t ↦ rw (t, execute_read) (Effect-recorded item _ keyed e)
    | inr alive ↦
        elim (Bool-cases (is_retrying item.status && after item.next_attempt_at run.now)) [
          | inl t ↦ rw (alive, t, execute_read) (Effect-recorded item _ keyed e)
          | inr f ↦ elim (Bool-cases (delivery_lease_active item run.now)) [
            | inl t ↦ rw (alive, f, t, execute_read) (Effect-recorded item _ keyed e)
            | inr g ↦ rw (alive, f, g, execute_read) (Effect-claimed item keyed ne e)
          ]
        ]
  ]

  -- One delivery: nothing happens to the items and the adapters, or one attempt is recorded.
  pub execute-Effect : IsKeyed w.disk → Effect id w (execute_outbox_item h adapters run id w).2
  unfolding execute_outbox_item
  execute-Effect keyed =
      let (same, found) = get_result run.io_get id w.disk in
      elim (Option-cases (get_outbox_item run.io_get id w.disk).1) [
        | inl n ↦
            let (ne, e) = found n in
            rw (n, same, alone.quiet_get w.disk, execute_outbox_item)
              (Effect-read (get_outbox_item run.io_get id w.disk).0 keyed ne e)
        | inr (x, n) ↦ rw (n, same, execute_outbox_item) (idle (λ k. refl) refl)
      ]

-- The number of calls for an outbox id.
unfoldable pub count_calls : String → List ConnectorAction → ℕ
count_calls id [] = 0
count_calls id (a ∷ as') = (if str_eq a.outbox_id id then 1 else 0) + count_calls id as'

-- Every item has at least as many attempts as calls, and at most three; one that may still be
-- delivered has fewer than three.
pub record IsBudgeted (w : World) : Type 0 where
  pub keyed : IsKeyed w.disk
  pub within :
      (k : String) (item : ConnectorOutboxItem)
      → get w.disk.items k ≡ some item
      → (count_calls k w.calls ≤ item.attempt_count)
        × (item.attempt_count ≤ 3)
        × (is_terminal item.status ≡ false → item.attempt_count < 3)

count_calls-append :
    (id : String) (xs : List ConnectorAction) (a : ConnectorAction)
    → count_calls id (xs ++ a ∷ []) ≡ count_calls id xs + (if str_eq a.outbox_id id then 1 else 0)
unfolding count_calls
count_calls-append id [] a = omega arith
count_calls-append id (x ∷ xs) a = omega (arith, count_calls-append id xs a)

-- At most one call more for the item itself, and none for another.
calls_grow :
    (id : String) (w w' : World) (k : String)
    → (w'.calls ≡ w.calls)
      ⊎ ((action : ConnectorAction) × (action.outbox_id ≡ id) × (w'.calls ≡ w.calls ++ action ∷ []))
    → count_calls k w'.calls ≤ count_calls k w.calls + (if str_eq id k then 1 else 0)
calls_grow id w w' k (inl p) = rw p (omega arith)
calls_grow id w w' k (inr (a, own, p)) =
    rw (p, count_calls-append k w.calls a) (ground (arith, own))

Effect-IsBudgeted : {id : String} {w w' : World} → Effect id w w' → IsBudgeted w → IsBudgeted w'
Effect-IsBudgeted (idle same calls) b = record {
  keyed = record { at_key = λ k item e. b.keyed.at_key k item (sym (same k) ∙ e) };
  within = λ k item e. rw calls (b.within k item (sym (same k) ∙ e));
}
Effect-IsBudgeted {id} {w} {w'} (attempt item item' e alive att items calls) b = record {
  keyed = record {
    at_key = λ k found p.
        ground (arith, items k, att, b.keyed.at_key k found, b.keyed.at_key id item e, eq_iff id k);
  };
  within = λ k found p. ground (
    arith,
    items k,
    att,
    b.within k found,
    b.within id item e,
    eq_iff id k,
    calls_grow id w w' k calls,
  );
}

-- One delivery of a list, by its id, after the other.
pub deliver_all : Host → Adapters → List (Schedule × String) → World → World
deliver_all h adapters [] w = w
deliver_all h adapters ((run, id) ∷ rest) w =
    deliver_all h adapters rest (execute_outbox_item h adapters run id w).2

abbrev pub AllAlone : List (Schedule × String) → Type 0
AllAlone [] = Unit
AllAlone ((run, id) ∷ rest) = IsAlone run × AllAlone rest

-- From a world that keeps the budget, deliveries one after the other, each with no other process
-- at work and its receipt recorded, lead to a world that keeps it: no item has more than three
-- attempts, and the adapters were called for an item no more often than it has attempts.
pub deliver_all-IsBudgeted :
    (h : Host) (adapters : Adapters) (runs : List (Schedule × String)) (w : World)
    → AllAlone runs
    → IsBudgeted w
    → IsBudgeted (deliver_all h adapters runs w)
unfolding deliver_all
deliver_all-IsBudgeted h adapters [] w alone b = b
deliver_all-IsBudgeted h adapters ((run, id) ∷ rest) w alone b =
    deliver_all-IsBudgeted h adapters rest (execute_outbox_item h adapters run id w).2 alone.1
      (Effect-IsBudgeted (execute-Effect h adapters run alone.0 id w b.keyed) b)
