-- ===== src/Connector/Operator/Guards.antt =====
-- Operator recovery changes only items in the state that it is for.
use genesis.Prelude.{
  String, ◌≡◌, ◌⊎◌, inl, inr, Option, refl, sym, subst, true, not, ◌&&◌, none, some, [], ◌∷◌, ◌++◌,
  Bool-cases, Option-cases, str_eq, eq_iff, if◌then◌else◌,
}
use genesis.Prelude.Text.{is_empty, append, trim}
use genesis.Prelude.Dict.{get, put}
use genesis.Connector.Types.{
  Time, zero_item, zero_receipt, delivery_status_text, ConnectorOutboxItem, DeliveryReceipt,
  OutboxStatus, DeliveryStatus, is_zero,
}
use genesis.Connector.Ids.{Host}
use genesis.Connector.Store.{OutboxStore, Io, receipts_of, with_receipt, or_clock}
use genesis.Connector.Store.Recorded.{locked_cases}
use genesis.Connector.Safety.{safe_reason, safe_external_action_ref}
use genesis.Connector.Operator.{
  requeue_outbox_item, Recovered, released, commit, requeue_found, requeue_body, requeue_receipt,
  resolve_found, resolve_body, resolve_receipt, resolve_as, outcome_delivery,
  resolve_recovery_required, parse_outcome, outcome_outbox, Outcome,
}

-- Every field of an item but its status, its times, the id of its last receipt, and its lease,
-- which the first item has lost.
pub record SameDelivery (a b : ConnectorOutboxItem) : Type 0 where
  pub id : a.outbox_id ≡ b.outbox_id
  pub command : a.command_id ≡ b.command_id
  pub connector : a.connector ≡ b.connector
  pub action : a.action_kind ≡ b.action_kind
  pub target : a.target_ref ≡ b.target_ref
  pub payload : a.payload ≡ b.payload
  pub attempts : a.attempt_count ≡ b.attempt_count
  pub key : a.idempotency_key ≡ b.idempotency_key
  pub created : a.created_at ≡ b.created_at
  pub no_lease : a.lease_id ≡ ""
  pub no_owner : a.lease_owner ≡ ""
  pub no_expiry : is_zero a.lease_expires_at ≡ true

-- A receipt of an item as it was found, which records a status.
pub record IsReceiptOf (receipt : DeliveryReceipt) (item : ConnectorOutboxItem)
    (status : DeliveryStatus) : Type 0 where
  pub of_item : receipt.outbox_id ≡ item.outbox_id
  pub through : receipt.connector ≡ item.connector
  pub records : receipt.status ≡ status
  pub attempt : receipt.attempt ≡ item.attempt_count

-- The transaction reports an error and leaves the file as it was.
abbrev pub Refused : Recovered × Option String × OutboxStore → OutboxStore → Type 0
Refused r s = ((e : String) × (r.1 ≡ some e)) × (r.2 ≡ s)

-- The transaction moves `item` from one status to another, with its lease gone and one receipt more.
abbrev pub Settled :
    OutboxStatus
    → OutboxStatus
    → DeliveryStatus
    → ConnectorOutboxItem
    → Recovered × Option String × OutboxStore
    → OutboxStore
    → Type 0
Settled from to recorded item r s =
    (r.1 ≡ none)
    × (item.status ≡ from)
    × SameDelivery r.0.0 item
    × (r.0.0.status ≡ to)
    × (r.0.0.last_receipt_id ≡ r.0.1.receipt_id)
    × IsReceiptOf r.0.1 item recorded
    × (r.2 ≡ record s {
      items = put s.items item.outbox_id r.0.0;
      receipts = put s.receipts item.outbox_id (receipts_of s item.outbox_id ++ r.0.1 ∷ []);
    })

commit_lem :
    (io : Io) (item : ConnectorOutboxItem) (status : OutboxStatus) (now : Time)
    (receipt : DeliveryReceipt) (s : OutboxStore) (from : OutboxStatus) (recorded : DeliveryStatus)
    → IsReceiptOf receipt item recorded
    → item.status ≡ from
    → Refused (commit io (released item status now) receipt s) s
      ⊎ Settled from status recorded item (commit io (released item status now) receipt s) s
unfolding commit with_receipt
commit_lem io item status now receipt s from recorded of f = elim (Option-cases io.write_error) [
  | inl n ↦ inr (
    rw (n, commit),
    f,
    rw (n, commit)
        (record {
          id = refl;
          command = refl;
          connector = refl;
          action = refl;
          target = refl;
          payload = refl;
          attempts = refl;
          key = refl;
          created = refl;
          no_lease = refl;
          no_owner = refl;
          no_expiry = refl;
        }),
    rw (n, commit),
    rw (n, commit),
    rw (n, commit) of,
    rw (n, commit),
  )
  | inr (e, n) ↦ inl (rw (n, commit) ((e, refl), refl))
]

module _ (h : Host) (io : Io) (now : Time) (s : OutboxStore) (item : ConnectorOutboxItem) where
  requeue_found_lem :
      (st : OutboxStatus) (reason : String)
      → item.status ≡ st
      → let r = requeue_found st h io item reason now s in
        Refused r s
        ⊎ Settled OutboxStatus.dead_letter OutboxStatus.queued DeliveryStatus.retrying item r s
  unfolding requeue_found requeue_receipt
  requeue_found_lem OutboxStatus.dead_letter reason e =
      commit_lem io item OutboxStatus.queued now (requeue_receipt h item reason now) s _
        DeliveryStatus.retrying
        (record { of_item = refl; through = refl; records = refl; attempt = refl }) e
  requeue_found_lem _ reason e = inl (("outbox item is not dead-lettered", refl), refl)

  resolve_found_lem :
      (st : OutboxStatus) (o : Outcome) (reason action_ref : String)
      → item.status ≡ st
      → let r = resolve_found st h io item o reason action_ref now s in
        Refused r s
        ⊎ Settled OutboxStatus.recovery_required (outcome_outbox o) (outcome_delivery o) item r s
  unfolding resolve_found resolve_receipt
  resolve_found_lem OutboxStatus.recovery_required o reason action_ref e =
      commit_lem io item (outcome_outbox o) now
        (resolve_receipt h item (outcome_delivery o) reason action_ref now) s _ (outcome_delivery o)
        (record { of_item = refl; through = refl; records = refl; attempt = refl }) e
  resolve_found_lem _ o reason action_ref e =
      inl (("outbox item is not recovery-required", refl), refl)

-- The texts that name an outcome.
parse_cases :
    (text : String)
    → (parse_outcome text ≡ none)
      ⊎ (text ≡ "sent") × (parse_outcome text ≡ some Outcome.resolved_sent)
      ⊎ (text ≡ "dead_lettered") × (parse_outcome text ≡ some Outcome.resolved_dead_lettered)
unfolding parse_outcome
parse_cases text = elim (Bool-cases (str_eq text "sent")) [
  | inl t ↦ inr (inl ((eq_iff text "sent").0 t, rw t refl))
  | inr f ↦ elim (Bool-cases (str_eq text "dead_lettered")) [
    | inl t ↦ inr (inr ((eq_iff text "dead_lettered").0 t, rw (f, t) refl))
    | inr g ↦ inl (rw (f, g) refl)
  ]
]

module _ (h : Host) (io : Io) (id : String) (now : Time) (s : OutboxStore) where
  -- The item that was found, beside what holds of it.
  found_or :
      {R : Type 0} (P : ConnectorOutboxItem → Type 0) (item : ConnectorOutboxItem)
      → get s.items id ≡ some item
      → R ⊎ P item
      → R ⊎ ((it : ConnectorOutboxItem) × (get s.items id ≡ some it) × P it)
  found_or P item e (inl r) = inl r
  found_or P item e (inr p) = inr (item, e, p)

  abbrev pub Requeued : Recovered × Option String × OutboxStore → Type 0
  Requeued r =
      Refused r s
      ⊎ ((item : ConnectorOutboxItem) × (get s.items id ≡ some item)
          × Settled OutboxStatus.dead_letter OutboxStatus.queued DeliveryStatus.retrying item r s)

  abbrev Resolved : Outcome → Recovered × Option String × OutboxStore → Type 0
  Resolved o r =
      Refused r s
      ⊎ ((item : ConnectorOutboxItem) × (get s.items id ≡ some item)
          × Settled OutboxStatus.recovery_required (outcome_outbox o) (outcome_delivery o) item r s)

  requeue_body_lem : (reason : String) → Requeued (requeue_body h io id reason now s)
  unfolding requeue_body
  requeue_body_lem reason = elim (Option-cases (get s.items id)) [
    | inl n ↦ inl (rw (n, requeue_body) (("outbox item not found", refl), refl))
    | inr (item, e) ↦ subst Requeued (sym (rw (e, requeue_body))) (
        found_or
          (λ it.
            Settled OutboxStatus.dead_letter OutboxStatus.queued DeliveryStatus.retrying it
              (requeue_found item.status h io item reason now s) s)
          item e (requeue_found_lem h io now s item item.status reason refl))
  ]

  resolve_body_lem :
      (o : Outcome) (reason action_ref : String)
      → Resolved o (resolve_body h io id o reason action_ref now s)
  unfolding resolve_body
  resolve_body_lem o reason action_ref = elim (Option-cases (get s.items id)) [
    | inl n ↦ inl (rw (n, resolve_body) (("outbox item not found", refl), refl))
    | inr (item, e) ↦ subst (Resolved o) (sym (rw (e, resolve_body))) (
        found_or
          (λ it.
            Settled OutboxStatus.recovery_required (outcome_outbox o) (outcome_delivery o) it
              (resolve_found item.status h io item o reason action_ref now s) s)
          item e (resolve_found_lem h io now s item item.status o reason action_ref refl))
  ]

module _ (h : Host) (io : Io) (id : String) (clock now : Time) (s : OutboxStore) where
  -- A requeue either reports an error and leaves the file as it was, or it found a dead-lettered
  -- item and queues it again with its attempts kept, its lease gone and one receipt more.
  pub requeue_guarded :
      (reason : String)
      → Requeued h io id (or_clock clock now) s (requeue_outbox_item h io id reason clock now s)
  unfolding requeue_outbox_item
  requeue_guarded reason = elim (Bool-cases (is_empty id)) [
    | inl t ↦ rw (t, requeue_outbox_item) (inl (("outbox id is required", refl), refl))
    | inr f ↦
        let reason' = if is_empty (trim reason) then "operator_requeued" else trim reason in
        elim (Bool-cases (safe_reason reason')) [
          | inr u ↦
              rw (f, u, requeue_outbox_item)
                (inl (("operator recovery reason is unsafe", refl), refl))
          | inl t ↦
              rw (f, t, requeue_outbox_item)
                (locked_cases (Requeued h io id (or_clock clock now) s) io (zero_item, zero_receipt)
                  (requeue_body h io id reason' (or_clock clock now)) s (λ e. inl ((e, refl), refl))
                  (requeue_body_lem h io id (or_clock clock now) s reason'))
        ]
  ]

  resolve_as_lem :
      (o : Outcome) (reason action_ref : String)
      → Resolved h io id
          (or_clock clock now)
          s
          o
          (resolve_as h io id o reason action_ref (or_clock clock now) s)
  unfolding resolve_as
  resolve_as_lem o reason action_ref =
      let fallback = append "operator_resolved_" (delivery_status_text (outcome_delivery o)) in
      let reason' = if is_empty (trim reason) then fallback else trim reason in
      let ref = trim action_ref in
      elim (Bool-cases (safe_reason reason')) [
        | inr u ↦ rw (u, resolve_as) (inl (("operator recovery reason is unsafe", refl), refl))
        | inl t ↦ elim (Bool-cases (not (is_empty ref) && not (safe_external_action_ref ref))) [
          | inl u ↦
              rw (t, u, resolve_as)
                (inl (("operator recovery external action ref is unsafe", refl), refl))
          | inr f ↦
              rw (t, f, resolve_as)
                (locked_cases (Resolved h io id (or_clock clock now) s o) io
                  (zero_item, zero_receipt)
                  (resolve_body h io id o reason' ref (or_clock clock now)) s
                  (λ e. inl ((e, refl), refl))
                  (resolve_body_lem h io id (or_clock clock now) s o reason' ref))
        ]
      ]

  -- An item in recovery was found, and it is settled as the operator's trimmed text says.
  abbrev pub SettledAs : String → Recovered × Option String × OutboxStore → Type 0
  SettledAs text r =
      (item : ConnectorOutboxItem) × (get s.items id ≡ some item)
      × ((trim text ≡ "sent")
            × Settled OutboxStatus.recovery_required OutboxStatus.sent DeliveryStatus.sent item r s
          ⊎ (trim text ≡ "dead_lettered")
            × Settled OutboxStatus.recovery_required OutboxStatus.dead_letter
                DeliveryStatus.dead_lettered item r s)

  -- A resolution either reports an error and leaves the file as it was, or an item in recovery was
  -- found and is settled: as sent where the operator's trimmed outcome is `sent`, as a dead letter
  -- where it is `dead_lettered`, and no other outcome settles it. The item keeps its attempts, its
  -- lease is gone, and the file has it with one receipt more, which records the outcome.
  pub resolve_guarded :
      (outcome reason action_ref : String)
      → let r = resolve_recovery_required h io id outcome reason action_ref clock now s in
        Refused r s ⊎ SettledAs outcome r
  unfolding resolve_recovery_required
  resolve_guarded outcome reason action_ref = elim (Bool-cases (is_empty id)) [
    | inl t ↦ inl (rw (t, resolve_recovery_required) (("outbox id is required", refl), refl))
    | inr f ↦ elim (parse_cases (trim outcome)) [
      | inl n ↦ inl (
          rw (f, n, resolve_recovery_required)
            (("operator recovery outcome must be sent or dead_lettered", refl), refl))
      | inr (inl (e, n)) ↦
          rw (f, n, resolve_recovery_required)
            (elim (resolve_as_lem Outcome.resolved_sent reason action_ref) [
              | inl refused ↦ inl refused
              | inr (item, g, settled) ↦ inr (item, g, inl (e, settled))
            ])
      | inr (inr (e, n)) ↦
          rw (f, n, resolve_recovery_required)
            (elim (resolve_as_lem Outcome.resolved_dead_lettered reason action_ref) [
              | inl refused ↦ inl refused
              | inr (item, g, settled) ↦ inr (item, g, inr (e, settled))
            ])
    ]
  ]
