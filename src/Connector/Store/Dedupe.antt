-- ===== src/Connector/Store/Dedupe.antt =====
-- EnqueueCommand stores one item for each dedupe key.
use genesis.Prelude.{String, ◌≡◌, true, none, some, inl, inr, arith, ap, ◌∙◌, Option-cases}
use genesis.Prelude.Dict.{get, get-put_self}
use genesis.Connector.Types.{Time, AppCommand, ConnectorOutboxItem}
use genesis.Connector.Ids.{Host, validate, outbox_dedupe_key, to_outbox_item}
use genesis.Connector.Store.{OutboxStore, Io, io_ok, item_or_zero, or_clock, enqueue_command}

module _ (h : Host) (c : AppCommand) where
  -- What an enqueue without an error leaves: the key names the returned item.
  pub enqueue_ok :
      (io : Io) (clock now : Time) (s : OutboxStore)
      → (enqueue_command h io c clock now s).1 ≡ none
      → (id : String) × (get
            (enqueue_command h io c clock now s).2.by_dedupe
            (outbox_dedupe_key h c)
          ≡ some id)
        × (item_or_zero (get (enqueue_command h io c clock now s).2.items id)
            ≡ (enqueue_command h io c clock now s).0.0)
  unfolding enqueue_command
  enqueue_ok io clock now s ok =
      let key = outbox_dedupe_key h c in
      let item = to_outbox_item h c (or_clock clock now) in
      elim (Option-cases (get s.by_dedupe key)) [
        | inl e ↦ (
          item.outbox_id,
          ground (arith, get-put_self s.by_dedupe key item.outbox_id),
          ground (arith, get-put_self s.items item.outbox_id item),
        )
        | inr (id, e) ↦ (id, ground arith, ground arith)
      ]

  -- A valid command whose key is known is answered with the item of the key.
  enqueue_known :
      (c' : AppCommand) (clock now : Time) (t : OutboxStore) (id : String)
      → validate c' ≡ none
      → get t.by_dedupe (outbox_dedupe_key h c') ≡ some id
      → enqueue_command h io_ok c' clock now t ≡ ((item_or_zero (get t.items id), true), none, t)
  unfolding enqueue_command
  enqueue_known c' clock now t id valid e = ground arith

  -- After a command was enqueued without an error, a further valid command with the same dedupe
  -- key that meets no I/O error is a duplicate: it is answered with the item of the first, and the
  -- outbox file stays as it was.
  pub enqueue_twice :
      (io : Io) (clock now clock' later : Time) (s : OutboxStore) (c' : AppCommand)
      → (enqueue_command h io c clock now s).1 ≡ none
      → validate c' ≡ none
      → outbox_dedupe_key h c' ≡ outbox_dedupe_key h c
      → let t = (enqueue_command h io c clock now s).2 in
        enqueue_command h io_ok c' clock' later t
        ≡ (((enqueue_command h io c clock now s).0.0, true), none, t)
  enqueue_twice io clock now clock' later s c' ok valid same =
      let (id, e, f) = enqueue_ok io clock now s ok in
      let t = (enqueue_command h io c clock now s).2 in
      enqueue_known c' clock' later t id valid (rw same e)
      ∙ ap (λ (item : ConnectorOutboxItem). ((item, true), none, t)) f
