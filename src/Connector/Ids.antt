-- ===== src/Connector/Ids.antt =====
-- ids.go and command.go: opaque ids, and outbox items made of application commands.
use genesis.Prelude.{String, Option, none, some, List, [], ◌∷◌, if◌then◌else◌}
use genesis.Prelude.Text.{is_empty, append, join, trim}
use genesis.Prelude.Dict.{Dict}
use genesis.Connector.Types.{
  Time, ExternalThreadRef, AppCommand, ConnectorOutboxItem, OutboxStatus, zero_time,
}

-- What the Go library computes outside this model: `digest` is the first 32 letters of the
-- lower-case base32 form of a text's SHA-256, and `rfc3339_nano` formats a time.
pub record Host : Type 0 where
  pub digest : String → String
  pub rfc3339_nano : Time → String

-- stableOpaqueID
unfoldable pub stable_opaque_id : Host → String → List String → String
stable_opaque_id h prefix parts = append prefix (append "_" (h.digest (join "\0" parts)))

-- AppCommand.validate
unfoldable pub validate : AppCommand → Option String
validate c =
    if is_empty (trim c.kind)
    then some "app command missing kind"
    else if is_empty (trim c.target_ref.connector)
    then some "app command missing target connector"
    else if is_empty (trim c.target_ref.kind)
    then some "app command missing target kind"
    else if is_empty (trim c.target_ref.external_id)
    then some "app command missing target external id"
    else if is_empty (trim c.dedupe_key)
    then some "app command missing dedupe key"
    else none

-- AppCommand.outboxDedupeKey
unfoldable pub outbox_dedupe_key : Host → AppCommand → String
outbox_dedupe_key h c =
    stable_opaque_id h "outidem"
      (trim c.target_ref.connector ∷ trim c.kind ∷ trim c.dedupe_key ∷ [])

unfoldable pub sanitized_thread_ref : ExternalThreadRef → ExternalThreadRef
sanitized_thread_ref ref = record {
  connector = trim ref.connector;
  kind = trim ref.kind;
  external_id = trim ref.external_id;
  display = trim ref.display;
  metadata = [];
}

-- AppCommand.toOutboxItem
unfoldable pub to_outbox_item : Host → AppCommand → Time → ConnectorOutboxItem
to_outbox_item h c now =
    let idempotency_key = outbox_dedupe_key h c in
    let payload : Dict String = if is_empty (trim c.body) then [] else ("body", trim c.body) ∷ [] in
    let command_id =
      if is_empty (trim c.command_id)
      then stable_opaque_id h "cmd" (c.target_ref.connector ∷ c.kind ∷ c.dedupe_key ∷ [])
      else trim c.command_id in
    record {
      outbox_id = stable_opaque_id h "outbox" (idempotency_key ∷ []);
      command_id = command_id;
      connector = trim c.target_ref.connector;
      action_kind = trim c.kind;
      target_ref = sanitized_thread_ref c.target_ref;
      payload = payload;
      status = OutboxStatus.queued;
      attempt_count = 0;
      next_attempt_at = zero_time;
      lease_id = "";
      lease_owner = "";
      lease_expires_at = zero_time;
      idempotency_key = idempotency_key;
      last_receipt_id = "";
      created_at = now;
      updated_at = now;
    }
