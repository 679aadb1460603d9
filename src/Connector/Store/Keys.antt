-- ===== src/Connector/Store/Keys.antt =====
-- The items of the outbox file stand under their own ids.
use genesis.Prelude.{String, ◌≡◌, ap, some, arith, eq_iff}
use genesis.Prelude.Dict.{get, put, get-put}
use genesis.Connector.Types.{ConnectorOutboxItem}
use genesis.Connector.Store.{OutboxStore}

-- Every item is stored under its outbox id.
pub record IsKeyed (s : OutboxStore) : Type 0 where
  pub at_key :
      (k : String) (item : ConnectorOutboxItem) → get s.items k ≡ some item → item.outbox_id ≡ k

-- A write of an item under its own id keeps every item under its id.
pub put-IsKeyed :
    (s t : OutboxStore) (item : ConnectorOutboxItem)
    → t.items ≡ put s.items item.outbox_id item
    → IsKeyed s
    → IsKeyed t
put-IsKeyed s t item e h = record {
  at_key = λ k found p. ground (
    arith,
    e,
    get-put s.items item.outbox_id k item,
    eq_iff item.outbox_id k,
    h.at_key k found,
    ap (λ d. get d k) e,
  );
}
