-- ===== src/Connector/Examples/Mail.antt =====
-- A mail that comes in, twice.
use genesis.Prelude.{◌≤◌, ◌≡◌, refl, true, none, [], ◌∷◌, arith}
use genesis.Prelude.Text.{trim}
use genesis.Prelude.Dict.{get, put}
use genesis.Prelude.Results.{ok}
use genesis.Connector.Types.{zero_thread_ref, zero_time}
use genesis.Connector.Ids.{Host, stable_opaque_id}
use genesis.Connector.Store.{io_ok, empty_store}
use genesis.Connector.Execute.{Schedule}
use genesis.Connector.Inbound.Types.{ExternalRef, ExternalEvent, result_with}
use genesis.Connector.Inbound.Event.{validate_event, dedupe_key, event_parts, request_context}
use genesis.Connector.Inbound.Store.{reserve, complete}
use genesis.Connector.Inbound.Process.{
  Runtime, InboundSchedule, InboundWorld, process_event, process_mapped, pending_record,
}
use genesis.Connector.Inbound.Once.{count_key, process_all, submits_once}
use genesis.Connector.Inbound.Duplicate.{process_twice}

abbrev host : Host
host = record { digest = λ s. s; rfc3339_nano = λ t. "2026-01-01T00:00:00Z" }

-- A kernel that answers every turn with the same text.
abbrev runtime : Runtime
runtime = record {
  host = host;
  client = λ request.
      ok (record { session_id = ""; turn_id = "t1"; final_text = "received"; error = none });
  mapper = λ event. ok (record { application_session_id = "a1"; kernel_session_id = "s1" });
  adapters = λ connector. none;
}

abbrev delivery : Schedule
delivery = record {
  now = 10;
  recorded_at = 11;
  io_get = io_ok;
  io_claim = io_ok;
  io_record = io_ok;
  after_get = λ s. s;
  after_claim = λ s. s;
}

abbrev run : InboundSchedule
run = record {
  now = 1;
  completed_at = 2;
  enqueued_at = 3;
  io_reserve = io_ok;
  io_complete = io_ok;
  io_enqueue = io_ok;
  during_turn = λ records. records;
  delivery = delivery;
}

abbrev sender : ExternalRef
sender = record {
  connector = "mail";
  kind = "address";
  external_id = "ann";
  display = "";
  metadata = [];
}

abbrev mail : ExternalEvent
mail = record {
  connector = "mail";
  external_event_id = "m1";
  event_type = "message";
  thread_ref = record zero_thread_ref { connector = "mail"; kind = "thread"; external_id = "th1" };
  sender_ref = sender;
  message_ref = record sender { kind = "message"; external_id = "m1" };
  body = "hello";
  resource_refs = [];
  received_at = zero_time;
  source_validation = "";
  metadata = [];
}

abbrev world : InboundWorld
world = record { records = []; submitted = []; outbox = record { disk = empty_store; calls = [] } }

submits_once_example :
    count_key
      (stable_opaque_id host "turn" (event_parts mail))
      (process_all runtime ((run, mail) ∷ (run, mail) ∷ []) world).submitted
    ≤ 1
submits_once_example =
    submits_once runtime ((run, mail) ∷ (run, mail) ∷ []) []
      (record { disk = empty_store; calls = [] }) mail
      ((λ s key. omega arith), ((λ s key. omega arith), tt))

process_twice_example :
    let p = process_event runtime run mail world in
    process_event runtime run mail p.2
    ≡ (record (result_with p.0.submission) { duplicate = true }, none, p.2)
unfolding process_event process_mapped validate_event reserve complete pending_record
    request_context trim stable_opaque_id dedupe_key get put
process_twice_example = process_twice runtime run run mail mail _ world refl refl refl refl refl
