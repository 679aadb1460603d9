-- ===== src/Connector/Inbound/Store.antt =====
-- FileInboundStore (inbound_store_file.go): one record for each dedupe key. As for the outbox, the
-- state is the content of the file.
use genesis.Prelude.{String, Bool, true, false, Option, none, some, List, [], if◌then◌else◌}
use genesis.Prelude.Text.{is_empty}
use genesis.Prelude.Dict.{Dict, get, put, values}
use genesis.Connector.Store.{Io, with_locked_state, write_locked}
use genesis.Connector.Inbound.Types.{InboundSubmissionRecord, zero_submission}

abbrev pub Records : Type 0
Records = Dict InboundSubmissionRecord

abbrev pub InboundTransaction : Type 0 → Type 0
InboundTransaction A = Records → A × Option String × Records

-- The body of Reserve. Where the write fails, the record is taken out of the map again.
abbrev reserve_body :
    Io → InboundSubmissionRecord → InboundTransaction (InboundSubmissionRecord × Bool)
reserve_body io submission records = elim (get records submission.dedupe_key) [
  | some existing ↦ ((existing, false), none, records)
  | none ↦ elim io.write_error [
    | some e ↦ ((zero_submission, false), some e, records)
    | none ↦ ((submission, true), none, put records submission.dedupe_key submission)
  ]
]

-- Reserve
unfoldable pub reserve :
    Io → InboundSubmissionRecord → InboundTransaction (InboundSubmissionRecord × Bool)
unfolding with_locked_state
reserve io submission records =
    if is_empty submission.dedupe_key
    then ((zero_submission, false), some "inbound submission missing dedupe key", records)
    else with_locked_state io (zero_submission, false) (reserve_body io submission) records

-- Complete
unfoldable pub complete : Io → InboundSubmissionRecord → InboundTransaction (Unit {0})
unfolding with_locked_state write_locked
complete io submission records =
    if is_empty submission.dedupe_key
    then (tt, some "inbound submission missing dedupe key", records)
    else with_locked_state io tt
        (λ s. write_locked io tt (put s submission.dedupe_key submission) s) records

-- ListInbound, in the order in which `range` gives the records.
unfoldable pub list_inbound : Io → Records → List InboundSubmissionRecord × Option String × Records
unfolding with_locked_state
list_inbound io records = with_locked_state io [] (λ s. (values s, none, s)) records
