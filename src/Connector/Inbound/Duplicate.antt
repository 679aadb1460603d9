-- ===== src/Connector/Inbound/Duplicate.antt =====
-- An event that comes again is answered with the record of its first processing.
use genesis.Prelude.{
  String, ◌≡◌, refl, sym, subst, ap, ◌∙◌, true, false, inl, inr, none, some, Option-cases, arith,
}
use genesis.Prelude.Text.{is_empty}
use genesis.Prelude.Dict.{get, get-put_self}
use genesis.Prelude.Results.{Result, err, ok, Result-cases}
use genesis.Connector.Ids.{stable_opaque_id}
use genesis.Connector.Store.{Io, io_ok}
use genesis.Connector.Inbound.Types.{
  ExternalEvent, RequestContext, ApplicationSessionMapping, TurnSubmitResponse,
  InboundSubmissionRecord, SubmissionStatus, ProcessResult, result_with,
}
use genesis.Connector.Inbound.Event.{validate_event, request_context, dedupe_key}
use genesis.Connector.Inbound.Store.{Records, reserve, complete}
use genesis.Connector.Inbound.Process.{
  Runtime, InboundSchedule, InboundWorld, Processed, pending_record, deliver_final_text,
  complete_turn, with_turn, finish_turn, process_reserved, process_mapped, process_event,
}
use genesis.Connector.Inbound.Once.{reserve_cases}

-- The record is stored under the key.
abbrev pub Stores : InboundWorld → String → InboundSubmissionRecord → Type 0
Stores w key x = get w.records key ≡ some x

reserve_known :
    (x y : InboundSubmissionRecord) (s : Records)
    → is_empty x.dedupe_key ≡ false
    → get s x.dedupe_key ≡ some y
    → reserve io_ok x s ≡ ((y, false), none, s)
unfolding reserve
reserve_known x y s n h = ground arith

complete_ok :
    (io : Io) (x : InboundSubmissionRecord) (s : Records)
    → (complete io x s).1 ≡ none
    → get (complete io x s).2 x.dedupe_key ≡ some x
unfolding complete
complete_ok io x s h = ground (arith, get-put_self s x.dedupe_key x)

module _ (r : Runtime) (run : InboundSchedule) where
  -- The delivery of a reply leaves the record of the result alone.
  deliver-submission :
      (ctx : RequestContext) (x : InboundSubmissionRecord) (result : ProcessResult)
      (w : InboundWorld)
      → (deliver_final_text r run ctx x result w.outbox).0.submission ≡ result.submission
  unfolding deliver_final_text
  deliver-submission ctx x result w = ground arith

  complete_turn-Stores :
      (ctx : RequestContext) (text : String) (x : InboundSubmissionRecord) (w : InboundWorld)
      → (complete_turn r run ctx text x w).1 ≡ none
      → let p = complete_turn r run ctx text x w in Stores p.2 x.dedupe_key p.0.submission
  complete_turn-Stores ctx text x w h =
      let x' : InboundSubmissionRecord = record x {
        status = SubmissionStatus.submitted;
        updated_at = run.completed_at;
      } in
      elim (Option-cases (complete run.io_complete x' w.records).1) [
        | inl e ↦
            rw (e, complete_turn)
              (complete_ok run.io_complete x' w.records e
                ∙ ap some (
                    sym (
                      deliver-submission ctx x' (record (result_with x') { final_text = text }) w)))
        | inr (m, e) ↦ ground arith
      ]

  finish_turn-Stores :
      (ctx : RequestContext) (answer : Result TurnSubmitResponse) (x : InboundSubmissionRecord)
      (w : InboundWorld)
      → (finish_turn r run ctx answer x w).1 ≡ none
      → let p = finish_turn r run ctx answer x w in Stores p.2 x.dedupe_key p.0.submission
  finish_turn-Stores ctx (err e) x w h = ground arith
  finish_turn-Stores ctx (ok response) x w h = elim (Option-cases response.error) [
    | inr (e, f) ↦ ground arith
    | inl f ↦
        rw (f, finish_turn)
          (complete_turn-Stores ctx response.final_text (with_turn response x) w
            (rw (f, finish_turn) at h))
  ]

  -- What is kept of an event whose processing reports no error.
  abbrev Kept : String → Processed → Type 0
  Kept key p = p.1 ≡ none → Stores p.2 key p.0.submission

  process_mapped-Kept :
      (event : ExternalEvent) (mapping : ApplicationSessionMapping) (w : InboundWorld)
      → Kept (dedupe_key r.host event) (process_mapped r run event mapping w)
  unfolding process_mapped request_context pending_record
  process_mapped-Kept event mapping w =
      let ctx = request_context r.host event mapping in
      let x = pending_record ctx run.now in
      let key = dedupe_key r.host event in
      elim (reserve_cases run.io_reserve x w.records) [
        | inr (y, none, e, there) ↦
            subst (Kept key) (sym (ap (process_reserved r run ctx w) e)) (λ h. there refl)
        | inr (y, some m, e, there) ↦
            subst (Kept key) (sym (ap (process_reserved r run ctx w) e)) (λ h. ground arith)
        | inl (e, fresh) ↦
            subst (Kept key) (sym (ap (process_reserved r run ctx w) e))
              (λ h. finish_turn-Stores ctx _ x _ h)
      ]

  process_event-Kept :
      (event : ExternalEvent) (w : InboundWorld)
      → Kept (dedupe_key r.host event) (process_event r run event w)
  unfolding process_event
  process_event-Kept event w = elim (Option-cases (validate_event event)) [
    | inr (e, f) ↦ λ h. ground arith
    | inl f ↦ elim (Result-cases (r.mapper event)) [
      | inl (e, g) ↦ λ h. ground arith
      | inr (mapping, g) ↦ rw (f, g, process_event) (process_mapped-Kept event mapping w)
    ]
  ]

  process_stored :
      (event : ExternalEvent) (mapping : ApplicationSessionMapping) (w : InboundWorld)
      (x : InboundSubmissionRecord)
      → run.io_reserve ≡ io_ok
      → validate_event event ≡ none
      → r.mapper event ≡ ok mapping
      → Stores w (dedupe_key r.host event) x
      → process_event r run event w ≡ (record (result_with x) { duplicate = true }, none, w)
  unfolding process_event process_mapped request_context pending_record dedupe_key stable_opaque_id
  process_stored event mapping w x io valid mapped stored =
      let ctx = request_context r.host event mapping in
      let x' = pending_record ctx run.now in
      let known : reserve run.io_reserve x' w.records ≡ ((x, false), none, w.records) =
        subst (λ i. reserve i x' w.records ≡ ((x, false), none, w.records)) (sym io)
          (reserve_known x' x w.records refl stored) in
      rw (valid, mapped, process_event) (ap (process_reserved r run ctx w) known)

-- After the processing of an event reported no error, a further event with the same dedupe key
-- that is valid and maps to a session, and whose reservation meets no I/O error, is a duplicate:
-- it is answered with the record that the first was answered with, and nothing changes.
pub process_twice :
    (r : Runtime) (run run' : InboundSchedule) (event event' : ExternalEvent)
    (mapping : ApplicationSessionMapping) (w : InboundWorld)
    → (process_event r run event w).1 ≡ none
    → run'.io_reserve ≡ io_ok
    → validate_event event' ≡ none
    → r.mapper event' ≡ ok mapping
    → dedupe_key r.host event' ≡ dedupe_key r.host event
    → let p = process_event r run event w in
      process_event r run' event' p.2
      ≡ (record (result_with p.0.submission) { duplicate = true }, none, p.2)
process_twice r run run' event event' mapping w h io valid mapped same =
    let p = process_event r run event w in
    process_stored r run' event' mapping p.2 p.0.submission io valid mapped
      (subst (λ key. Stores p.2 key p.0.submission) (sym same) (process_event-Kept r run event w h))
