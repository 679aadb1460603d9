-- ===== src/Connector/Inbound/Once.antt =====
-- However events repeat, at most one turn is submitted for each of them.
use genesis.Prelude.{
  ℕ, ◌+◌, ◌≤◌, String, ◌≡◌, refl, sym, subst, ap, ◌∙◌, true, false, ◌⊎◌, inl, inr, Option, none,
  some, List, [], ◌∷◌, ◌++◌, All, str_eq, if◌then◌else◌, Bool-cases, Option-cases, arith, eq_iff,
  eq_refl,
}
use genesis.Prelude.Text.{is_empty, append}
use genesis.Prelude.Dict.{get, put, get-put}
use genesis.Prelude.Results.{Result, err, ok, Result-cases}
use genesis.Connector.Ids.{Host, stable_opaque_id}
use genesis.Connector.Store.{Io}
use genesis.Connector.Execute.{World}
use genesis.Connector.Inbound.Types.{
  ExternalEvent, RequestContext, ApplicationSessionMapping, TurnSubmitRequest, TurnSubmitResponse,
  InboundSubmissionRecord, zero_submission, SubmissionStatus,
}
use genesis.Connector.Inbound.Event.{validate_event, request_context, dedupe_key, event_parts}
use genesis.Connector.Inbound.Store.{Records, reserve, complete}
use genesis.Connector.Inbound.Process.{
  Runtime, InboundSchedule, InboundWorld, pending_record, turn_request, complete_turn, with_turn,
  finish_turn, process_reserved, Processed, process_mapped, process_event,
}

-- How many turns were submitted under an idempotency key.
abbrev pub count_key : String → List TurnSubmitRequest → ℕ
count_key key [] = 0
count_key key (r ∷ rs) = (if str_eq r.idempotency_key key then 1 else 0) + count_key key rs

-- 1 where there is a record under the key.
abbrev pub count_record : Records → String → ℕ
count_record records key = elim (get records key) [ none ↦ 0 | some _ ↦ 1 ]

-- Every record is still there, perhaps changed.
abbrev pub Keeps : Records → Records → Type 0
Keeps old new = (key : String) → count_record old key ≤ count_record new key

count_key-append :
    (key : String) (rs : List TurnSubmitRequest) (r : TurnSubmitRequest)
    → count_key key (rs ++ r ∷ [])
      ≡ count_key key rs + (if str_eq r.idempotency_key key then 1 else 0)
count_key-append key [] r = omega arith
count_key-append key (x ∷ rs) r = omega (arith, count_key-append key rs r)

Keeps-put :
    (records : Records) (key : String) (x : InboundSubmissionRecord)
    → Keeps records (put records key x)
Keeps-put records key x j = ground (arith, get-put records key j x)

pub reserve_cases :
    (io : Io) (x : InboundSubmissionRecord) (s : Records)
    → ((reserve io x s ≡ ((x, true), none, put s x.dedupe_key x)) × (get s x.dedupe_key ≡ none))
      ⊎ ((y : InboundSubmissionRecord) × (error : Option String) × (reserve io x s
            ≡ ((y, false), error, s))
          × (error ≡ none → get s x.dedupe_key ≡ some y))
unfolding reserve
reserve_cases io x s = elim (Bool-cases (is_empty x.dedupe_key)) [
  | inl e ↦ inr (
    zero_submission,
    some "inbound submission missing dedupe key",
    ground arith,
    λ d. ground arith,
  )
  | inr e ↦ elim (Option-cases io.lock_error) [
    | inr (m, f) ↦ inr (zero_submission, some m, ground arith, λ d. ground arith)
    | inl f ↦ elim (Option-cases io.load_error) [
      | inr (m, g) ↦ inr (zero_submission, some m, ground arith, λ d. ground arith)
      | inl g ↦ elim (Option-cases (get s x.dedupe_key)) [
        | inr (old, i) ↦ inr (old, none, ground arith, λ d. i)
        | inl i ↦ elim (Option-cases io.write_error) [
          | inr (m, j) ↦ inr (zero_submission, some m, ground arith, λ d. ground arith)
          | inl j ↦ inl (ground arith, i)
        ]
      ]
    ]
  ]
]

complete-Keeps : (io : Io) (x : InboundSubmissionRecord) (s : Records) → Keeps s (complete io x s).2
unfolding complete
complete-Keeps io x s key = ground (arith, Keeps-put s x.dedupe_key x key)

abbrev tail : String → String
tail String.[] = String.[]
tail (String.◌∷◌ c s) = s

-- Two lists of parts that make one idempotency key make one dedupe key.
same_digest :
    (h : Host) (p q : List String)
    → stable_opaque_id h "turn" p ≡ stable_opaque_id h "turn" q
    → stable_opaque_id h "inbound" p ≡ stable_opaque_id h "inbound" q
unfolding stable_opaque_id
same_digest h p q e = ap (λ s. append "inbound" (append "_" (tail (tail (tail (tail (tail s))))))) e

-- A turn was submitted at most once for parts that have a record, and never for others.
abbrev Within : Runtime → InboundWorld → List String → Type 0
Within r w parts =
    count_key (stable_opaque_id r.host "turn" parts) w.submitted
    ≤ count_record w.records (stable_opaque_id r.host "inbound" parts)

module _ (r : Runtime) (run : InboundSchedule) where
  complete_turn-records :
      (ctx : RequestContext) (text : String) (x : InboundSubmissionRecord) (w : InboundWorld)
      → ((complete_turn r run ctx text x w).2.submitted ≡ w.submitted)
        × Keeps w.records (complete_turn r run ctx text x w).2.records
  complete_turn-records ctx text x w =
      let x' : InboundSubmissionRecord = record x {
        status = SubmissionStatus.submitted;
        updated_at = run.completed_at;
      } in
      let kept = complete-Keeps run.io_complete x' w.records in
      elim (Option-cases (complete run.io_complete x' w.records).1) [
        | inl e ↦ (rw (e, complete_turn) refl, rw (e, complete_turn) kept)
        | inr (m, e) ↦ (rw (e, complete_turn) refl, rw (e, complete_turn) kept)
      ]

  finish_turn-records :
      (ctx : RequestContext) (answer : Result TurnSubmitResponse) (x : InboundSubmissionRecord)
      (w : InboundWorld)
      → ((finish_turn r run ctx answer x w).2.submitted ≡ w.submitted)
        × Keeps w.records (finish_turn r run ctx answer x w).2.records
  finish_turn-records ctx (err e) x w = (refl, complete-Keeps run.io_complete _ w.records)
  finish_turn-records ctx (ok response) x w = elim (Option-cases response.error) [
    | inr (e, f) ↦
        (rw (f, finish_turn) refl, rw (f, finish_turn) (complete-Keeps run.io_complete _ w.records))
    | inl f ↦
        let (a, b) = complete_turn-records ctx response.final_text (with_turn response x) w in
        (rw (f, finish_turn) a, rw (f, finish_turn) b)
  ]

  abbrev IsOnce : InboundWorld → Type 0
  IsOnce w = (parts : List String) → Within r w parts

  -- A reserved event, and the turn that is submitted for it.
  turn-Within :
      (ctx : RequestContext) (x : InboundSubmissionRecord) (w : InboundWorld) (parts : List String)
      → (str_eq ctx.kernel_idempotency_key (stable_opaque_id r.host "turn" parts) ≡ true
          → x.dedupe_key ≡ stable_opaque_id r.host "inbound" parts)
      → ((s : Records) → Keeps s (run.during_turn s))
      → get w.records x.dedupe_key ≡ none
      → Within r w parts
      → Within r
          (process_reserved r run ctx w ((x, true), none, put w.records x.dedupe_key x)).2
          parts
  unfolding turn_request
  turn-Within ctx x w parts named keeps fresh before =
      let request = turn_request r.host ctx in
      let s = put w.records x.dedupe_key x in
      let v : InboundWorld = record w {
        records = run.during_turn s;
        submitted = w.submitted ++ request ∷ [];
      } in
      let (same, kept) = finish_turn-records ctx (r.client request) x v in
      let key = stable_opaque_id r.host "turn" parts in
      let j = stable_opaque_id r.host "inbound" parts in
      let counted = ap (count_key key) same ∙ count_key-append key w.submitted request in
      let put' = get-put w.records x.dedupe_key j x in
      elim (Bool-cases (str_eq request.idempotency_key key)) [
        | inr n ↦ ground (arith, keeps s j, kept j, counted, before, put', n)
        | inl n ↦
            let at = named n in
            let absent : get w.records j ≡ none = subst (λ i. get w.records i ≡ none) at fresh in
            ground (
              arith,
              keeps s j,
              kept j,
              counted,
              before,
              put',
              n,
              absent,
              ap (str_eq x.dedupe_key) at,
              eq_refl x.dedupe_key,
            )
      ]

  process_mapped-IsOnce :
      (event : ExternalEvent) (mapping : ApplicationSessionMapping) (w : InboundWorld)
      → ((s : Records) → Keeps s (run.during_turn s))
      → IsOnce w
      → IsOnce (process_mapped r run event mapping w).2
  unfolding process_mapped request_context dedupe_key pending_record turn_request
  process_mapped-IsOnce event mapping w keeps once parts =
      let ctx = request_context r.host event mapping in
      let x = pending_record ctx run.now in
      elim (reserve_cases run.io_reserve x w.records) [
        | inr (y, none, e, _) ↦
            subst (λ (p : Processed). Within r p.2 parts)
              (sym (ap (process_reserved r run ctx w) e)) (once parts)
        | inr (y, some m, e, _) ↦
            subst (λ (p : Processed). Within r p.2 parts)
              (sym (ap (process_reserved r run ctx w) e)) (once parts)
        | inl (e, fresh) ↦
            subst (λ (p : Processed). Within r p.2 parts)
              (sym (ap (process_reserved r run ctx w) e))
              (turn-Within ctx x w parts
                (λ f. same_digest r.host (event_parts event) parts (
                  (eq_iff (stable_opaque_id r.host "turn" (event_parts event))
                      (stable_opaque_id r.host "turn" parts)).0
                    f))
                keeps fresh (once parts))
      ]

  process_event-IsOnce :
      (event : ExternalEvent) (w : InboundWorld)
      → ((s : Records) → Keeps s (run.during_turn s))
      → IsOnce w
      → IsOnce (process_event r run event w).2
  unfolding process_event
  process_event-IsOnce event w keeps once = elim (Option-cases (validate_event event)) [
    | inr (e, f) ↦ rw (f, process_event) once
    | inl f ↦ elim (Result-cases (r.mapper event)) [
      | inl (e, g) ↦ rw (f, g, process_event) once
      | inr (mapping, g) ↦
          rw (f, g, process_event) (process_mapped-IsOnce event mapping w keeps once)
    ]
  ]

-- Events one after the other, each with its schedule.
unfoldable pub process_all :
    Runtime → List (InboundSchedule × ExternalEvent) → InboundWorld → InboundWorld
process_all r [] w = w
process_all r ((run, event) ∷ rest) w = process_all r rest (process_event r run event w).2

module _ (r : Runtime) where
  process_all-IsOnce :
      (events : List (InboundSchedule × ExternalEvent)) (w : InboundWorld)
      → All
          (λ (p : InboundSchedule × ExternalEvent). (s : Records) → Keeps s (p.0.during_turn s))
          events
      → ((parts : List String) → Within r w parts)
      → (parts : List String) → Within r (process_all r events w) parts
  unfolding process_all
  process_all-IsOnce [] w keeps once = once
  process_all-IsOnce ((run, event) ∷ rest) w (keep, keeps) once =
      process_all-IsOnce rest (process_event r run event w).2 keeps
        (process_event-IsOnce r run event w keep once)

  -- However many events are processed one after the other, whatever the kernel answers and
  -- whatever I/O errors there are: at most one turn is submitted under the idempotency key of an
  -- event; provided that other processes, between a reservation and its completion, drop no
  -- record.
  pub submits_once :
      (events : List (InboundSchedule × ExternalEvent)) (records : Records) (outbox : World)
      (event : ExternalEvent)
      → All
          (λ (p : InboundSchedule × ExternalEvent). (s : Records) → Keeps s (p.0.during_turn s))
          events
      → count_key
          (stable_opaque_id r.host "turn" (event_parts event))
          (process_all r events
            (record { records = records; submitted = []; outbox = outbox })).submitted
        ≤ 1
  submits_once events records outbox event keeps =
      let start : InboundWorld = record { records = records; submitted = []; outbox = outbox } in
      let within =
        process_all-IsOnce events start keeps (λ parts. omega arith) (event_parts event) in
      ground (arith, within)
