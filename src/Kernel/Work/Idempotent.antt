-- ===== src/Kernel/Work/Idempotent.antt =====
-- An idempotency key names one work of a session.
use genesis.Prelude.{
  String, ◌≡◌, refl, subst, ap, ◌∙◌, false, inl, inr, Option, none, some, [], ◌∷◌, ◌++◌,
  Option-cases, arith, eq_refl,
}
use genesis.Prelude.Text.{is_empty, trim}
use genesis.Prelude.Dict.{get, put, values}
use genesis.Prelude.Results.{ok, and_then, Result-cases}
use genesis.Kernel.Types.{WorkProjection, EventType}
use genesis.Kernel.Ledger.{new_id, KernelEnv, Ledger, with_value}
use genesis.Kernel.Work.{
  Works, merge_work_projection, replay_work_typed, replay_work_event, replay_works, works_of,
  find_by_key, submitted_work, work_event, submit_work, submit_unless, SubmitRequest,
  work_by_idempotency_key, validate_work_submit_request,
}
use genesis.Kernel.Work.Reread.{replay_works-append, record_work_named}
use genesis.Kernel.Memory.Review.Reread.{append_ok}

find-put :
    (session_id key : String) (w : Works) (id : String) (y : WorkProjection)
    → get w id ≡ none
    → find_by_key session_id key (values w) ≡ none
    → y.session_id ≡ session_id
    → y.idempotency_key ≡ key
    → find_by_key session_id key (values (put w id y)) ≡ some y
unfolding find_by_key values get put
find-put session_id key [] id y absent none' s t =
    rw (s, t) (ground (arith, eq_refl session_id, eq_refl key))
find-put session_id key ((j, v) ∷ w) id y absent none' s t =
    let ih = find-put session_id key w id y in ground (arith, ih)

-- The ledger knows a work for the key.
abbrev pub Knows : Ledger → String → String → WorkProjection → Type 0
Knows ledger session_id key x =
    (w : Works) × (replay_works ledger [] ≡ ok w) × (find_by_key session_id key (values w) ≡ some x)

-- No work of the ledger has the id.
abbrev pub IsFreshWork : Ledger → String → Type 0
IsFreshWork ledger id =
    (is_empty id ≡ false) × ((w : Works) → replay_works ledger [] ≡ ok w → get w id ≡ none)

module _ (k : KernelEnv) where
  lookup_lem :
      (session_id key : String) (ledger : Ledger) (o : Option WorkProjection)
      → is_empty key ≡ false
      → work_by_idempotency_key k session_id key ledger ≡ ok o
      → (w : Works) × (replay_works ledger [] ≡ ok w) × (find_by_key session_id key (values w) ≡ o)
  unfolding work_by_idempotency_key works_of and_then
  lookup_lem session_id key ledger o named h = elim (Option-cases k.load_error) [
    | inr (e, n) ↦ ground arith
    | inl n ↦ elim (Result-cases (replay_works ledger [])) [
      | inl (e, f) ↦ ground arith
      | inr (w, f) ↦ (w, f, ground arith)
    ]
  ]

  submit_unless_lem :
      (req : SubmitRequest) (o : Option WorkProjection) (ledger ledger' : Ledger)
      (x : WorkProjection) (w : Works)
      → replay_works ledger [] ≡ ok w
      → find_by_key (trim req.session_id) (trim req.idempotency_key) (values w) ≡ o
      → IsFreshWork ledger (new_id k "work" k.clock)
      → submit_unless k req o ledger ≡ (ok x, ledger')
      → Knows ledger' (trim req.session_id) (trim req.idempotency_key) x
  unfolding submitted_work replay_work_event replay_work_typed merge_work_projection
  submit_unless_lem req (some y) ledger ledger' x w h e fresh d =
      let same : y ≡ x = ground arith in
      let log : ledger ≡ ledger' = ground arith in
      subst (λ l. Knows l (trim req.session_id) (trim req.idempotency_key) x) log
        (w, h, e ∙ ap some same)
  submit_unless_lem req none ledger ledger' x w h e (named, unknown) d =
      let y = submitted_work k req in
      let ev = work_event k EventType.work_submitted y in
      let (f, g) = append_ok k ev y x ledger ledger' d in
      let absent = unknown w h in
      let replayed : replay_works (ledger ++ ev ∷ []) [] ≡ ok (put w y.work_id y) =
        replay_works-append ledger ev [] w h
        ∙ record_work_named ev y y w named (ap (λ o. merge_work_projection o y) absent) in
      subst (λ l. Knows l (trim req.session_id) (trim req.idempotency_key) x) g
        (
          put w y.work_id y,
          replayed,
          find-put (trim req.session_id) (trim req.idempotency_key) w y.work_id y absent e refl refl
              ∙ ap some f,
        )

  submit_known :
      (req : SubmitRequest) (ledger : Ledger) (x : WorkProjection)
      → k.load_error ≡ none
      → validate_work_submit_request req ≡ none
      → is_empty (trim req.idempotency_key) ≡ false
      → Knows ledger (trim req.session_id) (trim req.idempotency_key) x
      → submit_work k req ledger ≡ (ok x, ledger)
  unfolding submit_work with_value work_by_idempotency_key works_of and_then
  submit_known req ledger x loads valid named (w, h, e) = ground arith

-- After a submission with a non-blank idempotency key gave a work, a further valid submission with
-- the same trimmed session and key is answered with that work, and the ledger stays as it was;
-- provided that the ledger can be read then, and that the id drawn for a new work at first is not
-- blank and no earlier work's.
pub submit_twice :
    (k k' : KernelEnv) (req req' : SubmitRequest) (ledger ledger' : Ledger) (x : WorkProjection)
    → is_empty (trim req.idempotency_key) ≡ false
    → IsFreshWork ledger (new_id k "work" k.clock)
    → submit_work k req ledger ≡ (ok x, ledger')
    → k'.load_error ≡ none
    → validate_work_submit_request req' ≡ none
    → trim req'.session_id ≡ trim req.session_id
    → trim req'.idempotency_key ≡ trim req.idempotency_key
    → submit_work k' req' ledger' ≡ (ok x, ledger')
unfolding submit_work with_value
submit_twice k k' req req' ledger ledger' x named fresh h loads valid s t =
    elim (Option-cases (validate_work_submit_request req)) [
      | inr (e, v) ↦ ground arith
      | inl v ↦
          elim (Result-cases
            (work_by_idempotency_key k (trim req.session_id) (trim req.idempotency_key) ledger)) [
              | inl (e, f) ↦ ground arith
              | inr (o, f) ↦
                  let (w, r, g) =
                    lookup_lem k (trim req.session_id) (trim req.idempotency_key) ledger o named
                      f in
                  let known =
                    submit_unless_lem k req o ledger ledger' x w r g fresh (ground arith) in
                  submit_known k' req' ledger' x loads valid (ap is_empty t ∙ named)
                    (rw (s, t) known)
            ]
    ]
