-- ===== src/Connector/Sources/Started.antt =====
-- What the parts of an operation on sources leave of a run: the time of its start.
pub mod Changes
use genesis.Prelude.{
  String, ◌≡◌, refl, sym, ap, ◌∙◌, Bool, true, false, not, inl, inr, Option, none, some, List, [],
  ◌∷◌, str_eq, if_cases, if◌then◌else◌, Bool-cases, Option-cases, arith, eq_iff,
}
use genesis.Prelude.Text.{is_empty, trim}
use genesis.Prelude.Dict.{get, put, get-put}
use genesis.Prelude.Results.{Result, err, ok, Result-cases}
use genesis.Connector.Types.{Time, is_zero}
use genesis.Connector.Ids.{Host}
use genesis.Connector.Safety.{safe_reason}
use genesis.Connector.Store.{Io, with_locked_state, write_locked}
use genesis.Connector.Sources.Types.{
  SourceRun, SourceAttempt, SourceCursor, SourceVerificationEvidence, SourceOperatorActionRecord,
  SourceStore, zero_run, zero_action, zero_cursor,
}
use genesis.Connector.Sources.Normalize.{
  normalize_source_run, normalize_source_attempt, normalize_source_cursor,
  normalize_source_verification_evidence, normalize_source_operator_action, or_now,
  default_source_operator_reason,
}
use genesis.Connector.Sources.Store.{
  SourceTransaction, change_sources, save_normalized, kept_start, put_run, put_attempt, put_cursor,
  put_verification, upsert_source_run, record_source_attempt, save_source_cursor,
  record_source_verification,
}
use genesis.Connector.Sources.Operator.{
  operate, on_run, clear_body, cleared_run, restart_body, reset_body, kind_or_default, put_action,
  clear_blocked_source_run, request_source_restart, reset_source_cursor,
}

module _ (id : String) (t : Time) (known : is_zero t ≡ false) where
  -- The run of the id is there, and started then.
  abbrev pub Started : SourceStore → Type 0
  Started s = (run : SourceRun) × (get s.runs id ≡ some run) × (run.started_at ≡ t)

  change-Started :
      (io : Io) (f : SourceStore → SourceStore) (s : SourceStore)
      → Started s
      → Started (f s)
      → Started (change_sources io f s).2
  unfolding change_sources
  change-Started io f s old new = elim (Option-cases io.lock_error) [
    | inr (e, g) ↦ rw (g, change_sources) old
    | inl g ↦ elim (Option-cases io.load_error) [
      | inr (e, i) ↦ rw (g, i, change_sources) old
      | inl i ↦ elim (Option-cases io.write_error) [
        | inr (e, j) ↦ rw (g, i, j, change_sources) old
        | inl j ↦ rw (g, i, j, change_sources) new
      ]
    ]
  ]

  pub save-Started :
      {A : Type 0} (io : Io) (r : Result A) (f : A → SourceStore → SourceStore) (s : SourceStore)
      → Started s
      → ((a : A) → Started (f a s))
      → Started (save_normalized io r f s).2
  unfolding save_normalized
  save-Started io (err e) f s old new = old
  save-Started io (ok a) f s old new = change-Started io (f a) s old (new a)

  pub put_run-Started : (run : SourceRun) (s : SourceStore) → Started s → Started (put_run run s)
  unfolding put_run
  put_run-Started run s (old, found, start) = elim (Bool-cases (str_eq run.source_id id)) [
    | inl e ↦
        let there : get s.runs run.source_id ≡ some old =
          ap (get s.runs) ((eq_iff run.source_id id).0 e) ∙ found in
        let kept = ap (λ o. kept_start o run) there in
        (
          kept_start (some old) run,
          ground (
            arith,
            get-put s.runs run.source_id id (kept_start (get s.runs run.source_id) run),
            kept,
          ),
          ground (arith, ap is_zero start ∙ known, start),
        )
    | inr e ↦ (
      old,
      ground (arith, get-put s.runs run.source_id id (kept_start (get s.runs run.source_id) run)),
      start,
    )
  ]

  -- A run that is put keeps the start of the one that was there.
  pub put-Started :
      (sid : String) (run new : SourceRun) (s : SourceStore)
      → get s.runs sid ≡ some run
      → new.started_at ≡ run.started_at
      → Started s
      → Started (record s { runs = put s.runs sid new })
  put-Started sid run new s there same (old, found, start) = elim (Bool-cases (str_eq sid id)) [
    | inl e ↦
        let both : some run ≡ some old =
          sym there ∙ ap (get s.runs) ((eq_iff sid id).0 e) ∙ found in
        let it : run ≡ old = ground arith in
        (
          new,
          ground (arith, get-put s.runs sid id new),
          same ∙ ap (λ (r : SourceRun). r.started_at) it ∙ start,
        )
    | inr e ↦ (old, ground (arith, get-put s.runs sid id new), start)
  ]

  locked-Started :
      {A : Type 0} (io : Io) (before : A) (body : SourceTransaction A) (s : SourceStore)
      → Started s
      → Started (body s).2
      → Started (with_locked_state io before body s).2
  unfolding with_locked_state
  locked-Started io before body s old new = elim (Option-cases io.lock_error) [
    | inr (m, g) ↦ rw (g, with_locked_state) old
    | inl g ↦ elim (Option-cases io.load_error) [
      | inr (m, i) ↦ rw (g, i, with_locked_state) old
      | inl i ↦ rw (g, i, with_locked_state) new
    ]
  ]

  pub operate-Started :
      {A : Type 0} (io : Io) (sid reason : String) (before : A)
      (body : SourceRun → SourceTransaction A) (s : SourceStore)
      → Started s
      → ((run : SourceRun) → get s.runs sid ≡ some run → Started (body run s).2)
      → Started (operate io sid reason before body s).2
  unfolding operate
  operate-Started io sid reason before body s old new =
      let P : _ × Option String × SourceStore → Type 0 = λ p. Started p.2 in
      if_cases P (not (safe_reason reason)) _ _ (λ e. old)
        (λ e.
          locked-Started io before (λ s'. on_run before body (get s'.runs sid) s') s old
            (elim (Option-cases (get s.runs sid)) [
              | inl j ↦ rw (j, on_run) old
              | inr (run, j) ↦ rw (j, on_run) (new run j)
            ]))

  pub write-Started :
      {A : Type 0} (io : Io) (a : A) (new s : SourceStore)
      → Started s
      → Started new
      → Started (write_locked io a new s).2
  unfolding write_locked
  write-Started io a new s h h' = elim (Option-cases io.write_error) [
    | inr (m, g) ↦ rw (g, write_locked) h
    | inl g ↦ rw (g, write_locked) h'
  ]
