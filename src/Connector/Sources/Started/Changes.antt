-- ===== src/Connector/Sources/Started/Changes.antt =====
-- What a source run keeps through every operation: the time of its start.
use genesis.Prelude.{
  String, ◌≡◌, refl, Bool, true, false, not, inl, inr, Option, List, [], ◌∷◌, str_eq, if_cases,
}
use genesis.Prelude.Text.{is_empty, trim}
use genesis.Prelude.Results.{Result-cases}
use genesis.Connector.Types.{Time, is_zero}
use genesis.Connector.Ids.{Host}
use genesis.Connector.Store.{Io}
use genesis.Connector.Sources.Types.{
  SourceRun, SourceAttempt, SourceCursor, SourceVerificationEvidence, SourceOperatorActionRecord,
  SourceStore, zero_run, zero_action, zero_cursor,
}
use genesis.Connector.Sources.Normalize.{
  normalize_source_run, normalize_source_attempt, normalize_source_cursor,
  normalize_source_verification_evidence, normalize_source_operator_action, or_now,
  default_source_operator_reason,
}
use genesis.Connector.Sources.Store.{
  put_run, put_attempt, put_cursor, put_verification, upsert_source_run, record_source_attempt,
  save_source_cursor, record_source_verification,
}
use genesis.Connector.Sources.Operator.{
  clear_body, cleared_run, restart_body, reset_body, reset_with, kind_or_default, put_action,
  clear_blocked_source_run, request_source_restart, reset_source_cursor,
}
use genesis.Connector.Sources.Started.{
  Started, save-Started, put_run-Started, put-Started, operate-Started, write-Started,
}

-- The operations that change the file, with what the clock and the file system answer.
pub data SourceChange : Type 0 where
  upsert : Io → Time → SourceRun → SourceChange
  attempt : Io → Time → SourceAttempt → SourceChange
  save : Io → Time → SourceCursor → SourceChange
  verify : Io → Time → SourceVerificationEvidence → SourceChange
  clear : Io → Time → String → String → Time → SourceChange
  restart : Io → Time → String → String → Time → SourceChange
  reset : Io → Time → String → String → String → String → Bool → Time → SourceChange

abbrev pub apply_change : Host → SourceChange → SourceStore → SourceStore
apply_change h (SourceChange.upsert io now run) s = (upsert_source_run io now run s).2
apply_change h (SourceChange.attempt io now a) s = (record_source_attempt h io now a s).2
apply_change h (SourceChange.save io now c) s = (save_source_cursor io now c s).2
apply_change h (SourceChange.verify io now e) s = (record_source_verification io now e s).2
apply_change h (SourceChange.clear io clock id reason now) s =
    (clear_blocked_source_run h io clock id reason now s).2
apply_change h (SourceChange.restart io clock id reason now) s =
    (request_source_restart h io clock id reason now s).2
apply_change h (SourceChange.reset io clock id kind value reason accepted now) s =
    (reset_source_cursor h io clock id kind value reason accepted now s).2

unfoldable pub apply_changes : Host → List SourceChange → SourceStore → SourceStore
apply_changes h [] s = s
apply_changes h (c ∷ cs) s = apply_changes h cs (apply_change h c s)

module _ (h : Host) (id : String) (t : Time) (known : is_zero t ≡ false) where
  clear-Started :
      (io : Io) (clock : Time) (sid reason : String) (now : Time) (s : SourceStore)
      → Started id t known s
      → Started id t known (clear_blocked_source_run h io clock sid reason now s).2
  unfolding clear_blocked_source_run put_action
  clear-Started io clock sid reason now s old =
      let P : (SourceRun × SourceOperatorActionRecord) × Option String × SourceStore → Type 0 =
        λ p. Started id t known p.2 in
      let reason' = default_source_operator_reason reason "operator_cleared_blocked" in
      if_cases P (is_empty (trim sid)) _ _ (λ e. old)
        (λ e.
          operate-Started id t known io (trim sid) reason' (zero_run, zero_action)
            (clear_body h io (trim sid) reason' clock (or_now clock now)) s old
            (λ run there.
              let action : SourceOperatorActionRecord = record zero_action {
                source_id = trim sid;
                action = "clear_blocked";
                reason = reason';
                previous_status = run.status;
                new_status = "stopped";
                created_at = or_now clock now;
              } in
              if_cases P (not (str_eq run.status "blocked")) _ _ (λ f. old)
                (λ f. elim (Result-cases (normalize_source_operator_action h clock action)) [
                  | inl (m, g) ↦ rw (g, clear_body) old
                  | inr (a, g) ↦
                      rw (g, clear_body)
                        (write-Started id t known io _ _ s old (
                          put-Started id t known (trim sid) run (cleared_run (or_now clock now) run)
                            s there refl old))
                ])))

  restart-Started :
      (io : Io) (clock : Time) (sid reason : String) (now : Time) (s : SourceStore)
      → Started id t known s
      → Started id t known (request_source_restart h io clock sid reason now s).2
  unfolding request_source_restart put_action
  restart-Started io clock sid reason now s old =
      let P : SourceOperatorActionRecord × Option String × SourceStore → Type 0 =
        λ p. Started id t known p.2 in
      let reason' = default_source_operator_reason reason "operator_requested_restart" in
      if_cases P (is_empty (trim sid)) _ _ (λ e. old)
        (λ e.
          operate-Started id t known io (trim sid) reason' zero_action
            (restart_body h io (trim sid) reason' clock (or_now clock now)) s old
            (λ run there.
              let action : SourceOperatorActionRecord = record zero_action {
                source_id = trim sid;
                action = "request_restart";
                reason = reason';
                previous_status = run.status;
                new_status = run.status;
                created_at = or_now clock now;
              } in
              elim (Result-cases (normalize_source_operator_action h clock action)) [
                | inl (m, g) ↦ rw (g, restart_body) old
                | inr (a, g) ↦ rw (g, restart_body) (write-Started id t known io _ _ s old old)
              ]))

  reset_body-Started :
      (io : Io) (cursor : SourceCursor) (reason : String) (clock now : Time) (run : SourceRun)
      (s : SourceStore)
      → Started id t known s
      → Started id t known (reset_body h io cursor reason clock now run s).2
  unfolding put_action put_cursor
  reset_body-Started io cursor reason clock now run s old =
      elim (Result-cases (normalize_source_cursor clock cursor)) [
        | inl (m, g) ↦ rw (g, reset_body) old
        | inr (cursor', g) ↦
            let action : SourceOperatorActionRecord = record zero_action {
              source_id = cursor.source_id;
              action = "reset_cursor";
              reason = reason;
              cursor_kind = cursor'.cursor_kind;
              cursor_value = cursor'.cursor_value;
              accepted_duplicate_risk = true;
              created_at = now;
            } in
            elim (Result-cases (normalize_source_operator_action h clock action)) [
              | inl (m, i) ↦ rw (g, i, reset_body, reset_with) old
              | inr (a, i) ↦
                  rw (g, i, reset_body, reset_with) (write-Started id t known io _ _ s old old)
            ]
      ]

  reset-Started :
      (io : Io) (clock : Time) (sid kind value reason : String) (accepted : Bool) (now : Time)
      (s : SourceStore)
      → Started id t known s
      → Started id t known (reset_source_cursor h io clock sid kind value reason accepted now s).2
  unfolding reset_source_cursor
  reset-Started io clock sid kind value reason accepted now s old =
      let P : (SourceCursor × SourceOperatorActionRecord) × Option String × SourceStore → Type 0 =
        λ p. Started id t known p.2 in
      let reason' = default_source_operator_reason reason "operator_reset_cursor" in
      let cursor : SourceCursor = record zero_cursor {
        source_id = trim sid;
        cursor_kind = kind_or_default (trim kind);
        cursor_value = trim value;
        updated_at = or_now clock now;
      } in
      if_cases P (is_empty (trim sid)) _ _ (λ e. old)
        (λ e.
          if_cases P (not accepted) _ _ (λ f. old)
            (λ f.
              operate-Started id t known io (trim sid) reason' (zero_cursor, zero_action)
                (reset_body h io cursor reason' clock (or_now clock now)) s old
                (λ run there.
                  reset_body-Started io cursor reason' clock (or_now clock now) run s old)))

  apply_change-Started :
      (c : SourceChange) (s : SourceStore)
      → Started id t known s
      → Started id t known (apply_change h c s)
  unfolding upsert_source_run record_source_attempt save_source_cursor record_source_verification
      put_attempt put_cursor put_verification
  apply_change-Started (SourceChange.upsert io now run) s old =
      save-Started id t known io (normalize_source_run now run) put_run s old
        (λ run'. put_run-Started id t known run' s old)
  apply_change-Started (SourceChange.attempt io now a) s old =
      save-Started id t known io (normalize_source_attempt h now a) put_attempt s old (λ a'. old)
  apply_change-Started (SourceChange.save io now c) s old =
      save-Started id t known io (normalize_source_cursor now c) put_cursor s old (λ c'. old)
  apply_change-Started (SourceChange.verify io now e) s old =
      save-Started id t known io (normalize_source_verification_evidence now e) put_verification s
        old (λ e'. old)
  apply_change-Started (SourceChange.clear io clock sid reason now) s old =
      clear-Started io clock sid reason now s old
  apply_change-Started (SourceChange.restart io clock sid reason now) s old =
      restart-Started io clock sid reason now s old
  apply_change-Started (SourceChange.reset io clock sid kind value reason accepted now) s old =
      reset-Started io clock sid kind value reason accepted now s old

  -- Once a source has a run with a start that is not the zero time, it has one with that start
  -- after any sequence of the operations that change the file, with whatever inputs, clocks and
  -- I/O errors.
  pub changes-Started :
      (changes : List SourceChange) (s : SourceStore)
      → Started id t known s
      → Started id t known (apply_changes h changes s)
  unfolding apply_changes
  changes-Started [] s old = old
  changes-Started (c ∷ cs) s old =
      changes-Started cs (apply_change h c s) (apply_change-Started c s old)
