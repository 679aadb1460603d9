-- ===== src/Connector/Sources/Store.antt =====
-- FileSourceLifecycleStore (source_lifecycle_store_file.go): its transactions. As for the outbox,
-- the state is the content of the file.
use genesis.Prelude.{
  String, Bool, true, false, not, ◌||◌, Option, none, some, List, [], ◌∷◌, ◌++◌, ltb, ◌==◌,
  if◌then◌else◌,
}
use genesis.Prelude.Text.{is_empty, trim, string_lt}
use genesis.Prelude.Dict.{get, put, values}
use genesis.Prelude.Results.{Result, err, ok}
use genesis.Connector.Types.{Time, is_zero}
use genesis.Connector.Ids.{Host}
use genesis.Connector.Store.{Io, with_locked_state, write_locked}
use genesis.Connector.Sources.Types.{
  SourceRun, SourceAttempt, SourceCursor, SourceVerificationEvidence, SourceStore, zero_cursor,
}
use genesis.Connector.Sources.Normalize.{
  normalize_source_run, normalize_source_attempt, normalize_source_cursor,
  normalize_source_verification_evidence, source_verification_key, source_cursor_key,
}

abbrev pub SourceTransaction : Type 0 → Type 0
SourceTransaction A = SourceStore → A × Option String × SourceStore

abbrev pub Saved : Type 0
Saved = (Unit {0}) × Option String × SourceStore

-- The file with what a body made of it, written.
unfoldable pub change_sources : Io → (SourceStore → SourceStore) → SourceStore → Saved
unfolding with_locked_state write_locked
change_sources io change disk =
    with_locked_state io (tt {0}) (λ s. write_locked io (tt {0}) (change s) s) disk

-- A normalised value that is stored, or the error of its normalisation.
unfoldable pub save_normalized :
    {A : Type 0} → Io → Result A → (A → SourceStore → SourceStore) → SourceStore → Saved
save_normalized io (err e) change disk = (tt, some e, disk)
save_normalized io (ok a) change disk = change_sources io (change a) disk

-- Insertion in an order of time, after the items that are not later.
abbrev pub insert_by {ℓ} : {A : Type ℓ} → (A → A → Bool) → A → List A → List A
insert_by before x [] = x ∷ []
insert_by before x (y ∷ ys) =
    let rest = insert_by before x ys in if before y x then y ∷ rest else x ∷ y ∷ ys

-- sort.Slice, from the order in which the list or `range` gives the items
abbrev pub sort_by {ℓ} : {A : Type ℓ} → (A → A → Bool) → List A → List A
sort_by before [] = []
sort_by before (x ∷ xs) = insert_by before x (sort_by before xs)

abbrev pub kept_start : Option SourceRun → SourceRun → SourceRun
kept_start none run = run
kept_start (some existing) run =
    if not (is_zero existing.started_at)
    then record run { started_at = existing.started_at }
    else run

unfoldable pub put_run : SourceRun → SourceStore → SourceStore
put_run run s = record s {
  runs = put s.runs run.source_id (kept_start (get s.runs run.source_id) run);
}

-- UpsertSourceRun
unfoldable pub upsert_source_run : Io → Time → SourceRun → SourceStore → Saved
upsert_source_run io now run = save_normalized io (normalize_source_run now run) put_run

abbrev run_before : SourceRun → SourceRun → Bool
run_before a b =
    if not (a.updated_at == b.updated_at)
    then ltb a.updated_at b.updated_at
    else string_lt a.source_id b.source_id

-- ListSourceRuns
unfoldable pub list_source_runs : Io → SourceTransaction (List SourceRun)
unfolding with_locked_state
list_source_runs io = with_locked_state io [] (λ s. (sort_by run_before (values s.runs), none, s))

abbrev pub list_or_empty {ℓ} : {A : Type ℓ} → Option (List A) → List A
list_or_empty none = []
list_or_empty (some xs) = xs

abbrev attempt_before : SourceAttempt → SourceAttempt → Bool
attempt_before a b = ltb a.started_at b.started_at

unfoldable pub put_attempt : SourceAttempt → SourceStore → SourceStore
put_attempt attempt s = record s {
  attempts = put s.attempts attempt.source_run_id (
      sort_by attempt_before
        (list_or_empty (get s.attempts attempt.source_run_id) ++ attempt ∷ []));
}

-- RecordSourceAttempt
unfoldable pub record_source_attempt : Host → Io → Time → SourceAttempt → SourceStore → Saved
record_source_attempt h io now attempt =
    save_normalized io (normalize_source_attempt h now attempt) put_attempt

-- ListSourceAttempts
unfoldable pub list_source_attempts : Io → String → SourceTransaction (List SourceAttempt)
unfolding with_locked_state
list_source_attempts io source_run_id disk =
    if is_empty (trim source_run_id)
    then ([], some "source run id is required", disk)
    else with_locked_state io []
        (λ s.
          (sort_by attempt_before (list_or_empty (get s.attempts (trim source_run_id))), none, s))
        disk

unfoldable pub put_cursor : SourceCursor → SourceStore → SourceStore
put_cursor cursor s = record s {
  cursors = put s.cursors (source_cursor_key cursor.source_id cursor.cursor_kind) cursor;
}

-- SaveSourceCursor
unfoldable pub save_source_cursor : Io → Time → SourceCursor → SourceStore → Saved
save_source_cursor io now cursor =
    save_normalized io (normalize_source_cursor now cursor) put_cursor

abbrev cursor_found : Option SourceCursor → SourceCursor × Bool
cursor_found none = (zero_cursor, false)
cursor_found (some cursor) = (cursor, true)

-- GetSourceCursor
unfoldable pub get_source_cursor : Io → String → String → SourceTransaction (SourceCursor × Bool)
unfolding with_locked_state
get_source_cursor io source_id cursor_kind disk =
    if is_empty (trim source_id) || is_empty (trim cursor_kind)
    then ((zero_cursor, false), some "source id and cursor kind are required", disk)
    else with_locked_state io (zero_cursor, false)
        (λ s. (
          cursor_found (get s.cursors (source_cursor_key (trim source_id) (trim cursor_kind))),
          none,
          s,
        ))
        disk

abbrev cursor_before : SourceCursor → SourceCursor → Bool
cursor_before a b =
    if not (a.updated_at == b.updated_at)
    then ltb a.updated_at b.updated_at
    else string_lt (source_cursor_key a.source_id a.cursor_kind)
        (source_cursor_key b.source_id b.cursor_kind)

-- ListSourceCursors
unfoldable pub list_source_cursors : Io → SourceTransaction (List SourceCursor)
unfolding with_locked_state
list_source_cursors io =
    with_locked_state io [] (λ s. (sort_by cursor_before (values s.cursors), none, s))

unfoldable pub put_verification : SourceVerificationEvidence → SourceStore → SourceStore
put_verification evidence s = record s {
  verifications = put s.verifications (source_verification_key evidence) evidence;
}

-- RecordSourceVerification
unfoldable pub record_source_verification :
    Io → Time → SourceVerificationEvidence → SourceStore → Saved
record_source_verification io now evidence =
    save_normalized io (normalize_source_verification_evidence now evidence) put_verification

abbrev evidence_before : SourceVerificationEvidence → SourceVerificationEvidence → Bool
evidence_before a b =
    if not (a.checked_at == b.checked_at)
    then ltb a.checked_at b.checked_at
    else string_lt (source_verification_key a) (source_verification_key b)

-- ListSourceVerifications
unfoldable pub list_source_verifications : Io → SourceTransaction (List SourceVerificationEvidence)
unfolding with_locked_state
list_source_verifications io =
    with_locked_state io [] (λ s. (sort_by evidence_before (values s.verifications), none, s))
