-- ===== src/Connector/Sources/Operator.antt =====
-- source_lifecycle_operator.go: what operators do with a source.
use genesis.Prelude.{
  String, Bool, true, not, Option, none, some, List, [], ◌∷◌, ◌++◌, str_eq, ltb, ◌==◌,
  if◌then◌else◌,
}
use genesis.Prelude.Text.{is_empty, trim, string_lt}
use genesis.Prelude.Dict.{get, put, values}
use genesis.Prelude.Results.{err, ok}
use genesis.Connector.Types.{Time}
use genesis.Connector.Ids.{Host}
use genesis.Connector.Safety.{safe_reason}
use genesis.Connector.Store.{Io, with_locked_state, write_locked}
use genesis.Connector.Sources.Types.{
  SourceRun, SourceCursor, SourceOperatorActionRecord, SourceStore, zero_run, zero_cursor,
  zero_action,
}
use genesis.Connector.Sources.Normalize.{
  or_now, normalize_source_cursor, normalize_source_operator_action, default_source_operator_reason,
}
use genesis.Connector.Sources.Store.{SourceTransaction, sort_by, list_or_empty, put_cursor}

abbrev action_before : SourceOperatorActionRecord → SourceOperatorActionRecord → Bool
action_before a b =
    if not (a.created_at == b.created_at)
    then ltb a.created_at b.created_at
    else string_lt a.action_id b.action_id

-- sortSourceOperatorActions
abbrev sort_source_operator_actions :
    List SourceOperatorActionRecord → List SourceOperatorActionRecord
sort_source_operator_actions = sort_by action_before

unfoldable pub put_action : String → SourceOperatorActionRecord → SourceStore → SourceStore
put_action source_id action s = record s {
  operator_actions = put s.operator_actions source_id (
      sort_source_operator_actions
        (list_or_empty (get s.operator_actions source_id) ++ action ∷ []));
}

-- A body on the run that was found, or the error of a missing one.
abbrev pub on_run :
    {A : Type 0} → A → (SourceRun → SourceTransaction A) → Option SourceRun → SourceTransaction A
on_run before body none s = (before, some "source run not found", s)
on_run before body (some run) s = body run s

-- An operation on a known run, after the checks of the id and the reason.
unfoldable pub operate :
    {A : Type 0}
    → Io
    → String
    → String
    → A
    → (SourceRun → SourceTransaction A)
    → SourceTransaction A
unfolding with_locked_state
operate io source_id reason before body disk =
    if not (safe_reason reason)
    then (before, some "source operator reason is unsafe", disk)
    else with_locked_state io before (λ s. on_run before body (get s.runs source_id) s) disk

abbrev pub cleared_run : Time → SourceRun → SourceRun
cleared_run now run = record run {
  status = "stopped";
  stopped_at = now;
  blocked_reason_code = "";
  blocked_reason = "";
  updated_at = now;
}

-- The body of ClearBlockedSourceRun.
abbrev pub clear_body :
    Host
    → Io
    → String
    → String
    → Time
    → Time
    → SourceRun
    → SourceTransaction (SourceRun × SourceOperatorActionRecord)
clear_body h io source_id reason clock now existing s =
    if not (str_eq existing.status "blocked")
    then ((zero_run, zero_action), some "source run is not blocked", s)
    else (let run = cleared_run now existing in
        let action : SourceOperatorActionRecord = record zero_action {
          source_id = source_id;
          action = "clear_blocked";
          reason = reason;
          previous_status = existing.status;
          new_status = run.status;
          created_at = now;
        } in
        elim (normalize_source_operator_action h clock action) [
          | err e ↦ ((run, action), some e, s)
          | ok action' ↦
              write_locked io (run, action')
                (put_action source_id action' (record s { runs = put s.runs source_id run })) s
        ])

-- ClearBlockedSourceRun
unfoldable pub clear_blocked_source_run :
    Host
    → Io
    → Time
    → String
    → String
    → Time
    → SourceTransaction (SourceRun × SourceOperatorActionRecord)
unfolding write_locked
clear_blocked_source_run h io clock source_id reason now disk =
    let reason' = default_source_operator_reason reason "operator_cleared_blocked" in
    if is_empty (trim source_id)
    then ((zero_run, zero_action), some "source id is required", disk)
    else operate io (trim source_id) reason' (zero_run, zero_action)
        (clear_body h io (trim source_id) reason' clock (or_now clock now)) disk

-- The body of RequestSourceRestart.
abbrev pub restart_body :
    Host
    → Io
    → String
    → String
    → Time
    → Time
    → SourceRun
    → SourceTransaction SourceOperatorActionRecord
restart_body h io source_id reason clock now run s =
    let action : SourceOperatorActionRecord = record zero_action {
      source_id = source_id;
      action = "request_restart";
      reason = reason;
      previous_status = run.status;
      new_status = run.status;
      created_at = now;
    } in
    elim (normalize_source_operator_action h clock action) [
      | err e ↦ (action, some e, s)
      | ok action' ↦ write_locked io action' (put_action source_id action' s) s
    ]

-- RequestSourceRestart
unfoldable pub request_source_restart :
    Host → Io → Time → String → String → Time → SourceTransaction SourceOperatorActionRecord
unfolding write_locked
request_source_restart h io clock source_id reason now disk =
    let reason' = default_source_operator_reason reason "operator_requested_restart" in
    if is_empty (trim source_id)
    then (zero_action, some "source id is required", disk)
    else operate io (trim source_id) reason' zero_action
        (restart_body h io (trim source_id) reason' clock (or_now clock now)) disk

-- The body of ResetSourceCursor, on a normalised cursor.
abbrev pub reset_with :
    Host
    → Io
    → String
    → String
    → Time
    → Time
    → SourceCursor
    → SourceTransaction (SourceCursor × SourceOperatorActionRecord)
reset_with h io source_id reason clock now cursor s =
    let action : SourceOperatorActionRecord = record zero_action {
      source_id = source_id;
      action = "reset_cursor";
      reason = reason;
      cursor_kind = cursor.cursor_kind;
      cursor_value = cursor.cursor_value;
      accepted_duplicate_risk = true;
      created_at = now;
    } in
    elim (normalize_source_operator_action h clock action) [
      | err e ↦ ((cursor, action), some e, s)
      | ok action' ↦
          write_locked io (cursor, action') (put_action source_id action' (put_cursor cursor s)) s
    ]

abbrev pub reset_body :
    Host
    → Io
    → SourceCursor
    → String
    → Time
    → Time
    → SourceRun
    → SourceTransaction (SourceCursor × SourceOperatorActionRecord)
reset_body h io cursor reason clock now run s = elim (normalize_source_cursor clock cursor) [
  | err e ↦ ((cursor, zero_action), some e, s)
  | ok cursor' ↦ reset_with h io cursor.source_id reason clock now cursor' s
]

abbrev pub kind_or_default : String → String
kind_or_default kind = if is_empty kind then "external_event_id" else kind

-- ResetSourceCursor
unfoldable pub reset_source_cursor :
    Host
    → Io
    → Time
    → String
    → String
    → String
    → String
    → Bool
    → Time
    → SourceTransaction (SourceCursor × SourceOperatorActionRecord)
unfolding write_locked
reset_source_cursor h io clock source_id cursor_kind cursor_value reason accepted now disk =
    let reason' = default_source_operator_reason reason "operator_reset_cursor" in
    let now' = or_now clock now in
    let cursor : SourceCursor = record zero_cursor {
      source_id = trim source_id;
      cursor_kind = kind_or_default (trim cursor_kind);
      cursor_value = trim cursor_value;
      updated_at = now';
    } in
    if is_empty (trim source_id)
    then ((zero_cursor, zero_action), some "source id is required", disk)
    else if not accepted
    then (
      (zero_cursor, zero_action),
      some "source cursor reset requires accepted duplicate-processing risk",
      disk,
    )
    else operate io (trim source_id) reason' (zero_cursor, zero_action)
        (reset_body h io cursor reason' clock now') disk

abbrev all_actions : List (List SourceOperatorActionRecord) → List SourceOperatorActionRecord
all_actions [] = []
all_actions (xs ∷ rest) = xs ++ all_actions rest

-- ListSourceOperatorActions
unfoldable pub list_source_operator_actions :
    Io → String → SourceTransaction (List SourceOperatorActionRecord)
unfolding with_locked_state
list_source_operator_actions io source_id = with_locked_state io [] (λ s. (
  sort_source_operator_actions (
      if is_empty (trim source_id)
      then all_actions (values s.operator_actions)
      else list_or_empty (get s.operator_actions (trim source_id))),
  none,
  s,
))
