-- ===== src/Connector/Sources/Normalize.antt =====
-- The normalisation and the checks of what the source store takes.
use genesis.Prelude.{
  String, Bool, not, ◌&&◌, ◌||◌, Option, none, some, List, [], ◌∷◌, any, str_eq, if◌then◌else◌,
}
use genesis.Prelude.Text.{is_empty, append, trim}
use genesis.Prelude.Results.{Result, err, ok}
use genesis.Connector.Types.{Time, is_zero}
use genesis.Connector.Ids.{Host, stable_opaque_id}
use genesis.Connector.Safety.{safe_reason}
use genesis.Connector.Inbound.Event.{first_case}
use genesis.Connector.Sources.Types.{
  SourceRun, SourceAttempt, SourceCursor, SourceVerificationEvidence, SourceOperatorActionRecord,
}

abbrev one_of : List String → String → Bool
one_of texts s = any (str_eq s) texts

-- validSourceRunStatus
abbrev valid_source_run_status : String → Bool
valid_source_run_status = one_of ("starting" ∷ "ready" ∷ "degraded" ∷ "blocked" ∷ "stopped" ∷ [])

-- validSourceAttemptOutcome
abbrev valid_source_attempt_outcome : String → Bool
valid_source_attempt_outcome = one_of ("ready" ∷ "failed" ∷ "blocked" ∷ "stopped" ∷ [])

-- validSourceEvidenceKind
abbrev valid_source_evidence_kind : String → Bool
valid_source_evidence_kind =
    one_of
      ("webhook_signature" ∷ "provider_event_signature" ∷ "trusted_local_adapter_attestation" ∷ [])

-- validSourceReadinessReasonCode
abbrev valid_source_readiness_reason_code : String → Bool
valid_source_readiness_reason_code = one_of (
    "missing_profile" ∷ "profile_expired" ∷ "permission_denied" ∷ "refresh_required"
    ∷ "operator_action_required" ∷ "source_command_invalid" ∷ "source_runtime_failed" ∷ [])

-- validSourceOperatorAction
abbrev valid_source_operator_action : String → Bool
valid_source_operator_action = one_of ("clear_blocked" ∷ "request_restart" ∷ "reset_cursor" ∷ [])

-- if t.IsZero() { t = now }
abbrev pub or_now : Time → Time → Time
or_now now t = if is_zero t then now else t

-- The value, unless a check has failed.
abbrev checked {ℓ} : {A : Type ℓ} → Option String → A → Result A
checked none a = ok a
checked (some e) a = err e

abbrev trimmed_run : SourceRun → SourceRun
trimmed_run run = record run {
  source_id = trim run.source_id;
  connector = trim run.connector;
  adapter_ref = trim run.adapter_ref;
  status = trim run.status;
  blocked_reason_code = trim run.blocked_reason_code;
  blocked_reason = trim run.blocked_reason;
}

abbrev check_run : SourceRun → Option String
check_run run = first_case (
    (is_empty run.source_id, "source run source id is required")
    ∷ (is_empty run.connector, "source run connector is required")
    ∷ (is_empty run.adapter_ref, "source run adapter ref is required")
    ∷ (not (valid_source_run_status run.status), "source run status is invalid")
    ∷ (
      not (is_empty run.blocked_reason_code)
          && not (valid_source_readiness_reason_code run.blocked_reason_code),
      "source run blocked reason code is invalid",
    )
    ∷ [])

-- normalizeSourceRun
unfoldable pub normalize_source_run : Time → SourceRun → Result SourceRun
normalize_source_run now run =
    let it = trimmed_run run in
    checked (check_run it) (record it {
      started_at = or_now now it.started_at;
      last_ready_at =
          if str_eq it.status "ready" && is_zero it.last_ready_at then now else it.last_ready_at;
      updated_at = or_now now it.updated_at;
    })

abbrev trimmed_attempt : SourceAttempt → SourceAttempt
trimmed_attempt attempt = record attempt {
  attempt_id = trim attempt.attempt_id;
  source_run_id = trim attempt.source_run_id;
  outcome = trim attempt.outcome;
  failure_ref = trim attempt.failure_ref;
}

abbrev attempt_with_id : Host → SourceAttempt → SourceAttempt
attempt_with_id h attempt =
    if is_empty attempt.attempt_id
    then record attempt {
      attempt_id = stable_opaque_id h "source_attempt" (
          attempt.source_run_id
          ∷ attempt.outcome
          ∷ h.rfc3339_nano attempt.started_at
          ∷ h.rfc3339_nano attempt.ended_at
          ∷ attempt.failure_ref
          ∷ []);
    }
    else attempt

-- normalizeSourceAttempt
unfoldable pub normalize_source_attempt : Host → Time → SourceAttempt → Result SourceAttempt
normalize_source_attempt h now attempt =
    let it = trimmed_attempt attempt in
    checked
      (first_case (
        (is_empty it.source_run_id, "source attempt source run id is required")
        ∷ (not (valid_source_attempt_outcome it.outcome), "source attempt outcome is invalid")
        ∷ []))
      (attempt_with_id h
        (record it { started_at = or_now now it.started_at; ended_at = or_now now it.ended_at }))

-- normalizeSourceCursor
unfoldable pub normalize_source_cursor : Time → SourceCursor → Result SourceCursor
normalize_source_cursor now cursor =
    checked
      (first_case (
        (
          is_empty (trim cursor.source_id) || is_empty (trim cursor.cursor_kind),
          "source cursor source id and kind are required",
        )
        ∷ (is_empty (trim cursor.cursor_value), "source cursor value is required")
        ∷ []))
      (record cursor {
        source_id = trim cursor.source_id;
        cursor_kind = trim cursor.cursor_kind;
        cursor_value = trim cursor.cursor_value;
        updated_at = or_now now cursor.updated_at;
      })

abbrev trimmed_evidence : SourceVerificationEvidence → SourceVerificationEvidence
trimmed_evidence e = record e {
  source_event_ref = trim e.source_event_ref;
  source_batch_ref = trim e.source_batch_ref;
  source_id = trim e.source_id;
  connector = trim e.connector;
  validation_status = trim e.validation_status;
  evidence_kind = trim e.evidence_kind;
  evidence_ref = trim e.evidence_ref;
  adapter_ref = trim e.adapter_ref;
}

abbrev check_evidence : SourceVerificationEvidence → Option String
check_evidence e = first_case (
    (
      is_empty e.source_event_ref && is_empty e.source_batch_ref,
      "source verification event or batch ref is required",
    )
    ∷ (is_empty e.source_id, "source verification source id is required")
    ∷ (is_empty e.connector, "source verification connector is required")
    ∷ (is_empty e.adapter_ref, "source verification adapter ref is required")
    ∷ (is_empty e.validation_status, "source verification status is required")
    ∷ (
      str_eq e.validation_status "verified"
          && (is_empty e.evidence_kind || is_empty e.evidence_ref),
      "verified source event requires evidence kind and ref",
    )
    ∷ (
      not (is_empty e.evidence_kind) && not (valid_source_evidence_kind e.evidence_kind),
      "source verification evidence kind is invalid",
    )
    ∷ (
      not (one_of ("verified" ∷ "unchecked" ∷ "rejected" ∷ []) e.validation_status),
      "source verification status is invalid",
    )
    ∷ [])

-- normalizeSourceVerificationEvidence
unfoldable pub normalize_source_verification_evidence :
    Time → SourceVerificationEvidence → Result SourceVerificationEvidence
normalize_source_verification_evidence now evidence =
    let it = trimmed_evidence evidence in
    checked (check_evidence it) (record it { checked_at = or_now now it.checked_at })

-- sourceVerificationKey
unfoldable pub source_verification_key : SourceVerificationEvidence → String
source_verification_key e =
    if not (is_empty (trim e.source_event_ref))
    then append "event:" (trim e.source_event_ref)
    else append "batch:" (trim e.source_batch_ref)

-- sourceCursorKey
unfoldable pub source_cursor_key : String → String → String
source_cursor_key source_id cursor_kind = append (trim source_id) (append "\0" (trim cursor_kind))

abbrev trimmed_action : SourceOperatorActionRecord → SourceOperatorActionRecord
trimmed_action a = record a {
  action_id = trim a.action_id;
  source_id = trim a.source_id;
  action = trim a.action;
  reason = trim a.reason;
  previous_status = trim a.previous_status;
  new_status = trim a.new_status;
  cursor_kind = trim a.cursor_kind;
  cursor_value = trim a.cursor_value;
}

abbrev check_action : SourceOperatorActionRecord → Option String
check_action a =
    let resets = str_eq a.action "reset_cursor" in
    first_case (
      (is_empty a.source_id, "source operator action source id is required")
      ∷ (not (valid_source_operator_action a.action), "source operator action is invalid")
      ∷ (not (safe_reason a.reason), "source operator reason is unsafe")
      ∷ (
        resets && (is_empty a.cursor_kind || is_empty a.cursor_value),
        "source cursor reset action requires cursor kind and value",
      )
      ∷ (
        resets && not a.accepted_duplicate_risk,
        "source cursor reset action requires accepted duplicate risk",
      )
      ∷ [])

abbrev action_with_id : Host → SourceOperatorActionRecord → SourceOperatorActionRecord
action_with_id h a =
    if is_empty a.action_id
    then record a {
      action_id = stable_opaque_id h "source_operator" (
          a.source_id
          ∷ a.action
          ∷ a.reason
          ∷ a.cursor_kind
          ∷ a.cursor_value
          ∷ h.rfc3339_nano a.created_at
          ∷ []);
    }
    else a

-- normalizeSourceOperatorAction
unfoldable pub normalize_source_operator_action :
    Host → Time → SourceOperatorActionRecord → Result SourceOperatorActionRecord
normalize_source_operator_action h now action =
    let it = trimmed_action action in
    checked (check_action it)
      (action_with_id h (record it { created_at = or_now now it.created_at }))

-- defaultSourceOperatorReason
unfoldable pub default_source_operator_reason : String → String → String
default_source_operator_reason reason fallback =
    if is_empty (trim reason) then fallback else trim reason
