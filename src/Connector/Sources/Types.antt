-- ===== src/Connector/Sources/Types.antt =====
-- source_types.go and the state of FileSourceLifecycleStore. A status stays a text, since the store
-- normalises and checks it as one.
use genesis.Prelude.{String, Bool, false, List, []}
use genesis.Prelude.Dict.{Dict}
use genesis.Connector.Types.{Time, zero_time}

pub record SourceRun : Type 0 where
  pub source_id : String
  pub connector : String
  pub adapter_ref : String
  pub status : String
  pub started_at : Time
  pub stopped_at : Time
  pub last_ready_at : Time
  pub blocked_reason_code : String
  pub blocked_reason : String
  pub updated_at : Time

pub record SourceAttempt : Type 0 where
  pub attempt_id : String
  pub source_run_id : String
  pub started_at : Time
  pub ended_at : Time
  pub outcome : String
  pub failure_ref : String

pub record SourceCursor : Type 0 where
  pub source_id : String
  pub cursor_kind : String
  pub cursor_value : String
  pub watermark_at : Time
  pub updated_at : Time

pub record SourceVerificationEvidence : Type 0 where
  pub source_event_ref : String
  pub source_batch_ref : String
  pub source_id : String
  pub connector : String
  pub validation_status : String
  pub evidence_kind : String
  pub evidence_ref : String
  pub checked_at : Time
  pub adapter_ref : String

pub record SourceOperatorActionRecord : Type 0 where
  pub action_id : String
  pub source_id : String
  pub action : String
  pub reason : String
  pub previous_status : String
  pub new_status : String
  pub cursor_kind : String
  pub cursor_value : String
  pub accepted_duplicate_risk : Bool
  pub created_at : Time

pub record SourceStore : Type 0 where
  pub runs : Dict SourceRun
  pub attempts : Dict (List SourceAttempt)
  pub cursors : Dict SourceCursor
  pub verifications : Dict SourceVerificationEvidence
  pub operator_actions : Dict (List SourceOperatorActionRecord)

-- reset
abbrev pub empty_sources : SourceStore
empty_sources = record {
  runs = [];
  attempts = [];
  cursors = [];
  verifications = [];
  operator_actions = [];
}

-- SourceRun{}
abbrev pub zero_run : SourceRun
zero_run = record {
  source_id = "";
  connector = "";
  adapter_ref = "";
  status = "";
  started_at = zero_time;
  stopped_at = zero_time;
  last_ready_at = zero_time;
  blocked_reason_code = "";
  blocked_reason = "";
  updated_at = zero_time;
}

-- SourceCursor{}
abbrev pub zero_cursor : SourceCursor
zero_cursor = record {
  source_id = "";
  cursor_kind = "";
  cursor_value = "";
  watermark_at = zero_time;
  updated_at = zero_time;
}

-- SourceOperatorActionRecord{}
abbrev pub zero_action : SourceOperatorActionRecord
zero_action = record {
  action_id = "";
  source_id = "";
  action = "";
  reason = "";
  previous_status = "";
  new_status = "";
  cursor_kind = "";
  cursor_value = "";
  accepted_duplicate_risk = false;
  created_at = zero_time;
}
