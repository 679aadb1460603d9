-- ===== src/Kernel/LoopGuard/Types.antt =====
-- tool_loop_guard.go: the guard's state and what it reports, and the JSON that it reads.
use genesis.Prelude.{ℕ, ℤ, String, Bool, Option, []}
use genesis.Prelude.Dict.{Dict}
use genesis.Prelude.Results.{Result}

pub record ToolLoopGuard : Type 0 where
  pub failure_signature : String
  pub failure_count : ℕ
  pub repeated_success_count : Dict ℕ

pub record ToolLoopGuardProjection : Type 0 where
  pub code : String
  pub message : String
  pub repeat_count : ℕ
  pub signature_kind : String

pub record ToolRequestError : Type 0 where
  pub code : String
  pub message : String

pub record ToolLoopGuardedToolResult : Type 0 where
  pub status : String
  pub tool : String
  pub executed : Bool
  pub error : ToolRequestError
  pub loop_guard : ToolLoopGuardProjection

-- A result's texts; its pending starts pass through unread.
pub record ModelToolResult : Type 0 where
  pub tool_call_id : String
  pub tool_call_event_id : String
  pub name : String
  pub content : String

-- What the guard reads of a prepared call.
pub record PreparedModelToolCall : Type 0 where
  pub event_id : String
  pub provider_call_id : String
  pub name : String
  pub repeat_success_signature : String

-- encoding/json on a map of dynamic values: its two directions, and the type assertions.
pub record Json (V : Type 0) : Type 0 where
  pub unmarshal : String → Option (Dict V)
  pub marshal : Dict V → Result String
  pub marshal_guarded : ToolLoopGuardedToolResult → Result String
  pub of_projection : ToolLoopGuardProjection → V
  pub as_string : V → Option String
  pub as_int : V → Option ℤ
  pub as_object : V → Option (Dict V)

-- newToolLoopGuard
abbrev pub new_tool_loop_guard : ToolLoopGuard
new_tool_loop_guard = record {
  failure_signature = "";
  failure_count = 0;
  repeated_success_count = [];
}
