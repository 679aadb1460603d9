-- ===== src/Kernel/Types.antt =====
-- event_types.go, memory_types.go and workregistry/types.go: ledger events and what they carry.
-- A `*time.Time` is an Option; a status is a data type with `other` for any text that is no
-- constant of the source.
use genesis.Prelude.{ℕ, String, Option, none}
use genesis.Kernel.TaskGraph.Types.{TaskGraphEventProjection}
use genesis.Kernel.Approval.Types.{ApprovalProjection, OperationProjection}

-- Nanoseconds since Go's zero time.
abbrev pub Time : Type 0
Time = ℕ

pub data MemoryStatus : Type 0 where
  pending : MemoryStatus
  approved : MemoryStatus
  rejected : MemoryStatus
  superseded : MemoryStatus
  forgotten : MemoryStatus
  other : String → MemoryStatus

pub record MemoryCandidateProjection : Type 0 where
  pub candidate_id : String
  pub session_id : String
  pub text : String
  pub source_ref : String
  pub kind : String
  pub scope : String
  pub applies_when : String
  pub yields_to : String
  pub strength : String
  pub status : MemoryStatus
  pub created_at : Time
  pub approval_authority : String
  pub approval_reason : String
  pub approval_evidence_ref : String
  pub approved_at : Option Time
  pub rejection_authority : String
  pub rejection_reason : String
  pub rejection_evidence_ref : String
  pub rejected_at : Option Time
  pub supersession_authority : String
  pub supersession_reason : String
  pub supersession_evidence_ref : String
  pub replacement_candidate_id : String
  pub superseded_at : Option Time
  pub forget_authority : String
  pub forget_reason : String
  pub forget_evidence_ref : String
  pub forgotten_at : Option Time

pub data WorkStatus : Type 0 where
  alive : WorkStatus
  canceled : WorkStatus
  other : String → WorkStatus

pub record WorkProjection : Type 0 where
  pub work_id : String
  pub session_id : String
  pub title : String
  pub source_ref : String
  pub idempotency_key : String
  pub status : WorkStatus
  pub created_at : Time
  pub cancel_authority : String
  pub cancel_reason : String
  pub cancel_evidence_ref : String
  pub canceled_at : Option Time

-- The event types that the modelled parts write or read; `other` is any other type.
pub data EventType : Type 0 where
  memory_created : EventType
  memory_approved : EventType
  memory_rejected : EventType
  memory_superseded : EventType
  memory_forgotten : EventType
  work_submitted : EventType
  work_canceled : EventType
  approval_requested : EventType
  approval_approved : EventType
  approval_denied : EventType
  approval_expired : EventType
  task_graph_created : EventType
  task_graph_node_added : EventType
  task_graph_edge_added : EventType
  task_graph_edge_removed : EventType
  task_graph_node_updated : EventType
  task_graph_node_transitioned : EventType
  other : String → EventType

-- The text of an event type.
abbrev pub event_type_text : EventType → String
event_type_text EventType.memory_created = "memory.candidate.created"
event_type_text EventType.memory_approved = "memory.candidate.approved"
event_type_text EventType.memory_rejected = "memory.candidate.rejected"
event_type_text EventType.memory_superseded = "memory.candidate.superseded"
event_type_text EventType.memory_forgotten = "memory.candidate.forgotten"
event_type_text EventType.work_submitted = "work.submitted"
event_type_text EventType.work_canceled = "work.canceled"
event_type_text EventType.approval_requested = "approval.requested"
event_type_text EventType.approval_approved = "approval.approved"
event_type_text EventType.approval_denied = "approval.denied"
event_type_text EventType.approval_expired = "approval.expired"
event_type_text EventType.task_graph_created = "task_graph.created"
event_type_text EventType.task_graph_node_added = "task_graph.node_added"
event_type_text EventType.task_graph_edge_added = "task_graph.edge_added"
event_type_text EventType.task_graph_edge_removed = "task_graph.edge_removed"
event_type_text EventType.task_graph_node_updated = "task_graph.node_updated"
event_type_text EventType.task_graph_node_transitioned = "task_graph.node_transitioned"
event_type_text (EventType.other t) = t

-- The parts of an event's data that the modelled parts read.
pub record EventData : Type 0 where
  pub work : Option WorkProjection
  pub memory_candidate : Option MemoryCandidateProjection
  pub replacement_memory_candidate : Option MemoryCandidateProjection
  pub task_graph : Option TaskGraphEventProjection
  pub approval : Option ApprovalProjection
  pub operation : Option OperationProjection

-- EventData{}
abbrev pub no_data : EventData
no_data = record {
  work = none;
  memory_candidate = none;
  replacement_memory_candidate = none;
  task_graph = none;
  approval = none;
  operation = none;
}

pub record StoredEvent : Type 0 where
  pub event_id : String
  pub session_id : String
  pub turn_id : String
  pub operation_id : String
  pub work_id : String
  pub candidate_id : String
  pub approval_id : String
  pub type : EventType
  pub created_at : Time
  pub event_data : EventData
