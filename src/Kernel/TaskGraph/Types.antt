-- ===== src/Kernel/TaskGraph/Types.antt =====
-- task_graph_types.go: nodes, edges, graphs, their events and the requests.
use genesis.Prelude.{ℕ, String, Bool, true, false, not, ◌&&◌, Option, List}

pub data TaskStatus : Type 0 where
  proposed : TaskStatus
  ready : TaskStatus
  running : TaskStatus
  waiting : TaskStatus
  blocked : TaskStatus
  completed : TaskStatus
  failed : TaskStatus
  cancelled : TaskStatus
  other : String → TaskStatus

-- The text of a status.
abbrev pub task_status_text : TaskStatus → String
task_status_text TaskStatus.proposed = "proposed"
task_status_text TaskStatus.ready = "ready"
task_status_text TaskStatus.running = "running"
task_status_text TaskStatus.waiting = "waiting"
task_status_text TaskStatus.blocked = "blocked"
task_status_text TaskStatus.completed = "completed"
task_status_text TaskStatus.failed = "failed"
task_status_text TaskStatus.cancelled = "cancelled"
task_status_text (TaskStatus.other t) = t

pub record TaskGraphNodeProjection : Type 0 where
  pub node_id : String
  pub invocation_id : String
  pub title : String
  pub description : String
  pub status : TaskStatus
  pub reason : String
  pub evidence_refs : List String
  pub updated_at : ℕ

pub record TaskGraphEdgeProjection : Type 0 where
  pub from_node_id : String
  pub to_node_id : String

pub record TaskGraphProjection : Type 0 where
  pub graph_id : String
  pub session_id : String
  pub nodes : List TaskGraphNodeProjection
  pub edges : List TaskGraphEdgeProjection
  pub created_at : ℕ

pub record TaskGraphEventProjection : Type 0 where
  pub graph_id : String
  pub session_id : String
  pub node : Option TaskGraphNodeProjection
  pub edge : Option TaskGraphEdgeProjection
  pub created_at : ℕ

pub record TaskGraphNodeRequest : Type 0 where
  pub graph_id : String
  pub invocation_id : String
  pub title : String
  pub description : String

pub record TaskGraphNodeUpdateRequest : Type 0 where
  pub graph_id : String
  pub node_id : String
  pub title : String
  pub description : String

-- The requests to add and to remove an edge have the same fields.
pub record TaskGraphEdgeRequest : Type 0 where
  pub graph_id : String
  pub from_node_id : String
  pub to_node_id : String

pub record TaskGraphNodeTransitionRequest : Type 0 where
  pub graph_id : String
  pub node_id : String
  pub status : TaskStatus
  pub reason : String
  pub evidence_refs : List String

abbrev pub is_completed : TaskStatus → Bool
is_completed TaskStatus.completed = true
is_completed _ = false

abbrev pub is_running : TaskStatus → Bool
is_running TaskStatus.running = true
is_running _ = false

abbrev pub is_blocked : TaskStatus → Bool
is_blocked TaskStatus.blocked = true
is_blocked _ = false

-- predecessor.Status == failed || predecessor.Status == cancelled
abbrev pub is_broken : TaskStatus → Bool
is_broken TaskStatus.failed = true
is_broken TaskStatus.cancelled = true
is_broken _ = false

abbrev pub is_ended : TaskStatus → Bool
is_ended TaskStatus.completed = true
is_ended TaskStatus.failed = true
is_ended TaskStatus.cancelled = true
is_ended _ = false

-- taskGraphNodeTerminal
abbrev pub task_graph_node_terminal : TaskGraphNodeProjection → Bool
task_graph_node_terminal node = is_ended node.status

-- taskGraphNodeMutable
abbrev pub task_graph_node_mutable : TaskGraphNodeProjection → Bool
task_graph_node_mutable node = not (is_running node.status) && not (task_graph_node_terminal node)

-- taskGraphTransitionAllowed
abbrev pub task_graph_transition_allowed : TaskStatus → TaskStatus → Bool
task_graph_transition_allowed TaskStatus.ready TaskStatus.running = true
task_graph_transition_allowed TaskStatus.ready TaskStatus.completed = true
task_graph_transition_allowed TaskStatus.ready TaskStatus.cancelled = true
task_graph_transition_allowed TaskStatus.running TaskStatus.completed = true
task_graph_transition_allowed TaskStatus.running TaskStatus.failed = true
task_graph_transition_allowed TaskStatus.running TaskStatus.waiting = true
task_graph_transition_allowed TaskStatus.running TaskStatus.cancelled = true
task_graph_transition_allowed _ _ = false
