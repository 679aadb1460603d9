-- ===== src/Kernel/TaskGraph/Edit.antt =====
-- The operations on a task graph. The lock taskGraphMu makes each of them one step.
use genesis.Prelude.{
  String, Bool, false, not, ◌&&◌, ◌||◌, Option, none, some, [], ◌∷◌, ◌++◌, str_eq, if◌then◌else◌,
}
use genesis.Prelude.Text.{is_empty, trim}
use genesis.Prelude.Results.{Result}
use genesis.Kernel.Types.{EventType, StoredEvent, no_data}
use genesis.Kernel.Ledger.{new_id, KernelEnv, Ledger, append_event, refuse_with, with_value}
use genesis.Kernel.TaskGraph.Types.{
  TaskStatus, TaskGraphNodeProjection, TaskGraphEdgeProjection, TaskGraphProjection,
  TaskGraphEventProjection, TaskGraphNodeRequest, TaskGraphNodeUpdateRequest, TaskGraphEdgeRequest,
  TaskGraphNodeTransitionRequest, task_graph_node_mutable, task_graph_transition_allowed,
}
use genesis.Kernel.TaskGraph.Nodes.{Nodes}
use genesis.Kernel.TaskGraph.Cycle.{has_edge, task_graph_has_cycle}
use genesis.Kernel.TaskGraph.Replay.{blank_graph, projected, task_graph}

-- An error, or none, and the new ledger.
abbrev pub Done : Type 0
Done = Result (Unit {0}) × Ledger

-- The event that appendTaskGraphEvent appends.
abbrev pub task_graph_event : KernelEnv → EventType → TaskGraphEventProjection → StoredEvent
task_graph_event k type change = record {
  event_id = new_id k "evt" k.clock;
  session_id = change.session_id;
  turn_id = "";
  operation_id = "";
  work_id = "";
  candidate_id = "";
  approval_id = "";
  type = type;
  created_at = change.created_at;
  event_data = record no_data { task_graph = some change };
}

-- taskGraphNode
unfoldable pub task_graph_node : Nodes → String → Option TaskGraphNodeProjection
task_graph_node [] id = none
task_graph_node (node ∷ nodes) id =
    if str_eq node.node_id id then some node else task_graph_node nodes id

-- CreateTaskGraph
unfoldable pub create_task_graph : KernelEnv → String → Ledger → Result TaskGraphProjection × Ledger
create_task_graph k session_id ledger =
    if is_empty (trim session_id)
    then refuse_with "session_id is required" ledger
    else (let change : TaskGraphEventProjection = record {
      graph_id = new_id k "task_graph" k.clock;
      session_id = trim session_id;
      node = none;
      edge = none;
      created_at = k.clock;
    } in
        append_event k (task_graph_event k EventType.task_graph_created change) (blank_graph change)
          ledger)

-- TaskGraphEventProjection{GraphID: graph.GraphID, SessionID: graph.SessionID, Node: &node, ...}
abbrev pub node_change :
    KernelEnv → TaskGraphProjection → TaskGraphNodeProjection → TaskGraphEventProjection
node_change k graph node = record {
  graph_id = graph.graph_id;
  session_id = graph.session_id;
  node = some node;
  edge = none;
  created_at = k.clock;
}

abbrev pub edge_change :
    KernelEnv → TaskGraphProjection → TaskGraphEdgeProjection → TaskGraphEventProjection
edge_change k graph edge = record {
  graph_id = graph.graph_id;
  session_id = graph.session_id;
  node = none;
  edge = some edge;
  created_at = k.clock;
}

unfoldable pub proposed_node : KernelEnv → TaskGraphNodeRequest → TaskGraphNodeProjection
proposed_node k req = record {
  node_id = new_id k "task_node" k.clock;
  invocation_id = "";
  title = trim req.title;
  description = trim req.description;
  status = TaskStatus.proposed;
  reason = "";
  evidence_refs = [];
  updated_at = k.clock;
}

abbrev pub add_node_to :
    KernelEnv
    → TaskGraphNodeRequest
    → TaskGraphProjection
    → Ledger
    → Result TaskGraphNodeProjection × Ledger
add_node_to k req graph ledger =
    if not (is_empty (trim req.invocation_id))
    then refuse_with "task graph invocation binding requires explicit ready node" ledger
    else append_event k
        (task_graph_event k EventType.task_graph_node_added
          (node_change k graph (proposed_node k req)))
        (proposed_node k req) ledger

-- AddTaskGraphNode
unfoldable pub add_task_graph_node :
    KernelEnv → TaskGraphNodeRequest → Ledger → Result TaskGraphNodeProjection × Ledger
add_task_graph_node k req ledger =
    with_value (task_graph k req.graph_id ledger) (add_node_to k req) ledger

-- fromFound && taskGraphNodeMutable(fromNode)
unfoldable pub found_mutable : Nodes → String → Bool
found_mutable nodes id = elim (task_graph_node nodes id) [
  | none ↦ false
  | some node ↦ task_graph_node_mutable node
]

abbrev pub requested_edge : TaskGraphEdgeRequest → TaskGraphEdgeProjection
requested_edge req = record {
  from_node_id = trim req.from_node_id;
  to_node_id = trim req.to_node_id;
}

-- graph.Edges = append(graph.Edges, ...)
abbrev pub with_edge : TaskGraphProjection → TaskGraphEdgeProjection → TaskGraphProjection
with_edge graph edge = record graph { edges = graph.edges ++ edge ∷ [] }

-- The tests of an edge before the search for a cycle.
unfoldable pub edge_allowed : TaskGraphProjection → String → String → Bool
edge_allowed graph from to =
    not (is_empty from || is_empty to || str_eq from to)
    && not (
        not (found_mutable graph.nodes from)
        || not (found_mutable graph.nodes to)
        || has_edge graph.edges from to)

abbrev pub add_edge_to : KernelEnv → TaskGraphEdgeProjection → TaskGraphProjection → Ledger → Done
add_edge_to k edge graph ledger =
    if not (edge_allowed graph edge.from_node_id edge.to_node_id)
    then refuse_with "task graph edge invalid" ledger
    else if task_graph_has_cycle (with_edge graph edge)
    then refuse_with "task graph cycle" ledger
    else append_event k
        (task_graph_event k EventType.task_graph_edge_added (edge_change k graph edge)) tt ledger

-- AddTaskGraphEdge
unfoldable pub add_task_graph_edge : KernelEnv → TaskGraphEdgeRequest → Ledger → Done
add_task_graph_edge k req ledger =
    with_value (task_graph k req.graph_id ledger) (add_edge_to k (requested_edge req)) ledger

-- The tests of an edge that is to be removed.
unfoldable pub removable : TaskGraphProjection → TaskGraphEdgeProjection → Bool
removable graph edge = not (
    not (found_mutable graph.nodes edge.from_node_id)
    || not (found_mutable graph.nodes edge.to_node_id)
    || not (has_edge graph.edges edge.from_node_id edge.to_node_id))

abbrev pub remove_edge_from :
    KernelEnv → TaskGraphEdgeProjection → TaskGraphProjection → Ledger → Done
remove_edge_from k edge graph ledger =
    if not (removable graph edge)
    then refuse_with "task graph edge invalid" ledger
    else append_event k
        (task_graph_event k EventType.task_graph_edge_removed (edge_change k graph edge)) tt ledger

-- RemoveTaskGraphEdge
unfoldable pub remove_task_graph_edge : KernelEnv → TaskGraphEdgeRequest → Ledger → Done
remove_task_graph_edge k req ledger =
    with_value (task_graph k req.graph_id ledger) (remove_edge_from k (requested_edge req)) ledger

-- The node with the title and the description asked for.
unfoldable pub updated_node :
    KernelEnv → TaskGraphNodeUpdateRequest → TaskGraphNodeProjection → TaskGraphNodeProjection
updated_node k req node = record node {
  title = trim req.title;
  description = trim req.description;
  updated_at = k.clock;
}

abbrev pub update_node_in :
    KernelEnv → TaskGraphNodeUpdateRequest → TaskGraphProjection → Ledger → Done
update_node_in k req graph ledger = elim (task_graph_node graph.nodes (trim req.node_id)) [
  | none ↦ refuse_with "task graph node not found" ledger
  | some node ↦
      if not (task_graph_node_mutable node)
      then refuse_with "task graph node immutable" ledger
      else append_event k
          (task_graph_event k EventType.task_graph_node_updated
            (node_change k graph (updated_node k req node)))
          tt ledger
]

-- UpdateTaskGraphNode
unfoldable pub update_task_graph_node : KernelEnv → TaskGraphNodeUpdateRequest → Ledger → Done
update_task_graph_node k req ledger =
    with_value (task_graph k req.graph_id ledger) (update_node_in k req) ledger

-- The node in the status asked for.
unfoldable pub moved_node :
    KernelEnv → TaskGraphNodeTransitionRequest → TaskGraphNodeProjection → TaskGraphNodeProjection
moved_node k req node = record node {
  status = req.status;
  reason = trim req.reason;
  evidence_refs = req.evidence_refs;
  updated_at = k.clock;
}

-- taskGraph has projected the nodes, and TransitionTaskGraphNode projects them once more.
abbrev pub transition_node_in :
    KernelEnv → TaskGraphNodeTransitionRequest → TaskGraphProjection → Ledger → Done
transition_node_in k req graph ledger =
    elim (task_graph_node (projected graph).nodes (trim req.node_id)) [
      | none ↦ refuse_with "task graph node not found" ledger
      | some node ↦
          if not (task_graph_transition_allowed node.status req.status)
          then refuse_with "task graph transition invalid" ledger
          else append_event k
              (task_graph_event k EventType.task_graph_node_transitioned
                (node_change k graph (moved_node k req node)))
              tt ledger
    ]

-- TransitionTaskGraphNode
unfoldable pub transition_task_graph_node :
    KernelEnv → TaskGraphNodeTransitionRequest → Ledger → Done
transition_task_graph_node k req ledger =
    with_value (task_graph k req.graph_id ledger) (transition_node_in k req) ledger
