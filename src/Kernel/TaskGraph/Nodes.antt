-- ===== src/Kernel/TaskGraph/Nodes.antt =====
-- taskGraphProjectedNodes: the statuses of the nodes by their dependencies.
use genesis.Prelude.{
  String, Bool, true, false, not, ◌&&◌, none, some, List, [], ◌∷◌, ◌++◌, str_eq, if◌then◌else◌,
}
use genesis.Prelude.Text.{append, string_lt}
use genesis.Prelude.Dict.{Dict, get, put}
use genesis.Kernel.TaskGraph.Types.{
  TaskStatus, task_status_text, TaskGraphNodeProjection, TaskGraphEdgeProjection, is_completed,
  is_blocked, is_broken, task_graph_node_mutable,
}

abbrev pub Nodes : Type 0
Nodes = List TaskGraphNodeProjection

abbrev pub Edges : Type 0
Edges = List TaskGraphEdgeProjection

-- completed[node.NodeID] = node.Status == completed
unfoldable pub completed_nodes : Nodes → Dict Bool → Dict Bool
completed_nodes [] known = known
completed_nodes (node ∷ nodes) known =
    completed_nodes nodes (put known node.node_id (is_completed node.status))

-- completed[id]
unfoldable pub has_completed : Dict Bool → String → Bool
has_completed known id = elim (get known id) [ none ↦ false | some b ↦ b ]

-- nodes[i] and `waiting`
pub record Sweep : Type 0 where
  pub node : TaskGraphNodeProjection
  pub waiting : Bool

abbrev pub blocked_by : TaskGraphNodeProjection → TaskGraphNodeProjection → TaskGraphNodeProjection
blocked_by predecessor node = record node {
  status = TaskStatus.blocked;
  reason = append "dependency_" (task_status_text predecessor.status);
}

-- The loop over the predecessors of one edge.
unfoldable pub scan_predecessors : Dict Bool → String → Nodes → Sweep → Sweep
scan_predecessors known from [] s = s
scan_predecessors known from (predecessor ∷ rest) s =
    if str_eq predecessor.node_id from && is_broken predecessor.status
    then record s { node = blocked_by predecessor s.node; waiting = false }
    else scan_predecessors known from rest (
        if str_eq predecessor.node_id from && not (has_completed known predecessor.node_id)
        then record s { waiting = true }
        else s)

-- The loop over the edges, for the node between `before` and `after`; it ends at an edge that
-- leaves the node blocked.
unfoldable pub scan_edges : Dict Bool → Nodes → Nodes → Edges → Sweep → Sweep
scan_edges known before after [] s = s
scan_edges known before after (edge ∷ edges) s =
    let relevant = str_eq edge.to_node_id s.node.node_id in
    let t =
      if relevant
      then scan_predecessors known edge.from_node_id (before ++ s.node ∷ after) s
      else s in
    if relevant && is_blocked t.node.status then t else scan_edges known before after edges t

abbrev pub settle_node : Sweep → TaskGraphNodeProjection
settle_node s =
    if is_blocked s.node.status
    then s.node
    else if s.waiting
    then record s.node { status = TaskStatus.waiting; reason = "" }
    else record s.node { status = TaskStatus.ready; reason = "" }

unfoldable pub project_node :
    Dict Bool → Edges → Nodes → Nodes → TaskGraphNodeProjection → TaskGraphNodeProjection
project_node known edges before after node =
    if task_graph_node_mutable node
    then settle_node (scan_edges known before after edges (record { node = node; waiting = false }))
    else node

-- The loop over the nodes; it reads the earlier nodes with the statuses that it gave them.
unfoldable pub project_from : Dict Bool → Edges → Nodes → Nodes → Nodes
project_from known edges before [] = before
project_from known edges before (node ∷ after) =
    project_from known edges (before ++ project_node known edges before after node ∷ []) after

-- sort.Slice by NodeID
unfoldable pub insert_by_id : TaskGraphNodeProjection → Nodes → Nodes
insert_by_id x [] = x ∷ []
insert_by_id x (y ∷ ys) =
    let rest = insert_by_id x ys in if string_lt y.node_id x.node_id then y ∷ rest else x ∷ y ∷ ys

unfoldable pub sort_by_id : Nodes → Nodes
sort_by_id [] = []
sort_by_id (x ∷ xs) = insert_by_id x (sort_by_id xs)

-- taskGraphProjectedNodes
unfoldable pub task_graph_projected_nodes : Nodes → Edges → Nodes
task_graph_projected_nodes nodes edges =
    sort_by_id (project_from (completed_nodes nodes []) edges [] nodes)
