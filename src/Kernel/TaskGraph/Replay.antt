-- ===== src/Kernel/TaskGraph/Replay.antt =====
-- taskGraphs, taskGraph and TaskGraphs: what the ledger says of the graphs.
use genesis.Prelude.{
  String, Bool, false, not, ◌||◌, Option, none, some, List, [], ◌∷◌, ◌++◌, str_eq, ltb, ◌==◌,
  if◌then◌else◌,
}
use genesis.Prelude.Text.{trim, string_lt}
use genesis.Prelude.Dict.{Dict, get, put, values}
use genesis.Prelude.Results.{Result, err, ok, and_then}
use genesis.Kernel.Types.{EventType, StoredEvent}
use genesis.Kernel.Ledger.{KernelEnv, Ledger, load_events}
use genesis.Kernel.TaskGraph.Types.{
  TaskGraphNodeProjection, TaskGraphEdgeProjection, TaskGraphProjection, TaskGraphEventProjection,
}
use genesis.Kernel.TaskGraph.Nodes.{Nodes, Edges, task_graph_projected_nodes}

abbrev pub Graphs : Type 0
Graphs = Dict TaskGraphProjection

-- The loop that replaces every node with the id of the new one.
abbrev pub replace_nodes : TaskGraphNodeProjection → Nodes → Nodes
replace_nodes new [] = []
replace_nodes new (node ∷ nodes) =
    (if str_eq node.node_id new.node_id then new else node) ∷ replace_nodes new nodes

-- replaced
abbrev pub has_node : Nodes → String → Bool
has_node [] id = false
has_node (node ∷ nodes) id = str_eq node.node_id id || has_node nodes id

unfoldable pub put_node : TaskGraphNodeProjection → Nodes → Nodes
put_node new nodes =
    if has_node nodes new.node_id then replace_nodes new nodes else nodes ++ new ∷ []

-- taskGraphWithoutEdge
unfoldable pub without_edge : Edges → TaskGraphEdgeProjection → Edges
without_edge [] remove = []
without_edge (edge ∷ edges) remove =
    let rest = without_edge edges remove in
    if not (str_eq edge.from_node_id remove.from_node_id)
      || not (str_eq edge.to_node_id remove.to_node_id)
    then edge ∷ rest
    else rest

unfoldable pub put_edge : EventType → TaskGraphEdgeProjection → Edges → Edges
put_edge EventType.task_graph_edge_added edge edges = edges ++ edge ∷ []
put_edge EventType.task_graph_edge_removed edge edges = without_edge edges edge
put_edge _ edge edges = edges

-- What an event other than a creation changes in its graph.
unfoldable pub change_graph :
    EventType → TaskGraphEventProjection → TaskGraphProjection → TaskGraphProjection
change_graph type change graph = record graph {
  nodes = elim change.node [ none ↦ graph.nodes | some node ↦ put_node node graph.nodes ];
  edges = elim change.edge [ none ↦ graph.edges | some edge ↦ put_edge type edge graph.edges ];
}

abbrev pub blank_graph : TaskGraphEventProjection → TaskGraphProjection
blank_graph change = record {
  graph_id = change.graph_id;
  session_id = change.session_id;
  nodes = [];
  edges = [];
  created_at = change.created_at;
}

abbrev pub record_change :
    EventType → TaskGraphEventProjection → Option TaskGraphProjection → Graphs → Result Graphs
record_change EventType.task_graph_created change found graphs =
    ok (put graphs change.graph_id (blank_graph change))
record_change type change none graphs = err "task graph event missing graph"
record_change type change (some graph) graphs =
    ok (put graphs change.graph_id (change_graph type change graph))

-- One round of the loop of taskGraphs.
unfoldable pub replay_graph_event : StoredEvent → Graphs → Result Graphs
replay_graph_event event graphs = elim event.event_data.task_graph [
  | none ↦ ok graphs
  | some change ↦ record_change event.type change (get graphs change.graph_id) graphs
]

unfoldable pub replay_graphs : Ledger → Graphs → Result Graphs
replay_graphs [] graphs = ok graphs
replay_graphs (event ∷ events) graphs =
    and_then (replay_graph_event event graphs) (replay_graphs events)

-- taskGraphs
unfoldable pub task_graphs : KernelEnv → Ledger → Result Graphs
task_graphs k ledger = and_then (load_events k ledger) (λ events. replay_graphs events [])

-- graph.Nodes = taskGraphProjectedNodes(graph)
abbrev pub projected : TaskGraphProjection → TaskGraphProjection
projected graph = record graph { nodes = task_graph_projected_nodes graph.nodes graph.edges }

-- taskGraph
unfoldable pub task_graph : KernelEnv → String → Ledger → Result TaskGraphProjection
task_graph k graph_id ledger = and_then (task_graphs k ledger) (λ graphs.
    elim (get graphs (trim graph_id)) [
      | none ↦ err "task graph not found"
      | some graph ↦ ok (projected graph)
    ])

-- taskGraphBelongsToSession
unfoldable pub task_graph_belongs_to_session : KernelEnv → String → String → Ledger → Bool
task_graph_belongs_to_session k graph_id session_id ledger = elim (task_graph k graph_id ledger) [
  | err e ↦ false
  | ok graph ↦ str_eq graph.session_id (trim session_id)
]

abbrev graphs_of_session : String → List TaskGraphProjection → List TaskGraphProjection
graphs_of_session session_id [] = []
graphs_of_session session_id (graph ∷ graphs) =
    let rest = graphs_of_session session_id graphs in
    if str_eq graph.session_id session_id then projected graph ∷ rest else rest

abbrev graph_before : TaskGraphProjection → TaskGraphProjection → Bool
graph_before a b =
    if a.created_at == b.created_at
    then string_lt a.graph_id b.graph_id
    else ltb a.created_at b.created_at

abbrev insert_graph : TaskGraphProjection → List TaskGraphProjection → List TaskGraphProjection
insert_graph x [] = x ∷ []
insert_graph x (y ∷ ys) =
    let rest = insert_graph x ys in if graph_before y x then y ∷ rest else x ∷ y ∷ ys

abbrev sort_graphs : List TaskGraphProjection → List TaskGraphProjection
sort_graphs [] = []
sort_graphs (x ∷ xs) = insert_graph x (sort_graphs xs)

-- TaskGraphs
unfoldable pub session_task_graphs : KernelEnv → String → Ledger → Result (List TaskGraphProjection)
session_task_graphs k session_id ledger =
    and_then (task_graphs k ledger)
      (λ graphs. ok (sort_graphs (graphs_of_session (trim session_id) (values graphs))))
