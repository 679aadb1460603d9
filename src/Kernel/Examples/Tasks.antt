-- ===== src/Kernel/Examples/Tasks.antt =====
-- A graph of two tasks, the second of which depends on the first.
use genesis.Prelude.{String, Bool, ◌≡◌, refl, true, ◌↔◌, some, [], ◌∷◌, arith}
use genesis.Prelude.Text.{trim, string_lt}
use genesis.Prelude.Dict.{get, put}
use genesis.Prelude.Results.{ok, and_then}
use genesis.Kernel.Ledger.{new_id, Ledger, append_event, with_value}
use genesis.Kernel.TaskGraph.Types.{
  TaskStatus, TaskGraphEdgeProjection, TaskGraphProjection, TaskGraphNodeRequest,
  TaskGraphEdgeRequest, TaskGraphNodeTransitionRequest,
}
use genesis.Kernel.TaskGraph.Nodes.{
  completed_nodes, has_completed, scan_predecessors, scan_edges, project_node, project_from,
  insert_by_id, sort_by_id, task_graph_projected_nodes,
}
use genesis.Kernel.TaskGraph.Cycle.{
  Marks, member, has_edge, node_ids, visit_all, visit, cycle_search, task_graph_has_cycle,
}
use genesis.Kernel.TaskGraph.Replay.{
  put_node, put_edge, change_graph, replay_graph_event, replay_graphs, task_graphs, task_graph,
}
use genesis.Kernel.TaskGraph.Edit.{
  task_graph_node, create_task_graph, add_task_graph_node, proposed_node, found_mutable,
  edge_allowed, add_task_graph_edge, moved_node, transition_task_graph_node,
}
use genesis.Kernel.TaskGraph.Search.{Walk}
use genesis.Kernel.TaskGraph.Search.Ends.{cycle_search_ends}
use genesis.Kernel.TaskGraph.Search.Exact.{task_graph_has_cycle_iff}
use genesis.Kernel.TaskGraph.Acyclic.Steps.{Holds}
use genesis.Kernel.TaskGraph.Acyclic.Reached.{Step, Reached, reached-AllAcyclic}
use genesis.Kernel.TaskGraph.Dependencies.Ready.{Completed, start_needs-Completed}
use genesis.Kernel.Examples.Env.{env_at}

abbrev node_request : String → TaskGraphNodeRequest
node_request title = record {
  graph_id = "task_graph_g";
  invocation_id = "";
  title = title;
  description = "";
}

abbrev edge_request : TaskGraphEdgeRequest
edge_request = record {
  graph_id = "task_graph_g";
  from_node_id = "task_node_a";
  to_node_id = " task_node_b";
}

abbrev back_request : TaskGraphEdgeRequest
back_request = record {
  graph_id = "task_graph_g";
  from_node_id = "task_node_b";
  to_node_id = "task_node_a";
}

abbrev move_request : String → TaskStatus → TaskGraphNodeTransitionRequest
move_request id status = record {
  graph_id = "task_graph_g";
  node_id = id;
  status = status;
  reason = "";
  evidence_refs = [];
}

-- The ledgers after each operation.
abbrev created : Ledger
created = (create_task_graph (env_at 1 "g") "s1" []).1

abbrev with_first : Ledger
with_first = (add_task_graph_node (env_at 2 "a") (node_request "first") created).1

abbrev with_second : Ledger
with_second = (add_task_graph_node (env_at 3 "b") (node_request "second") with_first).1

abbrev with_dependency : Ledger
with_dependency = (add_task_graph_edge (env_at 4 "e") edge_request with_second).1

abbrev with_refusal : Ledger
with_refusal = (add_task_graph_edge (env_at 5 "f") back_request with_dependency).1

abbrev first_completed : Ledger
first_completed =
    (transition_task_graph_node (env_at 6 "h") (move_request "task_node_a" TaskStatus.completed)
      with_refusal).1

abbrev second_started : Ledger
second_started =
    (transition_task_graph_node (env_at 7 "i") (move_request "task_node_b" TaskStatus.running)
      first_completed).1

reached-AllAcyclic_example : Holds with_refusal
reached-AllAcyclic_example = reached-AllAcyclic with_refusal (
    Reached.after
      (Reached.after
        (Reached.after
          (Reached.after (Reached.after Reached.start (Step.create (env_at 1 "g") "s1" _ refl))
            (Step.add_node (env_at 2 "a") (node_request "first") _ refl))
          (Step.add_node (env_at 3 "b") (node_request "second") _ refl))
        (Step.add_edge (env_at 4 "e") edge_request _ refl))
      (Step.add_edge (env_at 5 "f") back_request _ refl))

start_needs-Completed_example :
    (graph : TaskGraphProjection) × (task_graph (env_at 7 "i") "task_graph_g" first_completed
      ≡ ok graph)
    × ((from : String)
        → has_edge graph.edges from (trim "task_node_b") ≡ true
        → member from (node_ids graph.nodes) ≡ true
        → Completed graph.nodes from)
unfolding create_task_graph add_task_graph_node add_task_graph_edge transition_task_graph_node
    task_graph_node proposed_node moved_node found_mutable edge_allowed put_node put_edge
    change_graph replay_graph_event replay_graphs task_graphs task_graph completed_nodes
    has_completed scan_predecessors scan_edges project_node project_from insert_by_id sort_by_id
    task_graph_projected_nodes visit_all visit cycle_search task_graph_has_cycle new_id append_event
    with_value get put trim string_lt and_then
start_needs-Completed_example =
    start_needs-Completed (env_at 7 "i") (move_request "task_node_b" TaskStatus.running)
      first_completed second_started refl refl

abbrev edge : String → String → TaskGraphEdgeProjection
edge from to = record { from_node_id = from; to_node_id = to }

-- Two nodes that depend on each other.
abbrev circle : TaskGraphProjection
unfolding proposed_node
circle = record {
  graph_id = "g";
  session_id = "s1";
  nodes =
      proposed_node (env_at 2 "a") (node_request "first")
      ∷ proposed_node (env_at 3 "b") (node_request "second")
      ∷ [];
  edges = edge "task_node_a" "task_node_b" ∷ edge "task_node_b" "task_node_a" ∷ [];
  created_at = 1;
}

task_graph_has_cycle_iff_example :
    (task_graph_has_cycle circle ≡ true) ↔ ((id : String) × Walk circle.edges id id)
unfolding proposed_node new_id
task_graph_has_cycle_iff_example = task_graph_has_cycle_iff circle (λ a b h. ground arith)

circle_found : task_graph_has_cycle circle ≡ true
unfolding proposed_node new_id trim task_graph_has_cycle cycle_search visit visit_all
circle_found = refl

cycle_search_ends_example :
    (found : Bool) × (t : Marks) × (cycle_search circle.nodes circle.edges ≡ some (found, t))
cycle_search_ends_example = cycle_search_ends circle.nodes circle.edges
