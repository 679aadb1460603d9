-- ===== src/Kernel/TaskGraph/Acyclic/Reached.antt =====
-- No sequence of the operations makes a cycle.
use genesis.Prelude.{
  String, ◌≡◌, refl, sym, subst, ◌∙◌, inl, inr, none, some, [], ◌∷◌, ◌++◌, Bool-cases, Option-cases,
  arith,
}
use genesis.Prelude.Text.{is_empty, trim}
use genesis.Prelude.Dict.{get, put}
use genesis.Prelude.Results.{Result, ok}
use genesis.Kernel.Types.{EventType, StoredEvent}
use genesis.Kernel.Ledger.{KernelEnv, Ledger, append_event}
use genesis.Kernel.TaskGraph.Types.{
  TaskGraphNodeProjection, TaskGraphProjection, TaskGraphNodeRequest, TaskGraphNodeUpdateRequest,
  TaskGraphEdgeRequest, TaskGraphNodeTransitionRequest, task_graph_node_mutable,
  task_graph_transition_allowed,
}
use genesis.Kernel.TaskGraph.Cycle.{task_graph_has_cycle}
use genesis.Kernel.TaskGraph.Replay.{
  Graphs, put_edge, change_graph, record_change, replay_graph_event, replay_graphs, projected,
}
use genesis.Kernel.TaskGraph.Edit.{
  removable, task_graph_event, task_graph_node, edge_allowed, with_edge, create_task_graph,
  add_task_graph_node, add_node_to, add_task_graph_edge, add_edge_to, requested_edge,
  remove_task_graph_edge, remove_edge_from, update_task_graph_node, update_node_in,
  transition_task_graph_node, transition_node_in, node_change, edge_change, proposed_node,
  updated_node, moved_node,
}
use genesis.Kernel.TaskGraph.Acyclic.Steps.{
  Holds, replay_graphs-append, same-Holds, append-Holds, change-Holds, graph-Holds,
}
use genesis.Kernel.TaskGraph.Acyclic.{
  IsAcyclic, IsAcyclic-blank, AllAcyclic, AllAcyclic-put, IsAcyclic-put_node, IsAcyclic-without,
  IsAcyclic-edge,
}

-- One operation on the ledger, whether it answers or reports an error, or an event of another part.
pub data Step (ledger ledger' : Ledger) : Type 0 where
  create :
      (k : KernelEnv) (session_id : String) (r : Result TaskGraphProjection)
      → create_task_graph k session_id ledger ≡ (r, ledger')
      → Step ledger ledger'
  add_node :
      (k : KernelEnv) (req : TaskGraphNodeRequest) (r : Result TaskGraphNodeProjection)
      → add_task_graph_node k req ledger ≡ (r, ledger')
      → Step ledger ledger'
  add_edge :
      (k : KernelEnv) (req : TaskGraphEdgeRequest) (r : Result (Unit {0}))
      → add_task_graph_edge k req ledger ≡ (r, ledger')
      → Step ledger ledger'
  remove_edge :
      (k : KernelEnv) (req : TaskGraphEdgeRequest) (r : Result (Unit {0}))
      → remove_task_graph_edge k req ledger ≡ (r, ledger')
      → Step ledger ledger'
  update :
      (k : KernelEnv) (req : TaskGraphNodeUpdateRequest) (r : Result (Unit {0}))
      → update_task_graph_node k req ledger ≡ (r, ledger')
      → Step ledger ledger'
  transition :
      (k : KernelEnv) (req : TaskGraphNodeTransitionRequest) (r : Result (Unit {0}))
      → transition_task_graph_node k req ledger ≡ (r, ledger')
      → Step ledger ledger'
  elsewhere :
      (event : StoredEvent)
      → event.event_data.task_graph ≡ none
      → ledger' ≡ ledger ++ event ∷ []
      → Step ledger ledger'

-- The ledgers that steps make of the empty one.
pub data Reached : Ledger → Type 0 where
  start : Reached []
  after : {ledger ledger' : Ledger} → Reached ledger → Step ledger ledger' → Reached ledger'

module _ (ledger ledger' : Ledger) (graphs : Graphs)
    (replayed : replay_graphs ledger [] ≡ ok graphs) (all : AllAcyclic graphs) where
  elsewhere-Holds :
      (event : StoredEvent)
      → event.event_data.task_graph ≡ none
      → ledger' ≡ ledger ++ event ∷ []
      → Holds ledger'
  unfolding replay_graph_event
  elsewhere-Holds event h e =
      subst Holds (sym e)
        (graphs, replay_graphs-append ledger event [] graphs replayed ∙ ground arith, all)

module _ (ledger ledger' : Ledger) (graphs : Graphs)
    (replayed : replay_graphs ledger [] ≡ ok graphs) (all : AllAcyclic graphs) (k : KernelEnv) where
  create-Holds :
      (session_id : String) (r : Result TaskGraphProjection)
      → create_task_graph k session_id ledger ≡ (r, ledger')
      → Holds ledger'
  unfolding create_task_graph replay_graph_event
  create-Holds session_id r h = elim (Bool-cases (is_empty (trim session_id))) [
    | inl e ↦ same-Holds ledger ledger' graphs replayed all (ground arith)
    | inr e ↦
        append-Holds ledger ledger' graphs replayed all k _ _ r _ refl
          (AllAcyclic-put graphs _ _ all refl IsAcyclic-blank) (rw e at h)
  ]

  -- An event with a node keeps the edges.
  node-Holds :
      {A : Type 0} (type : EventType) (x : A) (r : Result A) (graph : TaskGraphProjection)
      (node : TaskGraphNodeProjection)
      → get graphs graph.graph_id ≡ some graph
      → IsAcyclic graph.nodes graph.edges
      → record_change type (node_change k graph node) (some graph) graphs
        ≡ ok (put graphs graph.graph_id (change_graph type (node_change k graph node) graph))
      → append_event k (task_graph_event k type (node_change k graph node)) x ledger ≡ (r, ledger')
      → Holds ledger'
  unfolding change_graph
  node-Holds type x r graph node found good shape h =
      change-Holds ledger ledger' graphs replayed all k type (node_change k graph node) x r graph
        found refl shape (IsAcyclic-put_node graph.nodes graph.edges node good) h

  add_node-Holds :
      (req : TaskGraphNodeRequest) (r : Result TaskGraphNodeProjection)
      → add_task_graph_node k req ledger ≡ (r, ledger')
      → Holds ledger'
  unfolding add_task_graph_node
  add_node-Holds req r h =
      graph-Holds ledger ledger' graphs replayed all k req.graph_id (add_node_to k req) r
        (λ graph found good e. elim (Bool-cases (is_empty (trim req.invocation_id))) [
          | inr f ↦ same-Holds ledger ledger' graphs replayed all (ground arith)
          | inl f ↦
              node-Holds EventType.task_graph_node_added _ r graph (proposed_node k req) found good
                refl (rw f at e)
        ])
        h

  add_edge-Holds :
      (req : TaskGraphEdgeRequest) (r : Result (Unit {0}))
      → add_task_graph_edge k req ledger ≡ (r, ledger')
      → Holds ledger'
  unfolding add_task_graph_edge change_graph put_edge
  add_edge-Holds req r h =
      let edge = requested_edge req in
      graph-Holds ledger ledger' graphs replayed all k req.graph_id (add_edge_to k edge) r
        (λ graph found good e.
          elim (Bool-cases (edge_allowed (projected graph) edge.from_node_id edge.to_node_id)) [
            | inr f ↦ same-Holds ledger ledger' graphs replayed all (ground arith)
            | inl f ↦ elim (Bool-cases (task_graph_has_cycle (with_edge (projected graph) edge))) [
              | inl g ↦ same-Holds ledger ledger' graphs replayed all (ground arith)
              | inr g ↦
                  change-Holds ledger ledger' graphs replayed all k EventType.task_graph_edge_added
                    (edge_change k graph edge) _ r graph found refl refl
                    (IsAcyclic-edge graph edge good.0 f g) (ground arith)
            ]
          ])
        h

  remove_edge-Holds :
      (req : TaskGraphEdgeRequest) (r : Result (Unit {0}))
      → remove_task_graph_edge k req ledger ≡ (r, ledger')
      → Holds ledger'
  unfolding remove_task_graph_edge change_graph put_edge
  remove_edge-Holds req r h =
      let edge = requested_edge req in
      graph-Holds ledger ledger' graphs replayed all k req.graph_id (remove_edge_from k edge) r
        (λ graph found good e. elim (Bool-cases (removable (projected graph) edge)) [
          | inr f ↦ same-Holds ledger ledger' graphs replayed all (ground arith)
          | inl f ↦
              change-Holds ledger ledger' graphs replayed all k EventType.task_graph_edge_removed
                (edge_change k graph edge) _ r graph found refl refl
                (IsAcyclic-without graph.nodes graph.edges edge good) (ground arith)
        ])
        h

  update-Holds :
      (req : TaskGraphNodeUpdateRequest) (r : Result (Unit {0}))
      → update_task_graph_node k req ledger ≡ (r, ledger')
      → Holds ledger'
  unfolding update_task_graph_node
  update-Holds req r h =
      graph-Holds ledger ledger' graphs replayed all k req.graph_id (update_node_in k req) r
        (λ graph found good e.
          elim (Option-cases (task_graph_node (projected graph).nodes (trim req.node_id))) [
            | inl f ↦ same-Holds ledger ledger' graphs replayed all (ground arith)
            | inr (node, f) ↦ elim (Bool-cases (task_graph_node_mutable node)) [
              | inr g ↦ same-Holds ledger ledger' graphs replayed all (ground arith)
              | inl g ↦
                  node-Holds EventType.task_graph_node_updated _ r graph (updated_node k req node)
                    found good refl (ground arith)
            ]
          ])
        h

  transition-Holds :
      (req : TaskGraphNodeTransitionRequest) (r : Result (Unit {0}))
      → transition_task_graph_node k req ledger ≡ (r, ledger')
      → Holds ledger'
  unfolding transition_task_graph_node
  transition-Holds req r h =
      graph-Holds ledger ledger' graphs replayed all k req.graph_id (transition_node_in k req) r
        (λ graph found good e.
          elim (Option-cases
            (task_graph_node (projected (projected graph)).nodes (trim req.node_id))) [
              | inl f ↦ same-Holds ledger ledger' graphs replayed all (ground arith)
              | inr (node, f) ↦
                  elim (Bool-cases (task_graph_transition_allowed node.status req.status)) [
                    | inr g ↦ same-Holds ledger ledger' graphs replayed all (ground arith)
                    | inl g ↦
                        node-Holds EventType.task_graph_node_transitioned _ r graph
                          (moved_node k req node) found good refl (ground arith)
                  ]
            ])
        h

Step-Holds : (ledger ledger' : Ledger) → Step ledger ledger' → Holds ledger → Holds ledger'
Step-Holds l l' (Step.create k s r h) (g, e, a) = create-Holds l l' g e a k s r h
Step-Holds l l' (Step.add_node k q r h) (g, e, a) = add_node-Holds l l' g e a k q r h
Step-Holds l l' (Step.add_edge k q r h) (g, e, a) = add_edge-Holds l l' g e a k q r h
Step-Holds l l' (Step.remove_edge k q r h) (g, e, a) = remove_edge-Holds l l' g e a k q r h
Step-Holds l l' (Step.update k q r h) (g, e, a) = update-Holds l l' g e a k q r h
Step-Holds l l' (Step.transition k q r h) (g, e, a) = transition-Holds l l' g e a k q r h
Step-Holds l l' (Step.elsewhere v h p) (g, e, a) = elsewhere-Holds l l' g e a v h p

-- Whatever sequence of task-graph operations, answered or refused, and of events without task-
-- graph data made a ledger of the empty one: its replay succeeds, every graph stands under its own
-- id, its edges start at its nodes, and in none of them an id has a walk to itself.
pub reached-AllAcyclic : (ledger : Ledger) → Reached ledger → Holds ledger
unfolding replay_graphs get
reached-AllAcyclic _ Reached.start = ([], refl, λ id graph h. ground arith)
reached-AllAcyclic _ (Reached.after r s) = Step-Holds _ _ s (reached-AllAcyclic _ r)
