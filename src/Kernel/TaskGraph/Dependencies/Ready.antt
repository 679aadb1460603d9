-- ===== src/Kernel/TaskGraph/Dependencies/Ready.antt =====
-- What a ready node depends on, and what a start needs.
use genesis.Prelude.{
  String, ◌≡◌, refl, sym, subst, ap, ◌∙◌, Bool, true, ◌⊎◌, inl, inr, some, [], ◌∷◌, All, str_eq,
  Bool-cases, Option-cases, arith, eq_iff,
}
use mathlib.Core.List.{Memᴰ}
use genesis.Prelude.Text.{trim, string_lt}
use genesis.Prelude.Dict.{Dict, get, put, get-put}
use genesis.Prelude.Results.{ok, Result-cases}
use genesis.Kernel.Ledger.{KernelEnv, Ledger, with_value}
use genesis.Kernel.TaskGraph.Types.{
  TaskStatus, TaskGraphNodeProjection, TaskGraphProjection, TaskGraphNodeTransitionRequest,
  is_completed, task_graph_transition_allowed,
}
use genesis.Kernel.TaskGraph.Nodes.{
  Nodes, Edges, completed_nodes, has_completed, project_from, insert_by_id, sort_by_id,
  task_graph_projected_nodes,
}
use genesis.Kernel.TaskGraph.Cycle.{member, has_edge, node_ids}
use genesis.Kernel.TaskGraph.Replay.{projected, task_graph}
use genesis.Kernel.TaskGraph.Edit.{task_graph_node, transition_task_graph_node, transition_node_in}
use genesis.Kernel.TaskGraph.Dependencies.{is_ready, IsReadySafe, project_from_safe}

module _ (P : TaskGraphNodeProjection → Type 0) where
  All-insert :
      (x : TaskGraphNodeProjection) (ys : Nodes) → P x → All P ys → All P (insert_by_id x ys)
  unfolding insert_by_id
  All-insert x [] p h = (p, tt)
  All-insert x (y ∷ ys) p (q, h) = elim (Bool-cases (string_lt y.node_id x.node_id)) [
    | inl e ↦ rw e (q, All-insert x ys p h)
    | inr e ↦ rw e (p, (q, h))
  ]

  All-sort : (xs : Nodes) → All P xs → All P (sort_by_id xs)
  unfolding sort_by_id
  All-sort [] h = tt
  All-sort (x ∷ xs) (p, h) = All-insert x (sort_by_id xs) p (All-sort xs h)

  All-found :
      (nodes : Nodes) (id : String) (node : TaskGraphNodeProjection)
      → task_graph_node nodes id ≡ some node
      → All P nodes
      → P node × (node.node_id ≡ id)
  unfolding task_graph_node
  All-found [] id node e h = ground arith
  All-found (x ∷ nodes) id node e (p, h) = elim (Bool-cases (str_eq x.node_id id)) [
    | inl f ↦
        let same : x ≡ node = ground arith in
        (
          subst P same p,
          ap (λ (n : TaskGraphNodeProjection). n.node_id) (sym same)
              ∙ ground (arith, eq_iff x.node_id id),
        )
    | inr f ↦ All-found nodes id node (ground arith) h
  ]

-- A node of the list that is completed.
abbrev pub Completed : Nodes → String → Type 0
Completed nodes id =
    (p : TaskGraphNodeProjection) × Memᴰ p nodes × (p.node_id ≡ id) × (is_completed p.status ≡ true)

completed_lem :
    (nodes : Nodes) (known : Dict Bool) (id : String)
    → has_completed (completed_nodes nodes known) id ≡ true
    → (has_completed known id ≡ true) ⊎ Completed nodes id
unfolding completed_nodes has_completed
completed_lem [] known id h = inl h
completed_lem (node ∷ nodes) known id h =
    elim (completed_lem nodes (put known node.node_id (is_completed node.status)) id h) [
      | inr (p, m, e, c) ↦ inr (p, Memᴰ.tail m, e, c)
      | inl g ↦ elim (Bool-cases (str_eq node.node_id id)) [
        | inl f ↦ inr (
          node,
          Memᴰ.head refl,
          ground (arith, eq_iff node.node_id id),
          ground (arith, get-put known node.node_id id (is_completed node.status)),
        )
        | inr f ↦ inl (ground (arith, get-put known node.node_id id (is_completed node.status)))
      ]
    ]

-- What a projection shows as ready depends on completed nodes only.
pub ready_lem :
    (nodes : Nodes) (edges : Edges) (id : String) (node : TaskGraphNodeProjection)
    → task_graph_node (task_graph_projected_nodes nodes edges) id ≡ some node
    → node.status ≡ TaskStatus.ready
    → (from : String) → has_edge edges from id ≡ true
    → member from (node_ids nodes) ≡ true
    → Completed nodes from
unfolding task_graph_projected_nodes has_completed get
ready_lem nodes edges id node found is_so from e m =
    let known = completed_nodes nodes [] in
    let (it, named) =
      All-found (IsReadySafe edges nodes known) (task_graph_projected_nodes nodes edges) id node
        found
        (All-sort (IsReadySafe edges nodes known) (project_from known edges [] nodes)
          (project_from_safe edges nodes known [] nodes (λ x n. n) tt)) in
    elim (completed_lem nodes [] from
      (it (ap is_ready is_so) from (subst (λ i. has_edge edges from i ≡ true) (sym named) e) m)) [
        | inl g ↦ ground arith
        | inr c ↦ c
      ]

only_ready :
    (s : TaskStatus)
    → task_graph_transition_allowed s TaskStatus.running ≡ true
    → s ≡ TaskStatus.ready
only_ready TaskStatus.ready h = refl
only_ready _ h = ground arith

allowed_lem :
    (k : KernelEnv) (req : TaskGraphNodeTransitionRequest) (graph : TaskGraphProjection)
    (ledger ledger' : Ledger) (node : TaskGraphNodeProjection)
    → transition_node_in k req graph ledger ≡ (ok tt, ledger')
    → task_graph_node (projected graph).nodes (trim req.node_id) ≡ some node
    → task_graph_transition_allowed node.status req.status ≡ true
allowed_lem k req graph ledger ledger' node h e =
    elim (Bool-cases (task_graph_transition_allowed node.status req.status)) [
      | inl g ↦ g
      | inr g ↦ ground arith
    ]

-- If a transition of a node to running reports no error, the graph could be read before it, and
-- every edge of that graph that leads from one of its nodes to the node leads from a completed
-- node.
pub start_needs-Completed :
    (k : KernelEnv) (req : TaskGraphNodeTransitionRequest) (ledger ledger' : Ledger)
    → transition_task_graph_node k req ledger ≡ (ok tt, ledger')
    → req.status ≡ TaskStatus.running
    → (graph : TaskGraphProjection) × (task_graph k req.graph_id ledger ≡ ok graph)
      × ((from : String)
          → has_edge graph.edges from (trim req.node_id) ≡ true
          → member from (node_ids graph.nodes) ≡ true
          → Completed graph.nodes from)
unfolding transition_task_graph_node with_value
start_needs-Completed k req ledger ledger' h run =
    elim (Result-cases (task_graph k req.graph_id ledger)) [
      | inl (e, f) ↦ ground arith
      | inr (graph, f) ↦
          elim (Option-cases (task_graph_node (projected graph).nodes (trim req.node_id))) [
            | inl g ↦ ground arith
            | inr (node, g) ↦ (
              graph,
              f,
              ready_lem graph.nodes graph.edges (trim req.node_id) node g (
                  only_ready node.status (
                    subst (λ t. task_graph_transition_allowed node.status t ≡ true) run
                      (allowed_lem k req graph ledger ledger' node (ground arith) g))),
            )
          ]
    ]
