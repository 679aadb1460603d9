-- ===== src/Kernel/TaskGraph/Search/Exact.antt =====
-- taskGraphHasCycle decides whether some id has a walk to itself.
use genesis.Prelude.{String, ◌≡◌, ap, ◌∙◌, true, false, ◌↔◌, inl, inr, some, Bool-cases, arith}
use genesis.Kernel.TaskGraph.Types.{TaskGraphProjection}
use genesis.Kernel.TaskGraph.Nodes.{Nodes, Edges}
use genesis.Kernel.TaskGraph.Cycle.{member, has_edge, node_ids, task_graph_has_cycle}
use genesis.Kernel.TaskGraph.Search.{Walk}
use genesis.Kernel.TaskGraph.Search.Ends.{cycle_search_ends}
use genesis.Kernel.TaskGraph.Search.Sound.{cycle_search_sound}
use genesis.Kernel.TaskGraph.Search.Complete.{Safe, Safe-no_loop, cycle_search_complete}

-- Every edge starts at a node.
abbrev pub StartsAtNodes : Nodes → Edges → Type 0
StartsAtNodes nodes edges =
    (a b : String) → has_edge edges a b ≡ true → member a (node_ids nodes) ≡ true

pub Walk-starts :
    {edges : Edges} {a b : String} (nodes : Nodes)
    → StartsAtNodes nodes edges
    → Walk edges a b
    → member a (node_ids nodes) ≡ true
Walk-starts nodes starts (Walk.one e) = starts _ _ e
Walk-starts nodes starts (Walk.more e w) = starts _ _ e

-- A test that reports no cycle: all walks from a node end.
pub no_cycle-Safe :
    (graph : TaskGraphProjection)
    → task_graph_has_cycle graph ≡ false
    → (id : String) → member id (node_ids graph.nodes) ≡ true
    → Safe graph.edges id
unfolding task_graph_has_cycle
no_cycle-Safe graph h id m =
    let (b, t, e) = cycle_search_ends graph.nodes graph.edges in
    elim (Bool-cases b) [
      | inl g ↦ ground arith
      | inr g ↦ cycle_search_complete graph.nodes graph.edges t (e ∙ ap (λ c. some (c, t)) g) id m
    ]

-- In a graph whose edges all start at its nodes, taskGraphHasCycle is true exactly if some id has
-- a walk of one or more edges to itself.
pub task_graph_has_cycle_iff :
    (graph : TaskGraphProjection)
    → StartsAtNodes graph.nodes graph.edges
    → (task_graph_has_cycle graph ≡ true) ↔ ((id : String) × Walk graph.edges id id)
unfolding task_graph_has_cycle
task_graph_has_cycle_iff graph starts = (
  λ h.
      let (b, t, e) = cycle_search_ends graph.nodes graph.edges in
      cycle_search_sound graph.nodes graph.edges t (ground arith),
  λ (id, w). elim (Bool-cases (task_graph_has_cycle graph)) [
    | inl h ↦ h
    | inr h ↦
        elim (Safe-no_loop (no_cycle-Safe graph h id (Walk-starts graph.nodes starts w)) w) [ ]
  ],
)
