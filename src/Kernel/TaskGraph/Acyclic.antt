-- ===== src/Kernel/TaskGraph/Acyclic.antt =====
-- Graphs without cycles, and what each kind of event does to them.
pub mod Steps
pub mod Reached
use genesis.Prelude.{
  String, ◌≡◌, refl, sym, subst, ap, ◌∙◌, Bool, true, false, ◌||◌, ◌&&◌, not, ◌⊎◌, inl, inr, Option,
  none, some, List, [], ◌∷◌, ◌++◌, str_eq, Bool-cases, Option-cases, arith, eq_iff, eq_refl,
}
use genesis.Prelude.Dict.{get, put, get-put, get-put_self, get-put_ne}
use genesis.Prelude.Results.{Result, err, ok, and_then, and_then_lem}
use genesis.Kernel.Types.{EventType, StoredEvent}
use genesis.Kernel.Ledger.{KernelEnv, Ledger, append_event}
use genesis.Kernel.TaskGraph.Types.{
  TaskGraphNodeProjection, TaskGraphEdgeProjection, TaskGraphProjection, TaskGraphEventProjection,
}
use genesis.Kernel.TaskGraph.Nodes.{Nodes, Edges, task_graph_projected_nodes}
use genesis.Kernel.TaskGraph.Cycle.{member, has_edge, node_ids, task_graph_has_cycle}
use genesis.Kernel.TaskGraph.Replay.{
  Graphs, put_node, without_edge, replay_graph_event, replay_graphs, projected,
}
use genesis.Kernel.TaskGraph.Edit.{task_graph_node, found_mutable, edge_allowed, with_edge}
use genesis.Kernel.TaskGraph.Ids.{member-projected, member-put_node}
use genesis.Kernel.TaskGraph.Search.{Walk}
use genesis.Kernel.TaskGraph.Search.Complete.{Safe, Safe-no_loop}
use genesis.Kernel.TaskGraph.Search.Exact.{StartsAtNodes, Walk-starts, no_cycle-Safe}

-- Every edge starts at a node, and no id has a walk to itself.
abbrev pub IsAcyclic : Nodes → Edges → Type 0
IsAcyclic nodes edges = StartsAtNodes nodes edges × ((id : String) → ¬ Walk edges id id)

-- Every graph stands under its own id and has no cycle.
abbrev pub AllAcyclic : Graphs → Type 0
AllAcyclic graphs =
    (id : String) (graph : TaskGraphProjection)
    → get graphs id ≡ some graph
    → (graph.graph_id ≡ id) × IsAcyclic graph.nodes graph.edges

pub AllAcyclic-put :
    (graphs : Graphs) (id : String) (graph : TaskGraphProjection)
    → AllAcyclic graphs
    → graph.graph_id ≡ id
    → IsAcyclic graph.nodes graph.edges
    → AllAcyclic (put graphs id graph)
AllAcyclic-put graphs id graph all named good j other h = elim (Bool-cases (str_eq id j)) [
  | inl e ↦
      let same : id ≡ j = ground (arith, eq_iff id j) in
      let found : get (put graphs id graph) j ≡ some graph =
        subst (λ i. get (put graphs id graph) i ≡ some graph) same (get-put_self graphs id graph) in
      let it : graph ≡ other = ground (arith, found, h) in
      (
        ap (λ (g : TaskGraphProjection). g.graph_id) (sym it) ∙ named ∙ same,
        subst (λ (g : TaskGraphProjection). IsAcyclic g.nodes g.edges) it good,
      )
  | inr e ↦ all j other (sym (get-put_ne graphs id j graph e) ∙ h)
]

pub IsAcyclic-put_node :
    (nodes : Nodes) (edges : Edges) (new : TaskGraphNodeProjection)
    → IsAcyclic nodes edges
    → IsAcyclic (put_node new nodes) edges
IsAcyclic-put_node nodes edges new (starts, none') =
    (λ a b h. member-put_node a new nodes (starts a b h), none')

has_edge-without :
    (edges : Edges) (remove : TaskGraphEdgeProjection) (a b : String)
    → has_edge (without_edge edges remove) a b ≡ true
    → has_edge edges a b ≡ true
unfolding without_edge
has_edge-without [] remove a b h = h
has_edge-without (edge ∷ edges) remove a b h = ground (arith, has_edge-without edges remove a b)

Walk-mono :
    {few many : Edges} {a b : String}
    → ((a b : String) → has_edge few a b ≡ true → has_edge many a b ≡ true)
    → Walk few a b
    → Walk many a b
Walk-mono h (Walk.one e) = Walk.one (h _ _ e)
Walk-mono h (Walk.more e w) = Walk.more (h _ _ e) (Walk-mono h w)

pub IsAcyclic-without :
    (nodes : Nodes) (edges : Edges) (remove : TaskGraphEdgeProjection)
    → IsAcyclic nodes edges
    → IsAcyclic nodes (without_edge edges remove)
IsAcyclic-without nodes edges remove (starts, none') = (
  λ a b h. starts a b (has_edge-without edges remove a b h),
  λ id w. none' id (Walk-mono (has_edge-without edges remove) w),
)

pub has_edge-append :
    (edges : Edges) (edge : TaskGraphEdgeProjection) (a b : String)
    → has_edge (edges ++ edge ∷ []) a b
      ≡ (has_edge edges a b || (str_eq edge.from_node_id a && str_eq edge.to_node_id b))
has_edge-append [] edge a b = ground arith
has_edge-append (e ∷ edges) edge a b = ground (arith, has_edge-append edges edge a b)

task_graph_node-member :
    (nodes : Nodes) (id : String) (node : TaskGraphNodeProjection)
    → task_graph_node nodes id ≡ some node
    → member id (node_ids nodes) ≡ true
unfolding task_graph_node
task_graph_node-member [] id node h = ground arith
task_graph_node-member (x ∷ nodes) id node h = ground (arith, task_graph_node-member nodes id node)

allowed-from :
    (graph : TaskGraphProjection) (from to : String)
    → edge_allowed graph from to ≡ true
    → member from (node_ids graph.nodes) ≡ true
unfolding edge_allowed found_mutable
allowed-from graph from to h = elim (Option-cases (task_graph_node graph.nodes from)) [
  | inl e ↦ ground arith
  | inr (node, e) ↦ task_graph_node-member graph.nodes from node e
]

-- An edge that is allowed and closes no cycle.
pub IsAcyclic-edge :
    (graph : TaskGraphProjection) (edge : TaskGraphEdgeProjection)
    → StartsAtNodes graph.nodes graph.edges
    → edge_allowed (projected graph) edge.from_node_id edge.to_node_id ≡ true
    → task_graph_has_cycle (with_edge (projected graph) edge) ≡ false
    → IsAcyclic graph.nodes (graph.edges ++ edge ∷ [])
IsAcyclic-edge graph edge starts allowed clear =
    let same : (id : String)
        → member id (node_ids (projected graph).nodes) ≡ member id (node_ids graph.nodes) =
      λ id. member-projected id graph.nodes graph.edges in
    let from =
      sym (same edge.from_node_id)
      ∙ allowed-from (projected graph) edge.from_node_id edge.to_node_id allowed in
    let starts' : StartsAtNodes graph.nodes (graph.edges ++ edge ∷ []) = λ a b h.
      ground (
        arith,
        has_edge-append graph.edges edge a b,
        starts a b,
        from,
        eq_iff edge.from_node_id a,
      ) in
    (
      starts',
      λ id w.
          Safe-no_loop
            (no_cycle-Safe (with_edge (projected graph) edge) clear id
              (same id ∙ Walk-starts graph.nodes starts' w))
            w,
    )

no-Walk : {a b : String} → ¬ Walk [] a b
no-Walk (Walk.one e) = ground arith
no-Walk (Walk.more e w) = ground arith

pub IsAcyclic-blank : IsAcyclic [] []
IsAcyclic-blank = ((λ a b h. ground arith), λ id w. no-Walk w)
