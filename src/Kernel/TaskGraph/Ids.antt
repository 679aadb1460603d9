-- ===== src/Kernel/TaskGraph/Ids.antt =====
-- The projection of the nodes, and the replay of their events, keep the ids of the nodes.
use genesis.Prelude.{
  String, ◌≡◌, refl, ap, ◌∙◌, Bool, true, false, ◌||◌, [], ◌∷◌, ◌++◌, str_eq, arith, eq_iff,
}
use genesis.Prelude.Dict.{Dict}
use genesis.Kernel.TaskGraph.Types.{TaskGraphNodeProjection}
use genesis.Kernel.TaskGraph.Nodes.{
  Nodes, Edges, Sweep, completed_nodes, scan_predecessors, scan_edges, project_node, project_from,
  insert_by_id, sort_by_id, task_graph_projected_nodes,
}
use genesis.Kernel.TaskGraph.Cycle.{member, node_ids}
use genesis.Kernel.TaskGraph.Replay.{replace_nodes, put_node}

pub scan_predecessors_id :
    (known : Dict Bool) (from : String) (nodes : Nodes) (s : Sweep)
    → (scan_predecessors known from nodes s).node.node_id ≡ s.node.node_id
unfolding scan_predecessors
scan_predecessors_id known from [] s = refl
scan_predecessors_id known from (p ∷ rest) s =
    let ih = scan_predecessors_id known from rest in
    ground (arith, ih s, ih (record s { waiting = true }))

pub scan_edges_id :
    (known : Dict Bool) (before after : Nodes) (edges : Edges) (s : Sweep)
    → (scan_edges known before after edges s).node.node_id ≡ s.node.node_id
unfolding scan_edges
scan_edges_id known before after [] s = refl
scan_edges_id known before after (edge ∷ edges) s =
    let t = scan_predecessors known edge.from_node_id (before ++ s.node ∷ after) s in
    let same = scan_predecessors_id known edge.from_node_id (before ++ s.node ∷ after) s in
    let ih = scan_edges_id known before after edges in ground (arith, same, ih s, ih t)

pub project_node_id :
    (known : Dict Bool) (edges : Edges) (before after : Nodes) (node : TaskGraphNodeProjection)
    → (project_node known edges before after node).node_id ≡ node.node_id
unfolding project_node
project_node_id known edges before after node =
    ground (arith, scan_edges_id known before after edges (record { node = node; waiting = false }))

node_ids-append : (xs ys : Nodes) → node_ids (xs ++ ys) ≡ node_ids xs ++ node_ids ys
node_ids-append [] ys = refl
node_ids-append (x ∷ xs) ys = ap (λ t. x.node_id ∷ t) (node_ids-append xs ys)

pub member-append_node :
    (id : String) (xs ys : Nodes)
    → member id (node_ids (xs ++ ys)) ≡ (member id (node_ids xs) || member id (node_ids ys))
member-append_node id [] ys = refl
member-append_node id (x ∷ xs) ys = ground (arith, member-append_node id xs ys)

member-project_from :
    (id : String) (known : Dict Bool) (edges : Edges) (before after : Nodes)
    → member id (node_ids (project_from known edges before after))
      ≡ (member id (node_ids before) || member id (node_ids after))
unfolding project_from
member-project_from id known edges before [] = ground arith
member-project_from id known edges before (node ∷ after) =
    let new = project_node known edges before after node in
    ground (
      arith,
      member-project_from id known edges (before ++ new ∷ []) after,
      member-append_node id before (new ∷ []),
      project_node_id known edges before after node,
    )

member-insert :
    (id : String) (x : TaskGraphNodeProjection) (ys : Nodes)
    → member id (node_ids (insert_by_id x ys)) ≡ (str_eq x.node_id id || member id (node_ids ys))
unfolding insert_by_id
member-insert id x [] = refl
member-insert id x (y ∷ ys) = ground (arith, member-insert id x ys)

member-sort :
    (id : String) (xs : Nodes) → member id (node_ids (sort_by_id xs)) ≡ member id (node_ids xs)
unfolding sort_by_id
member-sort id [] = refl
member-sort id (x ∷ xs) = ground (arith, member-insert id x (sort_by_id xs), member-sort id xs)

pub member-projected :
    (id : String) (nodes : Nodes) (edges : Edges)
    → member id (node_ids (task_graph_projected_nodes nodes edges)) ≡ member id (node_ids nodes)
unfolding task_graph_projected_nodes
member-projected id nodes edges =
    member-sort id (project_from (completed_nodes nodes []) edges [] nodes)
    ∙ member-project_from id (completed_nodes nodes []) edges [] nodes

member-replace :
    (id : String) (new : TaskGraphNodeProjection) (nodes : Nodes)
    → member id (node_ids (replace_nodes new nodes)) ≡ member id (node_ids nodes)
member-replace id new [] = refl
member-replace id new (node ∷ nodes) =
    ground (arith, member-replace id new nodes, eq_iff node.node_id new.node_id)

-- A node that is put adds its id, and loses none.
pub member-put_node :
    (id : String) (new : TaskGraphNodeProjection) (nodes : Nodes)
    → member id (node_ids nodes) ≡ true
    → member id (node_ids (put_node new nodes)) ≡ true
unfolding put_node
member-put_node id new nodes h =
    ground (arith, member-replace id new nodes, member-append_node id nodes (new ∷ []))
