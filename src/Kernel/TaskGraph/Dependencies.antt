-- ===== src/Kernel/TaskGraph/Dependencies.antt =====
-- A node is ready only when all nodes that it depends on are completed.
pub mod Ready
use genesis.Prelude.{
  String, ◌≡◌, refl, sym, subst, ap, ◌∙◌, Bool, true, false, not, ◌||◌, ◌&&◌, ◌⊎◌, inl, inr, Option,
  none, some, List, [], ◌∷◌, ◌++◌, All, All-append, str_eq, if◌then◌else◌, Bool-cases, Option-cases,
  arith, eq_iff, eq_refl,
}
use mathlib.Core.List.{Memᴰ}
use mathlib.Core.List.Memᴰ
use genesis.Prelude.Text.{trim, string_lt}
use genesis.Prelude.Dict.{Dict, get, put, get-put}
use genesis.Prelude.Results.{Result, err, ok, Result-cases}
use genesis.Kernel.Ledger.{KernelEnv, Ledger, append_event, with_value}
use genesis.Kernel.TaskGraph.Types.{
  TaskStatus, TaskGraphNodeProjection, TaskGraphEdgeProjection, TaskGraphProjection,
  TaskGraphNodeTransitionRequest, is_completed, is_blocked, is_broken, task_graph_node_mutable,
  task_graph_transition_allowed,
}
use genesis.Kernel.TaskGraph.Nodes.{
  Nodes, Edges, Sweep, completed_nodes, has_completed, scan_predecessors, scan_edges, settle_node,
  project_node, project_from, insert_by_id, sort_by_id, task_graph_projected_nodes,
}
use genesis.Kernel.TaskGraph.Cycle.{member, has_edge, node_ids}
use genesis.Kernel.TaskGraph.Replay.{projected, task_graph}
use genesis.Kernel.TaskGraph.Edit.{task_graph_node, transition_task_graph_node, transition_node_in}
use genesis.Kernel.TaskGraph.Ids.{
  scan_predecessors_id, scan_edges_id, project_node_id, member-append_node,
}

abbrev pub is_ready : TaskStatus → Bool
is_ready TaskStatus.ready = true
is_ready _ = false

ready_not_blocked : (t : TaskStatus) → is_ready t ≡ true → is_blocked t ≡ false
ready_not_blocked TaskStatus.ready h = refl
ready_not_blocked _ h = ground arith

module _ (known : Dict Bool) where
  scan_predecessors_waits :
      (from : String) (nodes : Nodes) (s : Sweep)
      → is_blocked (scan_predecessors known from nodes s).node.status ≡ false
      → (scan_predecessors known from nodes s).waiting ≡ false
      → (s.waiting ≡ false)
        × (member from (node_ids nodes) ≡ true → has_completed known from ≡ true)
  unfolding scan_predecessors
  scan_predecessors_waits from [] s h w = (w, λ m. ground arith)
  scan_predecessors_waits from (p ∷ rest) s h w =
      let ih = scan_predecessors_waits from rest in
      ground (arith, ih s, ih (record s { waiting = true }), eq_iff p.node_id from)

  -- The edges into a node come from completed nodes, as far as they come from nodes of `ids`.
  abbrev pub DependsOnCompleted : Edges → (String → Bool) → String → Type 0
  DependsOnCompleted edges ids id =
      (from : String)
      → has_edge edges from id ≡ true
      → ids from ≡ true
      → has_completed known from ≡ true

  scan_edges_waits :
      (before after : Nodes) (ids : String → Bool) (edges : Edges) (s : Sweep)
      → ((x : String)
          → ids x ≡ true
          → (member x (node_ids before) || (str_eq s.node.node_id x || member x (node_ids after)))
            ≡ true)
      → is_blocked (scan_edges known before after edges s).node.status ≡ false
      → (scan_edges known before after edges s).waiting ≡ false
      → (s.waiting ≡ false) × DependsOnCompleted edges ids s.node.node_id
  unfolding scan_edges
  scan_edges_waits before after ids [] s among h w = (w, λ from e m. ground arith)
  scan_edges_waits before after ids (edge ∷ edges) s among h w =
      let t = scan_predecessors known edge.from_node_id (before ++ s.node ∷ after) s in
      let same = scan_predecessors_id known edge.from_node_id (before ++ s.node ∷ after) s in
      elim (Bool-cases (str_eq edge.to_node_id s.node.node_id)) [
        | inr n ↦
            let (quiet, rest) =
              scan_edges_waits before after ids edges s among (ground arith) (ground arith) in
            (quiet, λ from e m. rest from (ground arith) m)
        | inl n ↦ elim (Bool-cases (is_blocked t.node.status)) [
          | inl stuck ↦ ground arith
          | inr clear ↦
              let (quiet, rest) =
                scan_edges_waits before after ids edges t (λ x m. rw same (among x m))
                  (ground arith) (ground arith) in
              let (quiet', first) =
                scan_predecessors_waits edge.from_node_id (before ++ s.node ∷ after) s clear
                  quiet in
              (
                quiet',
                λ from e m. elim (Bool-cases (str_eq edge.from_node_id from)) [
                  | inl g ↦
                      let it : edge.from_node_id ≡ from =
                        ground (arith, eq_iff edge.from_node_id from) in
                      subst (λ x. has_completed known x ≡ true) it
                        (first (
                          member-append_node edge.from_node_id before (s.node ∷ after)
                          ∙ among edge.from_node_id (subst (λ y. ids y ≡ true) (sym it) m)))
                  | inr g ↦
                      let later : has_edge edges from s.node.node_id ≡ true = ground arith in
                      rest from (subst (λ i. has_edge edges from i ≡ true) (sym same) later) m
                ],
              )
        ]
      ]

module _ (edges : Edges) (nodes : Nodes) where
  -- What a ready node of a projection guarantees.
  abbrev pub IsReadySafe : Dict Bool → TaskGraphNodeProjection → Type 0
  IsReadySafe known node =
      is_ready node.status ≡ true
      → DependsOnCompleted known edges (λ x. member x (node_ids nodes)) node.node_id

  project_node_safe :
      (known : Dict Bool) (before after : Nodes) (node : TaskGraphNodeProjection)
      → ((x : String)
          → member x (node_ids nodes) ≡ true
          → (member x (node_ids before) || (str_eq node.node_id x || member x (node_ids after)))
            ≡ true)
      → IsReadySafe known (project_node known edges before after node)
  unfolding project_node
  project_node_safe known before after node among h =
      let s : Sweep = record { node = node; waiting = false } in
      let t = scan_edges known before after edges s in
      elim (Bool-cases (task_graph_node_mutable node)) [
        | inr f ↦ ground arith
        | inl f ↦ elim (Bool-cases (is_blocked t.node.status)) [
          | inl g ↦ ground (arith, ready_not_blocked t.node.status)
          | inr g ↦ elim (Bool-cases t.waiting) [
            | inl w ↦ ground arith
            | inr w ↦
                subst (DependsOnCompleted known edges (λ x. member x (node_ids nodes)))
                  (ground (arith, scan_edges_id known before after edges s))
                  (scan_edges_waits known before after (λ x. member x (node_ids nodes)) edges s
                    among g w).1
          ]
        ]
      ]

  pub project_from_safe :
      (known : Dict Bool) (before after : Nodes)
      → ((x : String)
          → member x (node_ids nodes) ≡ true
          → (member x (node_ids before) || member x (node_ids after)) ≡ true)
      → All (IsReadySafe known) before
      → All (IsReadySafe known) (project_from known edges before after)
  unfolding project_from
  project_from_safe known before [] among h = h
  project_from_safe known before (node ∷ after) among h =
      let new = project_node known edges before after node in
      project_from_safe known (before ++ new ∷ []) after
        (λ x m.
          rw (member-append_node x before (new ∷ []), project_node_id known edges before after node)
            (ground (arith, among x m)))
        (All-append (IsReadySafe known) before (new ∷ []) h
          (project_node_safe known before after node among, tt))
