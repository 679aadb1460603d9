-- ===== src/Kernel/TaskGraph/Cycle.antt =====
-- taskGraphHasCycle: a depth-first search for an edge back to the path that it is on.
use genesis.Prelude.{
  ℕ, zero, suc, String, Bool, true, false, ◌&&◌, ◌||◌, Option, none, some, List, [], ◌∷◌, ◌++◌,
  length, str_eq, if◌then◌else◌,
}
use genesis.Kernel.TaskGraph.Types.{TaskGraphProjection}
use genesis.Kernel.TaskGraph.Nodes.{Nodes, Edges}

-- A key of a map to true.
abbrev pub member : String → List String → Bool
member x [] = false
member x (y ∷ ys) = str_eq y x || member x ys

-- delete(stack, id)
abbrev pub without : String → List String → List String
without x [] = []
without x (y ∷ ys) = let rest = without x ys in if str_eq y x then rest else y ∷ rest

-- taskGraphHasEdge
abbrev pub has_edge : Edges → String → String → Bool
has_edge [] from to = false
has_edge (edge ∷ edges) from to =
    (str_eq edge.from_node_id from && str_eq edge.to_node_id to) || has_edge edges from to

-- next[id]
abbrev pub next : Edges → String → List String
next [] id = []
next (edge ∷ edges) id =
    let rest = next edges id in if str_eq edge.from_node_id id then edge.to_node_id ∷ rest else rest

abbrev pub targets : Edges → List String
targets [] = []
targets (edge ∷ edges) = edge.to_node_id ∷ targets edges

abbrev pub node_ids : Nodes → List String
node_ids [] = []
node_ids (node ∷ nodes) = node.node_id ∷ node_ids nodes

-- `seen` and `stack`
pub record Marks : Type 0 where
  pub seen : List String
  pub stack : List String

-- The answer of a visit with the marks it leaves; none where the fuel has run out.
abbrev pub Visit : Type 0
Visit = Option (Bool × Marks)

-- The loop over children, and that over the nodes: it ends at a cycle.
unfoldable pub visit_all : (String → Marks → Visit) → List String → Marks → Visit
visit_all visit [] s = some (false, s)
visit_all visit (id ∷ ids) s = elim (visit id s) [
  | none ↦ none
  | some (true, t) ↦ some (true, t)
  | some (false, t) ↦ visit_all visit ids t
]

-- seen[id], stack[id] = true, true
abbrev pub entered : String → Marks → Marks
entered id s = record { seen = id ∷ s.seen; stack = id ∷ s.stack }

-- What the visit of an id returns after its children.
abbrev pub left : String → Visit → Visit
left id none = none
left id (some (true, t)) = some (true, t)
left id (some (false, t)) = some (false, record t { stack = without id t.stack })

-- visit, with a fuel that bounds the depth
unfoldable pub visit : Edges → ℕ → String → Marks → Visit
visit edges zero id s = none
visit edges (suc fuel) id s =
    if member id s.stack
    then some (true, s)
    else if member id s.seen
    then some (false, s)
    else left id (visit_all (visit edges fuel) (next edges id) (entered id s))

-- The search from every node; each level of it marks a further id as seen.
unfoldable pub cycle_search : Nodes → Edges → Visit
cycle_search nodes edges =
    visit_all (visit edges (suc (length (node_ids nodes ++ targets edges)))) (node_ids nodes)
      (record { seen = []; stack = [] })

-- taskGraphHasCycle
unfoldable pub task_graph_has_cycle : TaskGraphProjection → Bool
task_graph_has_cycle graph = elim (cycle_search graph.nodes graph.edges) [
  | none ↦ true
  | some (found, t) ↦ found
]
