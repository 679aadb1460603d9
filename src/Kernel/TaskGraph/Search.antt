-- ===== src/Kernel/TaskGraph/Search.antt =====
-- The search of taskGraphHasCycle against the walks of a graph: what the children prove it with.
pub mod Ends
pub mod Sound
pub mod Complete
pub mod Exact
use genesis.Prelude.{
  String, ◌≡◌, refl, Bool, true, false, ◌||◌, List, [], ◌∷◌, ◌++◌, str_eq, arith, eq_iff,
}
use genesis.Kernel.TaskGraph.Nodes.{Edges}
use genesis.Kernel.TaskGraph.Cycle.{member, without, has_edge, next, targets}

-- The walks of one edge or more.
pub data Walk (edges : Edges) : String → String → Type 0 where
  one : {a b : String} → has_edge edges a b ≡ true → Walk edges a b
  more : {a b c : String} → has_edge edges a b ≡ true → Walk edges b c → Walk edges a c

-- A walk with an edge after it.
pub Walk-then :
    {edges : Edges} {a b c : String} → Walk edges a b → has_edge edges b c ≡ true → Walk edges a c
Walk-then (Walk.one e) h = Walk.more e (Walk.one h)
Walk-then (Walk.more e w) h = Walk.more e (Walk-then w h)

pub member-next : (edges : Edges) (id c : String) → member c (next edges id) ≡ has_edge edges id c
member-next [] id c = refl
member-next (edge ∷ edges) id c = ground (arith, member-next edges id c)

pub member-next_target :
    (edges : Edges) (id c : String)
    → member c (next edges id) ≡ true
    → member c (targets edges) ≡ true
member-next_target [] id c h = ground arith
member-next_target (edge ∷ edges) id c h = ground (arith, member-next_target edges id c)

pub member-append :
    (c : String) (xs ys : List String) → member c (xs ++ ys) ≡ (member c xs || member c ys)
member-append c [] ys = refl
member-append c (x ∷ xs) ys = ground (arith, member-append c xs ys)

pub member-without :
    (x id : String) (xs : List String) → member x (without id xs) ≡ true → member x xs ≡ true
member-without x id [] h = h
member-without x id (y ∷ ys) h = ground (arith, member-without x id ys)
