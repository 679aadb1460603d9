-- ===== src/Kernel/TaskGraph/Search/Ends.antt =====
-- The search for a cycle ends: every level marks a further id, so the fuel is enough.
use genesis.Prelude.{
  ℕ, zero, suc, ◌+◌, ◌≤◌, ◌<◌, String, ◌≡◌, refl, Bool, true, false, inl, inr, some, List, [], ◌∷◌,
  ◌++◌, length, if◌then◌else◌, Bool-cases, arith, eq_refl, eq_iff,
}
use genesis.Kernel.TaskGraph.Nodes.{Nodes, Edges}
use genesis.Kernel.TaskGraph.Cycle.{
  member, without, next, targets, node_ids, Marks, Visit, visit_all, visit, entered, cycle_search,
}
use genesis.Kernel.TaskGraph.Search.{member-next_target, member-append}

-- How many of the ids are not marked.
abbrev unseen : List String → List String → ℕ
unseen [] seen = 0
unseen (x ∷ xs) seen = (if member x seen then 0 else 1) + unseen xs seen

unseen-cons_le :
    (ids : List String) (id : String) (seen : List String)
    → unseen ids (id ∷ seen) ≤ unseen ids seen
unseen-cons_le [] id seen = omega arith
unseen-cons_le (x ∷ xs) id seen = ground (arith, unseen-cons_le xs id seen)

unseen-cons_lt :
    (ids : List String) (id : String) (seen : List String)
    → member id ids ≡ true
    → member id seen ≡ false
    → unseen ids (id ∷ seen) < unseen ids seen
unseen-cons_lt [] id seen h n = ground arith
unseen-cons_lt (x ∷ xs) id seen h n =
    ground (arith, unseen-cons_le xs id seen, unseen-cons_lt xs id seen, eq_iff x id, eq_refl id)

unseen-length : (ids : List String) → unseen ids [] ≡ length ids
unseen-length [] = refl
unseen-length (x ∷ xs) = omega (arith, unseen-length xs)

-- A visit ends, and marks stay marked.
abbrev Ends : List String → Visit → Marks → Type 0
Ends ids v s =
    (b : Bool) × (t : Marks) × (v ≡ some (b, t)) × (unseen ids t.seen ≤ unseen ids s.seen)

module _ (ids : List String) where
  visit_all-Ends :
      (f : String → Marks → Visit) (n : ℕ)
      → ((id : String) (s : Marks)
          → member id ids ≡ true
          → unseen ids s.seen < n
          → Ends ids (f id s) s)
      → (cs : List String) → ((c : String) → member c cs ≡ true → member c ids ≡ true)
      → (s : Marks) → unseen ids s.seen < n
      → Ends ids (visit_all f cs s) s
  unfolding visit_all
  visit_all-Ends f n each [] known s h = (false, s, refl, omega arith)
  visit_all-Ends f n each (c ∷ cs) known s h =
      let (a, t, e, le) = each c s (known c (ground (arith, eq_refl c))) h in
      elim (Bool-cases a) [
        | inl g ↦ (true, t, rw (e, g, visit_all) refl, le)
        | inr g ↦
            let (b, u, e', le') =
              visit_all-Ends f n each cs (λ d m. known d (ground arith)) t (omega arith) in
            (b, u, rw (e, g, visit_all) e', omega arith)
      ]

  visit-Ends :
      (edges : Edges)
      → ((id c : String) → member c (next edges id) ≡ true → member c ids ≡ true)
      → (fuel : ℕ) (id : String) (s : Marks) → member id ids ≡ true
      → unseen ids s.seen < fuel
      → Ends ids (visit edges fuel id s) s
  unfolding visit
  visit-Ends edges closed zero id s m h = ground arith
  visit-Ends edges closed (suc fuel) id s m h = elim (Bool-cases (member id s.stack)) [
    | inl e ↦ (true, s, rw e refl, omega arith)
    | inr e ↦ elim (Bool-cases (member id s.seen)) [
      | inl e' ↦ (false, s, rw (e, e') refl, omega arith)
      | inr e' ↦
          let less = unseen-cons_lt ids id s.seen m e' in
          let (a, t, f, le) =
            visit_all-Ends (visit edges fuel) fuel (visit-Ends edges closed fuel) (next edges id)
              (closed id) (entered id s) (omega arith) in
          elim (Bool-cases a) [
            | inl g ↦ (true, t, rw (e, e', f, g) refl, omega arith)
            | inr g ↦
                (false, record t { stack = without id t.stack }, rw (e, e', f, g) refl, omega arith)
          ]
    ]
  ]

-- The search for a cycle ends with an answer, whatever the nodes and the edges: the fuel, one more
-- than the ids there are, does not run out.
pub cycle_search_ends :
    (nodes : Nodes) (edges : Edges)
    → (found : Bool) × (t : Marks) × (cycle_search nodes edges ≡ some (found, t))
unfolding cycle_search
cycle_search_ends nodes edges =
    let ids = node_ids nodes ++ targets edges in
    let closed : (id c : String) → member c (next edges id) ≡ true → member c ids ≡ true = λ id c m.
      rw (member-append c (node_ids nodes) (targets edges))
        (ground (arith, member-next_target edges id c m)) in
    let (b, t, e, le) =
      visit_all-Ends ids (visit edges (suc (length ids))) (suc (length ids))
        (visit-Ends ids edges (closed) (suc (length ids))) (node_ids nodes)
        (λ c m. rw (member-append c (node_ids nodes) (targets edges)) (ground arith))
        (record { seen = []; stack = [] }) (omega (arith, unseen-length ids)) in
    (b, t, e)
