-- ===== src/Kernel/TaskGraph/Search/Complete.antt =====
-- Where the search reports no cycle, there is none on the walks from a node.
use genesis.Prelude.{
  ℕ, zero, suc, String, ◌≡◌, refl, sym, subst, ◌∙◌, Bool, true, false, ◌⊎◌, inl, inr, some, List,
  [], ◌∷◌, str_eq, Bool-cases, Option-cases, arith, eq_iff,
}
use genesis.Kernel.TaskGraph.Nodes.{Nodes, Edges}
use genesis.Kernel.TaskGraph.Cycle.{
  member, without, has_edge, next, node_ids, Marks, Visit, visit_all, visit, entered, cycle_search,
}
use genesis.Kernel.TaskGraph.Search.{Walk, Walk-then, member-next}
use genesis.Kernel.TaskGraph.Search.Sound.{same_answer}

-- All walks from the id end.
pub data Safe (edges : Edges) : String → Type 0 where
  safe : {id : String} → ((c : String) → has_edge edges id c ≡ true → Safe edges c) → Safe edges id

no_loop : {edges : Edges} {a : String} → Safe edges a → (b : String) → Walk edges a b → ¬ (a ≡ b)
no_loop {edges} (Safe.safe f) b (Walk.one e) p =
    no_loop (f b e) b (Walk.one (subst (λ x. has_edge edges x b ≡ true) p e)) refl
no_loop {edges} (Safe.safe f) b (Walk.more {b = c} e w) p =
    no_loop (f c e) c (Walk-then w (subst (λ x. has_edge edges x c ≡ true) p e)) refl

pub Safe-no_loop : {edges : Edges} {a : String} → Safe edges a → ¬ Walk edges a a
Safe-no_loop s w = no_loop s _ w refl

member-without_ne :
    (x id : String) (xs : List String)
    → str_eq id x ≡ false
    → member x xs ≡ true
    → member x (without id xs) ≡ true
member-without_ne x id [] n h = h
member-without_ne x id (y ∷ ys) n h =
    ground (arith, member-without_ne x id ys n, eq_iff y x, eq_iff y id, eq_iff id x)

module _ (edges : Edges) where
  -- A marked id is on the stack, or all walks from it end.
  abbrev Clear : Marks → Type 0
  Clear s = (x : String) → member x s.seen ≡ true → (member x s.stack ≡ true) ⊎ Safe edges x

  -- A visit that finds no cycle leaves the marks clear.
  abbrev AllSafe : (String → Type 0) → Bool → Marks → Type 0
  AllSafe P true t = Unit
  AllSafe P false t = Clear t × ((x : String) → P x → Safe edges x)

  abbrev ClearVisit : (String → Marks → Visit) → Type 0
  ClearVisit f =
      (id : String) (s : Marks)
      → Clear s
      → (b : Bool) (t : Marks) → f id s ≡ some (b, t)
      → AllSafe (λ x. x ≡ id) b t

  AllSafe-and :
      (P Q R : String → Type 0) (u : Marks)
      → AllSafe P false u
      → ((x : String) → R x → P x ⊎ Q x)
      → (b : Bool) (t : Marks) → AllSafe Q b t
      → AllSafe R b t
  AllSafe-and P Q R u h split true t g = tt
  AllSafe-and P Q R u h split false t g =
      (g.0, λ x r. elim (split x r) [ inl p ↦ h.1 x p | inr q ↦ g.1 x q ])

  visit_all-Clear :
      (f : String → Marks → Visit)
      → ClearVisit f
      → (ids : List String) (s : Marks) → Clear s
      → (b : Bool) (t : Marks) → visit_all f ids s ≡ some (b, t)
      → AllSafe (λ x. member x ids ≡ true) b t
  unfolding visit_all
  visit_all-Clear f each [] s clear b t h =
      same_answer (AllSafe (λ x. false ≡ true)) false b s t h (clear, λ x m. ground arith)
  visit_all-Clear f each (id ∷ ids) s clear b t h = elim (Option-cases (f id s)) [
    | inl e ↦ ground arith
    | inr ((true, u), e) ↦ same_answer (AllSafe _) true b u t (rw (e, visit_all) at h) tt
    | inr ((false, u), e) ↦
        let first = each id s clear false u e in
        AllSafe-and (λ x. x ≡ id) (λ x. member x ids ≡ true) _ u first
          (λ x m. elim (Bool-cases (str_eq id x)) [
            | inl g ↦ inl (ground (arith, eq_iff id x))
            | inr g ↦ inr (ground arith)
          ])
          b t (visit_all-Clear f each ids u first.0 b t (rw (e, visit_all) at h))
  ]

  Clear-entered : (id : String) (s : Marks) → Clear s → Clear (entered id s)
  Clear-entered id s clear x m = elim (Bool-cases (str_eq id x)) [
    | inl e ↦ inl (ground arith)
    | inr e ↦ elim (clear x (ground arith)) [ inl n ↦ inl (ground arith) | inr g ↦ inr g ]
  ]

  Clear-left :
      (id : String) (s : Marks)
      → Clear s
      → Safe edges id
      → Clear (record s { stack = without id s.stack })
  Clear-left id s clear end x m = elim (clear x m) [
    | inr g ↦ inr g
    | inl n ↦ elim (Bool-cases (str_eq id x)) [
      | inl e ↦ inr (subst (Safe edges) (ground (arith, eq_iff id x)) end)
      | inr e ↦ inl (member-without_ne x id s.stack e n)
    ]
  ]

  visit-Clear : (fuel : ℕ) → ClearVisit (visit edges fuel)
  unfolding visit
  visit-Clear zero id s clear b t h = ground arith
  visit-Clear (suc fuel) id s clear b t h = elim (Bool-cases (member id s.stack)) [
    | inl e ↦ same_answer (AllSafe _) true b s t (rw e at h) tt
    | inr e ↦ elim (Bool-cases (member id s.seen)) [
      | inl e' ↦ same_answer (AllSafe (λ x. x ≡ id)) false b s t (rw (e, e') at h) (
        clear,
        λ x p. subst (Safe edges) (sym p) (elim (clear id e') [ inl n ↦ ground arith | inr g ↦ g ]),
      )
      | inr e' ↦ elim (Option-cases (visit_all (visit edges fuel) (next edges id) (entered id s))) [
        | inl f ↦ ground arith
        | inr ((true, u), f) ↦ same_answer (AllSafe _) true b u t (rw (e, e', f) at h) tt
        | inr ((false, u), f) ↦
            let (clear', below) =
              visit_all-Clear (visit edges fuel) (visit-Clear fuel) (next edges id) (entered id s)
                (Clear-entered id s clear) false u f in
            let end : Safe edges id = Safe.safe (λ c m. below c (member-next edges id c ∙ m)) in
            same_answer (AllSafe (λ x. x ≡ id)) false b (record u { stack = without id u.stack }) t
              (rw (e, e', f) at h)
              (Clear-left id u clear' end, λ x p. subst (Safe edges) (sym p) end)
      ]
    ]
  ]

-- A search that reports no cycle: all walks from a node end.
pub cycle_search_complete :
    (nodes : Nodes) (edges : Edges) (t : Marks)
    → cycle_search nodes edges ≡ some (false, t)
    → (id : String) → member id (node_ids nodes) ≡ true
    → Safe edges id
unfolding cycle_search
cycle_search_complete nodes edges t h =
    (visit_all-Clear edges (visit edges _) (visit-Clear edges _) (node_ids nodes)
      (record { seen = []; stack = [] }) (λ x m. ground arith) false t h).1
