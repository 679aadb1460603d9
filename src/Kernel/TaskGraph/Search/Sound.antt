-- ===== src/Kernel/TaskGraph/Search/Sound.antt =====
-- A cycle that the search reports is one: the ids of the stack have walks to the visited id.
use genesis.Prelude.{
  ℕ, zero, suc, String, ◌≡◌, refl, sym, subst, ◌∙◌, Bool, true, false, inl, inr, some, List, [],
  ◌∷◌, str_eq, Bool-cases, Option-cases, arith, eq_iff, eq_refl,
}
use genesis.Kernel.TaskGraph.Nodes.{Nodes, Edges}
use genesis.Kernel.TaskGraph.Cycle.{
  member, without, has_edge, next, node_ids, Marks, Visit, visit_all, visit, entered, cycle_search,
}
use genesis.Kernel.TaskGraph.Search.{Walk, Walk-then, member-next, member-without}

-- What holds of an answer holds of an equal one.
pub same_answer {ℓ} :
    (P : Bool → Marks → Type ℓ) (b c : Bool) (t u : Marks)
    → ◌≡◌ {A = Visit} (some (b, t)) (some (c, u))
    → P b t
    → P c u
same_answer P b c t u h p =
    let e : ◌≡◌ {A = Bool × Marks} (b, t) (c, u) = ground arith in
    subst (λ (q : Bool × Marks). P q.0 q.1) e p

not_member-without : (x : String) (xs : List String) → member x (without x xs) ≡ false
not_member-without x [] = refl
not_member-without x (y ∷ ys) = ground (arith, not_member-without x ys)

module _ (edges : Edges) where
  -- Every id of the stack has a walk to the id.
  abbrev OnPath : Marks → String → Type 0
  OnPath s id = (x : String) → member x s.stack ≡ true → Walk edges x id

  -- A cycle was found, or the stack has no further id.
  abbrev Sound : Marks → Bool → Marks → Type 0
  Sound s true t = (x : String) × Walk edges x x
  Sound s false t = (x : String) → member x t.stack ≡ true → member x s.stack ≡ true

  Sound-after : (s t : Marks) → Sound s false t → (b : Bool) (u : Marks) → Sound t b u → Sound s b u
  Sound-after s t h true u g = g
  Sound-after s t h false u g = λ x m. h x (g x m)

  abbrev SoundVisit : (String → Marks → Visit) → Type 0
  SoundVisit f =
      (id : String) (s : Marks)
      → OnPath s id
      → (b : Bool) (t : Marks) → f id s ≡ some (b, t)
      → Sound s b t

  visit_all-Sound :
      (f : String → Marks → Visit)
      → SoundVisit f
      → (ids : List String) (s : Marks) → ((id : String) → member id ids ≡ true → OnPath s id)
      → (b : Bool) (t : Marks) → visit_all f ids s ≡ some (b, t)
      → Sound s b t
  unfolding visit_all
  visit_all-Sound f each [] s paths b t h = same_answer (Sound s) false b s t h (λ x m. m)
  visit_all-Sound f each (id ∷ ids) s paths b t h = elim (Option-cases (f id s)) [
    | inl e ↦ ground arith
    | inr ((true, u), e) ↦
        same_answer (Sound s) true b u t (rw (e, visit_all) at h)
          (each id s (paths id (ground (arith, eq_refl id))) true u e)
    | inr ((false, u), e) ↦
        let kept = each id s (paths id (ground (arith, eq_refl id))) false u e in
        Sound-after s u kept b t (
          visit_all-Sound f each ids u (λ c m x n. paths c (ground arith) x (kept x n)) b t
            (rw (e, visit_all) at h))
  ]

  not_entered :
      (id : String) (s u : Marks)
      → Sound (entered id s) false u
      → (x : String) → member x (without id u.stack) ≡ true
      → member x s.stack ≡ true
  not_entered id s u kept x m =
      ground
        (arith, kept x (member-without x id u.stack m), not_member-without x u.stack, eq_iff id x)

  visit-Sound : (fuel : ℕ) → SoundVisit (visit edges fuel)
  unfolding visit
  visit-Sound zero id s path b t h = ground arith
  visit-Sound (suc fuel) id s path b t h = elim (Bool-cases (member id s.stack)) [
    | inl e ↦ same_answer (Sound s) true b s t (rw e at h) (id, path id e)
    | inr e ↦ elim (Bool-cases (member id s.seen)) [
      | inl e' ↦ same_answer (Sound s) false b s t (rw (e, e') at h) (λ x m. m)
      | inr e' ↦
          let paths : (c : String) → member c (next edges id) ≡ true → OnPath (entered id s) c =
            λ c m x n. elim (Bool-cases (str_eq id x)) [
              | inl g ↦ Walk.one (
                  subst (λ y. has_edge edges y c ≡ true) (ground (arith, eq_iff id x))
                    (sym (member-next edges id c) ∙ m))
              | inr g ↦ Walk-then (path x (ground arith)) (sym (member-next edges id c) ∙ m)
            ] in
          elim (Option-cases (visit_all (visit edges fuel) (next edges id) (entered id s))) [
            | inl f ↦ ground arith
            | inr ((true, u), f) ↦ same_answer (Sound s) true b u t (rw (e, e', f) at h) (
                visit_all-Sound (visit edges fuel) (visit-Sound fuel) (next edges id) (entered id s)
                  paths true u f)
            | inr ((false, u), f) ↦
                let kept =
                  visit_all-Sound (visit edges fuel) (visit-Sound fuel) (next edges id)
                    (entered id s) paths false u f in
                same_answer (Sound s) false b (record u { stack = without id u.stack }) t
                  (rw (e, e', f) at h) (λ x m. not_entered id s u kept x m)
          ]
    ]
  ]

-- A search that reports a cycle: some id has a walk to itself.
pub cycle_search_sound :
    (nodes : Nodes) (edges : Edges) (t : Marks)
    → cycle_search nodes edges ≡ some (true, t)
    → (id : String) × Walk edges id id
unfolding cycle_search
cycle_search_sound nodes edges t h =
    visit_all-Sound edges (visit edges _) (visit-Sound edges _) (node_ids nodes)
      (record { seen = []; stack = [] }) (λ id m x n. ground arith) true t h
