-- ===== src/Kernel/TaskGraph/Acyclic/Steps.antt =====
-- What an appended event of a task graph does to the graphs of the replay.
use genesis.Prelude.{
  String, ◌≡◌, refl, subst, ap, ◌∙◌, inl, inr, some, [], ◌∷◌, ◌++◌, Option-cases, arith,
}
use genesis.Prelude.Text.{trim}
use genesis.Prelude.Dict.{get, put}
use genesis.Prelude.Results.{Result, err, ok, and_then, and_then_lem}
use genesis.Kernel.Types.{EventType, StoredEvent}
use genesis.Kernel.Ledger.{KernelEnv, Ledger, append_event, with_value}
use genesis.Kernel.TaskGraph.Types.{TaskGraphProjection, TaskGraphEventProjection}
use genesis.Kernel.TaskGraph.Replay.{
  Graphs, change_graph, record_change, replay_graph_event, replay_graphs, task_graphs, projected,
  task_graph,
}
use genesis.Kernel.TaskGraph.Edit.{task_graph_event}
use genesis.Kernel.TaskGraph.Acyclic.{IsAcyclic, AllAcyclic, AllAcyclic-put}

-- The replay succeeds, and no graph has a cycle.
abbrev pub Holds : Ledger → Type 0
Holds ledger = (graphs : Graphs) × (replay_graphs ledger [] ≡ ok graphs) × AllAcyclic graphs

and_then_ok : (r : Result Graphs) → and_then r (replay_graphs []) ≡ r
unfolding replay_graphs and_then
and_then_ok (ok a) = refl
and_then_ok (err e) = refl

pub replay_graphs-append :
    (events : Ledger) (ev : StoredEvent) (c d : Graphs)
    → replay_graphs events c ≡ ok d
    → replay_graphs (events ++ ev ∷ []) c ≡ replay_graph_event ev d
unfolding replay_graphs and_then
replay_graphs-append [] ev c d h =
    let same : c ≡ d = ground arith in
    and_then_ok (replay_graph_event ev c) ∙ ap (replay_graph_event ev) same
replay_graphs-append (x ∷ events) ev c d h =
    let (e, f, g) = and_then_lem (replay_graph_event x c) (replay_graphs events) d h in
    rw f (replay_graphs-append events ev e d g)

module _ (ledger ledger' : Ledger) (graphs : Graphs)
    (replayed : replay_graphs ledger [] ≡ ok graphs) (all : AllAcyclic graphs) where
  -- Nothing was appended.
  pub same-Holds : ledger ≡ ledger' → Holds ledger'
  same-Holds e = subst Holds e (graphs, replayed, all)

  pub append-Holds :
      {A : Type 0} (k : KernelEnv) (ev : StoredEvent) (x : A) (r : Result A) (graphs' : Graphs)
      → replay_graph_event ev graphs ≡ ok graphs'
      → AllAcyclic graphs'
      → append_event k ev x ledger ≡ (r, ledger')
      → Holds ledger'
  unfolding append_event
  append-Holds k ev x r graphs' e all' h = elim (Option-cases k.ready_error) [
    | inr (m, f) ↦ same-Holds (ground arith)
    | inl f ↦ elim (Option-cases k.append_error) [
      | inr (m, g) ↦ same-Holds (ground arith)
      | inl g ↦
          let log : ledger ++ ev ∷ [] ≡ ledger' = ground arith in
          subst Holds log (graphs', replay_graphs-append ledger ev [] graphs replayed ∙ e, all')
    ]
  ]

  -- An event of a graph that is there.
  pub change-Holds :
      {A : Type 0} (k : KernelEnv) (type : EventType) (change : TaskGraphEventProjection) (x : A)
      (r : Result A) (graph : TaskGraphProjection)
      → get graphs change.graph_id ≡ some graph
      → graph.graph_id ≡ change.graph_id
      → record_change type change (some graph) graphs
        ≡ ok (put graphs change.graph_id (change_graph type change graph))
      → IsAcyclic (change_graph type change graph).nodes (change_graph type change graph).edges
      → append_event k (task_graph_event k type change) x ledger ≡ (r, ledger')
      → Holds ledger'
  unfolding replay_graph_event change_graph
  change-Holds k type change x r graph found named shape good h =
      append-Holds k (task_graph_event k type change) x r
        (put graphs change.graph_id (change_graph type change graph))
        (ap (λ o. record_change type change o graphs) found ∙ shape)
        (AllAcyclic-put graphs change.graph_id (change_graph type change graph) all named good) h

  -- An operation on a graph fails at reading it, or goes on with the graph that the replay has.
  pub graph-Holds :
      {A : Type 0} (k : KernelEnv) (id : String)
      (next : TaskGraphProjection → Ledger → Result A × Ledger) (r : Result A)
      → ((graph : TaskGraphProjection)
          → get graphs graph.graph_id ≡ some graph
          → IsAcyclic graph.nodes graph.edges
          → next (projected graph) ledger ≡ (r, ledger')
          → Holds ledger')
      → with_value (task_graph k id ledger) next ledger ≡ (r, ledger')
      → Holds ledger'
  unfolding with_value task_graph task_graphs and_then
  graph-Holds k id next r goes h = elim (Option-cases k.load_error) [
    | inr (e, f) ↦ same-Holds (ground arith)
    | inl f ↦ elim (Option-cases (get graphs (trim id))) [
      | inl g ↦ same-Holds (ground arith)
      | inr (graph, g) ↦
          let (named, good) = all (trim id) graph g in
          goes graph (ap (get graphs) named ∙ g) good (ground arith)
    ]
  ]
