-- ===== src/Kernel/Memory/Replay/Induction.antt =====
-- What holds of each recorded candidate holds of a whole replay.
use genesis.Prelude.{String, ◌≡◌, subst, inl, inr, Option, none, some, [], ◌∷◌, Option-cases, arith}
use genesis.Prelude.Dict.{get, put}
use genesis.Prelude.Results.{ok, and_then, and_then_lem}
use genesis.Kernel.Types.{MemoryCandidateProjection, EventType, StoredEvent}
use genesis.Kernel.Ledger.{KernelEnv, Ledger}
use genesis.Kernel.Memory.Replay.{
  Candidates, merge_memory_candidate_projection, record_memory_candidate, candidate_from_event,
  record_from_event, record_replacement, replay_typed, replay_event, replay,
}

module _ (k : KernelEnv) where
  pub recorded :
      (x : MemoryCandidateProjection) (c c' : Candidates)
      → record_memory_candidate k x c ≡ ok c'
      → (m : MemoryCandidateProjection) × (merge_memory_candidate_projection k
            (get c.by_id x.candidate_id)
            x
          ≡ ok m)
        × (c'.by_id ≡ put c.by_id x.candidate_id m)
  unfolding record_memory_candidate and_then
  recorded x c c' h =
      let (m, f, g) =
        and_then_lem (merge_memory_candidate_projection k (get c.by_id x.candidate_id) x) _ c' h in
      (m, f, ground arith)

-- A relation on the candidates that is reflexive and transitive and that each recorded candidate
-- keeps, is kept by replay.
module _ (k : KernelEnv) (P : Candidates → Candidates → Type 0) (P-refl : (c : Candidates) → P c c)
    (P-trans : (c d e : Candidates) → P c d → P d e → P c e)
    (step : (x : MemoryCandidateProjection) (c c' : Candidates)
      → record_memory_candidate k x c ≡ ok c'
      → P c c') where
  same-P : (c c' : Candidates) → c ≡ c' → P c c'
  same-P c c' e = subst (P c) e (P-refl c)

  from_event-P :
      (ev : StoredEvent) (x : MemoryCandidateProjection) (fallback : String) (c c' : Candidates)
      → record_from_event k ev x fallback c ≡ ok c'
      → P c c'
  unfolding record_from_event
  from_event-P ev x fallback c c' h =
      let (y, e, f) = and_then_lem (candidate_from_event ev x fallback) _ c' h in step y c c' f

  replacement-P :
      (ev : StoredEvent) (o : Option MemoryCandidateProjection) (c c' : Candidates)
      → record_replacement k ev o c ≡ ok c'
      → P c c'
  unfolding record_replacement
  replacement-P ev none c c' h = ground arith
  replacement-P ev (some x) c c' h = from_event-P ev x "" c c' h

  typed-P :
      (t : EventType) (ev : StoredEvent) (x : MemoryCandidateProjection) (c c' : Candidates)
      → replay_typed k t ev x c ≡ ok c'
      → P c c'
  unfolding replay_typed
  typed-P EventType.memory_superseded ev x c c' h =
      let (d, e, f) = and_then_lem (record_from_event k ev x ev.candidate_id c) _ c' h in
      P-trans c d c' (from_event-P ev x ev.candidate_id c d e)
        (replacement-P ev ev.event_data.replacement_memory_candidate d c' f)
  typed-P EventType.memory_created ev x c c' h = from_event-P ev x ev.candidate_id c c' h
  typed-P EventType.memory_approved ev x c c' h = from_event-P ev x ev.candidate_id c c' h
  typed-P EventType.memory_rejected ev x c c' h = from_event-P ev x ev.candidate_id c c' h
  typed-P EventType.memory_forgotten ev x c c' h = from_event-P ev x ev.candidate_id c c' h
  typed-P _ ev x c c' h = same-P c c' (ground arith)

  event-P : (ev : StoredEvent) (c c' : Candidates) → replay_event k ev c ≡ ok c' → P c c'
  unfolding replay_event
  event-P ev c c' h = elim (Option-cases ev.event_data.memory_candidate) [
    | inl n ↦ same-P c c' (ground arith)
    | inr (x, e) ↦ typed-P ev.type ev x c c' (ground arith)
  ]

  pub replay_lem : (events : Ledger) (c c' : Candidates) → replay k events c ≡ ok c' → P c c'
  unfolding replay
  replay_lem [] c c' h = same-P c c' (ground arith)
  replay_lem (ev ∷ events) c c' h =
      let (d, e, f) = and_then_lem (replay_event k ev c) (replay k events) c' h in
      P-trans c d c' (event-P ev c d e) (replay_lem events d c' f)
