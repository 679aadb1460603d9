-- ===== src/Kernel/Memory/Replay/Appended.antt =====
-- What the replay reads of an event that was appended.
use genesis.Prelude.{
  String, ◌≡◌, refl, sym, subst, ap, ◌∙◌, true, false, none, some, [], ◌∷◌, ◌++◌, arith,
}
use genesis.Prelude.Text.{is_empty}
use genesis.Prelude.Dict.{get, put, get-put_self}
use genesis.Prelude.Results.{Result, err, ok, and_then, and_then_lem}
use genesis.Kernel.Types.{MemoryCandidateProjection, StoredEvent}
use genesis.Kernel.Ledger.{KernelEnv, Ledger}
use genesis.Kernel.Memory.Replay.{
  Candidates, same_memory_candidate_core, merge_statuses, merge_memory_candidate_projection,
  record_memory_candidate, candidate_from_event, record_from_event, replay_event, replay,
  no_candidates,
}
use genesis.Kernel.Memory.Replay.Keys.{replay-IsKeyed}

-- The ledger's replay gives candidates among which `id` names `a`.
abbrev pub Reads : KernelEnv → Ledger → String → MemoryCandidateProjection → Type 0
Reads k ledger id a =
    (c : Candidates) × (replay k ledger no_candidates ≡ ok c) × (get c.by_id id ≡ some a)

module _ (k : KernelEnv) where
  and_then_ok : (r : Result Candidates) → and_then r (replay k []) ≡ r
  unfolding replay and_then
  and_then_ok (ok a) = refl
  and_then_ok (err e) = refl

  pub replay-append :
      (events : Ledger) (ev : StoredEvent) (c d : Candidates)
      → replay k events c ≡ ok d
      → replay k (events ++ ev ∷ []) c ≡ replay_event k ev d
  unfolding replay and_then
  replay-append [] ev c d h =
      let same : c ≡ d = ground arith in
      and_then_ok (replay_event k ev c) ∙ ap (replay_event k ev) same
  replay-append (x ∷ events) ev c d h =
      let (e, f, g) = and_then_lem (replay_event k x c) (replay k events) d h in
      rw f (replay-append events ev e d g)

  from_named :
      (ev : StoredEvent) (x : MemoryCandidateProjection) (fallback : String)
      → is_empty x.candidate_id ≡ false
      → candidate_from_event ev x fallback ≡ ok x
  unfolding candidate_from_event
  from_named ev x fallback named = ground arith

  -- Recording a candidate under a name that is not empty.
  pub record_named :
      (ev : StoredEvent) (x m : MemoryCandidateProjection) (fallback : String) (c : Candidates)
      → is_empty x.candidate_id ≡ false
      → merge_memory_candidate_projection k (get c.by_id x.candidate_id) x ≡ ok m
      → (d : Candidates) × (record_from_event k ev x fallback c ≡ ok d)
        × (d.by_id ≡ put c.by_id x.candidate_id m)
  unfolding record_from_event record_memory_candidate and_then
  record_named ev x m fallback c named h = (
    record {
      by_id = put c.by_id x.candidate_id m;
      order = elim (get c.by_id x.candidate_id) [
        | none ↦ c.order ++ x.candidate_id ∷ []
        | some _ ↦ c.order
      ];
    },
    rw (from_named ev x fallback named) (rw h refl),
    refl,
  )

  pub merge_same :
      (a a' : MemoryCandidateProjection)
      → same_memory_candidate_core a a' ≡ true
      → merge_statuses k a.status a'.status a a' ≡ ok a'
      → merge_memory_candidate_projection k (some a) a' ≡ ok a'
  unfolding merge_memory_candidate_projection
  merge_same a a' core merged = rw core merged

  -- The event of a decision on a candidate that the ledger holds: the replay then reads the decision.
  pub Reads-decision :
      (ledger : Ledger) (id : String) (a a' : MemoryCandidateProjection) (ev : StoredEvent)
      → Reads k ledger id a
      → is_empty id ≡ false
      → ((c : Candidates) → replay_event k ev c ≡ record_from_event k ev a' a'.candidate_id c)
      → a'.candidate_id ≡ a.candidate_id
      → same_memory_candidate_core a a' ≡ true
      → merge_statuses k a.status a'.status a a' ≡ ok a'
      → Reads k (ledger ++ ev ∷ []) id a'
  Reads-decision ledger id a a' ev (c, h, e) named shape same core merged =
      let own : a'.candidate_id ≡ id = same ∙ replay-IsKeyed k ledger c h id a e in
      let found : get c.by_id a'.candidate_id ≡ some a = rw own e in
      let (d, f, g) = record_named ev a' a' a'.candidate_id c (rw own named) (
        subst (λ o. merge_memory_candidate_projection k o a' ≡ ok a') (sym found)
          (merge_same a a' core merged)) in
      (
        d,
        replay-append ledger ev no_candidates c h ∙ shape c ∙ f,
        subst (λ i. get d.by_id i ≡ some a') own (rw g (get-put_self c.by_id a'.candidate_id a')),
      )
