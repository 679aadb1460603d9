-- ===== src/Kernel/Memory/Supersede/Reread.antt =====
-- New candidates, created or put in the place of others, are what the ledger then holds.
use genesis.Prelude.{
  String, ◌≡◌, refl, sym, subst, ap, ◌∙◌, false, inl, inr, none, some, [], ◌∷◌, ◌++◌, Option-cases,
  Bool-cases, str_eq, arith, eq_iff,
}
use genesis.Prelude.Text.{is_empty, trim}
use genesis.Prelude.Dict.{get, get-put_self, get-put_ne}
use genesis.Prelude.Results.{ok, and_then, Result-cases}
use genesis.Kernel.Types.{MemoryStatus, MemoryCandidateProjection, EventType, StoredEvent}
use genesis.Kernel.Ledger.{new_id, KernelEnv, Ledger, with_value}
use genesis.Kernel.Memory.Requests.{
  MemoryCandidateRequest, MemorySupersessionRequest, normalized_memory_candidate_metadata,
  validate_memory_supersession_request, validate_memory_candidate_request,
}
use genesis.Kernel.Memory.Replay.{
  Candidates, merge_statuses, merge_memory_candidate_projection, record_from_event,
  record_replacement, replay_event, replay_typed, replay, no_candidates,
}
use genesis.Kernel.Memory.Replay.Merge.{same_core_refl}
use genesis.Kernel.Memory.Replay.Keys.{replay-IsKeyed}
use genesis.Kernel.Memory.Replay.Appended.{Reads, replay-append, record_named, merge_same}
use genesis.Kernel.Memory.Review.{pending_candidate, candidate_event, create_memory_candidate}
use genesis.Kernel.Memory.Review.Reread.{append_ok, find_ok, reviewed_ok}
use genesis.Kernel.Memory.Supersede.{
  MemorySupersessionProjection, replacement_for, superseded_candidate, existing_memory_supersession,
  decide_supersede, supersede_memory_candidate,
}

-- A new id is a text that no candidate of the ledger has.
pub record IsFresh (k : KernelEnv) (ledger : Ledger) (id : String) : Type 0 where
  pub named : is_empty id ≡ false
  pub unknown : (c : Candidates) → replay k ledger no_candidates ≡ ok c → get c.by_id id ≡ none

module _ (k : KernelEnv) where
  merge_new :
      (x : MemoryCandidateProjection) (d : Candidates)
      → get d.by_id x.candidate_id ≡ none
      → merge_memory_candidate_projection k (get d.by_id x.candidate_id) x ≡ ok x
  unfolding merge_memory_candidate_projection
  merge_new x d h = rw h refl

  -- The event of a candidate that the ledger does not know: the replay then reads it.
  Reads-new :
      (ledger : Ledger) (c : Candidates) (x : MemoryCandidateProjection) (ev : StoredEvent)
      → replay k ledger no_candidates ≡ ok c
      → IsFresh k ledger x.candidate_id
      → ((d : Candidates) → replay_event k ev d ≡ record_from_event k ev x x.candidate_id d)
      → Reads k (ledger ++ ev ∷ []) x.candidate_id x
  Reads-new ledger c x ev h fresh shape =
      let (d, f, g) =
        record_named k ev x x x.candidate_id c fresh.named (merge_new x c (fresh.unknown c h)) in
      (
        d,
        replay-append k ledger ev no_candidates c h ∙ shape c ∙ f,
        ap (λ t. get t x.candidate_id) g ∙ get-put_self c.by_id x.candidate_id x,
      )

  -- Names of which one has a candidate and the other has none are different.
  distinct :
      (c : Candidates) (a : MemoryCandidateProjection) (id new : String)
      → get c.by_id id ≡ some a
      → get c.by_id new ≡ none
      → (str_eq id new ≡ false) × (str_eq new id ≡ false)
  distinct c a id new e f = elim (Bool-cases (str_eq id new)) [
    | inl t ↦ let same : id ≡ new = ground (arith, eq_iff id new) in ground arith
    | inr g ↦ (g, ground (arith, eq_iff id new, eq_iff new id))
  ]

  created_at_once :
      (a x : MemoryCandidateProjection) (ledger ledger' : Ledger) (ev : StoredEvent)
      → a ≡ x
      → ledger ++ ev ∷ [] ≡ ledger'
      → a.status ≡ MemoryStatus.pending
      → Reads k (ledger ++ ev ∷ []) a.candidate_id a
      → (x.status ≡ MemoryStatus.pending) × Reads k ledger' x.candidate_id x
  created_at_once a x ledger ledger' ev e l p r =
      subst
        (λ (y : MemoryCandidateProjection).
          (y.status ≡ MemoryStatus.pending) × Reads k ledger' y.candidate_id y)
        e (p, subst (λ t. Reads k t a.candidate_id a) l r)

  -- A creation that gives a candidate, on a ledger whose replay succeeds and with an id that none
  -- of its candidates has, gives a pending candidate, which the replay of the new ledger holds
  -- under its id.
  pub create_reread :
      (req : MemoryCandidateRequest) (ledger ledger' : Ledger) (c : Candidates)
      (x : MemoryCandidateProjection)
      → replay k ledger no_candidates ≡ ok c
      → IsFresh k ledger (new_id k "mem" k.clock)
      → create_memory_candidate k req ledger ≡ (ok x, ledger')
      → (x.status ≡ MemoryStatus.pending) × Reads k ledger' x.candidate_id x
  unfolding create_memory_candidate with_value replay_event replay_typed
  create_reread req ledger ledger' c x h fresh e =
      elim (Option-cases (validate_memory_candidate_request k req)) [
        | inr (m, f) ↦ ground arith
        | inl n ↦ elim (Result-cases (normalized_memory_candidate_metadata k req)) [
          | inl (m, f) ↦ ground arith
          | inr (m, f) ↦
              let a =
                pending_candidate (new_id k "mem" k.clock) (trim req.session_id) (trim req.text)
                  (trim req.source_ref) m k.clock in
              let ev = candidate_event k EventType.memory_created a none in
              let (g, l) = append_ok k ev a x ledger ledger' (ground arith) in
              created_at_once a x ledger ledger' ev g l refl
                (Reads-new ledger c a ev h fresh (λ d. refl))
        ]
      ]

  -- The replay of a superseding event: the superseded candidate and its replacement are both read.
  superseded_lem :
      (req : MemorySupersessionRequest) (ledger : Ledger) (id : String)
      (a : MemoryCandidateProjection) (c : Candidates)
      → replay k ledger no_candidates ≡ ok c
      → get c.by_id id ≡ some a
      → is_empty id ≡ false
      → IsFresh k ledger (new_id k "mem" k.clock)
      → merge_statuses k a.status MemoryStatus.superseded a (superseded_candidate k req a)
        ≡ ok (superseded_candidate k req a)
      → let ev =
          candidate_event k EventType.memory_superseded
            (superseded_candidate k req a)
            (some (replacement_for k req a)) in
        Reads k (ledger ++ ev ∷ []) id (superseded_candidate k req a)
        × Reads k (ledger ++ ev ∷ []) (new_id k "mem" k.clock) (replacement_for k req a)
  unfolding superseded_candidate replacement_for replay_event replay_typed record_replacement
      and_then
  superseded_lem req ledger id a c h e named fresh merged =
      let x = superseded_candidate k req a in
      let y = replacement_for k req a in
      let ev = candidate_event k EventType.memory_superseded x (some y) in
      let own : a.candidate_id ≡ id = replay-IsKeyed k ledger c h id a e in
      let found : get c.by_id a.candidate_id ≡ some a = ap (get c.by_id) own ∙ e in
      let core = same_core_refl a x refl refl refl refl refl refl refl refl refl refl in
      let (d, f, g) = record_named k ev x x a.candidate_id c (rw own named) (
        subst (λ o. merge_memory_candidate_projection k o x ≡ ok x) (sym found)
          (merge_same k a x core merged)) in
      let new = new_id k "mem" k.clock in
      let (ne, ne') = distinct c a id new e (fresh.unknown c h) in
      let ne'' : str_eq a.candidate_id new ≡ false = ap (λ s. str_eq s new) own ∙ ne in
      let absent : get d.by_id new ≡ none =
        ap (λ t. get t new) g ∙ get-put_ne c.by_id a.candidate_id new x ne'' ∙ fresh.unknown c h in
      let (d', f', g') = record_named k ev y y "" d fresh.named (merge_new y d absent) in
      let whole : replay k (ledger ++ ev ∷ []) no_candidates ≡ ok d' =
        replay-append k ledger ev no_candidates c h
        ∙ ap (λ r. and_then r (record_replacement k ev (some y))) f
        ∙ f' in
      let kept : get d.by_id id ≡ some x =
        subst (λ i. get d.by_id i ≡ some x) own
          (ap (λ t. get t a.candidate_id) g ∙ get-put_self c.by_id a.candidate_id x) in
      (
        (d', whole, ap (λ t. get t id) g' ∙ get-put_ne d.by_id new id y ne' ∙ kept),
        (d', whole, ap (λ t. get t new) g' ∙ get-put_self d.by_id new y),
      )

-- Both candidates of a supersession are read.
abbrev pub ReadsBoth : KernelEnv → Ledger → String → MemorySupersessionProjection → Type 0
ReadsBoth k ledger id s =
    Reads k ledger id s.superseded × Reads k ledger s.replacement.candidate_id s.replacement

module _ (k : KernelEnv) (id : String) (ledger ledger' : Ledger)
    (x : MemorySupersessionProjection) where
  existing_lem :
      (a : MemoryCandidateProjection) (c : Candidates)
      → replay k ledger no_candidates ≡ ok c
      → get c.by_id id ≡ some a
      → (r : MemorySupersessionProjection) → existing_memory_supersession a c ≡ ok r
      → ReadsBoth k ledger id r
  unfolding existing_memory_supersession
  existing_lem a c h e r f = elim (Bool-cases (is_empty (trim a.replacement_candidate_id))) [
    | inl t ↦ ground arith
    | inr n ↦ elim (Option-cases (get c.by_id a.replacement_candidate_id)) [
      | inl g ↦ ground arith
      | inr (b, g) ↦
          let own : b.candidate_id ≡ a.replacement_candidate_id =
            replay-IsKeyed k ledger c h a.replacement_candidate_id b g in
          let pair : MemorySupersessionProjection = record { superseded = a; replacement = b } in
          let same : pair ≡ r = ground arith in
          subst (ReadsBoth k ledger id) same ((c, h, e), (c, h, ap (get c.by_id) own ∙ g))
    ]
  ]

  moved :
      (p : MemorySupersessionProjection) (l : Ledger)
      → p ≡ x
      → l ≡ ledger'
      → ReadsBoth k l id p
      → ReadsBoth k ledger' id x
  moved p l e f r = subst (λ t. ReadsBoth k t id x) f (subst (ReadsBoth k l id) e r)

  supersede_decided :
      (req : MemorySupersessionRequest) (t : MemoryStatus) (a : MemoryCandidateProjection)
      (c : Candidates)
      → a.status ≡ t
      → is_empty id ≡ false
      → replay k ledger no_candidates ≡ ok c
      → get c.by_id id ≡ some a
      → IsFresh k ledger (new_id k "mem" k.clock)
      → decide_supersede k req t a c ledger ≡ (ok x, ledger')
      → ReadsBoth k ledger' id x
  unfolding replacement_for
  supersede_decided req MemoryStatus.superseded a c s named h e fresh d =
      moved x ledger refl (ground arith) (existing_lem a c h e x (ground arith))
  supersede_decided req MemoryStatus.forgotten a c s named h e fresh d = ground arith
  supersede_decided req t a c s named h e fresh d =
      let (f, g) = append_ok k _ _ x ledger ledger' d in
      moved _ _ f g (
        superseded_lem k req ledger id a c h e named fresh
          (ap (λ u. merge_statuses k u MemoryStatus.superseded a (superseded_candidate k req a)) s))

module _ (k : KernelEnv) (id : String) (ledger ledger' : Ledger)
    (x : MemorySupersessionProjection) where
  -- A supersession that gives a result, drawing an id that no candidate of the ledger has, leaves
  -- a ledger whose replay succeeds and holds both the superseded candidate under the trimmed id
  -- asked for and the replacement under its own id, as they were answered.
  pub supersede_reread :
      (req : MemorySupersessionRequest)
      → IsFresh k ledger (new_id k "mem" k.clock)
      → supersede_memory_candidate k id req ledger ≡ (ok x, ledger')
      → ReadsBoth k ledger' (trim id) x
  unfolding supersede_memory_candidate
  supersede_reread req fresh h =
      let (named, a, c, found, decided) =
        reviewed_ok k id (validate_memory_supersession_request req)
          (λ candidate. decide_supersede k req candidate.status candidate) ledger ledger' x h in
      let (loads, replayed, e) = find_ok k (trim id) ledger a c found in
      supersede_decided k (trim id) ledger ledger' x req a.status a c refl named replayed e fresh
        decided
