-- ===== src/Kernel/Memory/Replay/History.antt =====
-- Replay only moves candidates forward.
use genesis.Prelude.{
  ◌<◌, ◌≤◌, String, ◌≡◌, sym, subst, ap, ◌∙◌, inl, inr, some, Bool-cases, str_eq, arith, eq_iff,
}
use genesis.Prelude.Dict.{get, get-put_self, get-put_ne}
use genesis.Prelude.Results.{ok}
use genesis.Kernel.Types.{MemoryStatus, MemoryCandidateProjection}
use genesis.Kernel.Ledger.{KernelEnv, Ledger}
use genesis.Kernel.Memory.Replay.{
  Candidates, merge_memory_candidate_projection, record_memory_candidate, replay,
}
use genesis.Kernel.Memory.Replay.Induction.{recorded, replay_lem}
use genesis.Kernel.Memory.Replay.Merge.{IsLater, IsLater-refl, merge-IsLater, review_rank}

pub IsLater-trans : (a b c : MemoryCandidateProjection) → IsLater a b → IsLater b c → IsLater a c
IsLater-trans a b c p q = record {
  id = q.id ∙ p.id;
  session = q.session ∙ p.session;
  text = q.text ∙ p.text;
  source = q.source ∙ p.source;
  created = q.created ∙ p.created;
  review = elim p.review [
    | inl e ↦ elim q.review [
      | inl f ↦ inl (f ∙ e)
      | inr lt ↦ inr (subst (λ x. review_rank x.status < review_rank c.status) e lt)
    ]
    | inr lt ↦ elim q.review [
      | inl f ↦ inr (subst (λ x. review_rank a.status < review_rank x.status) (sym f) lt)
      | inr lt' ↦ inr (omega arith)
    ]
  ];
}

-- Each candidate of `c` is in `c'`, at the same or a later time.
abbrev pub Extends : Candidates → Candidates → Type 0
Extends c c' =
    (id : String) (a : MemoryCandidateProjection)
    → get c.by_id id ≡ some a
    → (b : MemoryCandidateProjection) × (get c'.by_id id ≡ some b) × IsLater a b

Extends-refl : (c : Candidates) → Extends c c
Extends-refl c id a e = (a, e, IsLater-refl a)

rank_bound : (t : MemoryStatus) → review_rank t ≤ 3
rank_bound t = ground arith

Extends-trans : (c d e : Candidates) → Extends c d → Extends d e → Extends c e
Extends-trans c d e p q id a h =
    let (b, h', l) = p id a h in
    let (b', h'', l') = q id b h' in (b', h'', IsLater-trans a b b' l l')

module _ (k : KernelEnv) where
  record-Extends :
      (x : MemoryCandidateProjection) (c c' : Candidates)
      → record_memory_candidate k x c ≡ ok c'
      → Extends c c'
  record-Extends x c c' h id a e =
      let (m, f, g) = recorded k x c c' h in
      elim (Bool-cases (str_eq x.candidate_id id)) [
        | inr n ↦ (
          a,
          ap (λ t. get t id) g ∙ (get-put_ne c.by_id x.candidate_id id m n ∙ e),
          IsLater-refl a,
        )
        | inl y ↦
            let same : x.candidate_id ≡ id = ground (arith, eq_iff x.candidate_id id) in
            (
              m,
              subst (λ i. get c'.by_id i ≡ some m) same
                  (ap (λ t. get t x.candidate_id) g ∙ get-put_self c.by_id x.candidate_id m),
              merge-IsLater k a x m (
                  subst (λ o. merge_memory_candidate_projection k o x ≡ ok m)
                    (ap (get c.by_id) same ∙ e) f),
            )
      ]

  -- If the replay of further events succeeds, every candidate is still there under its id with the
  -- same id, session, text, source and creation time, and either it is unchanged or its review is
  -- further: pending or any unknown status, then approved or rejected, then superseded, then
  -- forgotten.
  pub replay-Extends :
      (events : Ledger) (c c' : Candidates) → replay k events c ≡ ok c' → Extends c c'
  replay-Extends = replay_lem k Extends Extends-refl Extends-trans record-Extends

  -- If the replay of further events succeeds, a forgotten candidate is still there exactly as it
  -- was.
  pub forgotten_final :
      (events : Ledger) (c c' : Candidates) (id : String) (a : MemoryCandidateProjection)
      → replay k events c ≡ ok c'
      → get c.by_id id ≡ some a
      → a.status ≡ MemoryStatus.forgotten
      → get c'.by_id id ≡ some a
  forgotten_final events c c' id a h e f =
      let (b, g, l) = replay-Extends events c c' h id a e in
      elim l.review [
        | inl same ↦ g ∙ ap some same
        | inr lt ↦
            let top : review_rank a.status ≡ 3 = ap review_rank f in
            ground (arith, rank_bound b.status)
      ]
