-- ===== src/Kernel/Memory/Replay/Keys.antt =====
-- Replay stores each candidate under its own id.
use genesis.Prelude.{
  String, ◌≡◌, refl, sym, subst, ap, ◌∙◌, inl, inr, Option, none, some, Bool-cases, str_eq, arith,
  eq_iff,
}
use genesis.Prelude.Dict.{get, get-put_self, get-put_ne}
use genesis.Prelude.Results.{ok}
use genesis.Kernel.Types.{MemoryCandidateProjection}
use genesis.Kernel.Ledger.{KernelEnv, Ledger}
use genesis.Kernel.Memory.Replay.{
  Candidates, merge_memory_candidate_projection, record_memory_candidate, replay, no_candidates,
}
use genesis.Kernel.Memory.Replay.Merge.{merge-IsLater}
use genesis.Kernel.Memory.Replay.Induction.{recorded, replay_lem}

abbrev pub IsKeyed : Candidates → Type 0
IsKeyed c =
    (id : String) (a : MemoryCandidateProjection) → get c.by_id id ≡ some a → a.candidate_id ≡ id

no_candidates-IsKeyed : IsKeyed no_candidates
unfolding get
no_candidates-IsKeyed id a e = ground arith

module _ (k : KernelEnv) where
  merged_id :
      (o : Option MemoryCandidateProjection) (x m : MemoryCandidateProjection)
      → ((a : MemoryCandidateProjection) → o ≡ some a → a.candidate_id ≡ x.candidate_id)
      → merge_memory_candidate_projection k o x ≡ ok m
      → m.candidate_id ≡ x.candidate_id
  unfolding merge_memory_candidate_projection
  merged_id none x m own h =
      let same : x ≡ m = ground arith in
      ap (λ (y : MemoryCandidateProjection). y.candidate_id) (sym same)
  merged_id (some a) x m own h = (merge-IsLater k a x m h).id ∙ own a refl

  record-IsKeyed :
      (x : MemoryCandidateProjection) (c c' : Candidates)
      → record_memory_candidate k x c ≡ ok c'
      → IsKeyed c
      → IsKeyed c'
  record-IsKeyed x c c' h keyed id a e =
      let (m, f, g) = recorded k x c c' h in
      elim (Bool-cases (str_eq x.candidate_id id)) [
        | inr n ↦
            keyed id a
              (sym (get-put_ne c.by_id x.candidate_id id m n) ∙ ap (λ d. get d id) (sym g) ∙ e)
        | inl y ↦
            let same : x.candidate_id ≡ id = ground (arith, eq_iff x.candidate_id id) in
            let own : m.candidate_id ≡ x.candidate_id =
              merged_id (get c.by_id x.candidate_id) x m (λ a. keyed x.candidate_id a) f in
            let at : get c'.by_id id ≡ some m =
              subst (λ i. get c'.by_id i ≡ some m) same
                (ap (λ d. get d x.candidate_id) g ∙ get-put_self c.by_id x.candidate_id m) in
            let read : m ≡ a = ground arith in
            ap (λ (y : MemoryCandidateProjection). y.candidate_id) (sym read) ∙ own ∙ same
      ]

  -- The candidates that a ledger holds are stored under their ids.
  pub replay-IsKeyed :
      (events : Ledger) (c : Candidates) → replay k events no_candidates ≡ ok c → IsKeyed c
  replay-IsKeyed events c h =
      replay_lem k (λ c c'. IsKeyed c → IsKeyed c') (λ c x. x) (λ c d e f g x. g (f x))
        record-IsKeyed events no_candidates c h no_candidates-IsKeyed
