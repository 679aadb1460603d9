-- ===== src/Kernel/Memory/Replay/Merge.antt =====
-- mergeMemoryCandidateProjection keeps what a candidate says and only moves its review forward.
use genesis.Prelude.{
  ℕ, ◌<◌, ◌≡◌, refl, sym, subst, true, ◌⊎◌, inl, inr, some, Bool-cases, arith, eq_iff, eq_refl,
}
use genesis.Prelude.Results.{ok}
use genesis.Kernel.Types.{MemoryStatus, MemoryCandidateProjection}
use genesis.Kernel.Ledger.{KernelEnv}
use genesis.Kernel.Memory.Replay.{
  merge_statuses, merge_memory_candidate_projection, same_memory_candidate_core,
}

-- How far the review of a candidate is.
abbrev pub review_rank : MemoryStatus → ℕ
review_rank MemoryStatus.pending = 0
review_rank (MemoryStatus.other s) = 0
review_rank MemoryStatus.approved = 1
review_rank MemoryStatus.rejected = 1
review_rank MemoryStatus.superseded = 2
review_rank MemoryStatus.forgotten = 3

-- `b` is `a` at the same or a later time: it says the same, and it is `a` itself or its review is
-- further.
pub record IsLater (a b : MemoryCandidateProjection) : Type 0 where
  pub id : b.candidate_id ≡ a.candidate_id
  pub session : b.session_id ≡ a.session_id
  pub text : b.text ≡ a.text
  pub source : b.source_ref ≡ a.source_ref
  pub created : b.created_at ≡ a.created_at
  pub review : (b ≡ a) ⊎ (review_rank a.status < review_rank b.status)

pub IsLater-refl : (a : MemoryCandidateProjection) → IsLater a a
IsLater-refl a = record {
  id = refl;
  session = refl;
  text = refl;
  source = refl;
  created = refl;
  review = inl refl;
}

module _ (k : KernelEnv) (a b m : MemoryCandidateProjection) where
  merge_statuses_lem :
      (s t : MemoryStatus)
      → a.status ≡ s
      → b.status ≡ t
      → merge_statuses k s t a b ≡ ok m
      → (m ≡ a) ⊎ ((m ≡ b) × (review_rank a.status < review_rank b.status))
  merge_statuses_lem s t e f h = ground arith

  -- The check of the core is an equality of the core.
  same_core_lem :
      same_memory_candidate_core a b ≡ true
      → (b.candidate_id ≡ a.candidate_id)
        × (b.session_id ≡ a.session_id)
        × (b.text ≡ a.text)
        × (b.source_ref ≡ a.source_ref)
        × (b.created_at ≡ a.created_at)
  unfolding same_memory_candidate_core
  same_core_lem h = ground (
    arith,
    eq_iff a.candidate_id b.candidate_id,
    eq_iff a.session_id b.session_id,
    eq_iff a.text b.text,
    eq_iff a.source_ref b.source_ref,
  )

  -- Whatever the merge gives is a later state of the current candidate.
  pub merge-IsLater : merge_memory_candidate_projection k (some a) b ≡ ok m → IsLater a m
  unfolding merge_memory_candidate_projection
  merge-IsLater h = elim (Bool-cases (same_memory_candidate_core a b)) [
    | inr f ↦ ground arith
    | inl t ↦
        let (h1, h2, h3, h4, h5) = same_core_lem t in
        let merged : merge_statuses k a.status b.status a b ≡ ok m = ground arith in
        elim (merge_statuses_lem a.status b.status refl refl merged) [
          | inl e ↦ subst (IsLater a) (sym e) (IsLater-refl a)
          | inr (e, lt) ↦ subst (IsLater a) (sym e) (record {
            id = h1;
            session = h2;
            text = h3;
            source = h4;
            created = h5;
            review = inr lt;
          })
        ]
  ]

-- The core of a candidate is the same as its own.
pub same_core_refl :
    (a b : MemoryCandidateProjection)
    → b.candidate_id ≡ a.candidate_id
    → b.session_id ≡ a.session_id
    → b.text ≡ a.text
    → b.source_ref ≡ a.source_ref
    → b.kind ≡ a.kind
    → b.scope ≡ a.scope
    → b.applies_when ≡ a.applies_when
    → b.yields_to ≡ a.yields_to
    → b.strength ≡ a.strength
    → b.created_at ≡ a.created_at
    → same_memory_candidate_core a b ≡ true
unfolding same_memory_candidate_core
same_core_refl a b h1 h2 h3 h4 h5 h6 h7 h8 h9 h10 =
    rw
      (
        h1,
        h2,
        h3,
        h4,
        h5,
        h6,
        h7,
        h8,
        h9,
        h10,
        eq_refl a.candidate_id,
        eq_refl a.session_id,
        eq_refl a.text,
        eq_refl a.source_ref,
        eq_refl a.kind,
        eq_refl a.scope,
        eq_refl a.applies_when,
        eq_refl a.yields_to,
        eq_refl a.strength,
      )
      (ground arith)
