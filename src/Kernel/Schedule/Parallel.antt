-- ===== src/Kernel/Schedule/Parallel.antt =====
-- Only pure reads run in parallel.
use native.Mathlib.Omega.{arith}
use genesis.Prelude.{
  ℕ, zero, suc, String, ◌≡◌, refl, sym, subst, true, false, ◌⊎◌, inl, inr, Bool-cases, Option, none,
  some, List, [], ◌∷◌, length, ltb, str_eq, ◌&&◌, All, All-append,
}
use genesis.Kernel.Schedule.{
  PlannedCall, ExecutionBatch, Planner, no_batches, ParallelClass, class_text, closed_batch, flush,
  join_batch, alone_batch, plan_call, plan_from, plan_execution_batches, parallel_class,
  needs_fence, normalized_handles,
}
use genesis.Kernel.Schedule.Partition.{no_indexes}

-- calls[i]
abbrev pub nth : List PlannedCall → ℕ → Option PlannedCall
nth [] i = none
nth (c ∷ cs) zero = some c
nth (c ∷ cs) (suc i) = nth cs i

-- The call with an index has a class.
abbrev pub HasClass : List PlannedCall → ParallelClass → ℕ → Type 0
HasClass calls class i =
    (call : PlannedCall) × (nth calls i ≡ some call)
    × (parallel_class call.access_plan ≡ some class)

-- A parallel batch has pure reads only.
abbrev pub ReadsOnly : List PlannedCall → ExecutionBatch → Type 0
ReadsOnly calls b = b.parallel ≡ true → All (HasClass calls ParallelClass.pure_read) b.call_indexes

module _ (all : List PlannedCall) where
  record IsFitting (p : Planner) : Type 0 where
    done : All (ReadsOnly all) p.batches
    current :
        ((p.kind ≡ none) × (p.indexes ≡ []))
        ⊎ ((class : ParallelClass) × (p.kind ≡ some class)
            × (p.reason ≡ class_text class)
            × All (HasClass all class) p.indexes)

  closed-ReadsOnly :
      (class : ParallelClass) (is : List ℕ) (reason : String)
      → reason ≡ class_text class
      → All (HasClass all class) is
      → ReadsOnly all (closed_batch is reason)
  closed-ReadsOnly ParallelClass.pure_read is reason e h par = h
  closed-ReadsOnly ParallelClass.process_io is reason e h par =
      let no : (ltb 1 (length is) && str_eq "process_io" "pure_read") ≡ true =
        subst (λ r. (ltb 1 (length is) && str_eq r "pure_read") ≡ true) e par in
      ground arith

  flush-IsFitting :
      (is : List ℕ) (p : Planner) → p.indexes ≡ is → IsFitting p → IsFitting (flush is p)
  unfolding flush
  flush-IsFitting [] p e f = f
  flush-IsFitting (i ∷ is) p e f = record {
    done = All-append (ReadsOnly all) p.batches _ f.done (batch_ReadsOnly f.current, tt);
    current = inl (refl, refl);
  }
    where
      batch_ReadsOnly :
          ((p.kind ≡ none) × (p.indexes ≡ []))
            ⊎ ((class : ParallelClass) × (p.kind ≡ some class)
                × (p.reason ≡ class_text class)
                × All (HasClass all class) p.indexes)
          → ReadsOnly all (closed_batch (i ∷ is) p.reason)
      batch_ReadsOnly (inl (k, none')) = ground arith
      batch_ReadsOnly (inr (class, k, r, a)) =
          closed-ReadsOnly class (i ∷ is) p.reason r (subst (All (HasClass all class)) e a)

  join-IsFitting :
      (i : ℕ) (class : ParallelClass) (handles : List String) (p : Planner)
      → IsFitting p
      → All (HasClass all class) p.indexes
      → HasClass all class i
      → IsFitting (join_batch i class handles p)
  unfolding join_batch
  join-IsFitting i class handles p f h g = record {
    done = f.done;
    current = inr (class, refl, refl, All-append (HasClass all class) p.indexes (i ∷ []) h (g, tt));
  }

  same_kind :
      (in_use handles : List String) (k class : ParallelClass)
      → needs_fence (some k) in_use class handles ≡ false
      → k ≡ class
  unfolding needs_fence
  same_kind in_use handles ParallelClass.pure_read ParallelClass.pure_read h = refl
  same_kind in_use handles ParallelClass.process_io ParallelClass.process_io h = refl
  same_kind in_use handles ParallelClass.pure_read ParallelClass.process_io h = ground arith
  same_kind in_use handles ParallelClass.process_io ParallelClass.pure_read h = ground arith

  -- Without a fence the current batch has the class of the call.
  no_fence :
      (class : ParallelClass) (handles : List String) (p : Planner)
      → IsFitting p
      → needs_fence p.kind p.current_handles class handles ≡ false
      → All (HasClass all class) p.indexes
  no_fence class handles p f h = elim f.current [
    | inl (e, g) ↦ subst (All (HasClass all class)) (sym g) tt
    | inr (k, e, g, a) ↦
        subst (λ c. All (HasClass all c) p.indexes)
          (same_kind p.current_handles handles k class
            (subst (λ o. needs_fence o p.current_handles class handles ≡ false) e h))
          a
  ]

  alone-IsFitting :
      (i : ℕ) (call : PlannedCall) (p : Planner) → IsFitting p → IsFitting (alone_batch i call p)
  unfolding alone_batch
  alone-IsFitting i call p f = record {
    done = All-append (ReadsOnly all) p.batches _ f.done (λ par. ground arith, tt);
    current = f.current;
  }

  call-IsFitting :
      (o : Option ParallelClass) (i : ℕ) (call : PlannedCall) (p : Planner)
      → nth all i ≡ some call
      → parallel_class call.access_plan ≡ o
      → IsFitting p
      → IsFitting (plan_call o i call p)
  unfolding plan_call
  call-IsFitting none i call p e c f =
      alone-IsFitting i call (flush p.indexes p) (flush-IsFitting p.indexes p refl f)
  call-IsFitting (some class) i call p e c f =
      let handles = normalized_handles call.access_plan.resource_footprint.handles in
      let p' = flush p.indexes p in
      elim (Bool-cases (needs_fence p.kind p.current_handles class handles)) [
        | inl t ↦ rw t (
            join-IsFitting i class handles p' (flush-IsFitting p.indexes p refl f)
              (subst (All (HasClass all class)) (sym (no_indexes p.indexes p refl)) tt)
              (call, e, c))
        | inr n ↦
            rw n (join-IsFitting i class handles p f (no_fence class handles p f n) (call, e, c))
      ]

-- The calls from an index on.
abbrev pub drop_calls : ℕ → List PlannedCall → List PlannedCall
drop_calls zero cs = cs
drop_calls (suc i) [] = []
drop_calls (suc i) (c ∷ cs) = drop_calls i cs

pub nth-of_drop :
    (i : ℕ) (all : List PlannedCall) (c : PlannedCall) (cs : List PlannedCall)
    → drop_calls i all ≡ c ∷ cs
    → (nth all i ≡ some c) × (drop_calls (suc i) all ≡ cs)
nth-of_drop zero [] c cs h = ground arith
nth-of_drop zero (x ∷ xs) c cs h = ground arith
nth-of_drop (suc i) [] c cs h = ground arith
nth-of_drop (suc i) (x ∷ xs) c cs h = nth-of_drop i xs c cs h

from-IsFitting :
    (all calls : List PlannedCall) (i : ℕ) (p : Planner)
    → drop_calls i all ≡ calls
    → IsFitting all p
    → IsFitting all (plan_from i calls p)
unfolding plan_from
from-IsFitting all [] i p h f = f
from-IsFitting all (call ∷ calls) i p h f =
    let (e, rest) = nth-of_drop i all call calls h in
    from-IsFitting all calls (suc i) (plan_call (parallel_class call.access_plan) i call p) rest
      (call-IsFitting all (parallel_class call.access_plan) i call p e refl f)

-- Every batch that PlanExecutionBatches marks as parallel holds only calls of the given list whose
-- class is pure_read.
pub plan-ReadsOnly :
    (calls : List PlannedCall) → All (ReadsOnly calls) (plan_execution_batches calls)
unfolding plan_execution_batches
plan-ReadsOnly calls =
    let p = plan_from 0 calls no_batches in
    (flush-IsFitting calls p.indexes p refl (
      from-IsFitting calls calls 0 no_batches refl
        (record { done = tt; current = inl (refl, refl) }))).done
