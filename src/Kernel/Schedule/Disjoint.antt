-- ===== src/Kernel/Schedule/Disjoint.antt =====
-- Calls that share a handle are never in one batch.
use native.Mathlib.Omega.{arith}
use genesis.Prelude.{
  ℕ, suc, String, ◌≡◌, refl, sym, subst, true, false, ◌⊎◌, inl, inr, Bool-cases, Option, none, some,
  List, [], ◌∷◌, ◌++◌, str_eq, All, All-append,
}
use genesis.Kernel.Schedule.{
  PlannedCall, ExecutionBatch, Planner, no_batches, ParallelClass, class_text, closed_batch, flush,
  join_batch, alone_batch, plan_call, plan_from, member, has_any_handle, plan_execution_batches,
  parallel_class, needs_fence, normalized_handles,
}
use genesis.Kernel.Schedule.Partition.{no_indexes}
use genesis.Kernel.Schedule.Parallel.{nth, drop_calls, nth-of_drop}

-- The handles of the call with an index.
abbrev pub handles_of : List PlannedCall → ℕ → List String
handles_of calls i = elim (nth calls i) [
  | none ↦ []
  | some call ↦ normalized_handles call.access_plan.resource_footprint.handles
]

-- No handle of the call `j` is one of the call `i`.
abbrev pub SharesNothing : List PlannedCall → ℕ → ℕ → Type 0
SharesNothing calls j i = has_any_handle (handles_of calls i) (handles_of calls j) ≡ false

-- No call shares a handle with an earlier one.
abbrev pub Apart : List PlannedCall → List ℕ → Type 0
Apart calls [] = Unit
Apart calls (i ∷ is) = All (λ j. SharesNothing calls j i) is × Apart calls is

abbrev pub IsApart : List PlannedCall → ExecutionBatch → Type 0
IsApart calls b = str_eq b.reason "process_io" ≡ true → Apart calls b.call_indexes

member-append :
    (h : String) (xs ys : List String)
    → member h (xs ++ ys) ≡ false
    → (member h xs ≡ false) × (member h ys ≡ false)
member-append h [] ys e = (refl, e)
member-append h (x ∷ xs) ys e =
    let e' : member h (xs ++ ys) ≡ false = ground arith in
    let (p, q) = member-append h xs ys e' in (ground arith, q)

has_any-append :
    (hs xs ys : List String)
    → has_any_handle (xs ++ ys) hs ≡ false
    → (has_any_handle xs hs ≡ false) × (has_any_handle ys hs ≡ false)
unfolding has_any_handle
has_any-append [] xs ys e = (refl, refl)
has_any-append (h ∷ hs) xs ys e =
    let a : member h (xs ++ ys) ≡ false = ground arith in
    let b : has_any_handle (xs ++ ys) hs ≡ false = ground arith in
    let (p, q) = member-append h xs ys a in
    let (r, s) = has_any-append hs xs ys b in (ground arith, ground arith)

module _ (all : List PlannedCall) where
  -- The handles in use hold those of the call.
  abbrev Covered : List String → ℕ → Type 0
  Covered in_use i =
      (hs : List String)
      → has_any_handle in_use hs ≡ false
      → has_any_handle (handles_of all i) hs ≡ false

  Apart-append :
      (is : List ℕ) (j : ℕ)
      → Apart all is
      → All (λ i. SharesNothing all j i) is
      → Apart all (is ++ j ∷ [])
  Apart-append [] j a s = (tt, tt)
  Apart-append (i ∷ is) j a s =
      (All-append (λ k. SharesNothing all k i) is (j ∷ []) a.0 (s.0, tt), Apart-append is j a.1 s.1)

  widen : (is : List ℕ) (xs ys : List String) → All (Covered xs) is → All (Covered (xs ++ ys)) is
  widen [] xs ys c = tt
  widen (i ∷ is) xs ys c = (λ hs e. c.0 hs (has_any-append hs xs ys e).0, widen is xs ys c.1)

  unused :
      (is : List ℕ) (in_use : List String) (j : ℕ)
      → has_any_handle in_use (handles_of all j) ≡ false
      → All (Covered in_use) is
      → All (λ i. SharesNothing all j i) is
  unused [] in_use j e c = tt
  unused (i ∷ is) in_use j e c = (c.0 (handles_of all j) e, unused is in_use j e c.1)

  -- The current batch of process calls.
  abbrev Guarded : Planner → Type 0
  Guarded p = Apart all p.indexes × All (Covered p.current_handles) p.indexes

  abbrev IsCurrent : Planner → Type 0
  IsCurrent p =
      ((p.kind ≡ none) × (p.indexes ≡ []))
      ⊎ ((class : ParallelClass) × (p.kind ≡ some class)
          × (p.reason ≡ class_text class)
          × (class ≡ ParallelClass.process_io → Guarded p))

  record IsSeparate (p : Planner) : Type 0 where
    done : All (IsApart all) p.batches
    current : IsCurrent p

  closed-IsApart :
      (i : ℕ) (is : List ℕ) (p : Planner)
      → p.indexes ≡ i ∷ is
      → IsCurrent p
      → IsApart all (closed_batch (i ∷ is) p.reason)
  closed-IsApart i is p e (inl (k, n)) r = ground arith
  closed-IsApart i is p e (inr (ParallelClass.process_io, k, n, g)) r =
      subst (Apart all) e (g refl).0
  closed-IsApart i is p e (inr (ParallelClass.pure_read, k, n, g)) r =
      let no : str_eq "pure_read" "process_io" ≡ true =
        subst (λ t. str_eq t "process_io" ≡ true) n r in
      ground arith

  flush-IsSeparate :
      (is : List ℕ) (p : Planner) → p.indexes ≡ is → IsSeparate p → IsSeparate (flush is p)
  unfolding flush
  flush-IsSeparate [] p e f = f
  flush-IsSeparate (i ∷ is) p e f = record {
    done = All-append (IsApart all) p.batches _ f.done (closed-IsApart i is p e f.current, tt);
    current = inl (refl, refl);
  }

  join-IsSeparate :
      (i : ℕ) (class : ParallelClass) (handles : List String) (p : Planner)
      → IsSeparate p
      → handles ≡ handles_of all i
      → (class ≡ ParallelClass.process_io → Guarded p × All (λ j. SharesNothing all i j) p.indexes)
      → IsSeparate (join_batch i class handles p)
  unfolding join_batch
  join-IsSeparate i ParallelClass.pure_read handles p f own ready = record {
    done = f.done;
    current = inr (ParallelClass.pure_read, refl, refl, λ e. ground arith);
  }
  join-IsSeparate i ParallelClass.process_io handles p f own ready =
      let ((a, c), s) = ready refl in
      record {
        done = f.done;
        current = inr (
          ParallelClass.process_io,
          refl,
          refl,
          λ e. (
            Apart-append p.indexes i a s,
            All-append (Covered (p.current_handles ++ handles)) p.indexes (i ∷ [])
                (widen p.indexes p.current_handles handles c)
                (
                  λ hs h.
                      subst (λ t. has_any_handle t hs ≡ false) own
                        (has_any-append hs p.current_handles handles h).1,
                  tt,
                ),
          ),
        );
      }

  -- A batch without indexes is ready for any call.
  ready_empty :
      (i : ℕ) (p : Planner)
      → p.indexes ≡ []
      → Guarded p × All (λ j. SharesNothing all i j) p.indexes
  ready_empty i p e = (
    (subst (Apart all) (sym e) tt, subst (All (Covered p.current_handles)) (sym e) tt),
    subst (All (λ j. SharesNothing all i j)) (sym e) tt,
  )

  not_in_use :
      (k : ParallelClass) (in_use handles : List String)
      → needs_fence (some k) in_use ParallelClass.process_io handles ≡ false
      → (k ≡ ParallelClass.process_io) × (has_any_handle in_use handles ≡ false)
  unfolding needs_fence
  not_in_use ParallelClass.process_io in_use handles h = (refl, h)
  not_in_use ParallelClass.pure_read in_use handles h = ground arith

  -- Without a fence the call shares no handle with the current batch.
  ready_joined :
      (i : ℕ) (handles : List String) (p : Planner)
      → IsSeparate p
      → handles ≡ handles_of all i
      → needs_fence p.kind p.current_handles ParallelClass.process_io handles ≡ false
      → Guarded p × All (λ j. SharesNothing all i j) p.indexes
  ready_joined i handles p f own h = elim f.current [
    | inl (e, g) ↦ ready_empty i p g
    | inr (k, e, n, g) ↦
        let (same, free) = not_in_use k p.current_handles handles (
          subst (λ o. needs_fence o p.current_handles ParallelClass.process_io handles ≡ false) e
            h) in
        let guarded = g same in
        (
          guarded,
          unused p.indexes p.current_handles i
              (subst (λ t. has_any_handle p.current_handles t ≡ false) own free) guarded.1,
        )
  ]

  alone-IsSeparate :
      (i : ℕ) (call : PlannedCall) (p : Planner) → IsSeparate p → IsSeparate (alone_batch i call p)
  unfolding alone_batch
  alone-IsSeparate i call p f = record {
    done = All-append (IsApart all) p.batches _ f.done (λ r. (tt, tt), tt);
    current = f.current;
  }

  call-IsSeparate :
      (o : Option ParallelClass) (i : ℕ) (call : PlannedCall) (p : Planner)
      → nth all i ≡ some call
      → IsSeparate p
      → IsSeparate (plan_call o i call p)
  unfolding plan_call
  call-IsSeparate none i call p e f =
      alone-IsSeparate i call (flush p.indexes p) (flush-IsSeparate p.indexes p refl f)
  call-IsSeparate (some class) i call p e f =
      let handles = normalized_handles call.access_plan.resource_footprint.handles in
      let own : handles ≡ handles_of all i = rw (e, handles_of) refl in
      let p' = flush p.indexes p in
      elim (Bool-cases (needs_fence p.kind p.current_handles class handles)) [
        | inl t ↦ rw t (
            join-IsSeparate i class handles p' (flush-IsSeparate p.indexes p refl f) own
              (λ c. ready_empty i p' (no_indexes p.indexes p refl)))
        | inr n ↦ rw n (
            join-IsSeparate i class handles p f own (λ c.
              ready_joined i handles p f own
                (subst (λ k. needs_fence p.kind p.current_handles k handles ≡ false) c n)))
      ]

from-IsSeparate :
    (all calls : List PlannedCall) (i : ℕ) (p : Planner)
    → drop_calls i all ≡ calls
    → IsSeparate all p
    → IsSeparate all (plan_from i calls p)
unfolding plan_from
from-IsSeparate all [] i p h f = f
from-IsSeparate all (call ∷ calls) i p h f =
    let (e, rest) = nth-of_drop i all call calls h in
    from-IsSeparate all calls (suc i) (plan_call (parallel_class call.access_plan) i call p) rest
      (call-IsSeparate all (parallel_class call.access_plan) i call p e f)

-- In every batch that PlanExecutionBatches makes for process_io, no call has a normalised handle
-- that an earlier call of the batch has.
pub plan-IsApart : (calls : List PlannedCall) → All (IsApart calls) (plan_execution_batches calls)
unfolding plan_execution_batches
plan-IsApart calls =
    let p = plan_from 0 calls no_batches in
    (flush-IsSeparate calls p.indexes p refl (
      from-IsSeparate calls calls 0 no_batches refl
        (record { done = tt; current = inl (refl, refl) }))).done
