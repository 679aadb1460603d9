-- ===== src/Kernel/Schedule/Partition.antt =====
-- Batches keep every call, once and in order.
use genesis.Prelude.{
  ℕ, String, zero, suc, ◌≡◌, refl, sym, ap, ◌∙◌, inl, inr, Bool-cases, Option, none, some, List, [],
  ◌∷◌, ◌++◌, length,
}
use genesis.Kernel.Schedule.{
  PlannedCall, ExecutionBatch, Planner, no_batches, ParallelClass, closed_batch, flush, join_batch,
  alone_batch, plan_call, plan_from, plan_execution_batches, parallel_class, needs_fence,
  normalized_handles,
}

-- The indexes of all batches, one batch after the other.
abbrev pub all_indexes : List ExecutionBatch → List ℕ
all_indexes [] = []
all_indexes (b ∷ bs) = b.call_indexes ++ all_indexes bs

-- n numbers from i on.
abbrev pub indexes_from : ℕ → ℕ → List ℕ
indexes_from i zero = []
indexes_from i (suc n) = i ∷ indexes_from (suc i) n

append_assoc : (xs ys zs : List ℕ) → (xs ++ ys) ++ zs ≡ xs ++ (ys ++ zs)
append_assoc [] ys zs = refl
append_assoc (x ∷ xs) ys zs = ap (λ t. x ∷ t) (append_assoc xs ys zs)

append_nil : (xs : List ℕ) → xs ++ [] ≡ xs
append_nil [] = refl
append_nil (x ∷ xs) = ap (λ t. x ∷ t) (append_nil xs)

all_indexes-append :
    (bs : List ExecutionBatch) (b : ExecutionBatch)
    → all_indexes (bs ++ b ∷ []) ≡ all_indexes bs ++ b.call_indexes
all_indexes-append [] b = append_nil b.call_indexes
all_indexes-append (c ∷ bs) b =
    ap (λ t. c.call_indexes ++ t) (all_indexes-append bs b)
    ∙ sym (append_assoc c.call_indexes (all_indexes bs) b.call_indexes)

-- The indexes planned so far.
abbrev planned : Planner → List ℕ
planned p = all_indexes p.batches ++ p.indexes

planned-flush : (is : List ℕ) (p : Planner) → p.indexes ≡ is → planned (flush is p) ≡ planned p
unfolding flush
planned-flush [] p e = refl
planned-flush (i ∷ is) p e =
    append_nil _
    ∙ all_indexes-append p.batches (closed_batch (i ∷ is) p.reason)
    ∙ ap (λ t. all_indexes p.batches ++ t) (sym e)

pub no_indexes : (is : List ℕ) (p : Planner) → p.indexes ≡ is → (flush is p).indexes ≡ []
unfolding flush
no_indexes [] p e = e
no_indexes (i ∷ is) p e = refl

flushed : (p : Planner) → all_indexes (flush p.indexes p).batches ≡ planned p
flushed p =
    sym (
      ap (λ t. all_indexes (flush p.indexes p).batches ++ t) (no_indexes p.indexes p refl)
      ∙ append_nil _)
    ∙ planned-flush p.indexes p refl

planned-join :
    (i : ℕ) (class : ParallelClass) (handles : List String) (p : Planner)
    → planned (join_batch i class handles p) ≡ planned p ++ i ∷ []
unfolding join_batch
planned-join i class handles p = sym (append_assoc (all_indexes p.batches) p.indexes (i ∷ []))

planned-alone :
    (i : ℕ) (call : PlannedCall) (p : Planner)
    → p.indexes ≡ []
    → planned (alone_batch i call p) ≡ all_indexes p.batches ++ i ∷ []
unfolding alone_batch
planned-alone i call p e =
    ap (λ t. all_indexes (alone_batch i call p).batches ++ t) e
    ∙ append_nil _
    ∙ all_indexes-append p.batches _

planned-call :
    (o : Option ParallelClass) (i : ℕ) (call : PlannedCall) (p : Planner)
    → planned (plan_call o i call p) ≡ planned p ++ i ∷ []
unfolding plan_call
planned-call none i call p =
    planned-alone i call (flush p.indexes p) (no_indexes p.indexes p refl)
    ∙ ap (λ t. t ++ i ∷ []) (flushed p)
planned-call (some class) i call p =
    let handles = normalized_handles call.access_plan.resource_footprint.handles in
    elim (Bool-cases (needs_fence p.kind p.current_handles class handles)) [
      | inl t ↦ rw t (
          planned-join i class handles (flush p.indexes p)
          ∙ ap (λ t. t ++ i ∷ []) (planned-flush p.indexes p refl))
      | inr f ↦ rw f (planned-join i class handles p)
    ]

planned-from :
    (calls : List PlannedCall) (i : ℕ) (p : Planner)
    → planned (plan_from i calls p) ≡ planned p ++ indexes_from i (length calls)
unfolding plan_from
planned-from [] i p = sym (append_nil (planned p))
planned-from (call ∷ calls) i p =
    planned-from calls (suc i) (plan_call (parallel_class call.access_plan) i call p)
    ∙ ap (λ t. t ++ indexes_from (suc i) (length calls))
        (planned-call (parallel_class call.access_plan) i call p)
    ∙ append_assoc (planned p) (i ∷ []) (indexes_from (suc i) (length calls))

-- The indexes of the batches of PlanExecutionBatches, one batch after the other, are those of the
-- calls in order: no call is lost, repeated or moved.
pub plan-partition :
    (calls : List PlannedCall)
    → all_indexes (plan_execution_batches calls) ≡ indexes_from 0 (length calls)
unfolding plan_execution_batches
plan-partition calls = flushed (plan_from 0 calls no_batches) ∙ planned-from calls 0 no_batches
