-- ===== src/Kernel/Work/Reread.antt =====
-- What a submission or a cancellation answers is what the ledger then holds.
use genesis.Prelude.{
  String, ◌≡◌, refl, sym, subst, ap, ◌∙◌, false, inl, inr, none, some, [], ◌∷◌, ◌++◌, Bool-cases,
  Option-cases, arith,
}
use genesis.Prelude.Text.{is_empty, trim}
use genesis.Prelude.Dict.{get, put, get-put_self}
use genesis.Prelude.Results.{Result, err, ok, and_then, and_then_lem, Result-cases}
use genesis.Kernel.Types.{WorkStatus, WorkProjection, EventType, StoredEvent}
use genesis.Kernel.Ledger.{KernelEnv, Ledger, with_value}
use genesis.Kernel.Work.{
  Works, merge_work_statuses, merge_work_projection, record_work, replay_work_typed,
  replay_work_event, replay_works, works_of, find_work, work_named, canceled_work, work_event,
  decide_cancel, cancel_work, CancelRequest, validate_work_cancel_request,
}
use genesis.Kernel.Work.Final.{replay_works-IsKeyed}
use genesis.Kernel.Memory.Review.Reread.{append_ok}

-- The ledger's replay gives works among which `id` names `a`.
abbrev pub ReadsWork : Ledger → String → WorkProjection → Type 0
ReadsWork ledger id a = (w : Works) × (replay_works ledger [] ≡ ok w) × (get w id ≡ some a)

and_then_ok : (r : Result Works) → and_then r (replay_works []) ≡ r
unfolding replay_works and_then
and_then_ok (ok a) = refl
and_then_ok (err e) = refl

pub replay_works-append :
    (events : Ledger) (ev : StoredEvent) (c d : Works)
    → replay_works events c ≡ ok d
    → replay_works (events ++ ev ∷ []) c ≡ replay_work_event ev d
unfolding replay_works and_then
replay_works-append [] ev c d h =
    let same : c ≡ d = ground arith in
    and_then_ok (replay_work_event ev c) ∙ ap (replay_work_event ev) same
replay_works-append (x ∷ events) ev c d h =
    let (e, f, g) = and_then_lem (replay_work_event x c) (replay_works events) d h in
    rw f (replay_works-append events ev e d g)

-- A work that is recorded under a name that is not empty.
pub record_work_named :
    (ev : StoredEvent) (x m : WorkProjection) (w : Works)
    → is_empty x.work_id ≡ false
    → merge_work_projection (get w x.work_id) x ≡ ok m
    → record_work ev x w ≡ ok (put w x.work_id m)
unfolding record_work and_then
record_work_named ev x m w named h = rw (named, h, named) refl

-- The event of a work: the replay then reads it.
pub reads_recorded :
    (ledger : Ledger) (ev : StoredEvent) (x : WorkProjection) (w : Works)
    → replay_works ledger [] ≡ ok w
    → is_empty x.work_id ≡ false
    → ((d : Works) → replay_work_event ev d ≡ record_work ev x d)
    → merge_work_projection (get w x.work_id) x ≡ ok x
    → ReadsWork (ledger ++ ev ∷ []) x.work_id x
reads_recorded ledger ev x w h named shape merged = (
  put w x.work_id x,
  replay_works-append ledger ev [] w h ∙ shape w ∙ record_work_named ev x x w named merged,
  get-put_self w x.work_id x,
)

pub found_work :
    (k : KernelEnv) (id : String) (ledger : Ledger) (a : WorkProjection)
    → find_work k id ledger ≡ ok a
    → (k.load_error ≡ none) × ReadsWork ledger id a
unfolding find_work works_of and_then
found_work k id ledger a h = elim (Option-cases k.load_error) [
  | inr (e, n) ↦ ground arith
  | inl n ↦ elim (Result-cases (replay_works ledger [])) [
    | inl (e, f) ↦ ground arith
    | inr (w, f) ↦ elim (Option-cases (get w id)) [
      | inl g ↦ ground arith
      | inr (b, g) ↦ let same : b ≡ a = ground arith in (n, (w, f, g ∙ ap some same))
    ]
  ]
]

pub work_read :
    (k : KernelEnv) (id : String) (ledger : Ledger) (a : WorkProjection)
    → k.load_error ≡ none
    → is_empty (trim id) ≡ false
    → ReadsWork ledger (trim id) a
    → work_named k id ledger ≡ ok a
unfolding work_named find_work works_of and_then
work_read k id ledger a loads named (c, h, e) = ground arith

module _ (k : KernelEnv) (id : String) (req : CancelRequest) (ledger ledger' : Ledger)
    (a x : WorkProjection) where
  cancel_decided :
      (t : WorkStatus)
      → a.status ≡ t
      → is_empty id ≡ false
      → ReadsWork ledger id a
      → decide_cancel k req t a ledger ≡ (ok x, ledger')
      → (x.status ≡ WorkStatus.canceled) × ReadsWork ledger' id x
  unfolding canceled_work replay_work_event replay_work_typed merge_work_projection
  cancel_decided WorkStatus.canceled e named r h =
      let same : a ≡ x = ground arith in
      let log : ledger ≡ ledger' = ground arith in
      (
        ap (λ (y : WorkProjection). y.status) (sym same) ∙ e,
        subst (λ l. ReadsWork l id x) log (subst (ReadsWork ledger id) same r),
      )
  cancel_decided t e named (w, replayed, found) h =
      let y = canceled_work k req a in
      let ev = work_event k EventType.work_canceled y in
      let (f, g) = append_ok k ev y x ledger ledger' h in
      let own : a.work_id ≡ id = replay_works-IsKeyed ledger w replayed id a found in
      let read : ReadsWork (ledger ++ ev ∷ []) y.work_id y =
        reads_recorded ledger ev y w replayed (ap is_empty own ∙ named) (λ d. refl)
          (subst (λ o. merge_work_projection o y ≡ ok y) (sym (ap (get w) own ∙ found))
            (ap (λ s. merge_work_statuses s WorkStatus.canceled a y) e)) in
      (
        ap (λ (z : WorkProjection). z.status) (sym f),
        subst (λ l. ReadsWork l id x) g
            (subst (ReadsWork (ledger ++ ev ∷ []) id) f
              (subst (λ i. ReadsWork (ledger ++ ev ∷ []) i y) own read)),
      )

module _ (k : KernelEnv) (ledger ledger' : Ledger) (x : WorkProjection) where
  -- A cancellation that gives a work gives a canceled one and leaves a ledger whose replay
  -- succeeds; a read of the same id then gives that work.
  pub cancel_reread :
      (id : String) (req : CancelRequest)
      → cancel_work k id req ledger ≡ (ok x, ledger')
      → (x.status ≡ WorkStatus.canceled) × (work_named k id ledger' ≡ ok x)
  unfolding cancel_work with_value
  cancel_reread id req h = elim (Bool-cases (is_empty (trim id))) [
    | inl t ↦ ground arith
    | inr n ↦ elim (Option-cases (validate_work_cancel_request req)) [
      | inr (e, v) ↦ ground arith
      | inl v ↦ elim (Result-cases (find_work k (trim id) ledger)) [
        | inl (e, f) ↦ ground arith
        | inr (a, f) ↦
            let (loads, r) = found_work k (trim id) ledger a f in
            let (canceled, r') =
              cancel_decided k (trim id) req ledger ledger' a x a.status refl n r (ground arith) in
            (canceled, work_read k id ledger' x loads n r')
      ]
    ]
  ]
