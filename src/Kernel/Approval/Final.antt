-- ===== src/Kernel/Approval/Final.antt =====
-- A decision is final, and a reread gives it.
pub mod Settled
pub mod Reread
use genesis.Prelude.{
  ℕ, String, ◌≡◌, ◌≢◌, refl, sym, subst, ap, ◌∙◌, Bool, true, false, not, ◌&&◌, ◌⊎◌, inl, inr,
  Option, none, some, List, [], ◌∷◌, ◌++◌, str_eq, if_cases, if◌then◌else◌, Bool-cases,
  Option-cases, arith, eq_iff, eq_refl,
}
use genesis.Prelude.Text.{trim, is_empty}
use genesis.Prelude.Results.{Result, err, ok, and_then, Result-cases}
use genesis.Kernel.Types.{EventType, StoredEvent}
use genesis.Kernel.Ledger.{KernelEnv, Ledger, append_event}
use genesis.Kernel.Approval.Types.{
  ApprovalStatus, ApprovalDecisionRequest, ApprovalProjection, OperationProjection,
  ShellExecRequest,
}
use genesis.Kernel.Approval.Replay.{
  named_approval, scan_approval, latest_approval, approval_by_id, raw_operation_by_id,
}
use genesis.Kernel.Approval.Request.{
  ApprovalEnv, ApprovalWorld, Decided, validate_approval_decision_request,
  decide_approval_projection, is_pending, is_approved, approval_event, operation_event,
  terminal_blocked,
}
use genesis.Kernel.Approval.Decide.{
  fail, effect_request, run_shell, ensure_approved_approval_effect, with_operation, after_append,
  append_approval_event, append_terminal_blocked, turn_down, approve, is_over, is_current,
  is_waiting, decide_by, decide_pending, decide_found, decide_approval,
}

-- The approval that the ledger has under the id.
abbrev pub Names : String → ApprovalProjection → Ledger → Type 0
Names id a ledger = latest_approval id ledger none ≡ some a

-- A run of the shell leaves every approval as it is.
abbrev pub IsQuiet : ApprovalEnv → Type 0
IsQuiet env =
    (op : OperationProjection) (request : ShellExecRequest) (ledger : Ledger) (id : String)
    (a : ApprovalProjection)
    → Names id a ledger
    → Names id a (run_shell env op request ledger).1

pub latest-append :
    (id : String) (events : Ledger) (ev : StoredEvent) (start : Option ApprovalProjection)
    → latest_approval id (events ++ ev ∷ []) start
      ≡ scan_approval id ev (latest_approval id events start)
unfolding latest_approval
latest-append id [] ev start = refl
latest-append id (x ∷ events) ev start = latest-append id events ev (scan_approval id x start)

scan_id :
    (id : String) (x : StoredEvent) (start : Option ApprovalProjection) (b : ApprovalProjection)
    → ((c : ApprovalProjection) → start ≡ some c → c.approval_id ≡ id)
    → scan_approval id x start ≡ some b
    → b.approval_id ≡ id
unfolding scan_approval
scan_id id x start b h e = elim (Option-cases x.event_data.approval) [
  | inl f ↦ h b (rw (f, scan_approval) at e)
  | inr (y, f) ↦ elim (Bool-cases (str_eq (named_approval x y).approval_id id)) [
    | inr g ↦ h b (rw (f, g, scan_approval) at e)
    | inl g ↦
        let same : named_approval x y ≡ b = ground arith in
        ap (λ (c : ApprovalProjection). c.approval_id) (sym same)
        ∙ (eq_iff (named_approval x y).approval_id id).0 g
  ]
]

-- The approval under an id has that id.
latest_id :
    (id : String) (events : Ledger) (start : Option ApprovalProjection) (a : ApprovalProjection)
    → ((b : ApprovalProjection) → start ≡ some b → b.approval_id ≡ id)
    → latest_approval id events start ≡ some a
    → a.approval_id ≡ id
unfolding latest_approval
latest_id id [] start a h e = h a e
latest_id id (x ∷ events) start a h e =
    latest_id id events (scan_approval id x start) a (λ b f. scan_id id x start b h f) e

pub Names-id :
    (id : String) (a : ApprovalProjection) (ledger : Ledger)
    → Names id a ledger
    → a.approval_id ≡ id
Names-id id a ledger n = latest_id id ledger none a (λ b e. ground arith) n

other_approval :
    (k : KernelEnv) (type : EventType) (b : ApprovalProjection) (id : String)
    (start : Option ApprovalProjection)
    → str_eq b.approval_id id ≡ false
    → scan_approval id (approval_event k type b) start ≡ start
unfolding approval_event scan_approval named_approval
other_approval k type b id start n = ground arith

-- An event of another approval, and one of an operation.
pub Names-approval_event :
    (k : KernelEnv) (type : EventType) (b : ApprovalProjection) (id : String)
    (a : ApprovalProjection) (ledger : Ledger)
    → str_eq b.approval_id id ≡ false
    → Names id a ledger
    → Names id a (ledger ++ approval_event k type b ∷ [])
unfolding approval_event scan_approval named_approval
Names-approval_event k type b id a ledger n h =
    latest-append id ledger (approval_event k type b) none
    ∙ other_approval k type b id (latest_approval id ledger none) n
    ∙ h

pub Names-operation_event :
    (k : KernelEnv) (op : OperationProjection) (id : String) (a : ApprovalProjection)
    (ledger : Ledger)
    → Names id a ledger
    → Names id a (ledger ++ operation_event k op ∷ [])
unfolding operation_event scan_approval
Names-operation_event k op id a ledger h = latest-append id ledger (operation_event k op) none ∙ h

-- What the ledger keeps through an appended event and what follows.
after_append-keeps :
    (P : Ledger → Type 0) (k : KernelEnv) (ev : StoredEvent) (next : ApprovalWorld → Decided)
    (w : ApprovalWorld)
    → P w.ledger
    → P (w.ledger ++ ev ∷ [])
    → ((w' : ApprovalWorld) → P w'.ledger → P (next w').2.ledger)
    → P (after_append (append_event k ev (tt {0}) w.ledger) next w).2.ledger
unfolding append_event
after_append-keeps P k ev next w h h' step = elim (Option-cases k.ready_error) [
  | inr (e, f) ↦ rw (f, after_append) h
  | inl f ↦ elim (Option-cases k.append_error) [
    | inr (e, g) ↦ rw (f, g, after_append) h
    | inl g ↦ rw (f, g, after_append) (step _ h')
  ]
]

module _ (env : ApprovalEnv) (P : Ledger → Type 0)
    (on_operation : (k : KernelEnv) (op : OperationProjection) (l : Ledger)
      → P l
      → P (l ++ operation_event k op ∷ [])) where
  pub turn_down-keeps :
      (type : EventType) (b : ApprovalProjection) (op : OperationProjection) (reason : String)
      (error : Option String) (w : ApprovalWorld)
      → P w.ledger
      → P (w.ledger ++ approval_event env.kernel type b ∷ [])
      → P (turn_down env type b op reason error w).2.ledger
  unfolding turn_down
  turn_down-keeps type b op reason error w h h' =
      let op' = terminal_blocked op reason env.kernel.clock in
      after_append-keeps P env.kernel (approval_event env.kernel type b)
        (λ w'.
          after_append (append_terminal_blocked env op reason w'.ledger) (λ w''. (b, error, w''))
            w')
        w h h'
        (λ w' g.
          after_append-keeps P env.second (operation_event env.second op') (λ w''. (b, error, w''))
            w' g (on_operation env.second op' w'.ledger g) (λ w'' i. i))

  pub approve-keeps :
      (b : ApprovalProjection) (op : OperationProjection) (w : ApprovalWorld)
      → P w.ledger
      → P (w.ledger ++ approval_event env.kernel EventType.approval_approved b ∷ [])
      → ((l : Ledger) → P l → P (run_shell env op (effect_request b op) l).1)
      → P (approve env b op w).2.ledger
  unfolding approve ensure_approved_approval_effect
  approve-keeps b op w h h' quiet =
      after_append-keeps P env.kernel (approval_event env.kernel EventType.approval_approved b)
        (ensure_approved_approval_effect env b op) w h h' (λ w' g. quiet w'.ledger g)

module _ (env : ApprovalEnv) (req : ApprovalDecisionRequest) (w : ApprovalWorld)
    (quiet : IsQuiet env) (id : String) (a : ApprovalProjection) (named : Names id a w.ledger) where
  -- The approval is there as it was.
  abbrev pub Stays : Decided → Type 0
  Stays p = Names id a p.2.ledger

  pub with_operation-Stays :
      (b : ApprovalProjection) (next : OperationProjection → ApprovalWorld → Decided)
      → ((op : OperationProjection) → Stays (next op w))
      → Stays (with_operation env b next w)
  unfolding with_operation
  with_operation-Stays b next h =
      elim (Result-cases (raw_operation_by_id env.kernel b.session_id b.operation_id w.ledger)) [
        | inl (e, f) ↦ rw (f, with_operation) named
        | inr (none, f) ↦ rw (f, with_operation) named
        | inr (some op, f) ↦ rw (f, with_operation) (h op)
      ]

  -- A decision on another approval.
  pub decide_pending-Stays :
      (b : ApprovalProjection) (op : OperationProjection)
      → str_eq b.approval_id id ≡ false
      → Stays (decide_pending env req b op w)
  unfolding decide_pending decide_approval_projection
  decide_pending-Stays b op n =
      let on_operation =
        λ (k : KernelEnv) (o : OperationProjection) (l : Ledger) (h : Names id a l).
          Names-operation_event k o id a l h in
      let down : (type : EventType) (status : ApprovalStatus) (reason : String)
            (error : Option String)
          → Stays (
              turn_down env type (decide_approval_projection b req status reason env.kernel.clock)
                op reason error w) =
        λ type status reason error.
          let b' = decide_approval_projection b req status reason env.kernel.clock in
          turn_down-keeps env (Names id a) on_operation type b' op reason error w named
            (Names-approval_event env.kernel type b' id a w.ledger n named) in
      if_cases Stays (is_over b env.kernel.clock) _ _ (λ e. down _ _ _ _)
        (λ e.
          if_cases Stays (not (is_current env b)) _ _ (λ f. down _ _ _ _)
            (λ f.
              if_cases Stays (not (is_waiting op)) _ _ (λ g. down _ _ _ _)
                (λ g.
                  if_cases Stays (str_eq (trim req.decision) "denied") _ _ (λ i. down _ _ _ _)
                    (λ i.
                      if_cases Stays (str_eq (trim req.decision) "approved") _ _
                        (λ j.
                          let b' =
                            decide_approval_projection b req ApprovalStatus.approved ""
                              env.kernel.clock in
                          approve-keeps env (Names id a) on_operation b' op w named
                            (Names-approval_event env.kernel EventType.approval_approved b' id a
                              w.ledger n named)
                            (λ l h. quiet op (effect_request b' op) l id a h))
                        (λ j. named)))))
