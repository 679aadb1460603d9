-- ===== src/Kernel/Approval/Replay.antt =====
-- What the ledger says of approvals and operations: the last event of each counts.
use genesis.Prelude.{String, not, ◌&&◌, Option, none, some, List, [], ◌∷◌, str_eq, if◌then◌else◌}
use genesis.Prelude.Text.{is_empty, trim}
use genesis.Prelude.Dict.{Dict, put, values}
use genesis.Prelude.Results.{Result, ok, and_then}
use genesis.Kernel.Types.{StoredEvent}
use genesis.Kernel.Ledger.{KernelEnv, Ledger, load_events}
use genesis.Kernel.Approval.Types.{ApprovalProjection, OperationProjection, approval_status_text}

-- The approval of an event, under the event's id where it has none.
unfoldable pub named_approval : StoredEvent → ApprovalProjection → ApprovalProjection
named_approval event approval = record approval {
  approval_id = if is_empty approval.approval_id then event.approval_id else approval.approval_id;
}

-- One round of the loop of approvalByID.
unfoldable pub scan_approval :
    String → StoredEvent → Option ApprovalProjection → Option ApprovalProjection
scan_approval id event latest = elim event.event_data.approval [
  | none ↦ latest
  | some approval ↦
      if str_eq (named_approval event approval).approval_id id
      then some (named_approval event approval)
      else latest
]

unfoldable pub latest_approval :
    String → Ledger → Option ApprovalProjection → Option ApprovalProjection
latest_approval id [] latest = latest
latest_approval id (event ∷ events) latest =
    latest_approval id events (scan_approval id event latest)

-- approvalByID
unfoldable pub approval_by_id : KernelEnv → String → Ledger → Result (Option ApprovalProjection)
approval_by_id k id ledger =
    and_then (load_events k ledger) (λ events. ok (latest_approval (trim id) events none))

-- The loop of approvalByOperationID.
unfoldable pub latest_of_operation :
    String → String → Ledger → Option ApprovalProjection → Option ApprovalProjection
latest_of_operation session_id operation_id [] latest = latest
latest_of_operation session_id operation_id (event ∷ events) latest =
    latest_of_operation session_id operation_id events (elim event.event_data.approval [
      | none ↦ latest
      | some approval ↦
          if str_eq event.session_id session_id && str_eq approval.operation_id operation_id
          then some approval
          else latest
    ])

-- approvalByOperationID
unfoldable pub approval_by_operation_id :
    KernelEnv → String → String → Ledger → Result (Option ApprovalProjection)
approval_by_operation_id k session_id operation_id ledger =
    and_then (load_events k ledger)
      (λ events. ok (latest_of_operation session_id operation_id events none))

-- The loop of rawOperationByID.
unfoldable pub latest_operation :
    String → String → Ledger → Option OperationProjection → Option OperationProjection
latest_operation session_id operation_id [] latest = latest
latest_operation session_id operation_id (event ∷ events) latest =
    latest_operation session_id operation_id events (elim event.event_data.operation [
      | none ↦ latest
      | some operation ↦
          if str_eq event.session_id session_id && str_eq operation.operation_id operation_id
          then some operation
          else latest
    ])

-- rawOperationByID
unfoldable pub raw_operation_by_id :
    KernelEnv → String → String → Ledger → Result (Option OperationProjection)
raw_operation_by_id k session_id operation_id ledger =
    and_then (load_events k ledger)
      (λ events. ok (latest_operation session_id operation_id events none))

-- `latest` of Approvals; its keys stand in the order of `order`.
abbrev approvals_by_id : Ledger → Dict ApprovalProjection → Dict ApprovalProjection
approvals_by_id [] latest = latest
approvals_by_id (event ∷ events) latest = approvals_by_id events (elim event.event_data.approval [
  | none ↦ latest
  | some approval ↦
      let it = named_approval event approval in
      if is_empty it.approval_id then latest else put latest it.approval_id it
])

abbrev with_status : String → List ApprovalProjection → List ApprovalProjection
with_status status [] = []
with_status status (approval ∷ approvals) =
    let rest = with_status status approvals in
    if not (is_empty status) && not (str_eq (approval_status_text approval.status) status)
    then rest
    else approval ∷ rest

-- Approvals
unfoldable pub approvals : KernelEnv → String → Ledger → Result (List ApprovalProjection)
approvals k status ledger =
    and_then (load_events k ledger)
      (λ events. ok (with_status (trim status) (values (approvals_by_id events []))))
