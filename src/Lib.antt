-- ===== src/Lib.antt =====
-- Genesis: a local agent kernel whose facts are events of one ledger, and applications around it.
-- This library models parts of both.
--
-- The connector runtime (internal/applications/connector_runtime) delivers application commands to
-- external systems. A command becomes an outbox item; a delivery takes a lease on the item, asks the
-- adapter of its connector, and records a receipt; operators settle what automatic delivery cannot.
--   Connector.Types      types.go: the records and statuses
--   Connector.Ids        ids.go, command.go: opaque ids, validation, items made of commands
--   Connector.Policy     delivery_policy.go: attempts, retries and their delays
--   Connector.Safety     connector_command_adapter.go, command_template_driver.go: safe texts
--   Connector.Store      store_file.go: a transaction on the outbox file, enqueue, get, record
--   Connector.Claims     store_file.go: claims and leases
--   Connector.Operator   store_file.go: requeue and resolution by an operator
--   Connector.Inbound    inbound_*.go: Event (what is made of an event), Store (reservations), Process
--   Connector.Sources    source_types.go, source_lifecycle_*.go: Normalize, Store, Operator; Cursors and
--                        Started are about them
--   Connector.Execute    runtime.go: ExecuteOutboxItem and ExecuteClaimedOutboxItem
--
-- The kernel (internal/kernel) appends events to its ledger and reads by replaying them.
--   Kernel.Types         event_types.go, memory_types.go, workregistry/types.go
--   Kernel.Ledger        loadEvents and appendEvent of kernel.go, newID of id.go
--   Kernel.Refs          kernel_refs.go, validateIdempotencyKey of shell.go
--   Kernel.Memory        memory.go: Requests (validation), Replay (memoryCandidateList), Review
--                        (create, approve, reject, forget, read), Supersede
--   Kernel.Work          work.go: submit, cancel, read and replay
--   Kernel.TaskGraph     task_graph.go, task_graph_types.go: Nodes (the projected statuses), Cycle (the
--                        search), Replay, Edit (the operations); Search and Acyclic are about cycles,
--                        Dependencies about ready nodes
--   Kernel.Approval      approval.go, authority/types.go: Replay (reads), Request, Decide, Authorize;
--                        Guards and Final are about decisions
--   Kernel.LoopGuard     tool_loop_guard.go: what is refused or noted; Streak and Failures are about both
--   Kernel.Schedule      toolruntime/scheduling.go: the batches of tool calls
--   Kernel.Authority     authority_gate.go: what a tool policy allows
-- Connector.Examples and Kernel.Examples run the operations on small inputs; Prelude has what both
-- parts share: Boolean tests, texts as Go's strings package treats them, maps and results.
--
-- Conventions. A time is a number of nanoseconds since Go's zero time; 0 is the zero time. A status
-- is a data type with a constructor for each constant and `other` for any further text. A Go map is
-- an association list, and `range` over it takes the order of the list. An error is a text; a result
-- beside it is kept where a caller can see it. A locked operation on the outbox file is a function
-- OutboxStore -> result * error * OutboxStore, in which a failed write leaves the file as it was;
-- what other processes do between the transactions of one delivery is a function of the schedule.
-- A kernel operation is a function Ledger -> Result * Ledger, one step because of its
-- mutex (the creation of a candidate takes none, and only appends).
-- Loops are structural recursion; `decimal` of Prelude.Text has fuel n + 1 for the digits of n,
-- and the search for a cycle one level more than there are ids, since each level marks a new one.
--
-- Parameters: SHA-256 with base32 and the format of times (Host), the adapters, the clock, the
-- random part of ids (draw), strconv.Quote and the errors of the ledger (KernelEnv), I/O errors (Io),
-- strings.ToLower (lower), the turn client and the session mapper (Runtime), the shell and
-- the patterns of containsCredentialShapedText (ApprovalEnv), encoding/json (Json).
-- Attempt counts are natural numbers; the store never brings them near the bounds of an int.
--
-- Not modelled: JSON and the lock file of the outbox, nil-store checks, list operations,
-- reconciliation probes and evidence, source commands; of the kernel the turn loop, tool execution, jobs,
-- the runs of agent invocations that a task graph is bound to, providers, HTTP and the ledger's database; the front ends.
pub mod Prelude
pub mod Connector
pub mod Kernel
