-- ===== src/Kernel/Ledger.antt =====
-- The kernel's ledger as its parts use it: loadEvents, appendEvent (kernel.go), ledger.go and id.go.
use genesis.Prelude.{String, Option, none, some, List, [], ◌∷◌, ◌++◌}
use genesis.Prelude.Text.{append}
use genesis.Prelude.Results.{Result, err, ok}
use genesis.Kernel.Types.{Time, StoredEvent}

-- What an operation meets outside of this model: the clock, the text that newID draws for a prefix
-- (a ULID, or the time where that fails), strconv.Quote, and the errors of the ledger, if any.
pub record KernelEnv : Type 0 where
  pub clock : Time
  pub draw : String → Time → String
  pub quote : String → String
  pub load_error : Option String
  pub ready_error : Option String
  pub append_error : Option String

-- newID
unfoldable pub new_id : KernelEnv → String → Time → String
new_id k prefix now = append prefix (append "_" (k.draw prefix now))

abbrev pub Ledger : Type 0
Ledger = List StoredEvent

-- Kernel.loadEvents
abbrev pub load_events : KernelEnv → Ledger → Result Ledger
load_events k ledger = elim k.load_error [ none ↦ ok ledger | some e ↦ err e ]

-- Kernel.appendEvent, and the result that the caller then returns.
unfoldable pub append_event {ℓ} :
    {A : Type ℓ} → KernelEnv → StoredEvent → A → Ledger → Result A × Ledger
append_event k event result ledger = elim k.ready_error [
  | some e ↦ (err e, ledger)
  | none ↦ elim k.append_error [
    | some e ↦ (err e, ledger)
    | none ↦ (ok result, ledger ++ event ∷ [])
  ]
]

-- The result of an operation that appends nothing.
abbrev pub refuse_with {ℓ} : {A : Type ℓ} → String → Ledger → Result A × Ledger
refuse_with e ledger = (err e, ledger)

-- A step that needs a value and stops at an error, the ledger untouched.
unfoldable pub with_value {ℓ ℓ'} :
    {A : Type ℓ} {B : Type ℓ'}
    → Result A
    → (A → Ledger → Result B × Ledger)
    → Ledger
    → Result B × Ledger
with_value (err e) next ledger = (err e, ledger)
with_value (ok a) next ledger = next a ledger
