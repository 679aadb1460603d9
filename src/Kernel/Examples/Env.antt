-- ===== src/Kernel/Examples/Env.antt =====
-- The surroundings of the example runs.
use genesis.Prelude.{String, none}
use genesis.Prelude.Text.{append}
use genesis.Kernel.Types.{Time}
use genesis.Kernel.Ledger.{KernelEnv}

-- Ids are the prefix and the draw.
abbrev pub env_at : Time → String → KernelEnv
env_at now draw = record {
  clock = now;
  draw = λ prefix t. draw;
  quote = λ s. append "\"" (append s "\"");
  load_error = none;
  ready_error = none;
  append_error = none;
}
