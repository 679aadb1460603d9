-- ===== src/Kernel/Examples.antt =====
-- Runs of the kernel's operations on small inputs.
mod Env
mod Review
mod Supersede
mod Work
mod Tasks
mod Approvals
mod Loops
mod Policies
