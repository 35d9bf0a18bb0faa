-- ===== src/Scheduler.antt =====
-- The class `Scheduler` in src/nix-eval-jobs.cc.
pub mod Phase
pub mod State
pub mod Handlers
pub mod Memory
pub mod Loop
pub mod Spec
pub mod Invariant
pub mod Ledger
pub mod Safety
pub mod Correct
