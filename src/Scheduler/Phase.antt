-- ===== src/Scheduler/Phase.antt =====
-- `Scheduler::Phase` and `Scheduler::Mode` in src/nix-eval-jobs.cc.

-- `none` has no process; `killed` got SIGKILL for exceeding the budget, and its end is awaited.
pub data Phase : Type 0 where
  none starting idle busy killed exiting : Phase

pub data Mode : Type 0 where
  parallel solo : Mode
