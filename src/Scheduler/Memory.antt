-- ===== src/Scheduler/Memory.antt =====
-- sampleMemory of `Scheduler` in src/nix-eval-jobs.cc. The resident sizes are arguments: `own` is
-- that of the collector, `rss idx` that of the process in slot `idx`.
use nix_eval_jobs.Prelude.{
  ℕ, suc, List, [], ◌∷◌, Option, none, some, Bool, true, ◌&&◌, ltb, leb, max, if◌then◌else◌,
}
use nix_eval_jobs.Scheduler.Phase.{Phase}
use nix_eval_jobs.Scheduler.State.{
  Worker, Scheduler, Result, ok, ◌>>=◌, is_phase, is_running, growth, total_rss, put_worker,
  worker_at, proc_of,
}
use nix_eval_jobs.Scheduler.Handlers.{sample_rss}
pub mod Victim

-- The loop that samples every worker; the estimate is learned by `learn` from the new sizes.
unfoldable pub sample_all : (ℕ → ℕ) → ℕ → List Worker → List Worker
sample_all rss idx [] = []
sample_all rss idx (w ∷ ws) = sample_rss (rss idx) w ∷ sample_all rss (suc idx) ws

unfoldable pub learn : ℕ → List Worker → ℕ
learn estimate [] = estimate
learn estimate (w ∷ ws) = learn (if is_running w then max estimate (growth w) else estimate) ws

-- The victim so far, with its size, and the index of the first worker of the list.
abbrev pub larger : Worker → Option (ℕ × ℕ) → Bool
larger w none = true
larger w (some (idx, rss)) = ltb rss w.rss

unfoldable pub pick_victim : Option (ℕ × ℕ) → ℕ → List Worker → Option (ℕ × ℕ)
pick_victim best idx [] = best
pick_victim best idx (w ∷ ws) =
    pick_victim (if is_phase Phase.busy w.phase && larger w best then some (idx, w.rss) else best)
      (suc idx) ws

module _ {P J : Type 0} where
  -- `victim->phase = Phase::Killed; kill(victim->proc->pid(), SIGKILL)`
  unfoldable pub kill_worker : ℕ → Scheduler P J → Result P J (Scheduler P J)
  kill_worker idx s = do
    w ← worker_at idx s
    p ← proc_of w s
    ok (
        put_worker idx (record w { phase = Phase.killed })
          (record s { io = record s.io { signals = p.pid ∷ s.io.signals } }))

  unfoldable pub sample_memory : ℕ → (ℕ → ℕ) → Scheduler P J → Result P J (Scheduler P J)
  unfolding kill_worker
  sample_memory own rss s =
      let ws = sample_all rss 0 s.workers in
      let s' = record s { workers = ws; estimate = learn s.estimate ws } in
      if leb (total_rss own ws) s.budget
      then ok s'
      else elim (pick_victim none 0 ws) [ none ↦ ok s' | some (idx, _) ↦ kill_worker idx s' ]
