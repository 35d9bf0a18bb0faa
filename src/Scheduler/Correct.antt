-- ===== src/Scheduler/Correct.antt =====
-- The scheduler of src/nix-eval-jobs.cc as a whole, from its constructor on: what it keeps, and
-- what it completes.
use nix_eval_jobs.Prelude.{
  ℕ, ◌+◌, ◌*◌, ◌≤◌, ◌<◌, ◌≡◌, refl, subst, List, [], ◌∷◌, some, Bool, true, count, arith, nat_ord,
  list_ord, size_t, min,
}
use nix_eval_jobs.Response.{AttrPath}
use nix_eval_jobs.Scheduler.Phase.{Phase, Mode}
use nix_eval_jobs.Scheduler.State.{
  Wire, Worker, Scheduler, Result, ok, make, finished, running, no_worker, count_phase, total_rss,
  fits_budget,
}
use nix_eval_jobs.Scheduler.Handlers.{take_job, take_todo}
use nix_eval_jobs.Scheduler.Loop.{Round, run}
use nix_eval_jobs.Scheduler.Spec.{Moves, Inv}
use nix_eval_jobs.Scheduler.Invariant.{Moves-Inv, make-Inv, count_if-replicate}
use nix_eval_jobs.Scheduler.Ledger.{
  pending, holds, all_ended, all_added, Accounts, Moves-Accounts, holds-le_running,
}
use nix_eval_jobs.Scheduler.Safety.{Ensures, Ensures-mono}
use nix_eval_jobs.Scheduler.Safety.Dispatch.{Ran}
use nix_eval_jobs.Scheduler.Safety.Poll.{run-Ran}

-- `t` was reached from `s` by the transitions, and satisfies the invariants.
pub record Reached {P J : Type 0} (wire : Wire P J) (s t : Scheduler P J) : Type 0 where
  pub path : Moves wire s t
  pub inv : Inv t

reached :
    {P J : Type 0} (wire : Wire P J) (s : Scheduler P J) (m : Result P J (Scheduler P J))
    → Inv s
    → Ensures (Ran wire s) m
    → Ensures (Reached wire s) m
reached wire s m v h =
    Ensures-mono (Ran wire s) (Reached wire s) m
      (λ t a. record { path = a.path; inv = Moves-Inv a.path v }) h

finished-pending :
    {P J : Type 0} (p : AttrPath) (t : Scheduler P J) → finished t ≡ true → pending p t ≡ 0
unfolding finished running
finished-pending p t h = ground (arith, holds-le_running p t.workers)

make-pending :
    (P J : Type 0) (nr size : ℕ) (resolver : Bool) (p : AttrPath)
    → pending p (make {P = P} {J = J} nr size resolver) ≡ count p ([] ∷ [])
unfolding make no_worker
make-pending P J nr size resolver p = omega (arith, count_if-replicate (holds p) nr no_worker refl)

complete_at :
    {P J : Type 0} {s t : Scheduler P J} (p : AttrPath) (gone new : List AttrPath)
    → Accounts p s t gone new
    → pending p s ≡ count p ([] ∷ [])
    → pending p t ≡ 0
    → (min 1 (count p ([] ∷ new)) ≤ count p gone) × (count p gone ≤ count p ([] ∷ new))
complete_at p gone new a b c = ground (arith, a.kept, a.bounded, a.grown)

module _ {P J : Type 0} (wire : Wire P J) (nr_workers max_memory_size : ℕ) (resolver : Bool) where
  abbrev start : Scheduler P J
  start = make nr_workers max_memory_size resolver

  pub run-Reached : (rs : List Round) → Ensures (Reached wire start) (run wire rs start)
  run-Reached rs =
      let v = make-Inv nr_workers max_memory_size resolver in
      reached wire start (run wire rs start) v (run-Ran wire rs start v)

  run-path : (rs : List Round) (t : Scheduler P J) → run wire rs start ≡ ok t → Reached wire start t
  run-path rs t e = subst (Ensures (Reached wire start)) e (run-Reached rs)

  -- Once nothing is left to do, the state was reached by the transitions of Scheduler/Spec in a
  -- sequence in which the root of the evaluation and every attribute path that a response added as a
  -- child was settled, and none more often than it was added. A path is settled by a line that parses
  -- as a response, which adds its children to `todo`, or enters a job, and prints its line unless it
  -- awaits constituents, or asks the resolver, or by the printed error of a job that exceeds the
  -- budget alone.
  pub run_complete :
      (rs : List Round) (t : Scheduler P J)
      → run wire rs start ≡ ok t
      → finished t ≡ true
      → (m : Moves wire start t) × ((p : AttrPath)
          → (min 1 (count p ([] ∷ all_added m)) ≤ count p (all_ended m))
            × (count p (all_ended m) ≤ count p ([] ∷ all_added m)))
  run_complete rs t e f =
      let r = run-path rs t e in
      (
        r.path,
        λ p.
            complete_at p (all_ended r.path) (all_added r.path) (Moves-Accounts p r.path)
              (make-pending P J nr_workers max_memory_size resolver p) (finished-pending p t f),
      )

-- Parallel mode hands out a job beside busy workers only if the budget has room for the growth of
-- each of them and of the new one.
pub take_job_fits :
    {P J : Type 0} (own idx : ℕ) (w : Worker) (s t : Scheduler P J) (p : AttrPath)
    → take_job own idx w s ≡ ok (t, some p)
    → s.mode ≡ Mode.parallel
    → 0 < count_phase Phase.busy s.workers
    → size_t
        (total_rss own s.workers + size_t ((count_phase Phase.busy s.workers + 1) * s.estimate))
      ≤ s.budget
unfolding take_job take_todo fits_budget
take_job_fits own idx w s t p e m busy = ground arith
