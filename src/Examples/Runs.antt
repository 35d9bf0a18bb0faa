-- ===== src/Examples/Runs.antt =====
-- Runs of the scheduler with one worker.
use nix_eval_jobs.Prelude.{
  ℕ, ◌≡◌, refl, ◌≤◌, ◌+◌, ◌*◌, true, false, List, [], ◌∷◌, ◌++◌, none, some, Bytes, size_t, count,
  min, arith, nat_ord, list_ord,
}
use nix_eval_jobs.Messages.{ascii}
use nix_eval_jobs.Response.{Response, Payload, AttrPath}
use nix_eval_jobs.Proc.{chunk, again, exited, find_byte, fill, pop_line, newline}
use nix_eval_jobs.Scheduler.Phase.{Phase}
use nix_eval_jobs.Scheduler.State.{
  Wire, no_field, Worker, Scheduler, Result, ok, err, make, no_worker, finished, fits_budget,
  count_phase, total_rss, running, put_worker,
}
use nix_eval_jobs.Scheduler.Handlers.{take_job, on_line}
use nix_eval_jobs.Scheduler.Memory.{pick_victim}
use nix_eval_jobs.Scheduler.Memory.Victim.{Chosen, Covers, pick_victim-largest}
use nix_eval_jobs.Scheduler.Loop.{Round, run}
use nix_eval_jobs.Scheduler.Spec.{Moves}
use nix_eval_jobs.Scheduler.Ledger.{all_ended, all_added}
use nix_eval_jobs.Scheduler.Correct.{run_complete, take_job_fits}

-- A JSON library whose values are numbers; every response is an attribute set with no children.
abbrev leaf : Response ℕ ℕ
leaf = record {
  attr = [];
  attr_path = [];
  payload = Payload.attrs [];
  warnings = [];
  traces = [];
  stats = none;
}

abbrev wire : Wire ℕ ℕ
wire = record {
  parse_response = λ line. some (leaf, 0);
  to_json = λ r. 0;
  dump = λ j. [];
  error_field = λ line. no_field;
  dump_path = λ path. ascii "[]";
  over_budget = λ n. [];
}

-- Each turn a process can be spawned, and slot 0 writes `line`.
abbrev round : Bytes → Round
round line = record {
  own_rss = λ i. 10;
  spawned = λ i. some 7;
  spawn_rss = λ i. 20;
  written = λ i. true;
  write_wait = λ i. exited 0;
  poll_error = false;
  ready = λ i. true;
  now = 0;
  sample_own = 10;
  sample_rss_of = λ i. 20;
  reads = λ i. chunk (line ++ newline ∷ []) ∷ again ∷ [];
  line_rss = λ i. 30;
  read_wait = λ i. exited 0;
}

abbrev rounds : List Round
rounds = round (ascii "next") ∷ round (ascii "response") ∷ []

abbrev initial : Scheduler ℕ ℕ
initial = make 1 4096 false

abbrev or_initial : Result ℕ ℕ (Scheduler ℕ ℕ) → Scheduler ℕ ℕ
or_initial (ok t) = t
or_initial (err e io) = initial

abbrev last : Scheduler ℕ ℕ
last = or_initial (run wire rounds initial)

run_succeeds : run wire rounds initial ≡ ok last
unfolding run make no_worker find_byte fill pop_line size_t on_line take_job finished count_phase
    running fits_budget
run_succeeds = refl

last-finished : finished last ≡ true
unfolding run make no_worker find_byte fill pop_line size_t on_line take_job finished count_phase
    running fits_budget
last-finished = refl

run_complete_example :
    (m : Moves wire initial last) × ((p : AttrPath)
      → (min 1 (count p ([] ∷ all_added m)) ≤ count p (all_ended m))
        × (count p (all_ended m) ≤ count p ([] ∷ all_added m)))
run_complete_example = run_complete wire 1 4096 false rounds last run_succeeds last-finished

-- Slot 0 is idle, and slot 1 evaluates or was killed.
abbrev idle_worker : Worker
idle_worker = record {
  proc = some (record { pid = 7; buf = []; scanned = 0 });
  phase = Phase.idle;
  attr_path = none;
  rss = 100;
  start_rss = 0;
}

abbrev other_worker : Phase → Worker
other_worker phase = record idle_worker { phase = phase; attr_path = some []; rss = 3000 }

abbrev two_workers : Phase → ℕ → Scheduler ℕ ℕ
two_workers phase budget = record initial {
  budget = budget;
  todo = (ascii "a" ∷ []) ∷ [];
  estimate = 512;
  workers = idle_worker ∷ other_worker phase ∷ [];
}

abbrev taken_by_idle : Phase → ℕ → Scheduler ℕ ℕ
taken_by_idle phase budget =
    put_worker 0 (record idle_worker { start_rss = 100 })
      (record (two_workers phase budget) { todo = [] })

take_job_fits_example :
    size_t (
      total_rss 10 (two_workers Phase.busy 8192).workers
      + size_t ((count_phase Phase.busy (two_workers Phase.busy 8192).workers + 1) * 512))
    ≤ 8192
unfolding make take_job no_worker fits_budget count_phase running total_rss size_t
take_job_fits_example =
    take_job_fits 10 0 idle_worker (two_workers Phase.busy 8192) (taken_by_idle Phase.busy 8192)
      (ascii "a" ∷ []) refl refl (omega arith)

pick_victim-largest_example :
    Chosen
      (two_workers Phase.busy 0).workers
      (pick_victim none 0 (two_workers Phase.busy 0).workers)
    × Covers
        (pick_victim none 0 (two_workers Phase.busy 0).workers)
        (two_workers Phase.busy 0).workers
pick_victim-largest_example = pick_victim-largest (two_workers Phase.busy 0).workers
