-- ===== src/Scheduler/Safety/Poll.antt =====
-- pollWorkers and the whole loop of `run` follow the transitions and never fault.
use nix_eval_jobs.Prelude.{
  ℕ, zero, suc, ◌+◌, ◌<◌, false, max, if◌then◌else◌, ◌≤◌, ◌≡◌, refl, sym, ap, ◌∙◌, subst, inl, inr,
  List, [], ◌∷◌, Option, none, some, true, get_elem?, set, length, is_some, Bool-cases, arith, leb,
  get_elem?-set_self, get_elem?-set_ne, length-set,
}
use mathlib.Core.Option.{some-injective}
use native.Mathlib.Decide.{ℕ_discrete}
use nix_eval_jobs.Proc.{Proc}
use nix_eval_jobs.Scheduler.Phase.{Phase}
use nix_eval_jobs.Scheduler.State.{
  Wire, Worker, Scheduler, ok, total_rss, is_phase, is_running, growth, sample_interval,
}
use nix_eval_jobs.Scheduler.Memory.{sample_all, learn, pick_victim, kill_worker, sample_memory}
use nix_eval_jobs.Scheduler.Memory.Victim.{Chosen, Covers, pick_victim-largest, sample_all-Resized}
use nix_eval_jobs.Scheduler.Loop.{
  Round, owners, read_ready, sample_now, sample_if_due, poll_workers, dispatch, goes_on, turn, run,
}
use nix_eval_jobs.Scheduler.Spec.{
  Resized, nil, cons, here, next, sample, tick, kill, IsLearned, IsLargestBusy, IsSane, Inv,
}
use nix_eval_jobs.Scheduler.Invariant.{All-get, Moves-Inv}
use nix_eval_jobs.Scheduler.Safety.{
  Ensures, Ensures-bind, Ensures-mono, Ensures-case, Ensures-elim, Ensures-worker_at,
  Ensures-proc_of,
}
use nix_eval_jobs.Scheduler.Safety.Handlers.{some_of}
use nix_eval_jobs.Scheduler.Safety.Dispatch.{Ran, Ran-trans, dispatch-Ran}
use nix_eval_jobs.Scheduler.Safety.Offer.{proc_of_phase}
use nix_eval_jobs.Scheduler.Safety.Read.{Local, Local-refl, read_worker-Local}

phase_of_busy : (ph : Phase) → is_phase Phase.busy ph ≡ true → ph ≡ Phase.busy
phase_of_busy ph h = ground arith

lt_of_leb : (a b : ℕ) → leb a b ≡ false → b < a
lt_of_leb a b h = ground arith

Covers-largest :
    (k size : ℕ) (ws : List Worker)
    → Covers (some (k, size)) ws
    → (j : ℕ) (w : Worker) → get_elem? ws j ≡ some w
    → is_phase Phase.busy w.phase ≡ true
    → w.rss ≤ size
Covers-largest k size [] c j w at busy = cc
Covers-largest k size (x ∷ ws) c zero w at busy =
    let same : x ≡ w = some-injective _ _ at in
    subst (λ y. y.rss ≤ size) same
      (c.0 (subst (λ y. is_phase Phase.busy y.phase ≡ true) (sym same) busy))
Covers-largest k size (x ∷ ws) c (suc j) w at busy = Covers-largest k size ws c.1 j w at busy

-- The estimate that a sample learns.
learn-IsLearned : (old : ℕ) (ws : List Worker) → IsLearned old (learn old ws) ws
unfolding learn growth
learn-IsLearned old [] = (omega arith, λ k v at r. cc)
learn-IsLearned old (w ∷ ws) =
    let rest = learn-IsLearned (if is_running w then max old (growth w) else old) ws in
    let grown : is_running w ≡ true
        → w.rss ≤ w.start_rss + learn (if is_running w then max old (growth w) else old) ws =
      λ r. ground (arith, rest.0) in
    (ground (arith, rest.0), λ k v at r. learned_at _ k v at r grown rest.1)
  where
    learned_at :
        (estimate k : ℕ) (v : Worker)
        → get_elem? (w ∷ ws) k ≡ some v
        → is_running v ≡ true
        → (is_running w ≡ true → w.rss ≤ w.start_rss + estimate)
        → ((k : ℕ) (v : Worker)
            → get_elem? ws k ≡ some v
            → is_running v ≡ true
            → v.rss ≤ v.start_rss + estimate)
        → v.rss ≤ v.start_rss + estimate
    learned_at estimate zero v at r grown rest =
        let same : w ≡ v = some-injective _ _ at in
        subst (λ y. y.rss ≤ y.start_rss + estimate) same
          (grown (subst (λ y. is_running y ≡ true) (sym same) r))
    learned_at estimate (suc k) v at r grown rest = rest k v at r

-- Slot `i` has a process.
abbrev HasProc : List Worker → ℕ → Type 0
HasProc ws i = (w : Worker) × (p : Proc) × (get_elem? ws i ≡ some w) × (w.proc ≡ some p)

-- Rising indices from `lo` on, of slots that have a process.
abbrev Owned : List Worker → ℕ → List ℕ → Type 0
Owned ws lo [] = Unit {0}
Owned ws lo (i ∷ is) = (lo ≤ i) × HasProc ws i × Owned ws (suc i) is

Owned-map :
    (ws vs : List Worker) (lo : ℕ) (is : List ℕ)
    → ((i : ℕ) → lo ≤ i → HasProc ws i → HasProc vs i)
    → Owned ws lo is
    → Owned vs lo is
Owned-map ws vs lo [] k o = tt
Owned-map ws vs lo (i ∷ is) k o =
    (o.0, k i o.0 o.1, Owned-map ws vs (suc i) is (λ j h. k j (omega (arith, o.0))) o.2)

Owned-mono :
    (ws : List Worker) (lo lo' : ℕ) (is : List ℕ) → lo ≤ lo' → Owned ws lo' is → Owned ws lo is
Owned-mono ws lo lo' [] h o = tt
Owned-mono ws lo lo' (i ∷ is) h o = (omega (arith, o.0), o.1, o.2)

owners-cons :
    (all : List Worker) (idx : ℕ) (w : Worker) (ws : List Worker)
    → get_elem? all idx ≡ some w
    → Owned all (suc idx) (owners (suc idx) ws)
    → Owned all idx (owners idx (w ∷ ws))
unfolding owners
owners-cons all idx w ws at o = elim (Bool-cases (is_some w.proc)) [
  | inl has ↦ let (p, e) = some_of w.proc has in rw (has, Owned) (omega arith, (w, p, at, e), o)
  | inr none' ↦ rw none' (Owned-mono all idx (suc idx) _ (omega arith) o)
]

owners-Owned :
    (all : List Worker) (idx : ℕ) (ws : List Worker)
    → ((j : ℕ) (w : Worker) → get_elem? ws j ≡ some w → get_elem? all (j + idx) ≡ some w)
    → Owned all idx (owners idx ws)
unfolding owners
owners-Owned all idx [] sub = tt
owners-Owned all idx (w ∷ ws) sub =
    owners-cons all idx w ws (subst (λ n. get_elem? all n ≡ some w) (omega arith) (sub 0 w refl)) (
      owners-Owned all (suc idx) ws
        (λ j x at. subst (λ n. get_elem? all n ≡ some x) (omega arith) (sub (suc j) x at)))

module _ {P J : Type 0} (wire : Wire P J) (r : Round) where
  read_ready-Ran :
      (lo : ℕ) (is : List ℕ) (s : Scheduler P J)
      → Owned s.workers lo is
      → Inv s
      → Ensures (Ran wire s) (read_ready wire r is s)
  unfolding read_ready
  read_ready-Ran lo [] s o v = record { path = here; slots = refl }
  read_ready-Ran lo (i ∷ is) s (h, (w, p, at, e), o) v =
      Ensures-bind (Local wire i s) (Ran wire s) _ _
        (Ensures-case (Local wire i s) (r.ready i) _ _
          (λ _. read_worker-Local wire r i s w p at e v) (λ _. Local-refl i s))
        λ t a.
          Ensures-mono (Ran wire t) (Ran wire s) _ (λ u b. Ran-trans s t u a.ran b)
            (read_ready-Ran (suc i) is t
              (Owned-map s.workers t.workers (suc i) is
                (λ j le (x, q, at', e'). (x, q, a.frame j (omega arith) ∙ at', e')) o)
              (Moves-Inv a.ran.path v))

-- A sample, and a kill, leave the processes where they are.
Resized-HasProc : {ws vs : List Worker} → Resized ws vs → (i : ℕ) → HasProc ws i → HasProc vs i
Resized-HasProc nil i (w, p, at, e) = cc
Resized-HasProc (cons x rss r) zero (w, p, at, e) =
    (record x { rss = rss }, p, refl, ap (λ y. y.proc) (some-injective _ _ at) ∙ e)
Resized-HasProc (cons x rss r) (suc i) h = Resized-HasProc r i h

Resized-length : {ws vs : List Worker} → Resized ws vs → length vs ≡ length ws
Resized-length nil = refl
Resized-length (cons x rss r) = ap suc (Resized-length r)

set-HasProc :
    (ws : List Worker) (k : ℕ) (w v : Worker)
    → get_elem? ws k ≡ some w
    → v.proc ≡ w.proc
    → (i : ℕ) → HasProc ws i
    → HasProc (set ws k v) i
set-HasProc ws k w v at same i (x, p, at', e) = elim (ℕ_discrete k i) [
  | yes hit ↦ (
    v,
    p,
    subst (λ n. get_elem? (set ws k v) n ≡ some v) hit (get_elem?-set_self ws k w v at),
    same
        ∙ ap (λ y. y.proc)
            (some-injective _ _ (sym at ∙ subst (λ n. get_elem? ws n ≡ some x) (sym hit) at'))
        ∙ e,
  )
  | no miss ↦ (x, p, get_elem?-set_ne ws k i v miss ∙ at', e)
]

module _ {P J : Type 0} where
  -- What a sample does to the state.
  record Sampled (wire : Wire P J) (s t : Scheduler P J) : Type 0 where
    ran : Ran wire s t
    procs : (i : ℕ) → HasProc s.workers i → HasProc t.workers i

module _ {P J : Type 0} (wire : Wire P J) where
  resampled :
      (s : Scheduler P J) (estimate : ℕ) (ws : List Worker)
      → Resized s.workers ws
      → IsLearned s.estimate estimate ws
      → Sampled wire s (record s { workers = ws; estimate = estimate })
  resampled s estimate ws z learned = record {
    ran = record { path = next here (sample s estimate ws z learned); slots = Resized-length z };
    procs = Resized-HasProc z;
  }

  Sampled-trans : (s t u : Scheduler P J) → Sampled wire s t → Sampled wire t u → Sampled wire s u
  Sampled-trans s t u a b = record {
    ran = Ran-trans s t u a.ran b.ran;
    procs = λ i h. b.procs i (a.procs i h);
  }

  kill_worker-Sampled :
      (own idx : ℕ) (s : Scheduler P J) (w : Worker)
      → get_elem? s.workers idx ≡ some w
      → w.phase ≡ Phase.busy
      → s.budget < total_rss own s.workers
      → IsLargestBusy s.workers w
      → Inv s
      → Ensures (Sampled wire s) (kill_worker idx s)
  unfolding kill_worker
  kill_worker-Sampled own idx s w at ph over largest v =
      let (p, e) = proc_of_phase w (All-get IsSane s.workers idx w v.sane at) (ground arith) in
      let w' = record w { phase = Phase.killed } in
      Ensures-worker_at (Sampled wire s) idx s w _ at (
        Ensures-proc_of (Sampled wire s) w s p _ e (record {
          ran = record {
            path = next here (kill s own idx w p at ph over largest e);
            slots = length-set s.workers idx w';
          };
          procs = set-HasProc s.workers idx w w' at refl;
        }))

  kill_victim :
      (own : ℕ) (s : Scheduler P J) (o : Option (ℕ × ℕ))
      → Chosen s.workers o
      → Covers o s.workers
      → s.budget < total_rss own s.workers
      → Inv s
      → Ensures (Sampled wire s) (elim o [ none ↦ ok s | some (idx, _) ↦ kill_worker idx s ])
  kill_victim own s none c covers over v = record {
    ran = record { path = here; slots = refl };
    procs = λ i h. h;
  }
  kill_victim own s (some (k, size)) (w, at, busy, same) covers over v =
      kill_worker-Sampled own k s w at (phase_of_busy w.phase busy) over
        (λ j x at' ph.
          rw same (Covers-largest k size s.workers covers j x at' (ap (is_phase Phase.busy) ph)))
        v

  sample_memory-Sampled :
      (own : ℕ) (rss : ℕ → ℕ) (s : Scheduler P J)
      → Inv s
      → Ensures (Sampled wire s) (sample_memory own rss s)
  unfolding sample_memory
  sample_memory-Sampled own rss s v =
      let ws = sample_all rss 0 s.workers in
      let s' = record s { workers = ws; estimate = learn s.estimate ws } in
      let first =
        resampled s s'.estimate ws (sample_all-Resized rss 0 s.workers)
          (learn-IsLearned s.estimate ws) in
      Ensures-case (Sampled wire s) (leb (total_rss own ws) s.budget) _ _ (λ _. first)
        (λ over.
          Ensures-mono (Sampled wire s') (Sampled wire s) _ (λ t a. Sampled-trans s s' t first a)
            (kill_victim own s' (pick_victim none 0 ws) (pick_victim-largest ws).0
              (pick_victim-largest ws).1 (lt_of_leb _ _ over) (Moves-Inv first.ran.path v)))

  stay : (s : Scheduler P J) (time : ℕ) → Sampled wire s (record s { last_sample = time })
  stay s time = record {
    ran = record { path = next here (tick s time); slots = refl };
    procs = λ i h. h;
  }

  sample_now-Sampled :
      (r : Round) (s : Scheduler P J) → Inv s → Ensures (Sampled wire s) (sample_now r s)
  unfolding sample_now
  sample_now-Sampled r s v =
      Ensures-bind (Sampled wire s) (Sampled wire s) (sample_memory r.sample_own r.sample_rss_of s)
        (λ t. ok (record t { last_sample = r.now }))
        (sample_memory-Sampled r.sample_own r.sample_rss_of s v)
        λ t a. Sampled-trans s t _ a (stay t r.now)

  sample_if_due-Sampled :
      (r : Round) (s : Scheduler P J) → Inv s → Ensures (Sampled wire s) (sample_if_due r s)
  unfolding sample_if_due
  sample_if_due-Sampled r s v =
      Ensures-case (Sampled wire s) (leb (s.last_sample + sample_interval) r.now) (sample_now r s)
        (ok s) (λ _. sample_now-Sampled r s v) (λ _. stay s s.last_sample)

module _ {P J : Type 0} (wire : Wire P J) where
  poll_workers-Ran :
      (r : Round) (s : Scheduler P J) → Inv s → Ensures (Ran wire s) (poll_workers wire r s)
  unfolding poll_workers
  poll_workers-Ran r s v =
      Ensures-case (Ran wire s) r.poll_error _ _ (λ _. tt)
        (λ _.
          Ensures-bind (Sampled wire s) (Ran wire s) (sample_if_due r s) _
            (sample_if_due-Sampled wire r s v)
            λ t a.
              Ensures-mono (Ran wire t) (Ran wire s) _ (λ u b. Ran-trans s t u a.ran b)
                (read_ready-Ran wire r 0 (owners 0 s.workers) t
                  (Owned-map s.workers t.workers 0 (owners 0 s.workers) (λ i _ h. a.procs i h)
                    (owners-Owned s.workers 0 s.workers
                      (λ j w at. subst (λ n. get_elem? s.workers n ≡ some w) (omega arith) at)))
                  (Moves-Inv a.ran.path v)))

  -- One turn of the loop.
  pub turn-Ran : (r : Round) (s : Scheduler P J) → Inv s → Ensures (Ran wire s) (turn wire r s)
  unfolding turn
  turn-Ran r s v =
      Ensures-bind (Ran wire s) (Ran wire s) (dispatch wire r s) _ (dispatch-Ran wire r s v) λ t a.
        Ensures-mono (Ran wire t) (Ran wire s) _ (λ u b. Ran-trans s t u a b)
          (poll_workers-Ran r t (Moves-Inv a.path v))

  -- From a state with the invariants, the loop follows the transitions, whatever the workers write
  -- and the operating system answers; when it throws, the exception is one of the source: no null
  -- pointer, index out of range or empty vector is met, and no loop runs out of fuel.
  pub run-Ran : (rs : List Round) (s : Scheduler P J) → Inv s → Ensures (Ran wire s) (run wire rs s)
  unfolding run
  run-Ran [] s v = record { path = here; slots = refl }
  run-Ran (r ∷ rs) s v =
      Ensures-elim (Ran wire s) (goes_on s) _ _
        (Ensures-bind (Ran wire s) (Ran wire s) (turn wire r s) (run wire rs) (turn-Ran r s v)
          λ t a.
            Ensures-mono (Ran wire t) (Ran wire s) _ (λ u b. Ran-trans s t u a b)
              (run-Ran rs t (Moves-Inv a.path v)))
        (record { path = here; slots = refl })
