-- ===== src/Scheduler/Invariant.antt =====
-- Every transition of the scheduler keeps its invariants.
use nix_eval_jobs.Prelude.{
  ℕ, zero, suc, ◌+◌, ◌≡◌, refl, ap, subst, List, [], ◌∷◌, none, some, Bool, false, count_if,
  get_elem?, set, map, replicate, bit, count_if-set, arith,
}
use mathlib.Core.Option.{some-injective}
use nix_eval_jobs.Proc.{Proc, find_byte}
use nix_eval_jobs.Proc.Lines.{IsScanned}
use nix_eval_jobs.Scheduler.Phase.{Phase}
use nix_eval_jobs.Scheduler.State.{
  Wire, Worker, Scheduler, no_worker, is_phase, is_running, running, finished, make,
}
use nix_eval_jobs.Scheduler.Spec.{
  is_alive, alive, exiting, Resized, nil, cons, Move, spawn, send_exit, enter_solo, take_solo,
  take_todo, started, restarted, finish, exited, killed_waiting, killed_retry, killed_error, sample,
  tick, kill, buffer, Moves, here, next, IsSane, All, Inv,
}

module _ {ℓ κ} {A : Type ℓ} (Q : A → Type κ) where
  pub All-get : (xs : List A) (i : ℕ) (x : A) → All Q xs → get_elem? xs i ≡ some x → Q x
  All-get [] i x a h = cc
  All-get (y ∷ xs) zero x a h = subst Q (some-injective _ _ h) a.0
  All-get (y ∷ xs) (suc i) x a h = All-get xs i x a.1 h

  pub All-set : (xs : List A) (i : ℕ) (x : A) → All Q xs → Q x → All Q (set xs i x)
  All-set [] i x a q = a
  All-set (y ∷ xs) zero x a q = (q, a.1)
  All-set (y ∷ xs) (suc i) x a q = (a.0, All-set xs i x a.1 q)

  pub All-map_const : (xs : List A) (x : A) → Q x → All Q (map (λ _. x) xs)
  All-map_const [] x q = tt
  All-map_const (y ∷ xs) x q = (q, All-map_const xs x q)

abbrev fresh_proc : ℕ → Proc
fresh_proc pid = record { pid = pid; buf = []; scanned = 0 }

fresh-IsScanned : (pid : ℕ) → IsScanned (fresh_proc pid)
fresh-IsScanned pid = record { within = omega arith; clear = unfold find_byte in refl }

pub count_if-replicate {ℓ} :
    {A : Type ℓ} (p : A → Bool) (n : ℕ) (x : A) → p x ≡ false → count_if p (replicate n x) ≡ 0
count_if-replicate p zero x h = refl
count_if-replicate p (suc n) x h = ground (arith, count_if-replicate p n x h)

module _ {ℓ κ} {A : Type ℓ} (Q : A → Type κ) where
  All-replicate : (n : ℕ) (x : A) → Q x → All Q (replicate n x)
  All-replicate zero x q = tt
  All-replicate (suc n) x q = (q, All-replicate n x q)

no_worker-IsSane : IsSane no_worker
unfolding no_worker
no_worker-IsSane = record { has_proc = refl; has_job = λ h. cc; scanned = tt }

count_if-map_const {ℓ} :
    {A : Type ℓ} (p : A → Bool) (xs : List A) (x : A)
    → p x ≡ false
    → count_if p (map (λ _. x) xs) ≡ 0
count_if-map_const p [] x h = refl
count_if-map_const p (y ∷ xs) x h = ground (arith, count_if-map_const p xs x h)

-- What a sample leaves as it was.
record Same (ws vs : List Worker) : Type 0 where
  sane : All IsSane ws → All IsSane vs
  runs : count_if is_running vs ≡ count_if is_running ws
  lives : alive vs ≡ alive ws
  exits : exiting vs ≡ exiting ws

resize-IsSane : (w : Worker) (rss : ℕ) → IsSane w → IsSane (record w { rss = rss })
resize-IsSane w rss v = record { has_proc = v.has_proc; has_job = v.has_job; scanned = v.scanned }

Resized-Same : {ws vs : List Worker} → Resized ws vs → Same ws vs
Resized-Same nil = record { sane = λ a. a; runs = refl; lives = refl; exits = refl }
Resized-Same (cons w rss r) =
    let rest = Resized-Same r in
    record {
      sane = λ a. (resize-IsSane w rss a.0, rest.sane a.1);
      runs = ap (λ n. bit (is_running w) + n) rest.runs;
      lives = ap (λ n. bit (is_alive w) + n) rest.lives;
      exits = ap (λ n. bit (is_phase Phase.exiting w.phase) + n) rest.exits;
    }

module _ {P J : Type 0} where
  -- The facts about one slot that its replacement by `v` changes.
  abbrev counts :
      (s : Scheduler P J) (idx : ℕ) (w v : Worker)
      → get_elem? s.workers idx ≡ some w
      → (count_if is_running (set s.workers idx v) + bit (is_running w)
          ≡ count_if is_running s.workers + bit (is_running v))
        × (alive (set s.workers idx v) + bit (is_alive w) ≡ alive s.workers + bit (is_alive v))
        × (exiting (set s.workers idx v) + bit (is_phase Phase.exiting w.phase)
            ≡ exiting s.workers + bit (is_phase Phase.exiting v.phase))
  counts s idx w v at = (
    count_if-set is_running s.workers idx w v at,
    count_if-set is_alive s.workers idx w v at,
    count_if-set (λ x. is_phase Phase.exiting x.phase) s.workers idx w v at,
  )

module _ {P J : Type 0} {wire : Wire P J} where
  -- Every transition keeps the invariants.
  pub Move-Inv : {s t : Scheduler P J} → Move wire s t → Inv s → Inv t
  unfolding finished running no_worker
  Move-Inv (spawn s idx pid rss w at ph f alone room) v =
      let old = All-get IsSane s.workers idx w v.sane at in
      let w' : Worker = record w {
        proc = some (fresh_proc pid);
        phase = Phase.starting;
        rss = rss;
      } in
      record {
        sane =
            All-set IsSane s.workers idx w' v.sane
              (record { has_proc = refl; has_job = λ h. cc; scanned = fresh-IsScanned pid });
        tally = ground (arith, counts s idx w w' at);
      }
  Move-Inv (send_exit s idx w io at ph f) v =
      let old = All-get IsSane s.workers idx w v.sane at in
      let w' : Worker = record w { phase = Phase.exiting } in
      record {
        sane =
            All-set IsSane s.workers idx w' v.sane
              (record { has_proc = ground arith; has_job = λ h. cc; scanned = old.scanned });
        tally = ground (arith, counts s idx w w' at);
      }
  Move-Inv (enter_solo s m e r) v = record {
    sane = All-map_const IsSane s.workers no_worker no_worker-IsSane;
    tally = ground (
      arith,
      count_if-map_const is_running s.workers no_worker,
      count_if-map_const is_alive s.workers no_worker,
      count_if-map_const (λ w. is_phase Phase.exiting w.phase) s.workers no_worker,
    );
  }
  Move-Inv (take_solo s idx start w io p rest at ph m r e) v =
      let old = All-get IsSane s.workers idx w v.sane at in
      let w' : Worker = record w { phase = Phase.busy; attr_path = some p; start_rss = start } in
      record {
        sane =
            All-set IsSane s.workers idx w' v.sane
              (record { has_proc = ground arith; has_job = λ h. refl; scanned = old.scanned });
        tally = ground (arith, counts s idx w w' at);
      }
  Move-Inv (take_todo s own idx start w io p rest at ph m r e fits) v =
      let old = All-get IsSane s.workers idx w v.sane at in
      let w' : Worker = record w { phase = Phase.busy; attr_path = some p; start_rss = start } in
      record {
        sane =
            All-set IsSane s.workers idx w' v.sane
              (record { has_proc = ground arith; has_job = λ h. refl; scanned = old.scanned });
        tally = ground (arith, counts s idx w w' at);
      }
  Move-Inv (started s idx w at ph) v =
      let old = All-get IsSane s.workers idx w v.sane at in
      let w' : Worker = record w { phase = Phase.idle } in
      record {
        sane =
            All-set IsSane s.workers idx w' v.sane
              (record { has_proc = ground arith; has_job = λ h. cc; scanned = old.scanned });
        tally = ground (arith, counts s idx w w' at);
      }
  Move-Inv (restarted s idx w at ph) v =
      let old = All-get IsSane s.workers idx w v.sane at in
      let w' : Worker = no_worker in
      record {
        sane = All-set IsSane s.workers idx w' v.sane no_worker-IsSane;
        tally = ground (arith, counts s idx w w' at);
      }
  Move-Inv (finish s idx rss estimate w io p children line r json at ph e read l) v =
      let old = All-get IsSane s.workers idx w v.sane at in
      let w' : Worker = record w { phase = Phase.starting; attr_path = none; rss = rss } in
      record {
        sane =
            All-set IsSane s.workers idx w' v.sane
              (record { has_proc = ground arith; has_job = λ h. cc; scanned = old.scanned });
        tally = ground (arith, counts s idx w w' at);
      }
  Move-Inv (exited s idx w at ph) v =
      let old = All-get IsSane s.workers idx w v.sane at in
      let w' : Worker = no_worker in
      record {
        sane = All-set IsSane s.workers idx w' v.sane no_worker-IsSane;
        tally = ground (arith, counts s idx w w' at);
      }
  Move-Inv (killed_waiting s idx w at ph) v =
      let old = All-get IsSane s.workers idx w v.sane at in
      let w' : Worker = no_worker in
      record {
        sane = All-set IsSane s.workers idx w' v.sane no_worker-IsSane;
        tally = ground (arith, counts s idx w w' at);
      }
  Move-Inv (killed_retry s idx w p at ph e m) v =
      let old = All-get IsSane s.workers idx w v.sane at in
      let w' : Worker = no_worker in
      record {
        sane = All-set IsSane s.workers idx w' v.sane no_worker-IsSane;
        tally = ground (arith, counts s idx w w' at);
      }
  Move-Inv (killed_error s idx w p io at ph e m l) v =
      let old = All-get IsSane s.workers idx w v.sane at in
      let w' : Worker = no_worker in
      record {
        sane = All-set IsSane s.workers idx w' v.sane no_worker-IsSane;
        tally = ground (arith, counts s idx w w' at);
      }
  Move-Inv (tick s time) v = record { sane = v.sane; tally = ground (arith, v.tally) }
  Move-Inv (sample s estimate ws r learned) v =
      let same = Resized-Same r in
      record { sane = same.sane v.sane; tally = ground (arith, same.runs, same.lives, same.exits) }
  Move-Inv (kill s own idx w p at ph over largest has) v =
      let old = All-get IsSane s.workers idx w v.sane at in
      let w' : Worker = record w { phase = Phase.killed } in
      record {
        sane = All-set IsSane s.workers idx w' v.sane (record {
          has_proc = ground arith;
          has_job = λ h. old.has_job (ground arith);
          scanned = old.scanned;
        });
        tally = ground (arith, counts s idx w w' at);
      }
  Move-Inv (buffer s idx w p q at e c) v =
      let old = All-get IsSane s.workers idx w v.sane at in
      let w' : Worker = record w { proc = some q } in
      record {
        sane =
            All-set IsSane s.workers idx w' v.sane
              (record { has_proc = ground arith; has_job = old.has_job; scanned = c });
        tally = ground (arith, counts s idx w w' at);
      }

  -- So do any number of them.
  pub Moves-Inv : {s t : Scheduler P J} → Moves wire s t → Inv s → Inv t
  Moves-Inv here v = v
  Moves-Inv (next r m) v = Move-Inv m (Moves-Inv r v)

module _ {P J : Type 0} where
  -- The invariants hold at the start.
  pub make-Inv : (nr size : ℕ) (resolver : Bool) → Inv (make {P = P} {J = J} nr size resolver)
  unfolding make no_worker
  make-Inv nr size resolver = record {
    sane = All-replicate IsSane nr no_worker no_worker-IsSane;
    tally = ground (arith, count_if-replicate (λ w. is_phase Phase.exiting w.phase) nr no_worker);
  }
