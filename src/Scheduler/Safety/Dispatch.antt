-- ===== src/Scheduler/Safety/Dispatch.antt =====
-- dispatch follows the transitions and never faults: every worker that is written to has a process.
use nix_eval_jobs.Prelude.{
  ℕ, zero, suc, ◌+◌, ◌-◌, ◌<◌, ◌≡◌, refl, ap, ◌∙◌, length-set, inl, inr, List, [], ◌∷◌, map, Option,
  none, some, true, false, not, ◌&&◌, get_elem?, length, Bool-cases, arith, if◌then◌else◌, ltb,
  count_if-set,
}
use nix_eval_jobs.Scheduler.Phase.{Phase}
use nix_eval_jobs.Scheduler.State.{
  Wire, Worker, Scheduler, Result, no_worker, is_phase, finished, put_worker, any_worker_alive,
  count_phase,
}
use nix_eval_jobs.Scheduler.Handlers.{sample_rss, enter_solo}
use nix_eval_jobs.Scheduler.Loop.{
  Round, spawn_worker, with_spawnable, dispatch_worker, dispatch_from, spawnable_workers,
  may_enter_solo, dispatch,
}
use nix_eval_jobs.Scheduler.Spec.{
  tell, alive, is_alive, Move, spawn, Moves, here, next, IsSane, Inv,
}
use nix_eval_jobs.Scheduler.Spec
use nix_eval_jobs.Scheduler.Invariant.{Moves-Inv}
use nix_eval_jobs.Scheduler.Safety.{
  After, Ensures, Ensures-bind, Ensures-mono, Ensures-case, Ensures-worker_at, trans,
}
use nix_eval_jobs.Scheduler.Safety.Offer.{
  phase_of_idle, phase_of_none, and_true, lt_of_ltb, not-true, mode_of_parallel, Few,
  send_exit-Handled, offer_job-Handled,
}

length-map {ℓ κ} :
    {A : Type ℓ} {B : Type κ} (b : B) (xs : List A) → length (map (λ _. b) xs) ≡ length xs
length-map b [] = refl
length-map b (x ∷ xs) = ap suc (length-map b xs)

-- A handler of the whole loop: it follows the transitions and keeps the slots.
pub record Ran {P J : Type 0} (wire : Wire P J) (s t : Scheduler P J) : Type 0 where
  pub path : Moves wire s t
  pub slots : length t.workers ≡ length s.workers

pub Ran-trans :
    {P J : Type 0} {wire : Wire P J} (s t u : Scheduler P J)
    → Ran wire s t
    → Ran wire t u
    → Ran wire s u
Ran-trans s t u a b = record { path = trans a.path b.path; slots = b.slots ∙ a.slots }

After-Ran :
    {P J : Type 0} {wire : Wire P J} (idx : ℕ) (s t : Scheduler P J)
    → After wire idx s t
    → Ran wire s t
After-Ran idx s t a = record { path = a.moves; slots = a.size }

abbrev Stepped : {P J : Type 0} → Wire P J → Scheduler P J → ℕ × Scheduler P J → Type 0
Stepped wire s x = Ran wire s x.1 × Few x.0 x.1

module _ {P J : Type 0} (wire : Wire P J) (r : Round) (idx n : ℕ) (s : Scheduler P J) (w : Worker)
    (at : get_elem? s.workers idx ≡ some w) (v : Inv s) (few : Few n s) where
  keep-Stepped :
      (m : Result P J (Scheduler P J))
      → Ensures (λ t. After wire idx s t × Few n t) m
      → Ensures (Stepped wire s) (with_spawnable n m)
  keep-Stepped m a =
      Ensures-bind (λ t. After wire idx s t × Few n t) (Stepped wire s) m _ a
        λ t h. (After-Ran idx s t h.0, h.1)

  abbrev spawned_worker : ℕ → ℕ → Worker
  spawned_worker pid rss = record w {
    proc = some (record { pid = pid; buf = []; scanned = 0 });
    phase = Phase.starting;
    rss = rss;
  }

  spawned-Stepped :
      (pid rss : ℕ)
      → w.phase ≡ Phase.none
      → 0 < n
      → finished s ≡ false
      → Stepped wire s (n - 1, put_worker idx (spawned_worker pid rss) s)
  unfolding count_phase
  spawned-Stepped pid rss ph pos f = (
    record {
      path = next here (
          spawn s idx pid rss w at ph f (λ solo. omega (arith, few.0 solo, pos))
            (λ parallel. omega (arith, few.1 parallel, pos)));
      slots = length-set s.workers idx (spawned_worker pid rss);
    },
    (
      λ solo.
          omega
            (arith, few.0 solo, count_if-set is_alive s.workers idx w (spawned_worker pid rss) at),
      λ parallel. ground (
        arith,
        few.1 parallel,
        count_if-set (λ x. is_phase Phase.starting x.phase) s.workers idx w (spawned_worker pid rss)
            at,
        count_if-set (λ x. is_phase Phase.idle x.phase) s.workers idx w (spawned_worker pid rss) at,
      ),
    ),
  )

  spawned_cases :
      (o : Option ℕ)
      → r.spawned idx ≡ o
      → w.phase ≡ Phase.none
      → 0 < n
      → finished s ≡ false
      → Ensures (λ t. Stepped wire s (n - 1, t)) (spawn_worker r idx w s)
  unfolding spawn_worker sample_rss
  spawned_cases none e ph pos f = rw (e, spawn_worker, Ensures) tt
  spawned_cases (some pid) e ph pos f =
      rw (e, spawn_worker) (spawned-Stepped pid (r.spawn_rss idx) ph pos f)

  spawn_worker-Stepped :
      w.phase ≡ Phase.none
      → 0 < n
      → finished s ≡ false
      → Ensures (λ t. Stepped wire s (n - 1, t)) (spawn_worker r idx w s)
  unfolding spawn_worker sample_rss
  spawn_worker-Stepped ph pos f = spawned_cases (r.spawned idx) refl ph pos f

  dispatch_worker-Stepped : Ensures (Stepped wire s) (dispatch_worker wire r idx w n s)
  unfolding dispatch_worker
  dispatch_worker-Stepped =
      Ensures-case (Stepped wire s) (is_phase Phase.idle w.phase && finished s) _ _
        (λ exits. keep-Stepped _ (
          send_exit-Handled wire r idx s w at v n few (phase_of_idle w.phase (and_true _ _ exits).0)
            (and_true _ _ exits).1))
        λ stays.
          Ensures-case (Stepped wire s) (is_phase Phase.idle w.phase) _ _
            (λ idle.
              keep-Stepped _
                (offer_job-Handled wire r idx s w at v n few (phase_of_idle w.phase idle)))
            λ other.
              Ensures-case (Stepped wire s)
                (is_phase Phase.none w.phase && (ltb 0 n && not (finished s))) _ _
                (λ spawns.
                  let (empty, more) =
                    and_true (is_phase Phase.none w.phase) (ltb 0 n && not (finished s)) spawns in
                  let (some', going) = and_true (ltb 0 n) (not (finished s)) more in
                  Ensures-bind (λ t. Stepped wire s (n - 1, t)) (Stepped wire s)
                    (spawn_worker r idx w s) _
                    (spawn_worker-Stepped (phase_of_none w.phase empty) (lt_of_ltb n some')
                      (not-true (finished s) going))
                    (λ t q. q))
                (λ _. (record { path = here; slots = refl }, few))

pub get_elem?-lt {ℓ} :
    {A : Type ℓ} (xs : List A) (i : ℕ) → i < length xs → (x : A) × (get_elem? xs i ≡ some x)
get_elem?-lt [] i h = absurd (omega arith)
get_elem?-lt (x ∷ xs) zero h = (x, refl)
get_elem?-lt (x ∷ xs) (suc i) h = get_elem?-lt xs i (omega arith)

any_worker_alive-lem : (ws : List Worker) → any_worker_alive ws ≡ false → alive ws ≡ 0
unfolding any_worker_alive
any_worker_alive-lem [] h = refl
any_worker_alive-lem (w ∷ ws) h = ground (arith, any_worker_alive-lem ws)

module _ {P J : Type 0} (wire : Wire P J) (r : Round) where
  dispatch_from-Ran :
      (left idx n : ℕ) (s : Scheduler P J)
      → idx + left ≡ length s.workers
      → Inv s
      → Few n s
      → Ensures (Ran wire s) (dispatch_from wire r left idx n s)
  unfolding dispatch_from
  dispatch_from-Ran zero idx n s e v few = record { path = here; slots = refl }
  dispatch_from-Ran (suc left) idx n s e v few =
      let (w, at) = get_elem?-lt s.workers idx (omega arith) in
      Ensures-worker_at (Ran wire s) idx s w _ at (
        Ensures-bind (Stepped wire s) (Ran wire s) (dispatch_worker wire r idx w n s) _
          (dispatch_worker-Stepped wire r idx n s w at v few)
          λ x (ran, few').
            Ensures-mono (Ran wire x.1) (Ran wire s) (dispatch_from wire r left (suc idx) x.0 x.1)
              (λ u b. Ran-trans s x.1 u ran b)
              (dispatch_from-Ran left (suc idx) x.0 x.1 (omega (arith, ran.slots))
                (Moves-Inv ran.path v) few'))

  spawnable-Few : (s : Scheduler P J) → Inv s → Few (spawnable_workers s) s
  unfolding spawnable_workers
  spawnable-Few s v = (
    λ solo. elim (Bool-cases (any_worker_alive s.workers)) [
      | inl some' ↦ ground (arith, v.tally.solo_alone solo)
      | inr nobody ↦ ground (arith, any_worker_alive-lem s.workers nobody)
    ],
    λ parallel. ground arith,
  )

  dispatch_ready :
      (s t : Scheduler P J)
      → Ran wire s t
      → Inv t
      → Ensures (Ran wire s) (dispatch_from wire r (length t.workers) 0 (spawnable_workers t) t)
  dispatch_ready s t ran v =
      Ensures-mono (Ran wire t) (Ran wire s)
        (dispatch_from wire r (length t.workers) 0 (spawnable_workers t) t)
        (λ u b. Ran-trans s t u ran b)
        (dispatch_from-Ran (length t.workers) 0 (spawnable_workers t) t (omega arith) v
          (spawnable-Few t v))

  enter_solo-Ran : (s : Scheduler P J) → may_enter_solo s ≡ true → Ran wire s (enter_solo s)
  unfolding may_enter_solo enter_solo
  enter_solo-Ran s h = record {
    path =
        next here (
          Spec.enter_solo s (mode_of_parallel s.mode (ground arith)) (ground arith) (ground arith));
    slots = length-map no_worker s.workers;
  }

  entered-Ran : (s : Scheduler P J) → Ran wire s (if may_enter_solo s then enter_solo s else s)
  entered-Ran s = elim (Bool-cases (may_enter_solo s)) [
    | inl enters ↦ rw enters (enter_solo-Ran s enters)
    | inr stays ↦ rw stays (record { path = here; slots = refl })
  ]

  -- dispatch keeps to the transitions, and never faults.
  pub dispatch-Ran : (s : Scheduler P J) → Inv s → Ensures (Ran wire s) (dispatch wire r s)
  unfolding dispatch
  dispatch-Ran s v =
      dispatch_ready s (if may_enter_solo s then enter_solo s else s) (entered-Ran s)
        (Moves-Inv (entered-Ran s).path v)
