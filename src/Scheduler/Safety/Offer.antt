-- ===== src/Scheduler/Safety/Offer.antt =====
-- takeJob and what dispatch does to an idle worker follow the transitions: a job is taken off `solo`
-- only when there is one, and the count of the processes that may be spawned stays right.
use nix_eval_jobs.Prelude.{
  ℕ, zero, suc, ◌+◌, ◌*◌, ◌-◌, bit, size_t, Bytes, is_some, ◌≤◌, ◌<◌, ◌≡◌, refl, sym, ap, ◌∙◌,
  subst, inl, inr, List, [], ◌∷◌, ◌++◌, Option, none, some, Bool, true, false, not, ◌&&◌, get_elem?,
  set, length, Bool-cases, arith, ltb, get_elem?-set_self, set-set, count_if-set,
}
use mathlib.Core.Option.{some-injective}
use nix_eval_jobs.Messages.{msg_do, msg_exit}
use nix_eval_jobs.Response.{AttrPath}
use nix_eval_jobs.Proc.{Proc, Wait}
use nix_eval_jobs.Scheduler.Phase.{Phase, Mode}
use nix_eval_jobs.Scheduler.State.{
  Wire, Worker, Io, Scheduler, ok, is_phase, is_solo, running, finished, put_worker, count_phase,
  total_rss, fits_budget,
}
use nix_eval_jobs.Scheduler.Handlers.{
  take_solo, take_todo, must_wait, may_take_todo, take_job, on_eof,
}
use nix_eval_jobs.Scheduler.Loop.{Round, send, send_exit, start_job, offer_job}
use nix_eval_jobs.Scheduler.Spec.{
  tell, alive, is_alive, Move, spawn, Moves, here, next, IsSane, Inv,
}
use nix_eval_jobs.Scheduler.Spec
use nix_eval_jobs.Scheduler.Invariant.{All-get, Moves-Inv}
use nix_eval_jobs.Scheduler.Safety.{
  After, Ensures, Ensures-bind, Ensures-mono, Ensures-if, Ensures-case, Ensures-worker_at,
  Ensures-proc_of, After-refl, After-trans, Move-After,
}
use nix_eval_jobs.Scheduler.Safety.Handlers.{on_eof-Gone, Gone, Resumed, waiting, some_of}

pub phase_of_idle : (ph : Phase) → is_phase Phase.idle ph ≡ true → ph ≡ Phase.idle
phase_of_idle ph h = ground arith

pub phase_of_none : (ph : Phase) → is_phase Phase.none ph ≡ true → ph ≡ Phase.none
phase_of_none ph h = ground arith

pub and_true : (a b : Bool) → (a && b) ≡ true → (a ≡ true) × (b ≡ true)
and_true a b h = ground arith

pub lt_of_ltb : (n : ℕ) → ltb 0 n ≡ true → 0 < n
lt_of_ltb n h = ground arith

pub not-true : (b : Bool) → not b ≡ true → b ≡ false
not-true b h = ground arith

mode_of_solo : (m : Mode) → is_solo m ≡ true → m ≡ Mode.solo
mode_of_solo m h = ground arith

pub mode_of_parallel : (m : Mode) → is_solo m ≡ false → m ≡ Mode.parallel
mode_of_parallel m h = ground arith

may_take_todo-solo :
    {P J : Type 0} (s : Scheduler P J) (own : ℕ) → may_take_todo own s ≡ true → s.solo ≡ []
unfolding may_take_todo
may_take_todo-solo s own h = ground arith

-- A worker that is not in phase `none` has a process.
pub proc_of_phase :
    (w : Worker) → IsSane w → is_phase Phase.none w.phase ≡ false → (p : Proc) × (w.proc ≡ some p)
proc_of_phase w v ph = some_of w.proc (ground (arith, v.has_proc))

-- The processes that may still be spawned: with those that live one at most in Solo mode, and in
-- Parallel mode no more than the jobs of `todo` that no starting or idle worker waits for.
abbrev pub Few : {P J : Type 0} → ℕ → Scheduler P J → Type 0
Few n t =
    (is_solo t.mode ≡ true → n + alive t.workers ≤ 1)
    × (is_solo t.mode ≡ false → n ≤ length t.todo - waiting t.workers)

some-alive :
    (ws : List Worker) (i : ℕ) (w : Worker) (p : Proc)
    → get_elem? ws i ≡ some w
    → w.proc ≡ some p
    → 1 ≤ alive ws
some-alive [] i w p at e = cc
some-alive (x ∷ ws) zero w p at e =
    let has : is_alive x ≡ true = ap is_alive (some-injective _ _ at) ∙ ap is_some e in ground arith
some-alive (x ∷ ws) (suc i) w p at e = omega (arith, some-alive ws i w p at e)

module _ {P J : Type 0} (wire : Wire P J) (r : Round) (idx : ℕ) (s : Scheduler P J) (w : Worker)
    (at : get_elem? s.workers idx ≡ some w) (v : Inv s) where
  -- The budget has room for the growth of every busy worker and a new one, if any is busy.
  abbrev HasRoom : ℕ → Type 0
  HasRoom own =
      0 < count_phase Phase.busy s.workers
      → size_t
          (total_rss own s.workers + size_t ((count_phase Phase.busy s.workers + 1) * s.estimate))
        ≤ s.budget

  may_take_todo-HasRoom : (own : ℕ) → may_take_todo own s ≡ true → HasRoom own
  unfolding may_take_todo fits_budget
  may_take_todo-HasRoom own h busy = ground arith

  -- What takeJob gives: nothing and the state as it was, or a job and one of the transitions once
  -- the worker is marked busy.
  pub data Takes : Scheduler P J × Option AttrPath → Type 0 where
    refuses : Takes (s, none)
    from_solo :
        (start : ℕ) (p : AttrPath) (rest : List AttrPath)
        → s.mode ≡ Mode.solo
        → running s.workers ≡ 0
        → s.solo ≡ p ∷ rest
        → Takes (put_worker idx (record w { start_rss = start }) (record s { solo = rest }), some p)
    from_todo :
        (own start : ℕ) (p : AttrPath) (rest : List AttrPath)
        → s.mode ≡ Mode.parallel
        → s.solo ≡ []
        → s.todo ≡ p ∷ rest
        → HasRoom own
        → Takes (put_worker idx (record w { start_rss = start }) (record s { todo = rest }), some p)

  take_solo-Takes :
      (l : List AttrPath)
      → s.solo ≡ l
      → s.mode ≡ Mode.solo
      → running s.workers ≡ 0
      → Ensures Takes (take_solo idx w s)
  unfolding take_solo
  take_solo-Takes [] e m n = ground (arith, v.tally.solo_progress)
  take_solo-Takes (p ∷ rest) e m n = simp (e, take_solo) (from_solo w.rss p rest m n e)

  take_todo-Takes :
      (own : ℕ) (l : List AttrPath)
      → s.todo ≡ l
      → s.mode ≡ Mode.parallel
      → s.solo ≡ []
      → HasRoom own
      → Takes (take_todo idx w s)
  unfolding take_todo
  take_todo-Takes own [] e m n room = simp (e, take_todo) refuses
  take_todo-Takes own (p ∷ rest) e m n room =
      simp (e, take_todo) (from_todo own w.rss p rest m n e room)

  running-zero : must_wait s ≡ false → is_solo s.mode ≡ true → running s.workers ≡ 0
  unfolding must_wait
  running-zero nobody solo = ground arith

  pub take_job-Takes : (own : ℕ) → Ensures Takes (take_job own idx w s)
  unfolding take_job
  take_job-Takes own =
      Ensures-case Takes (must_wait s) _ _ (λ _. refuses)
        λ nobody.
          Ensures-case Takes (is_solo s.mode) _ _
            (λ solo.
              take_solo-Takes s.solo refl (mode_of_solo s.mode solo) (running-zero nobody solo))
            λ parallel.
              Ensures-case Takes (may_take_todo own s) _ _
                (λ fits.
                  take_todo-Takes own s.todo refl (mode_of_parallel s.mode parallel)
                    (may_take_todo-solo s own fits) (may_take_todo-HasRoom own fits))
                (λ _. refuses)

  -- From here on the worker is idle: it has a process.
  module _ (n : ℕ) (few : Few n s) (ph : w.phase ≡ Phase.idle) where
    -- A handler of this slot that leaves the count of spawnable processes right.
    abbrev pub Handled : Scheduler P J → Type 0
    Handled t = After wire idx s t × Few n t

    idle_proc : (p : Proc) × (w.proc ≡ some p)
    idle_proc = proc_of_phase w (All-get IsSane s.workers idx w v.sane at) (ground arith)

    waiting-set :
        (u : Worker)
        → waiting (set s.workers idx u)
            + (bit (is_phase Phase.starting w.phase) + bit (is_phase Phase.idle w.phase))
          ≡ waiting s.workers
            + (bit (is_phase Phase.starting u.phase) + bit (is_phase Phase.idle u.phase))
    unfolding count_phase
    waiting-set u = omega (
      arith,
      count_if-set (λ x. is_phase Phase.starting x.phase) s.workers idx w u at,
      count_if-set (λ x. is_phase Phase.idle x.phase) s.workers idx w u at,
    )

    exiting-Few :
        (x : ℕ × Bytes)
        → Few n
            (put_worker idx (record w { phase = Phase.exiting }) (record s { io = tell x s.io }))
    exiting-Few x = (
      λ solo. ground (
        arith,
        few.0 solo,
        count_if-set is_alive s.workers idx w (record w { phase = Phase.exiting }) at,
      ),
      λ parallel. ground (arith, few.1 parallel, waiting-set (record w { phase = Phase.exiting })),
    )

    pub send_exit-Handled : finished s ≡ true → Ensures Handled (send_exit idx w s)
    unfolding send_exit send
    send_exit-Handled f =
        let (p, e) = idle_proc in
        Ensures-proc_of Handled w s p _ e (
          Move-After idx s _ w _ (Spec.send_exit s idx w (p.pid, msg_exit) at ph f) at refl
              (omega arith) (omega arith) (λ h. h),
          exiting-Few (p.pid, msg_exit),
        )

    abbrev busy_worker : ℕ → AttrPath → Worker
    busy_worker start path = record w {
      start_rss = start;
      attr_path = some path;
      phase = Phase.busy;
    }

    -- Parallel mode resumes behind the end of a worker that was handed a job.
    Resumed-Few :
        (t u : Scheduler P J) (b : Worker) (p : Proc)
        → get_elem? t.workers idx ≡ some b
        → b.proc ≡ some p
        → Few n t
        → Resumed t u
        → Few n u
    Resumed-Few t u b p here' e kept resumed = (
      λ solo. absurd (let m = resumed.parallel in ground arith),
      λ _.
          rw (resumed.jobs, resumed.waits)
            (elim (Bool-cases (is_solo t.mode)) [
              | inl solo ↦ omega (arith, kept.0 solo, some-alive t.workers idx b p here' e)
              | inr parallel ↦ kept.1 parallel
            ]),
    )

    -- The job that takeJob gave is sent, and the worker may turn out to be gone.
    start_job-Handled :
        (t : Scheduler P J) (start : ℕ) (path : AttrPath) (written : Bool) (wait : Wait)
        → get_elem? t.workers idx ≡ some (record w { start_rss = start })
        → ((x : ℕ × Bytes)
            → Handled (put_worker idx (busy_worker start path) (record t { io = tell x t.io })))
        → Ensures Handled (start_job wire written wait idx path t)
    unfolding start_job send
    start_job-Handled t start path written wait at' taken =
        let (p, e) = idle_proc in
        let busy = busy_worker start path in
        let x : ℕ × Bytes = (p.pid, msg_do ++ wire.dump_path path) in
        let t' = put_worker idx busy (record t { io = tell x t.io }) in
        let here' = get_elem?-set_self t.workers idx (record w { start_rss = start }) busy at' in
        Ensures-worker_at Handled idx t (record w { start_rss = start }) _ at'
          (Ensures-proc_of Handled (record w { start_rss = start }) t p _ e
            (Ensures-if Handled written (ok t') _ (taken x) (
              Ensures-mono (Gone wire idx t' busy here' (Moves-Inv (taken x).0.moves v)) Handled
                (on_eof wire wait idx t')
                (λ u g. (
                  After-trans idx s t' u (taken x).0 g.0,
                  Resumed-Few t' u busy p here' e (taken x).1 (g.1 refl),
                ))
                (on_eof-Gone wire idx t' busy here' (Moves-Inv (taken x).0.moves v) wait p e))))

    -- The transition, where the slot is written twice.
    taken-After :
        (t : Scheduler P J) (start : ℕ) (path : AttrPath) (io : Io P J)
        → t.workers ≡ set s.workers idx (record w { start_rss = start })
        → (is_solo t.mode ≡ true → is_solo s.mode ≡ true)
        → Move wire s
            (put_worker idx (busy_worker start path) (record t { io = io; workers = s.workers }))
        → Few n
            (put_worker idx (busy_worker start path) (record t { io = io; workers = s.workers }))
        → Handled (put_worker idx (busy_worker start path) (record t { io = io }))
    taken-After t start path io e solo m kept =
        let busy = busy_worker start path in
        let same =
          ap (λ ws. set ws idx busy) e
          ∙ set-set s.workers idx (record w { start_rss = start }) busy in
        subst (λ ws. Handled (record t { io = io; workers = ws })) (sym same)
          (Move-After idx s _ w busy m at refl (omega arith) (omega arith) solo, kept)

    solo-Few :
        (start : ℕ) (p : AttrPath) (rest : List AttrPath) (io : Io P J)
        → s.mode ≡ Mode.solo
        → Few n (put_worker idx (busy_worker start p) (record s { solo = rest; io = io }))
    solo-Few start p rest io m = (
      λ solo.
          ground
            (arith, few.0 solo, count_if-set is_alive s.workers idx w (busy_worker start p) at),
      λ parallel. ground arith,
    )

    todo-Few :
        (start : ℕ) (p : AttrPath) (rest : List AttrPath) (io : Io P J)
        → s.mode ≡ Mode.parallel
        → s.todo ≡ p ∷ rest
        → Few n (put_worker idx (busy_worker start p) (record s { todo = rest; io = io }))
    todo-Few start p rest io m e = (
      λ solo. ground arith,
      λ parallel.
          let size : length s.todo ≡ suc (length rest) = ap length e in
          let one : bit (is_phase Phase.starting w.phase) + bit (is_phase Phase.idle w.phase) ≡ 1 =
            ground arith in
          omega (arith, few.1 parallel, waiting-set (busy_worker start p), size, one),
    )

    offer_taken :
        (x : Scheduler P J × Option AttrPath)
        → Takes x
        → Ensures Handled (elim x.1 [
          | none ↦ ok x.0
          | some path ↦ start_job wire (r.written idx) (r.write_wait idx) idx path x.0
        ])
    offer_taken x refuses = (After-refl idx s, few)
    offer_taken x (from_solo start p rest m n e) =
        let t = put_worker idx (record w { start_rss = start }) (record s { solo = rest }) in
        start_job-Handled t start p (r.written idx) (r.write_wait idx)
          (get_elem?-set_self s.workers idx w _ at)
          (λ y.
            taken-After t start p (tell y s.io) refl (λ h. h)
              (Spec.take_solo s idx start w y p rest at ph m n e)
              (solo-Few start p rest (tell y s.io) m))
    offer_taken x (from_todo own start p rest m n e room) =
        let t = put_worker idx (record w { start_rss = start }) (record s { todo = rest }) in
        start_job-Handled t start p (r.written idx) (r.write_wait idx)
          (get_elem?-set_self s.workers idx w _ at)
          (λ y.
            taken-After t start p (tell y s.io) refl (λ h. h)
              (Spec.take_todo s own idx start w y p rest at ph m n e room)
              (todo-Few start p rest (tell y s.io) m e))

    pub offer_job-Handled : Ensures Handled (offer_job wire r idx w s)
    unfolding offer_job
    offer_job-Handled =
        Ensures-bind Takes Handled (take_job (r.own_rss idx) idx w s) _
          (take_job-Takes (r.own_rss idx)) offer_taken
