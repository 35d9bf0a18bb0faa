-- ===== src/Scheduler/Safety/Handlers.antt =====
-- onEof, onKilled, onLine and onResponse follow the transitions and never fault.
use mathlib.Core.List.{foldl}
use nix_eval_jobs.Prelude.{
  ℕ, if◌then◌else◌, ◌+◌, ◌⊎◌, ◌∙◌, count_if-set, false, ◌≡◌, refl, sym, ap, subst, inl, inr, List,
  [], ◌∷◌, ◌++◌, map, Option, none, some, true, get_elem?, set, is_some, insert, nat_ord, list_ord,
  Bytes, Bool-cases, Option-cases, arith, ◌=?◌, is_empty,
}
use nix_eval_jobs.Messages.{msg_next, msg_restart}
use nix_eval_jobs.Drv.{Drv}
use nix_eval_jobs.Response.{Response, Payload, AttrPath}
use nix_eval_jobs.Proc.{
  Proc, Wait, Exit, worker_killed, wait_error, crashed, exited_with, throw_exited,
}
use nix_eval_jobs.Scheduler.Phase.{Phase, Mode}
use nix_eval_jobs.Scheduler.State.{
  ErrorField, no_field, field, not_text, Error, Wire, Worker, Io, Scheduler, no_worker, is_phase,
  is_solo, is_running, count_phase,
}
use nix_eval_jobs.Scheduler.Handlers.{
  sample_rss, reset_worker, job_finished, emit_dumped, emit_response, emit_error, give_back,
  on_killed, catch_killed, doing, reap, eof_worker, on_eof, use_response, emit_or_abort,
  has_pending_constituents, on_response, starting_error, on_starting_line, on_phase_line, on_line,
}
use nix_eval_jobs.Scheduler.Spec.{
  insert_all, Move, Leaves, adds_children, asks_resolver, prints_job, keeps_job, prints_error,
  restarted, started, finish, exited, killed_waiting, killed_retry, killed_error, IsSane, Inv,
}
use nix_eval_jobs.Scheduler.Invariant.{All-get}
use nix_eval_jobs.Scheduler.Safety.{
  IsThrown, After, Ensures, Ensures-bind, Ensures-case, Ensures-mono, Ensures-worker_at,
  Ensures-proc_of, After-refl, Move-After,
}

pub some_of {ℓ} : {A : Type ℓ} (o : Option A) → is_some o ≡ true → (a : A) × (o ≡ some a)
some_of none h = cc
some_of (some a) h = (a, refl)

starting_error-IsThrown :
    {P J : Type 0} (wire : Wire P J) (line : Bytes) → IsThrown (starting_error wire line)
unfolding starting_error
starting_error-IsThrown wire line = of_field (wire.error_field line)
  where
    of_field :
        (f : ErrorField)
        → IsThrown (elim f [
          | no_field ↦ Error.unexpected_line line
          | not_text ↦ Error.error_not_text
          | field msg ↦ if is_empty msg then Error.unexpected_line line else Error.worker_error msg
        ])
    of_field no_field = tt
    of_field not_text = tt
    of_field (field msg) = elim (Bool-cases (is_empty msg)) [
      | inl b ↦ rw (b, IsThrown) tt
      | inr b ↦ rw (b, IsThrown) tt
    ]

foldl-insert_all :
    (path : AttrPath) (names : List Bytes) (todo : List AttrPath)
    → foldl (λ todo name. insert (path ++ name ∷ []) todo) todo names
      ≡ insert_all (map (λ name. path ++ name ∷ []) names) todo
foldl-insert_all path [] todo = refl
foldl-insert_all path (n ∷ names) todo = foldl-insert_all path names (insert (path ++ n ∷ []) todo)

abbrev pub waiting : List Worker → ℕ
waiting ws = count_phase Phase.starting ws + count_phase Phase.idle ws

-- Parallel mode goes on with the jobs of `todo`, and as many workers wait for one.
pub record Resumed {P J : Type 0} (s t : Scheduler P J) : Type 0 where
  pub jobs : t.todo ≡ s.todo
  pub parallel : t.mode ≡ Mode.parallel
  pub waits : waiting t.workers ≡ waiting s.workers

List-cases {ℓ} : {A : Type ℓ} (xs : List A) → (xs ≡ []) ⊎ (is_empty xs ≡ false)
List-cases [] = inl refl
List-cases (x ∷ xs) = inr refl

module _ {P J : Type 0} (wire : Wire P J) (idx : ℕ) (s : Scheduler P J) (w : Worker)
    (at : get_elem? s.workers idx ≡ some w) (v : Inv s) where
  sane : IsSane w
  sane = All-get IsSane s.workers idx w v.sane at

  reset-After :
      (t : Scheduler P J)
      → Move wire s t
      → t.workers ≡ set s.workers idx no_worker
      → (is_solo t.mode ≡ true → is_solo s.mode ≡ true)
      → After wire idx s t
  unfolding no_worker
  reset-After t m e solo = Move-After idx s t w no_worker m at e (omega arith) (ground arith) solo

  -- The end of a worker: if it had a job, Parallel mode resumes.
  abbrev pub Gone : Scheduler P J → Type 0
  Gone t = After wire idx s t × (w.phase ≡ Phase.busy → Resumed s t)

  busy-Resumed :
      (t : Scheduler P J)
      → t.workers ≡ set s.workers idx no_worker
      → t.todo ≡ s.todo
      → t.mode ≡ Mode.parallel
      → w.phase ≡ Phase.busy
      → Resumed s t
  unfolding no_worker count_phase
  busy-Resumed t e jobs parallel ph = record {
    jobs = jobs;
    parallel = parallel;
    waits =
        ap waiting e
        ∙ ground (
          arith,
          count_if-set (λ x. is_phase Phase.starting x.phase) s.workers idx w no_worker at,
          count_if-set (λ x. is_phase Phase.idle x.phase) s.workers idx w no_worker at,
        );
  }

  retry-Gone :
      (p : AttrPath) (mode : Mode)
      → s.mode ≡ mode
      → is_running w ≡ true
      → w.attr_path ≡ some p
      → Gone (record (reset_worker idx (give_back wire p s)) { mode = Mode.parallel })
  unfolding reset_worker give_back emit_error emit_response emit_dumped has_pending_constituents
  retry-Gone p Mode.parallel e r j = simp e (
    reset-After _ (killed_retry s idx w p at r j e) refl (λ h. cc),
    busy-Resumed _ refl refl refl,
  )
  retry-Gone p Mode.solo e r j = simp e (
    reset-After _ (killed_error s idx w p _ at r j e (prints_error _ refl)) refl (λ h. cc),
    busy-Resumed _ refl refl refl,
  )

  on_killed-Gone : Ensures Gone (on_killed wire idx w s)
  unfolding on_killed reset_worker
  on_killed-Gone = elim (Bool-cases (is_running w)) [
    | inl r ↦
        let (p, j) = some_of w.attr_path (sane.has_job r) in
        rw (r, j) (retry-Gone p s.mode refl r j)
    | inr r ↦
        rw r (
          reset-After _ (killed_waiting s idx w at r) refl (λ h. cc),
          busy-Resumed _ refl refl refl,
        )
  ]

  catch_killed-Gone : (e : Exit) → Ensures Gone (catch_killed wire idx w s e)
  unfolding catch_killed
  catch_killed-Gone worker_killed = on_killed-Gone
  catch_killed-Gone (wait_error b) = tt
  catch_killed-Gone (crashed b n) = tt
  catch_killed-Gone (exited_with b n) = tt

  reap-Gone : (wait : Wait) (p : Proc) → w.proc ≡ some p → Ensures Gone (reap wire wait idx w s)
  unfolding reap
  reap-Gone wait p e =
      Ensures-proc_of Gone w s p _ e (catch_killed-Gone (throw_exited (doing w) wait))

  eof_worker-Gone :
      (wait : Wait) (p : Proc) → w.proc ≡ some p → Ensures Gone (eof_worker wire wait idx w s)
  unfolding eof_worker reset_worker
  eof_worker-Gone wait p e = elim (Bool-cases (is_phase Phase.exiting w.phase)) [
    | inl x ↦
        rw x (reset-After _ (exited s idx w at (ground arith)) refl (λ h. h), λ busy. ground arith)
    | inr x ↦ rw x (reap-Gone wait p e)
  ]

  -- The end of a worker that has a process.
  pub on_eof-Gone :
      (wait : Wait) (p : Proc) → w.proc ≡ some p → Ensures Gone (on_eof wire wait idx s)
  unfolding on_eof
  on_eof-Gone wait p e = Ensures-worker_at Gone idx s w _ at (eof_worker-Gone wait p e)

  pub on_eof-After :
      (wait : Wait) (p : Proc)
      → w.proc ≡ some p
      → Ensures (After wire idx s) (on_eof wire wait idx s)
  on_eof-After wait p e =
      Ensures-mono Gone (After wire idx s) (on_eof wire wait idx s) (λ t g. g.0)
        (on_eof-Gone wait p e)

  on_starting_line-After :
      (line : Bytes)
      → w.phase ≡ Phase.starting
      → Ensures (After wire idx s) (on_starting_line wire idx w line s)
  unfolding on_starting_line reset_worker starting_error
  on_starting_line-After line ph = elim (Bool-cases (line =? msg_next)) [
    | inl e ↦ rw e (
        Move-After idx s _ w _ (started s idx w at ph) at refl (omega arith) (omega arith) (λ h. h))
    | inr n ↦ elim (Bool-cases (line =? msg_restart)) [
      | inl e ↦ rw (n, e) (reset-After _ (restarted s idx w at ph) refl (λ h. h))
      | inr r ↦ rw (n, r) (starting_error-IsThrown wire line)
    ]
  ]

  -- What a response does before its worker is free again, or an exception.
  abbrev Used : Response P J → J → Bytes → Scheduler P J → Type 0
  Used r json line t =
      (children : List AttrPath) × (io : Io P J) × Leaves s.resolver r json line s.io children io
      × (t ≡ record s { todo = insert_all children s.todo; io = io })

  finished-After :
      (rss : ℕ) (p : AttrPath) (r : Response P J) (json : J) (line : Bytes) (t : Scheduler P J)
      → w.phase ≡ Phase.busy
      → w.attr_path ≡ some p
      → wire.parse_response line ≡ some (r, json)
      → Used r json line t
      → After wire idx s (job_finished rss idx w t)
  unfolding job_finished sample_rss
  finished-After rss p r json line t ph j reads (children, io, leaves, eq) =
      subst (λ u. After wire idx s (job_finished rss idx w u)) (sym eq)
        (Move-After idx s _ w _ (finish s idx _ _ w io p children line r json at ph j reads leaves)
          at refl (omega arith) (omega arith) (λ h. cc))

  printed-Used :
      (r : Response P J) (json : J) (line : Bytes) (drv : Drv P J) (extra : Option J)
      → r.payload ≡ Payload.job drv extra
      → s.resolver ≡ false
      → Ensures (Used r json line) (emit_or_abort r json line s)
  unfolding emit_or_abort emit_dumped has_pending_constituents
  printed-Used r json line drv extra e off = elim (List-cases drv.constituents.named_constituents) [
    | inl none_named ↦
        simp (e, none_named, emit_or_abort, emit_dumped, has_pending_constituents)
          ([], _, prints_job drv extra e off none_named, refl)
    | inr some_named ↦
        simp (e, some_named, emit_or_abort, emit_dumped, has_pending_constituents)
          ([], _, keeps_job drv extra e off some_named, refl)
  ]

  payload_cases :
      (r : Response P J) (json : J) (line : Bytes) (pl : Payload P J)
      → r.payload ≡ pl
      → Ensures (Used r json line) (use_response r json line s)
  unfolding use_response emit_or_abort emit_dumped has_pending_constituents
  payload_cases r json line (Payload.job drv extra) e =
      simp (e, use_response)
        (Ensures-case (Used r json line) s.resolver _ _
          (λ on. ([], _, asks_resolver drv extra e on, refl))
          (λ off. printed-Used r json line drv extra e off))
  payload_cases r json line (Payload.attrs names) e =
      simp (e, use_response)
        (
          map (λ name. r.attr_path ++ name ∷ []) names,
          s.io,
          adds_children names e,
          ap (λ todo. record s { todo = todo }) (foldl-insert_all r.attr_path names s.todo),
        )
  payload_cases r json line (Payload.error msg true) e =
      simp (e, use_response, emit_or_abort, Ensures) tt
  payload_cases r json line (Payload.error msg false) e =
      simp (e, use_response, emit_or_abort, emit_dumped, has_pending_constituents, Ensures)
        ([], _, prints_error msg e, refl)

  on_response-After :
      (rss : ℕ) (line : Bytes)
      → w.phase ≡ Phase.busy
      → Ensures (After wire idx s) (on_response wire rss idx w line s)
  unfolding on_response
  on_response-After rss line ph = elim (Option-cases (wire.parse_response line)) [
    | inl e ↦ rw (e, on_response, Ensures) tt
    | inr ((r, json), e) ↦
        let (p, j) = some_of w.attr_path (sane.has_job (ground arith)) in
        rw (e, on_response)
          (Ensures-bind (Used r json line) (After wire idx s) (use_response r json line s) _
            (payload_cases r json line r.payload refl)
            (λ t used. finished-After rss p r json line t ph j e used))
  ]

  on_phase_line-After :
      (rss : ℕ) (line : Bytes) (ph : Phase)
      → w.phase ≡ ph
      → Ensures (After wire idx s) (on_phase_line wire rss idx w ph line s)
  unfolding on_phase_line
  on_phase_line-After rss line Phase.none e = tt
  on_phase_line-After rss line Phase.starting e = on_starting_line-After line e
  on_phase_line-After rss line Phase.idle e = tt
  on_phase_line-After rss line Phase.busy e = on_response-After rss line e
  on_phase_line-After rss line Phase.killed e = After-refl idx s
  on_phase_line-After rss line Phase.exiting e = After-refl idx s

  -- A line of a worker.
  pub on_line-After :
      (rss : ℕ) (line : Bytes) → Ensures (After wire idx s) (on_line wire rss idx line s)
  unfolding on_line
  on_line-After rss line =
      Ensures-worker_at (After wire idx s) idx s w _ at (on_phase_line-After rss line w.phase refl)
