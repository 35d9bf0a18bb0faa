-- ===== src/Scheduler/Spec.antt =====
-- The transitions of the scheduler, named as in spec/scheduler.qnt, and its invariants on phases and
-- counts. They differ from those of that file in these points: a job is taken if the budget has room
-- for the growth of the busy workers, where the file counts the killed ones too; a process is spawned
-- in Parallel mode if the starting and idle workers are fewer than the jobs of `todo`, where the file
-- also wants `solo` to be empty, which a dispatch may have filled after it counted; and they have the
-- children of a response and what the scheduler puts out.
use nix_eval_jobs.Prelude.{
  ℕ, ◌+◌, ◌*◌, ◌≤◌, ◌<◌, ◌++◌, Bytes, length, size_t, insert_or_assign, ◌≡◌, ◌⊎◌, List, [], ◌∷◌,
  Option, none, some, Bool, true, false, not, count_if, get_elem?, map, is_empty, is_some, insert,
  nat_ord, list_ord,
}
use nix_eval_jobs.Drv.{Drv}
use nix_eval_jobs.Response.{AttrPath, Response, Payload, join_attr_path}
use nix_eval_jobs.Proc.{Proc}
use nix_eval_jobs.Proc.Lines.{IsScanned}
use nix_eval_jobs.Scheduler.Phase.{Phase, Mode}
use nix_eval_jobs.Scheduler.State.{
  Wire, Worker, Io, Scheduler, count_phase, total_rss, no_worker, is_phase, is_solo, is_running,
  running, finished, put_worker,
}

abbrev pub is_alive : Worker → Bool
is_alive w = is_some w.proc

abbrev pub alive : List Worker → ℕ
alive ws = count_if is_alive ws

abbrev pub exiting : List Worker → ℕ
exiting ws = count_if (λ w. is_phase Phase.exiting w.phase) ws

abbrev pub insert_all : List AttrPath → List AttrPath → List AttrPath
insert_all [] todo = todo
insert_all (p ∷ ps) todo = insert_all ps (insert p todo)

-- A sample changes sizes and nothing else.
pub data Resized : List Worker → List Worker → Type 0 where
  nil : Resized [] []
  cons :
      (w : Worker) (rss : ℕ) {ws vs : List Worker}
      → Resized ws vs
      → Resized (w ∷ ws) (record w { rss = rss } ∷ vs)

-- No busy worker is larger than `w`.
abbrev pub IsLargestBusy : List Worker → Worker → Type 0
IsLargestBusy ws w =
    (k : ℕ) (v : Worker) → get_elem? ws k ≡ some v → v.phase ≡ Phase.busy → v.rss ≤ w.rss

-- The estimate covers the one before and the growth of every running worker.
abbrev pub IsLearned : ℕ → ℕ → List Worker → Type 0
IsLearned old estimate ws =
    (old ≤ estimate)
    × ((k : ℕ) (v : Worker)
        → get_elem? ws k ≡ some v
        → is_running v ≡ true
        → v.rss ≤ v.start_rss + estimate)

module _ {P J : Type 0} where
  -- What a response leaves: children, or an entry of the map of jobs and a line, or a task for the
  -- resolver; an aggregate that awaits its named constituents has no line yet.
  pub data Leaves (resolver : Bool) (r : Response P J) (json : J) (line : Bytes) (io : Io P J)
      : List AttrPath → Io P J → Type 0 where
    adds_children :
        (names : List Bytes)
        → r.payload ≡ Payload.attrs names
        → Leaves resolver r json line io (map (λ name. r.attr_path ++ name ∷ []) names) io
    asks_resolver :
        (drv : Drv P J) (extra : Option J)
        → r.payload ≡ Payload.job drv extra
        → resolver ≡ true
        → Leaves resolver r json line io [] (record io { pushed = r ∷ io.pushed })
    prints_job :
        (drv : Drv P J) (extra : Option J)
        → r.payload ≡ Payload.job drv extra
        → resolver ≡ false
        → drv.constituents.named_constituents ≡ []
        → Leaves resolver r json line io []
            (record io { jobs = insert_or_assign r.attr json io.jobs; printed = line ∷ io.printed })
    keeps_job :
        (drv : Drv P J) (extra : Option J)
        → r.payload ≡ Payload.job drv extra
        → resolver ≡ false
        → is_empty drv.constituents.named_constituents ≡ false
        → Leaves resolver r json line io []
            (record io { jobs = insert_or_assign r.attr json io.jobs })
    prints_error :
        (msg : Bytes)
        → r.payload ≡ Payload.error msg false
        → Leaves resolver r json line io []
            (record io { jobs = insert_or_assign r.attr json io.jobs; printed = line ∷ io.printed })

  -- The error of a job that exceeds the budget alone.
  abbrev pub too_large : Wire P J → AttrPath → ℕ → Response P J
  too_large wire path budget = record {
    attr = join_attr_path path;
    attr_path = path;
    payload = Payload.error (wire.over_budget budget) false;
    warnings = [];
    traces = [];
    stats = none;
  }

  -- The line that is sent to a process is the newest.
  abbrev pub tell : ℕ × Bytes → Io P J → Io P J
  tell x io = record io { sent = x ∷ io.sent }

  pub data Move (wire : Wire P J) : Scheduler P J → Scheduler P J → Type 0 where
    spawn :
        (s : Scheduler P J) (idx pid rss : ℕ) (w : Worker)
        → get_elem? s.workers idx ≡ some w
        → w.phase ≡ Phase.none
        → finished s ≡ false
        → (is_solo s.mode ≡ true → alive s.workers ≡ 0)
        → (is_solo s.mode ≡ false
            → count_phase Phase.starting s.workers + count_phase Phase.idle s.workers
              < length s.todo)
        → Move wire s (
            put_worker idx
              (record w {
                proc = some (record { pid = pid; buf = []; scanned = 0 });
                phase = Phase.starting;
                rss = rss;
              })
              s)
    send_exit :
        (s : Scheduler P J) (idx : ℕ) (w : Worker) (x : ℕ × Bytes)
        → get_elem? s.workers idx ≡ some w
        → w.phase ≡ Phase.idle
        → finished s ≡ true
        → Move wire s
            (put_worker idx (record w { phase = Phase.exiting }) (record s { io = tell x s.io }))
    enter_solo :
        (s : Scheduler P J)
        → s.mode ≡ Mode.parallel
        → is_empty s.solo ≡ false
        → running s.workers ≡ 0
        → Move wire s (record s { workers = map (λ _. no_worker) s.workers; mode = Mode.solo })
    take_solo :
        (s : Scheduler P J) (idx start : ℕ) (w : Worker) (x : ℕ × Bytes) (p : AttrPath)
        (rest : List AttrPath)
        → get_elem? s.workers idx ≡ some w
        → w.phase ≡ Phase.idle
        → s.mode ≡ Mode.solo
        → running s.workers ≡ 0
        → s.solo ≡ p ∷ rest
        → Move wire s (
            put_worker idx
              (record w { phase = Phase.busy; attr_path = some p; start_rss = start })
              (record s { solo = rest; io = tell x s.io }))
    take_todo :
        (s : Scheduler P J) (own idx start : ℕ) (w : Worker) (x : ℕ × Bytes) (p : AttrPath)
        (rest : List AttrPath)
        → get_elem? s.workers idx ≡ some w
        → w.phase ≡ Phase.idle
        → s.mode ≡ Mode.parallel
        → s.solo ≡ []
        → s.todo ≡ p ∷ rest
        → (0 < count_phase Phase.busy s.workers
            → size_t (
                total_rss own s.workers
                + size_t ((count_phase Phase.busy s.workers + 1) * s.estimate))
              ≤ s.budget)
        → Move wire s (
            put_worker idx
              (record w { phase = Phase.busy; attr_path = some p; start_rss = start })
              (record s { todo = rest; io = tell x s.io }))
    started :
        (s : Scheduler P J) (idx : ℕ) (w : Worker)
        → get_elem? s.workers idx ≡ some w
        → w.phase ≡ Phase.starting
        → Move wire s (put_worker idx (record w { phase = Phase.idle }) s)
    restarted :
        (s : Scheduler P J) (idx : ℕ) (w : Worker)
        → get_elem? s.workers idx ≡ some w
        → w.phase ≡ Phase.starting
        → Move wire s (put_worker idx no_worker s)
    finish :
        (s : Scheduler P J) (idx rss estimate : ℕ) (w : Worker) (io : Io P J) (p : AttrPath)
        (children : List AttrPath) (line : Bytes) (r : Response P J) (json : J)
        → get_elem? s.workers idx ≡ some w
        → w.phase ≡ Phase.busy
        → w.attr_path ≡ some p
        → wire.parse_response line ≡ some (r, json)
        → Leaves s.resolver r json line s.io children io
        → Move wire s (
            put_worker idx
              (record w { phase = Phase.starting; attr_path = none; rss = rss })
              (record s {
                todo = insert_all children s.todo;
                estimate = estimate;
                mode = Mode.parallel;
                io = io;
              }))
    exited :
        (s : Scheduler P J) (idx : ℕ) (w : Worker)
        → get_elem? s.workers idx ≡ some w
        → w.phase ≡ Phase.exiting
        → Move wire s (put_worker idx no_worker s)
    killed_waiting :
        (s : Scheduler P J) (idx : ℕ) (w : Worker)
        → get_elem? s.workers idx ≡ some w
        → is_running w ≡ false
        → Move wire s (put_worker idx no_worker (record s { mode = Mode.parallel }))
    killed_retry :
        (s : Scheduler P J) (idx : ℕ) (w : Worker) (p : AttrPath)
        → get_elem? s.workers idx ≡ some w
        → is_running w ≡ true
        → w.attr_path ≡ some p
        → s.mode ≡ Mode.parallel
        → Move wire s
            (put_worker idx no_worker (record s { solo = p ∷ s.solo; mode = Mode.parallel }))
    killed_error :
        (s : Scheduler P J) (idx : ℕ) (w : Worker) (p : AttrPath) (io : Io P J)
        → get_elem? s.workers idx ≡ some w
        → is_running w ≡ true
        → w.attr_path ≡ some p
        → s.mode ≡ Mode.solo
        → Leaves false
            (too_large wire p s.budget)
            (wire.to_json (too_large wire p s.budget))
            (wire.dump (wire.to_json (too_large wire p s.budget)))
            s.io
            []
            io
        → Move wire s (put_worker idx no_worker (record s { mode = Mode.parallel; io = io }))
    sample :
        (s : Scheduler P J) (estimate : ℕ) (ws : List Worker)
        → Resized s.workers ws
        → IsLearned s.estimate estimate ws
        → Move wire s (record s { workers = ws; estimate = estimate })
    tick : (s : Scheduler P J) (time : ℕ) → Move wire s (record s { last_sample = time })
    kill :
        (s : Scheduler P J) (own idx : ℕ) (w : Worker) (p : Proc)
        → get_elem? s.workers idx ≡ some w
        → w.phase ≡ Phase.busy
        → s.budget < total_rss own s.workers
        → IsLargestBusy s.workers w
        → w.proc ≡ some p
        → Move wire s (
            put_worker idx
              (record w { phase = Phase.killed })
              (record s { io = record s.io { signals = p.pid ∷ s.io.signals } }))
    buffer :
        (s : Scheduler P J) (idx : ℕ) (w : Worker) (p q : Proc)
        → get_elem? s.workers idx ≡ some w
        → w.proc ≡ some p
        → IsScanned q
        → Move wire s (put_worker idx (record w { proc = some q }) s)

  pub data Moves (wire : Wire P J) (s : Scheduler P J) : Scheduler P J → Type 0 where
    here : Moves wire s s
    next : {t u : Scheduler P J} → Moves wire s t → Move wire t u → Moves wire s u

  -- The attribute paths that a transition settles, and those that it may add to `todo`.
  abbrev pub ended : {wire : Wire P J} {s t : Scheduler P J} → Move wire s t → List AttrPath
  ended (finish s idx rss estimate w io p children line r json i b e q l) = p ∷ []
  ended (killed_error s idx w p io i b e m l) = p ∷ []
  ended _ = []

  abbrev pub added : {wire : Wire P J} {s t : Scheduler P J} → Move wire s t → List AttrPath
  added (finish s idx rss estimate w io p children line r json i b e q l) = children
  added _ = []

abbrev pub IsScanned? : Option Proc → Type 0
IsScanned? none = Unit {0}
IsScanned? (some p) = IsScanned p

-- A slot has a process exactly if its phase is not `none`, and a running worker has a job.
pub record IsSane (w : Worker) : Type 0 where
  pub has_proc : is_some w.proc ≡ not (is_phase Phase.none w.phase)
  pub has_job : is_running w ≡ true → is_some w.attr_path ≡ true
  pub scanned : IsScanned? w.proc

abbrev pub All {ℓ κ} : {A : Type ℓ} → (A → Type κ) → List A → Type κ
All Q [] = Unit
All Q (x ∷ xs) = Q x × All Q xs

-- `soloProgress`, the count of `soloAlone`, and the count of `exitingOnlyWhenFinished` of
-- spec/scheduler.qnt.
pub record Tally {P J : Type 0} (s : Scheduler P J) : Type 0 where
  pub solo_progress : is_solo s.mode ≡ true → (0 < running s.workers) ⊎ (is_empty s.solo ≡ false)
  pub solo_alone : is_solo s.mode ≡ true → alive s.workers ≤ 1
  pub exiting_finished : 0 < exiting s.workers → finished s ≡ true

pub record Inv {P J : Type 0} (s : Scheduler P J) : Type 0 where
  pub sane : All IsSane s.workers
  pub tally : Tally s
