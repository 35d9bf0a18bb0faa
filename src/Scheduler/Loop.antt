-- ===== src/Scheduler/Loop.antt =====
-- dispatch, pollWorkers, readWorker and run of `Scheduler` in src/nix-eval-jobs.cc. What the
-- operating system answers in one turn of the loop is a `Round`.
use nix_eval_jobs.Prelude.{
  ℕ, zero, suc, ◌+◌, ◌-◌, List, [], ◌∷◌, ◌++◌, Option, none, some, Bool, true, false, ◌&&◌, ◌||◌,
  not, ltb, leb, min, ◌==◌, if◌then◌else◌, is_empty, is_some, length, Bytes,
}
use nix_eval_jobs.Messages.{msg_exit, msg_do}
use nix_eval_jobs.Response.{AttrPath}
use nix_eval_jobs.Proc.{Proc, Read, Fill, filled, at_eof, read_error, fill, pop_line, Wait}
use nix_eval_jobs.Scheduler.Phase.{Phase}
use nix_eval_jobs.Scheduler.State.{
  Wire, Worker, Scheduler, Error, Result, ok, ◌>>=◌, is_phase, is_solo, running, count_phase,
  any_worker_alive, finished, put_worker, throw, worker_at, proc_of, sample_interval,
}
use nix_eval_jobs.Scheduler.Handlers.{sample_rss, take_job, enter_solo, on_eof, on_line}
use nix_eval_jobs.Scheduler.Memory.{sample_memory}

-- For each slot: the collector's size when it asks for a job, the process that a spawn starts
-- (`none` if it fails) and its size, whether a line could be written, and what waitpid(2) says if
-- not. Of poll(2): whether it fails, and which pipes are ready. The time in milliseconds, and the
-- sizes for the sample. For each ready slot: what read(2) gives, the size of the process after its
-- last line, and what waitpid(2) says at the end of the pipe.
pub record Round : Type 0 where
  pub own_rss : ℕ → ℕ
  pub spawned : ℕ → Option ℕ
  pub spawn_rss : ℕ → ℕ
  pub written : ℕ → Bool
  pub write_wait : ℕ → Wait
  pub poll_error : Bool
  pub ready : ℕ → Bool
  pub now : ℕ
  pub sample_own : ℕ
  pub sample_rss_of : ℕ → ℕ
  pub reads : ℕ → List Read
  pub line_rss : ℕ → ℕ
  pub read_wait : ℕ → Wait

-- The slots that poll(2) is asked about: those with a process.
unfoldable pub owners : ℕ → List Worker → List ℕ
owners idx [] = []
owners idx (w ∷ ws) = let rest = owners (suc idx) ws in if is_some w.proc then idx ∷ rest else rest

module _ {P J : Type 0} where
  -- A line that is written to a worker.
  unfoldable pub send : Proc → Bytes → Scheduler P J → Scheduler P J
  send p line s = record s { io = record s.io { sent = (p.pid, line) ∷ s.io.sent } }

  -- The first branch of dispatch's loop: `exit`, whether or not it can be written.
  unfoldable pub send_exit : ℕ → Worker → Scheduler P J → Result P J (Scheduler P J)
  unfolding send
  send_exit idx w s = do
    p ← proc_of w s
    ok (put_worker idx (record w { phase = Phase.exiting }) (send p msg_exit s))

  -- `w.attrPath = *attrPath; w.phase = Busy; sendLine("do " + ...)`, and onEof if that fails.
  unfoldable pub start_job :
      Wire P J → Bool → Wait → ℕ → AttrPath → Scheduler P J → Result P J (Scheduler P J)
  unfolding send
  start_job wire written wait idx path s = do
    w ← worker_at idx s
    p ← proc_of w s
    let s' =
        put_worker idx (record w { attr_path = some path; phase = Phase.busy })
          (send p (msg_do ++ wire.dump_path path) s)
    if written then ok s' else on_eof wire wait idx s'

  -- The second branch: an idle worker takes a job, if there is one for it.
  unfoldable pub offer_job :
      Wire P J → Round → ℕ → Worker → Scheduler P J → Result P J (Scheduler P J)
  unfolding start_job
  offer_job wire r idx w s = do
    (s', job) ← take_job (r.own_rss idx) idx w s
    elim job [
      | none ↦ ok s'
      | some path ↦ start_job wire (r.written idx) (r.write_wait idx) idx path s'
    ]

  -- The third branch: an empty slot gets a process.
  unfoldable pub spawn_worker : Round → ℕ → Worker → Scheduler P J → Result P J (Scheduler P J)
  unfolding sample_rss
  spawn_worker r idx w s = elim (r.spawned idx) [
    | none ↦ throw Error.spawn_failed s
    | some pid ↦
        let p : Proc = record { pid = pid; buf = []; scanned = 0 } in
        ok (
          put_worker idx
            (sample_rss (r.spawn_rss idx) (record w { proc = some p; phase = Phase.starting })) s)
  ]

  abbrev pub with_spawnable : ℕ → Result P J (Scheduler P J) → Result P J (ℕ × Scheduler P J)
  with_spawnable n m = m >>= λ s. ok (n, s)

  -- The body of dispatch's loop, with the number of workers that may still be spawned.
  unfoldable pub dispatch_worker :
      Wire P J → Round → ℕ → Worker → ℕ → Scheduler P J → Result P J (ℕ × Scheduler P J)
  unfolding send_exit offer_job spawn_worker
  dispatch_worker wire r idx w spawnable s =
      if is_phase Phase.idle w.phase && finished s
      then with_spawnable spawnable (send_exit idx w s)
      else if is_phase Phase.idle w.phase
      then with_spawnable spawnable (offer_job wire r idx w s)
      else if is_phase Phase.none w.phase && (ltb 0 spawnable && not (finished s))
      then with_spawnable (spawnable - 1) (spawn_worker r idx w s)
      else ok (spawnable, s)

  -- dispatch's loop, with `left` workers to go from `idx` on.
  unfoldable pub dispatch_from :
      Wire P J → Round → ℕ → ℕ → ℕ → Scheduler P J → Result P J (Scheduler P J)
  unfolding dispatch_worker
  dispatch_from wire r zero idx spawnable s = ok s
  dispatch_from wire r (suc left) idx spawnable s = do
    w ← worker_at idx s
    (spawnable', s') ← dispatch_worker wire r idx w spawnable s
    dispatch_from wire r left (suc idx) spawnable' s'

  unfoldable pub spawnable_workers : Scheduler P J → ℕ
  spawnable_workers s =
      if is_solo s.mode
      then (if any_worker_alive s.workers then 0 else 1)
      else if is_empty s.solo
      then length s.todo
        - min (length s.todo)
            (count_phase Phase.starting s.workers + count_phase Phase.idle s.workers)
      else 0

  unfoldable pub may_enter_solo : Scheduler P J → Bool
  may_enter_solo s = not (is_solo s.mode) && (not (is_empty s.solo) && running s.workers == 0)

  unfoldable pub dispatch : Wire P J → Round → Scheduler P J → Result P J (Scheduler P J)
  unfolding dispatch_from may_enter_solo spawnable_workers
  dispatch wire r s =
      let s' = if may_enter_solo s then enter_solo s else s in
      dispatch_from wire r (length s'.workers) 0 (spawnable_workers s') s'

  -- The body of readWorker's loop after popLine; `again` is the next round.
  unfoldable pub use_line :
      Wire P J
      → ℕ
      → (Scheduler P J → Result P J (Scheduler P J))
      → ℕ
      → Option Bytes
      → Scheduler P J
      → Result P J (Scheduler P J)
  use_line wire rss again idx none s = ok s
  use_line wire rss again idx (some line) s = on_line wire rss idx line s >>= again

  -- The body of readWorker's loop: a line is taken off the buffer before it is handled, and the
  -- loop ends without a process or without a line.
  unfoldable pub read_next :
      Wire P J
      → ℕ
      → (Scheduler P J → Result P J (Scheduler P J))
      → ℕ
      → Worker
      → Option Proc
      → Scheduler P J
      → Result P J (Scheduler P J)
  unfolding use_line
  read_next wire rss again idx w none s = ok s
  read_next wire rss again idx w (some p) s =
      let (q, line) = pop_line p in
      use_line wire rss again idx line (put_worker idx (record w { proc = some q }) s)

  unfoldable pub read_lines : Wire P J → ℕ → ℕ → ℕ → Scheduler P J → Result P J (Scheduler P J)
  unfolding read_next
  read_lines wire rss zero idx s = throw Error.out_of_fuel s
  read_lines wire rss (suc fuel) idx s =
      worker_at idx s >>= λ w. read_next wire rss (read_lines wire rss fuel idx) idx w w.proc s

  -- `if (eof && w.proc) onEof(idx)`
  unfoldable pub eof_if_alive : Wire P J → Wait → ℕ → Scheduler P J → Result P J (Scheduler P J)
  eof_if_alive wire wait idx s = do
    w ← worker_at idx s
    if is_some w.proc then on_eof wire wait idx s else ok s

  -- readWorker behind `fill`. Every line takes a byte of the buffer, so its length is fuel enough.
  unfoldable pub read_filled :
      Wire P J → ℕ → Wait → ℕ → Worker → Fill → Scheduler P J → Result P J (Scheduler P J)
  unfolding read_lines eof_if_alive
  read_filled wire rss wait idx w (filled p) s =
      read_lines wire rss (suc (length p.buf)) idx (put_worker idx (record w { proc = some p }) s)
  read_filled wire rss wait idx w (at_eof p) s = do
    s' ←
        read_lines wire rss (suc (length p.buf)) idx (put_worker idx (record w { proc = some p }) s)
    eof_if_alive wire wait idx s'
  read_filled wire rss wait idx w read_error s = throw Error.read_failed s

  unfoldable pub read_worker : Wire P J → Round → ℕ → Scheduler P J → Result P J (Scheduler P J)
  unfolding read_filled
  read_worker wire r idx s = do
    w ← worker_at idx s
    p ← proc_of w s
    read_filled wire (r.line_rss idx) (r.read_wait idx) idx w (fill p (r.reads idx)) s

  -- The last loop of pollWorkers.
  unfoldable pub read_ready : Wire P J → Round → List ℕ → Scheduler P J → Result P J (Scheduler P J)
  unfolding read_worker
  read_ready wire r [] s = ok s
  read_ready wire r (idx ∷ idxs) s =
      let here = if r.ready idx then read_worker wire r idx s else ok s in
      here >>= λ s'. read_ready wire r idxs s'

  unfoldable pub sample_now : Round → Scheduler P J → Result P J (Scheduler P J)
  sample_now r s = do
    s' ← sample_memory r.sample_own r.sample_rss_of s
    ok (record s' { last_sample = r.now })

  -- The sample of pollWorkers, when it is due.
  unfoldable pub sample_if_due : Round → Scheduler P J → Result P J (Scheduler P J)
  unfolding sample_now
  sample_if_due r s = if leb (s.last_sample + sample_interval) r.now then sample_now r s else ok s

  unfoldable pub poll_workers : Wire P J → Round → Scheduler P J → Result P J (Scheduler P J)
  unfolding read_ready owners sample_if_due
  poll_workers wire r s =
      if r.poll_error
      then throw Error.poll_failed s
      else (sample_if_due r s >>= λ s'. read_ready wire r (owners 0 s.workers) s')

  -- The condition of the loop of `run`.
  unfoldable pub goes_on : Scheduler P J → Bool
  goes_on s = not (finished s) || any_worker_alive s.workers

  unfoldable pub turn : Wire P J → Round → Scheduler P J → Result P J (Scheduler P J)
  unfolding dispatch poll_workers
  turn wire r s = do s' ← dispatch wire r s; poll_workers wire r s'

  -- `run` over the first rounds of an execution; it stops early when the loop ends.
  unfoldable pub run : Wire P J → List Round → Scheduler P J → Result P J (Scheduler P J)
  unfolding goes_on turn
  run wire [] s = ok s
  run wire (r ∷ rs) s = elim (goes_on s) [
    | true ↦ turn wire r s >>= λ s'. run wire rs s'
    | false ↦ ok s
  ]
