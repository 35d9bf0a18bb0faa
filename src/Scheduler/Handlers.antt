-- ===== src/Scheduler/Handlers.antt =====
-- The handlers of `Scheduler` in src/nix-eval-jobs.cc: handing out a job, finishing one, the
-- memory sample, the lines and the end of a worker. Log messages are left out. Resident sizes, and
-- what waitpid(2) says of a worker that is gone, are arguments.
use nix_eval_jobs.Prelude.{
  ℕ, ◌*◌, ◌/◌, List, [], ◌∷◌, ◌++◌, Option, none, some, Bool, false, ◌&&◌, ◌||◌, not, Bytes, ltb,
  max, if◌then◌else◌, size_t, is_empty, set, map, insert, is_some, insert_or_assign, ◌=?◌, nat_ord,
  list_ord,
}
use mathlib.Core.List.{foldl}
use nix_eval_jobs.Messages.{ascii, msg_next, msg_restart}
use nix_eval_jobs.Response.{Response, Payload, AttrPath, join_attr_path}
use nix_eval_jobs.Proc.{Wait, Exit, worker_killed, throw_exited}
use nix_eval_jobs.Scheduler.Phase.{Phase, Mode}
use nix_eval_jobs.Scheduler.State.{
  Wire, no_field, field, not_text, Worker, Scheduler, Error, Result, ok, ◌>>=◌, no_worker, is_phase,
  is_solo, is_running, growth, running, fits_budget, put_worker, throw, worker_at, proc_of,
  decay_percent,
}

-- Worker::sampleRss, where the process has resident size `size`.
unfoldable pub sample_rss : ℕ → Worker → Worker
sample_rss size w = record w { rss = if is_some w.proc then size else 0 }

-- The least element of a set, and the others.
abbrev pub pop_first : List AttrPath → Option (AttrPath × List AttrPath)
pop_first [] = none
pop_first (p ∷ ps) = some (p, ps)

-- An aggregate that awaits its named constituents.
unfoldable pub has_pending_constituents : {P J : Type 0} → Payload P J → Bool
has_pending_constituents (Payload.job drv extra) =
    not (is_empty drv.constituents.named_constituents)
has_pending_constituents (Payload.attrs names) = false
has_pending_constituents (Payload.error msg fatal) = false

unfoldable pub path_or_null : Option AttrPath → AttrPath
path_or_null none = []
path_or_null (some path) = path

-- What the worker was doing, for the message of the exception.
unfoldable pub doing : Worker → Bytes
unfolding path_or_null
doing w =
    if is_running w
    then ascii "evaluating '" ++ (join_attr_path (path_or_null w.attr_path) ++ ascii "'")
    else ascii "starting worker"

module _ {P J : Type 0} where
  -- The branch of takeJob in Solo mode, which takes the back of the vector.
  unfoldable pub take_solo :
      ℕ → Worker → Scheduler P J → Result P J (Scheduler P J × Option AttrPath)
  take_solo idx w s = elim s.solo [
    | [] ↦ throw Error.fault s
    | p ∷ rest ↦
        ok (put_worker idx (record w { start_rss = w.rss }) (record s { solo = rest }), some p)
  ]

  -- The branch of takeJob in Parallel mode, behind the test `!todo.empty()`.
  unfoldable pub take_todo : ℕ → Worker → Scheduler P J → Scheduler P J × Option AttrPath
  take_todo idx w s = elim s.todo [
    | [] ↦ (s, none)
    | p ∷ rest ↦
        (put_worker idx (record w { start_rss = w.rss }) (record s { todo = rest }), some p)
  ]

  -- One at a time in Solo mode, and drain before it.
  unfoldable pub must_wait : Scheduler P J → Bool
  must_wait s = ltb 0 (running s.workers) && (is_solo s.mode || not (is_empty s.solo))

  unfoldable pub may_take_todo : ℕ → Scheduler P J → Bool
  may_take_todo own s = is_empty s.solo && (not (is_empty s.todo) && fits_budget own s)

  -- takeJob
  unfoldable pub take_job :
      ℕ → ℕ → Worker → Scheduler P J → Result P J (Scheduler P J × Option AttrPath)
  unfolding take_solo take_todo must_wait may_take_todo
  take_job own idx w s =
      if must_wait s
      then ok (s, none)
      else if is_solo s.mode
      then take_solo idx w s
      else if may_take_todo own s
      then ok (take_todo idx w s)
      else ok (s, none)

  -- enterSolo
  unfoldable pub enter_solo : Scheduler P J → Scheduler P J
  enter_solo s = record s { workers = map (λ _. no_worker) s.workers; mode = Mode.solo }

  -- resetWorker
  unfoldable pub reset_worker : ℕ → Scheduler P J → Scheduler P J
  reset_worker idx s = put_worker idx no_worker s

  -- jobFinished
  unfoldable pub job_finished : ℕ → ℕ → Worker → Scheduler P J → Scheduler P J
  unfolding sample_rss
  job_finished rss idx w s =
      let w' = sample_rss rss w in
      record s {
        estimate = max (size_t (s.estimate * decay_percent) / 100) (growth w');
        workers = set s.workers idx (record w' { phase = Phase.starting; attr_path = none });
        mode = Mode.parallel;
      }

  -- The two overloads of emitResponse, over the output of the scheduler.
  unfoldable pub emit_dumped : Response P J → J → Bytes → Scheduler P J → Scheduler P J
  emit_dumped r json dumped s =
      let io' = record s.io { jobs = insert_or_assign r.attr json s.io.jobs } in
      record s {
        io =
            if has_pending_constituents r.payload
            then io'
            else record io' { printed = dumped ∷ io'.printed };
      }

  unfoldable pub emit_response : Wire P J → Response P J → Scheduler P J → Scheduler P J
  unfolding emit_dumped
  emit_response wire r s = emit_dumped r (wire.to_json r) (wire.dump (wire.to_json r)) s

  -- emitError
  unfoldable pub emit_error : Wire P J → AttrPath → Bytes → Scheduler P J → Scheduler P J
  unfolding emit_response
  emit_error wire path msg s =
      emit_response wire
        (record {
          attr = join_attr_path path;
          attr_path = path;
          payload = Payload.error msg false;
          warnings = [];
          traces = [];
          stats = none;
        })
        s

  -- The job of a worker that was killed: an error in Solo mode, else queued for a retry alone.
  unfoldable pub give_back : Wire P J → AttrPath → Scheduler P J → Scheduler P J
  unfolding emit_error
  give_back wire path s =
      if is_solo s.mode
      then emit_error wire path (wire.over_budget s.budget) s
      else record s { solo = path ∷ s.solo }

  -- onKilled
  unfoldable pub on_killed : Wire P J → ℕ → Worker → Scheduler P J → Result P J (Scheduler P J)
  unfolding give_back reset_worker
  on_killed wire idx w s = do
    s' ←
        if is_running w
        then elim w.attr_path [
          | none ↦ throw Error.fault s
          | some path ↦ ok (give_back wire path s)
        ]
        else ok s
    ok (record (reset_worker idx s') { mode = Mode.parallel })

  -- `throw_exited` always throws, and only WorkerKilled is caught.
  unfoldable pub catch_killed :
      Wire P J → ℕ → Worker → Scheduler P J → Exit → Result P J (Scheduler P J)
  unfolding on_killed
  catch_killed wire idx w s worker_killed = on_killed wire idx w s
  catch_killed wire idx w s e = throw (Error.process_exit e) s

  -- `w.proc->throwExited(doing)` and its handler.
  unfoldable pub reap : Wire P J → Wait → ℕ → Worker → Scheduler P J → Result P J (Scheduler P J)
  unfolding catch_killed doing
  reap wire wait idx w s = do
    p ← proc_of w s
    catch_killed wire idx w s (throw_exited (doing w) wait)

  unfoldable pub eof_worker :
      Wire P J → Wait → ℕ → Worker → Scheduler P J → Result P J (Scheduler P J)
  unfolding reap reset_worker
  eof_worker wire wait idx w s =
      if is_phase Phase.exiting w.phase then ok (reset_worker idx s) else reap wire wait idx w s

  -- onEof
  unfoldable pub on_eof : Wire P J → Wait → ℕ → Scheduler P J → Result P J (Scheduler P J)
  unfolding eof_worker
  on_eof wire wait idx s = do w ← worker_at idx s; eof_worker wire wait idx w s

  -- The children of an attribute set join `todo`.
  unfoldable pub insert_children : AttrPath → List Bytes → Scheduler P J → Scheduler P J
  insert_children path names s = record s {
    todo = foldl (λ todo name. insert (path ++ name ∷ []) todo) s.todo names;
  }

  -- The last branch of onResponse: a fatal error is printed before it is thrown.
  unfoldable pub emit_or_abort :
      Response P J → J → Bytes → Scheduler P J → Result P J (Scheduler P J)
  unfolding emit_dumped
  emit_or_abort r json line s =
      let s' = emit_dumped r json line s in
      elim r.payload [
        | Payload.job drv extra ↦ ok s'
        | Payload.attrs names ↦ ok s'
        | Payload.error msg fatal ↦ if fatal then throw (Error.fatal_error msg) s' else ok s'
      ]

  -- The three branches of onResponse.
  unfoldable pub use_response :
      Response P J → J → Bytes → Scheduler P J → Result P J (Scheduler P J)
  unfolding insert_children emit_or_abort
  use_response r json line s = elim r.payload [
    | Payload.attrs names ↦ ok (insert_children r.attr_path names s)
    | Payload.job drv extra ↦
        if s.resolver
        then ok (record s { io = record s.io { pushed = r ∷ s.io.pushed } })
        else emit_or_abort r json line s
    | Payload.error msg fatal ↦ emit_or_abort r json line s
  ]

  -- onResponse
  unfoldable pub on_response :
      Wire P J → ℕ → ℕ → Worker → Bytes → Scheduler P J → Result P J (Scheduler P J)
  unfolding use_response job_finished
  on_response wire rss idx w line s = elim (wire.parse_response line) [
    | none ↦ throw (Error.invalid_json line) s
    | some (r, json) ↦ do s' ← use_response r json line s; ok (job_finished rss idx w s')
  ]

  -- What onLine throws at an unknown line of a worker that starts.
  unfoldable pub starting_error : Wire P J → Bytes → Error
  starting_error wire line = elim (wire.error_field line) [
    | no_field ↦ Error.unexpected_line line
    | not_text ↦ Error.error_not_text
    | field msg ↦ if is_empty msg then Error.unexpected_line line else Error.worker_error msg
  ]

  unfoldable pub on_starting_line :
      Wire P J → ℕ → Worker → Bytes → Scheduler P J → Result P J (Scheduler P J)
  unfolding starting_error reset_worker
  on_starting_line wire idx w line s =
      if line =? msg_next
      then ok (put_worker idx (record w { phase = Phase.idle }) s)
      else if line =? msg_restart
      then ok (reset_worker idx s)
      else throw (starting_error wire line) s

  unfoldable pub on_phase_line :
      Wire P J → ℕ → ℕ → Worker → Phase → Bytes → Scheduler P J → Result P J (Scheduler P J)
  unfolding on_starting_line on_response
  on_phase_line wire rss idx w Phase.starting line s = on_starting_line wire idx w line s
  on_phase_line wire rss idx w Phase.busy line s = on_response wire rss idx w line s
  on_phase_line wire rss idx w Phase.killed line s = ok s
  on_phase_line wire rss idx w Phase.exiting line s = ok s
  on_phase_line wire rss idx w Phase.none line s = throw (Error.unexpected_idle_line line) s
  on_phase_line wire rss idx w Phase.idle line s = throw (Error.unexpected_idle_line line) s

  -- onLine
  unfoldable pub on_line : Wire P J → ℕ → ℕ → Bytes → Scheduler P J → Result P J (Scheduler P J)
  unfolding on_phase_line
  on_line wire rss idx line s = do w ← worker_at idx s; on_phase_line wire rss idx w w.phase line s
