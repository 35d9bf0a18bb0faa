-- ===== src/Worker/Rounds.antt =====
-- The rounds of a worker with the collector: processJobRequest and worker of worker.cc, and runWorker
-- of nix-eval-jobs.cc.
use nix_eval_jobs.Prelude.{
  ℕ, ◌+◌, ◌-◌, List, [], ◌∷◌, ◌++◌, Option, none, some, Bool, not, Bytes, if◌then◌else◌, ltb,
  size_t, size_mod, drop, length, Ord, ◌=?◌, list_ord, nat_ord,
}
use nix_eval_jobs.Messages.{starts_with, msg_next, msg_exit, msg_do, msg_restart}
use nix_eval_jobs.Args.{MyArgs}
use nix_eval_jobs.EvalLog.{Logs, take_logs}
use nix_eval_jobs.BufferedIo.{
  Write, Outcome, written, write_failed, blocked, try_write_line, read_line,
}
use nix_eval_jobs.Json.{JsonLib}
use nix_eval_jobs.Drv.Print.{StoreDir}
use nix_eval_jobs.Response.{AttrPath, Response, Payload, join_attr_path}
use nix_eval_jobs.Response.Print.{response_to_json}
use nix_eval_jobs.Worker.{World, value, throws, undefined, Evaluator}
use nix_eval_jobs.Worker.Evaluate.{evaluate}

-- The text behind `do `, as JSON: an attribute path, or why it is none. The exception of the parser
-- and that of an element that is no string are none of nix::Error.
pub data Command : Type 0 where
  not_json not_strings : Bytes → Command
  not_array : Command
  path : AttrPath → Command

-- The JSON of lines, and the messages of the exceptions. `dump` is that of nlohmann::json, of which
-- `none` is the exception for text that is no UTF-8, with `bad_text` for its what(); `error_line`
-- dumps the object of an error in the same way.
pub record Lines (J : Type 0) : Type 0 where
  pub parse_path : Bytes → Command
  pub dump : J → Option Bytes
  pub invalid_command : Bytes → Bytes
  pub invalid_path : Bytes → Bytes
  pub error_line : Bytes → Option Bytes
  pub bad_text : Bytes

-- What the system answers in a round: to the two writes, the bytes of getline(3), the time that the
-- evaluation took, the bytes allocated before and after it, and the resident size in MiB.
pub record Answers : Type 0 where
  pub next_writes : List Write
  pub input : Bytes
  pub elapsed_ms : ℕ
  pub start_alloc : ℕ
  pub end_alloc : ℕ
  pub reply_writes : List Write
  pub rss : ℕ

pub data Next : Type 0 where
  job exit restart : Next

-- How a round ends. `hangs` is a write that never returns.
pub data End : Type 0 where
  ends : Next → End
  throws_nix : Bytes → End
  throws_other : Bytes → End
  hangs faulted : End

-- The evaluator's world, and the bytes on the pipe to the collector.
pub record State (W : Type 0) : Type 0 where
  pub world : World W
  pub out : Bytes

-- What the set-up of `worker` gives, which parses the line of the configuration, opens the stores
-- and evaluates the root: the world and the root value, or an exception, of nix::Error or not.
pub data Setup (W V : Type 0) : Type 0 where
  ready : World W → V → Setup W V
  setup_nix setup_other : Bytes → Setup W V

-- shouldRestart, at a resident size.
unfoldable pub should_restart : ℕ → MyArgs → Bool
should_restart rss args = ltb args.max_memory_size rss

-- The noise from between jobs is dropped.
abbrev pub quiet : {W : Type 0} → World W → World W
quiet w = record w { capture = (take_logs w.capture).0 }

module _ {W E V X D R P J : Type 0} ⦃o : Ord P⦄ (state : Evaluator W E V X D R P J)
    (json : JsonLib J) (dir : StoreDir P) (lines : Lines J) where
  -- What comes after a write that succeeded, and after an error.
  unfoldable pub after_write :
      Outcome → State W → (State W → State W × End) → (State W → State W × End) → State W × End
  after_write (written out) s done broken = done (record s { out = s.out ++ out })
  after_write (write_failed out errno) s done broken = broken (record s { out = s.out ++ out })
  after_write (blocked out) s done broken = (record s { out = s.out ++ out }, hangs)

  abbrev pub stop : State W → State W × End
  stop s = (s, ends Next.exit)

  -- The end of a round, by shouldRestart.
  abbrev pub go_on : MyArgs → Answers → State W → State W × End
  go_on args a s = (s, ends (if should_restart a.rss args then Next.restart else Next.job))

  -- The response to a request, of the payload and the logs of its evaluation.
  unfoldable pub response_of : AttrPath → Answers → Payload P J → Logs → Response P J
  response_of p a payload logs = record {
    attr = join_attr_path p;
    attr_path = p;
    payload = payload;
    warnings = logs.warnings;
    traces = logs.traces;
    stats = some (record {
      wall_ms = size_t a.elapsed_ms;
      alloc_bytes = size_t (a.end_alloc + (size_mod - a.start_alloc));
    });
  }

  -- The write of the reply, if it has a text.
  unfoldable pub send_reply : MyArgs → Answers → State W → Option Bytes → State W × End
  unfolding after_write should_restart
  send_reply args a s none = (s, throws_other lines.bad_text)
  send_reply args a s (some line) =
      after_write (try_write_line a.reply_writes line) s (go_on args a) stop

  -- The end of processJobRequest: the reply, and whether to go on.
  unfoldable pub reply : MyArgs → AttrPath → Answers → Payload P J → State W → State W × End
  unfolding response_of send_reply
  reply args p a payload s =
      let (capture, logs) = take_logs s.world.capture in
      let s' = record s { world = record s.world { capture = capture } } in
      send_reply args a s' (lines.dump (response_to_json json dir (response_of p a payload logs)))

  -- The evaluation, with the capture emptied before it.
  unfoldable pub answer : V → MyArgs → AttrPath → Answers → State W → State W × End
  unfolding reply
  answer root args p a s =
      let (w, r) = evaluate state root p args (quiet s.world) in
      elim r [
        | value payload ↦ reply args p a payload (record s { world = w })
        | throws e ↦ (record s { world = w }, faulted)
        | undefined ↦ (record s { world = w }, faulted)
      ]

  -- What the text behind `do ` asks for.
  unfoldable pub obey : V → MyArgs → Bytes → Answers → State W → Command → State W × End
  unfolding answer
  obey root args line a s (not_json what) = (s, throws_other what)
  obey root args line a s not_array = (s, throws_nix (lines.invalid_path line))
  obey root args line a s (not_strings what) =
      (record s { world = quiet s.world }, throws_other what)
  obey root args line a s (path p) = answer root args p a s

  -- A line of the collector other than `exit`.
  unfoldable pub on_command : V → MyArgs → Bytes → Answers → State W → State W × End
  unfolding obey
  on_command root args line a s =
      if not (starts_with msg_do line)
      then (s, throws_nix (lines.invalid_command line))
      else obey root args line a s (lines.parse_path (drop (length msg_do) line))

  -- What getline(3) read, if anything.
  unfoldable pub on_input : V → MyArgs → Answers → State W → Option Bytes → State W × End
  unfolding on_command
  on_input root args a s none = stop s
  on_input root args a s (some line) =
      if line =? msg_exit then stop s else on_command root args line a s

  -- processJobRequest
  unfoldable pub process_job_request : V → MyArgs → Answers → State W → State W × End
  unfolding on_input after_write
  process_job_request root args a s =
      after_write (try_write_line a.next_writes msg_next) s
        (λ s. on_input root args a s (read_line a.input)) stop

  -- The loop goes on after Next::Job.
  unfoldable pub after_round : (State W → State W × End) → State W × End → State W × End
  after_round more (s, ends Next.job) = more s
  after_round more (s, ends Next.exit) = (s, ends Next.exit)
  after_round more (s, ends Next.restart) = (s, ends Next.restart)
  after_round more (s, throws_nix msg) = (s, throws_nix msg)
  after_round more (s, throws_other what) = (s, throws_other what)
  after_round more (s, hangs) = (s, hangs)
  after_round more (s, faulted) = (s, faulted)

  -- The loop of `worker`, over the answers of the system; at the end of them it waits for more.
  unfoldable pub job_loop : V → MyArgs → List Answers → State W → State W × End
  unfolding process_job_request after_round
  job_loop root args [] s = (s, ends Next.job)
  job_loop root args (a ∷ rounds) s =
      after_round (job_loop root args rounds) (process_job_request root args a s)

  -- The end of the set-up, and the loop behind it.
  unfoldable pub after_setup : MyArgs → List Answers → State W → Setup W V → State W × End
  unfolding job_loop
  after_setup args rounds s (ready w root) = job_loop root args rounds (record s { world = w })
  after_setup args rounds s (setup_nix msg) = (s, throws_nix msg)
  after_setup args rounds s (setup_other what) = (s, throws_other what)

  -- `worker` up to what follows its loop: without a line of the configuration it returns.
  unfoldable pub worker :
      (Bytes → Setup W V) → MyArgs → Option Bytes → List Answers → State W → State W × End
  unfolding after_setup
  worker setup args none rounds s = stop s
  worker setup args (some line) rounds s = after_setup args rounds s (setup line)

  -- The two lines behind an exception of nix::Error, if the first has a text.
  unfoldable pub report_error : List Write → List Write → State W → Option Bytes → State W × End
  unfolding after_write
  report_error error_writes restart_writes s none = (s, throws_other lines.bad_text)
  report_error error_writes restart_writes s (some line) =
      after_write (try_write_line error_writes line) s
        (λ s. after_write (try_write_line restart_writes msg_restart) s stop stop) stop

  -- The end of `worker`, and the handler of runWorker around it.
  unfoldable pub finish_worker : List Write → List Write → State W × End → State W × End
  unfolding after_write report_error
  finish_worker error_writes restart_writes (s, ends Next.job) = (s, ends Next.job)
  finish_worker error_writes restart_writes (s, ends Next.exit) = (s, ends Next.exit)
  finish_worker error_writes restart_writes (s, ends Next.restart) =
      after_write (try_write_line restart_writes msg_restart) s stop stop
  finish_worker error_writes restart_writes (s, throws_nix msg) =
      report_error error_writes restart_writes s (lines.error_line (state.filter_ansi msg))
  finish_worker error_writes restart_writes (s, throws_other what) = (s, throws_other what)
  finish_worker error_writes restart_writes (s, hangs) = (s, hangs)
  finish_worker error_writes restart_writes (s, faulted) = (s, faulted)

  -- runWorker, where the collector's first line is read from `config`.
  unfoldable pub run_worker :
      (Bytes → Setup W V)
      → MyArgs
      → Bytes
      → List Answers
      → List Write
      → List Write
      → State W
      → State W × End
  unfolding worker finish_worker
  run_worker setup args config rounds error_writes restart_writes s =
      finish_worker error_writes restart_writes (worker setup args (read_line config) rounds s)
