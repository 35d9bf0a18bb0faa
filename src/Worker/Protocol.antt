-- ===== src/Worker/Protocol.antt =====
-- What a worker puts on its pipe in a round, and what the collector reads of it.
use nix_eval_jobs.Prelude.{
  ◌≡◌, ◌≤◌, ◌<◌, ◌⊎◌, inl, inr, Bool-cases, ltb, arith, Option, none, refl, ◌∙◌, ap, List, [], ◌∷◌,
  ◌++◌, some, Bytes, suc, length, Ord, if◌then◌else◌, list_ord, nat_ord,
}
use mathlib.Core.List.{reverse}
use nix_eval_jobs.Messages.{msg_next, msg_do}
use nix_eval_jobs.Args.{MyArgs}
use nix_eval_jobs.EvalLog.{LogCall, take_logs}
use nix_eval_jobs.EvalLog.Recorded.{warnings_in, traces_in, on_calls-Recorded}
use nix_eval_jobs.BufferedIo.{
  Outcome, written, write_failed, blocked, try_write_line, read_line, newline,
}
use nix_eval_jobs.BufferedIo.Written.{
  Puts, HasNoError, taken, try_write_line-Puts, try_write_line-written,
}
use nix_eval_jobs.Json.{JsonLib}
use nix_eval_jobs.Drv.Print.{StoreDir}
use nix_eval_jobs.Response.{AttrPath, Response, Payload, join_attr_path}
use nix_eval_jobs.Response.Print.{response_to_json}
use nix_eval_jobs.Worker.{World, Evaluator}
use nix_eval_jobs.Worker.Evaluate.{evaluate_value}
use nix_eval_jobs.Worker.Logged.{IsSound, Saw, Caught, evaluate-Evaluated}
use nix_eval_jobs.Worker.Rounds.{
  path, Lines, Answers, Next, End, ends, hangs, throws_other, State, should_restart, send_reply,
  after_write, go_on, stop, response_of, reply, quiet, answer, on_input, obey, on_command,
  process_job_request,
}

module _ {W E V X D R P J : Type 0} ⦃o : Ord P⦄ (state : Evaluator W E V X D R P J)
    (sound : IsSound state) (json : JsonLib J) (dir : StoreDir P) (lines : Lines J) where
  abbrev pub line_of : Response P J → Option Bytes
  line_of r = lines.dump (response_to_json json dir r)

  -- How a round ends by the outcome of its last write, with what the write put out.
  abbrev pub Ended : MyArgs → Answers → Bytes → Outcome → State W × End → Type 0
  Ended args a before (written out) (s, end) =
      (s.out ≡ before ++ out)
      × (((args.max_memory_size < a.rss) × (end ≡ ends Next.restart))
          ⊎ ((a.rss ≤ args.max_memory_size) × (end ≡ ends Next.job)))
  Ended args a before (write_failed out errno) (s, end) =
      (s.out ≡ before ++ out) × (end ≡ ends Next.exit)
  Ended args a before (blocked out) (s, end) = (s.out ≡ before ++ out) × (end ≡ hangs)

  -- The reply of a round by the text of its response: the line, or the exception of text that is
  -- no UTF-8, which nothing more is written behind.
  pub data Sent (args : MyArgs) (a : Answers) (before : Bytes) (text : Option Bytes)
      (r : State W × End) : Type 0 where
    a_line :
        (line : Bytes)
        → text ≡ some line
        → Puts (line ++ newline ∷ []) (try_write_line a.reply_writes line)
        → Ended args a before (try_write_line a.reply_writes line) r
        → Sent args a before text r
    no_text :
        text ≡ none
        → r.0.out ≡ before
        → r.1 ≡ throws_other lines.bad_text
        → Sent args a before text r

  -- A request for `p` was evaluated to a response for `p`, with the payload of its evaluation and
  -- the warnings and traces of the calls of the logger during it, which is sent as one line if it
  -- has a text.
  pub record Replied (root : V) (args : MyArgs) (p : AttrPath) (a : Answers) (w : World W)
      (before : Bytes) (r : State W × End) : Type 0 where
    pub response : Response P J
    pub calls : List LogCall
    pub attr : response.attr ≡ join_attr_path p
    pub attr_path : response.attr_path ≡ p
    pub payload : Caught state sound (evaluate_value state root p args (quiet w)).1 response.payload
    pub warnings : response.warnings ≡ warnings_in state.filter_ansi calls
    pub traces : response.traces ≡ traces_in state.filter_ansi calls
    pub forwarded : r.0.world.capture.forwarded ≡ reverse calls ++ w.capture.forwarded
    pub sent : Sent args a before (line_of response) r

  restart-cases :
      (args : MyArgs) (a : Answers)
      → let end = ends (if should_restart a.rss args then Next.restart else Next.job) in
        ((args.max_memory_size < a.rss) × (end ≡ ends Next.restart))
        ⊎ ((a.rss ≤ args.max_memory_size) × (end ≡ ends Next.job))
  unfolding should_restart
  restart-cases args a = elim (Bool-cases (ltb args.max_memory_size a.rss)) [
    | inl h ↦ inl (ground arith, rw h refl)
    | inr h ↦ inr (ground arith, rw h refl)
  ]

  write-Ended :
      (args : MyArgs) (a : Answers) (o : Outcome) (s : State W)
      → let r =
          after_write state json dir lines o s
            (go_on state json dir lines args a)
            (stop state json dir lines) in
        Ended args a s.out o r × (r.0.world ≡ s.world)
  unfolding after_write
  write-Ended args a (written out) s = ((refl, restart-cases args a), refl)
  write-Ended args a (write_failed out errno) s = ((refl, refl), refl)
  write-Ended args a (blocked out) s = ((refl, refl), refl)

  send_reply-Sent :
      (args : MyArgs) (a : Answers) (s : State W) (text : Option Bytes)
      → let r = send_reply state json dir lines args a s text in
        Sent args a s.out text r × (r.0.world ≡ s.world)
  unfolding send_reply
  send_reply-Sent args a s none = (no_text refl refl refl, refl)
  send_reply-Sent args a s (some line) =
      let (ended, same) = write-Ended args a (try_write_line a.reply_writes line) s in
      (a_line line refl (try_write_line-Puts a.reply_writes line) ended, same)

  module _ (root : V) (args : MyArgs) (p : AttrPath) (a : Answers) where
    reply-Replied :
        (s : State W) (w : World W) (payload : Payload P J)
        → Caught state sound (evaluate_value state root p args (quiet s.world)).1 payload
        → Saw state.filter_ansi (quiet s.world) w
        → Replied root args p a s.world s.out
            (reply state json dir lines args p a payload (record s { world = w }))
    unfolding reply response_of take_logs
    reply-Replied s w payload caught (calls, eq) =
        let seen = on_calls-Recorded state.filter_ansi calls (take_logs s.world.capture).0 in
        let r = response_of state json dir lines p a payload (take_logs w.capture).1 in
        let (sent, same) =
          send_reply-Sent args a
            (record s { world = record w { capture = (take_logs w.capture).0 } }) (line_of r) in
        record {
          response = r;
          calls = calls;
          attr = refl;
          attr_path = refl;
          payload = caught;
          warnings = ap (λ c. c.logs.warnings) eq ∙ seen.warnings;
          traces = ap (λ c. c.logs.traces) eq ∙ seen.traces;
          forwarded =
              ap (λ w. w.capture.forwarded) same ∙ ap (λ c. c.forwarded) eq ∙ seen.forwarded;
          sent = sent;
        }

    -- The answer to a request, from the evaluation to the reply.
    pub answer-Replied :
        (s : State W)
        → Replied root args p a s.world s.out (answer state json dir lines root args p a s)
    unfolding answer
    answer-Replied s =
        let e = evaluate-Evaluated state sound root p args (quiet s.world) in
        rw (e.gives, answer) (reply-Replied s _ e.payload e.caught e.saw)

    -- A worker whose `next` got out, and that then reads a line that asks for the path `p`, makes a
    -- response for `p`, whatever the evaluation throws, with the payload of the evaluation, and the
    -- warnings and traces of the calls of the logger that the evaluation made and of no earlier
    -- ones. If the response has a text as JSON, it is sent as one line; once that got out, the
    -- worker restarts if it is larger than its share of memory and goes on if it is not, and it
    -- exits if the collector is gone. If it has none, nothing more is sent, and the exception that
    -- ends the worker is none of nix::Error.
    pub process_job_request-Replied :
        (s : State W) (text : Bytes)
        → HasNoError a.next_writes
        → suc (length msg_next) ≤ taken a.next_writes
        → read_line a.input ≡ some (msg_do ++ text)
        → lines.parse_path text ≡ path p
        → Replied root args p a s.world
            (s.out ++ (msg_next ++ newline ∷ []))
            (process_job_request state json dir lines root args a s)
    unfolding process_job_request on_input on_command obey after_write
    process_job_request-Replied s text clear fits asked parsed =
        rw (try_write_line-written a.next_writes msg_next clear fits) (
          rw asked
            (rw parsed (answer-Replied (record s { out = s.out ++ (msg_next ++ newline ∷ []) }))))
