-- ===== src/Worker/Loop.antt =====
-- The whole of what a worker puts on its pipe: the loop of worker.cc and the handler of runWorker.
use nix_eval_jobs.Prelude.{
  ◌≡◌, ◌≢◌, refl, sym, ◌∙◌, ap, subst, List, [], ◌∷◌, ◌++◌, Option, none, some, Bytes, Ord, ◌=?◌,
  list_ord, nat_ord, drop, length, Bool-cases, inl, inr, ◌⊎◌,
}
use mathlib.Core.List.{append_assoc}
use nix_eval_jobs.Messages.{starts_with, msg_next, msg_exit, msg_do, msg_restart}
use nix_eval_jobs.Args.{MyArgs}
use nix_eval_jobs.BufferedIo.{Write, Outcome, written, write_failed, blocked, read_line, newline}
use nix_eval_jobs.BufferedIo.Written.{Puts, try_write_line-Puts}
use nix_eval_jobs.Json.{JsonLib}
use nix_eval_jobs.Drv.Print.{StoreDir}
use nix_eval_jobs.Response.{Response}
use nix_eval_jobs.Worker.{Evaluator}
use nix_eval_jobs.Worker.Logged.{IsSound}
use nix_eval_jobs.Worker.Rounds.{
  Command, path, not_json, not_array, not_strings, Lines, Answers, Next, End, ends, throws_nix,
  throws_other, hangs, State, after_write, stop, obey, on_input, on_command, process_job_request,
  finish_worker,
}
use nix_eval_jobs.Worker.Protocol.{line_of, Ended, Sent, a_line, no_text, answer-Replied}

-- A write or the collector put an end to a round.
abbrev pub Over : End → Type 0
Over e = (e ≡ ends Next.exit) ⊎ (e ≡ hangs)

module _ {W E V X D R P J : Type 0} ⦃o : Ord P⦄ (state : Evaluator W E V X D R P J)
    (sound : IsSound state) (json : JsonLib J) (dir : StoreDir P) (lines : Lines J) where
  abbrev pub said : Bytes → Bytes
  said line = line ++ newline ∷ []

  -- What a round adds to what was on the pipe: `next` and a response, if it goes on or restarts;
  -- `next` and a beginning of a response; `next` and an exception; or a beginning of `next`.
  pub data Turn (b : Bytes) : State W × End → Type 0 where
    answered :
        (r : Response P J) (line : Bytes) (s : State W) (n : Next)
        → line_of state sound json dir lines r ≡ some line
        → n ≢ Next.exit
        → s.out ≡ b ++ (said msg_next ++ said line)
        → Turn b (s, ends n)
    cut :
        (r : Response P J) (line : Bytes) (s : State W) (e : End) (out rest : Bytes)
        → line_of state sound json dir lines r ≡ some line
        → out ++ rest ≡ said line
        → s.out ≡ b ++ (said msg_next ++ out)
        → Over e
        → Turn b (s, e)
    stopped :
        (s : State W) (e : End) (out rest : Bytes)
        → out ++ rest ≡ said msg_next
        → s.out ≡ b ++ out
        → Over e
        → Turn b (s, e)
    threw_nix :
        (s : State W) (msg : Bytes) → s.out ≡ b ++ said msg_next → Turn b (s, throws_nix msg)
    threw_other :
        (s : State W) (what : Bytes) → s.out ≡ b ++ said msg_next → Turn b (s, throws_other what)

  module _ (root : V) (args : MyArgs) (a : Answers) where
    sent :
        (b before out : Bytes) (s : State W)
        → before ≡ b ++ said msg_next
        → s.out ≡ before ++ out
        → s.out ≡ b ++ (said msg_next ++ out)
    sent b before out s start p = p ∙ ap (λ x. x ++ out) start ∙ append_assoc b (said msg_next) out

    ended-Turn :
        (b before line : Bytes) (r : Response P J) (o : Outcome) (x : State W × End)
        → before ≡ b ++ said msg_next
        → line_of state sound json dir lines r ≡ some line
        → Puts (said line) o
        → Ended state sound json dir lines args a before o x
        → Turn b x
    ended-Turn b before line r (written out) (s, e) start has puts (p, inl (_, q)) =
        subst (λ e. Turn b (s, e)) (sym q)
          (answered r line s _ has (λ h. cc)
            (sent b before out s start p ∙ ap (λ x. b ++ (said msg_next ++ x)) puts))
    ended-Turn b before line r (written out) (s, e) start has puts (p, inr (_, q)) =
        subst (λ e. Turn b (s, e)) (sym q)
          (answered r line s _ has (λ h. cc)
            (sent b before out s start p ∙ ap (λ x. b ++ (said msg_next ++ x)) puts))
    ended-Turn b before line r (write_failed out errno) (s, e) start has (rest, puts, _) (p, q) =
        cut r line s e out rest has puts (sent b before out s start p) (inl q)
    ended-Turn b before line r (blocked out) (s, e) start has (rest, puts, _) (p, q) =
        cut r line s e out rest has puts (sent b before out s start p) (inr q)

    sent-Turn :
        (b before : Bytes) (r : Response P J) (x : State W × End)
        → before ≡ b ++ said msg_next
        → Sent state sound json dir lines args a before (line_of state sound json dir lines r) x
        → Turn b x
    sent-Turn b before r x start (a_line line has puts ended) =
        ended-Turn b before line r _ x start has puts ended
    sent-Turn b before r (s, e) start (no_text _ out dies) =
        subst (λ e. Turn b (s, e)) (sym dies) (threw_other s _ (out ∙ start))

    obey-Turn :
        (b line : Bytes) (s : State W) (c : Command)
        → s.out ≡ b ++ said msg_next
        → Turn b (obey state json dir lines root args line a s c)
    unfolding obey
    obey-Turn b line s (not_json what) h = threw_other s what h
    obey-Turn b line s not_array h = threw_nix s _ h
    obey-Turn b line s (not_strings what) h = threw_other _ what h
    obey-Turn b line s (path p) h =
        let x = answer-Replied state sound json dir lines root args p a s in
        sent-Turn b s.out x.response _ h x.sent

    on_input-Turn :
        (b : Bytes) (s : State W) (input : Option Bytes)
        → s.out ≡ b ++ said msg_next
        → Turn b (on_input state json dir lines root args a s input)
    unfolding on_input on_command
    on_input-Turn b s none h = stopped s _ (said msg_next) [] refl h (inl refl)
    on_input-Turn b s (some line) h = elim (Bool-cases (line =? msg_exit)) [
      | inl e ↦ rw e (stopped s _ (said msg_next) [] refl h (inl refl))
      | inr e ↦ rw e (elim (Bool-cases (starts_with msg_do line)) [
        | inl e' ↦ rw e' (obey-Turn b line s (lines.parse_path (drop (length msg_do) line)) h)
        | inr e' ↦ rw e' (threw_nix s (lines.invalid_command line) h)
      ])
    ]

    first-Turn :
        (s : State W) (o : Outcome)
        → Puts (said msg_next) o
        → Turn s.out (
            after_write state json dir lines o s
              (λ s. on_input state json dir lines root args a s (read_line a.input))
              (stop state json dir lines))
    unfolding after_write
    first-Turn s (written out) puts = on_input-Turn s.out _ _ (ap (λ x. s.out ++ x) puts)
    first-Turn s (write_failed out errno) (rest, puts, _) =
        stopped _ _ out rest puts refl (inl refl)
    first-Turn s (blocked out) (rest, puts, _) = stopped _ _ out rest puts refl (inr refl)

    -- What a round puts on the pipe, whatever the system answers and the collector sends.
    pub process_job_request-Turn :
        (s : State W) → Turn s.out (process_job_request state json dir lines root args a s)
    unfolding process_job_request
    process_job_request-Turn s = first-Turn s _ (try_write_line-Puts a.next_writes msg_next)

  -- What a worker adds to what was on the pipe until it ends, or waits for more: rounds that go on,
  -- and at last a round and a beginning of `restart`, at most all of it; or a beginning of a round;
  -- or `next` and a beginning of an error and `restart`; or `next` and an exception that is none of
  -- nix::Error.
  pub data Talk : Bytes → State W × End → Type 0 where
    waits : (s : State W) → Talk s.out (s, ends Next.job)
    round :
        (b : Bytes) (r : Response P J) (line : Bytes) (x : State W × End)
        → line_of state sound json dir lines r ≡ some line
        → Talk (b ++ (said msg_next ++ said line)) x
        → Talk b x
    restarts :
        (b : Bytes) (r : Response P J) (line : Bytes) (s : State W) (e : End) (out rest : Bytes)
        → line_of state sound json dir lines r ≡ some line
        → out ++ rest ≡ said msg_restart
        → s.out ≡ (b ++ (said msg_next ++ said line)) ++ out
        → Over e
        → Talk b (s, e)
    breaks :
        (b : Bytes) (r : Response P J) (line : Bytes) (s : State W) (e : End) (out rest : Bytes)
        → line_of state sound json dir lines r ≡ some line
        → out ++ rest ≡ said line
        → s.out ≡ b ++ (said msg_next ++ out)
        → Over e
        → Talk b (s, e)
    stops :
        (b : Bytes) (s : State W) (e : End) (out rest : Bytes)
        → out ++ rest ≡ said msg_next
        → s.out ≡ b ++ out
        → Over e
        → Talk b (s, e)
    fails :
        (b msg line : Bytes) (s : State W) (e : End) (out rest : Bytes)
        → lines.error_line msg ≡ some line
        → out ++ rest ≡ said line ++ said msg_restart
        → s.out ≡ (b ++ said msg_next) ++ out
        → Over e
        → Talk b (s, e)
    dies :
        (b : Bytes) (s : State W) (what : Bytes)
        → s.out ≡ b ++ said msg_next
        → Talk b (s, throws_other what)

  -- The same from the start of the process: it ends without a word, if there is no configuration;
  -- or by an exception of its set-up, with a beginning of an error and `restart`, or without a word
  -- if the exception is none of nix::Error; or the rounds follow.
  pub data Says (b : Bytes) : State W × End → Type 0 where
    talks : (x : State W × End) → Talk b x → Says b x
    is_silent : (s : State W) → s.out ≡ b → Says b (s, ends Next.exit)
    fails_early :
        (msg line : Bytes) (s : State W) (e : End) (out rest : Bytes)
        → lines.error_line msg ≡ some line
        → out ++ rest ≡ said line ++ said msg_restart
        → s.out ≡ b ++ out
        → Over e
        → Says b (s, e)
    dies_early : (s : State W) (what : Bytes) → s.out ≡ b → Says b (s, throws_other what)

  -- A write of `text` and nothing after it: a beginning of the text, and an end.
  pub data Wrote (b text : Bytes) (x : State W × End) : Type 0 where
    wrote_part :
        (out rest : Bytes) → out ++ rest ≡ text → x.0.out ≡ b ++ out → Over x.1 → Wrote b text x

  abbrev last_write : Outcome → State W → State W × End
  last_write o s =
      after_write state json dir lines o s (stop state json dir lines) (stop state json dir lines)

  module _ (error_writes restart_writes : List Write) where
    abbrev finished : State W × End → State W × End
    finished = finish_worker state json dir lines error_writes restart_writes

    -- What the handler of runWorker says of an exception.
    data Reports (b msg : Bytes) : State W × End → Type 0 where
      reports :
          (line : Bytes) (s : State W) (e : End) (out rest : Bytes)
          → lines.error_line msg ≡ some line
          → out ++ rest ≡ said line ++ said msg_restart
          → s.out ≡ b ++ out
          → Over e
          → Reports b msg (s, e)
      no_report : (s : State W) (what : Bytes) → s.out ≡ b → Reports b msg (s, throws_other what)
