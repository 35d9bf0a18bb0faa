-- ===== src/Worker/Received.antt =====
-- A round of a worker as the collector sees it: what Proc::popLine takes off its pipe, and what
-- parseResponse of nix-eval-jobs.cc reads.
use nix_eval_jobs.Prelude.{
  ℕ, ◌+◌, ◌≡◌, ◌≤◌, refl, sym, ◌∙◌, ap, [], ◌∷◌, ◌++◌, Option, none, some, Bytes, suc, length, take,
  drop, Ord, if◌then◌else◌, arith, Option-cases, Bool-cases, inl, inr,
}
use mathlib.Core.List.{append_assoc}
use nix_eval_jobs.Messages.{msg_next, msg_do}
use nix_eval_jobs.Args.{MyArgs}
use nix_eval_jobs.BufferedIo.{Outcome, written, write_failed, blocked, read_line, newline}
use nix_eval_jobs.BufferedIo.Written.{Puts, HasNoError, taken}
use nix_eval_jobs.Proc.{Proc, find_byte, pop_line}
use nix_eval_jobs.Json.{JsonLib, ◌>>=◌}
use nix_eval_jobs.Json.Fields.{IsLawful}
use nix_eval_jobs.Drv.Print.{StoreDir}
use nix_eval_jobs.Response.{AttrPath, Response, Payload, join_attr_path}
use nix_eval_jobs.Response.Print.{response_to_json, response_from_json}
use nix_eval_jobs.Response.RoundTrip.{IsSendable, SamePayload, response_from_json-response_to_json}
use nix_eval_jobs.Worker.{World, Evaluator}
use nix_eval_jobs.Worker.Evaluate.{evaluate_value}
use nix_eval_jobs.Worker.Logged.{IsSound, Caught}
use nix_eval_jobs.Worker.Rounds.{
  path, Lines, Answers, Next, End, ends, hangs, throws_other, State, should_restart, quiet,
  process_job_request,
}
use nix_eval_jobs.Worker.Protocol.{
  line_of, Ended, Sent, a_line, no_text, Replied, process_job_request-Replied,
}

find_byte-line :
    (l rest : Bytes)
    → find_byte newline l ≡ none
    → find_byte newline (l ++ newline ∷ rest) ≡ some (length l)
unfolding find_byte
find_byte-line [] rest h = refl
find_byte-line (c ∷ l) rest h =
    ground (arith, find_byte-line l rest, Option-cases (find_byte newline l))

take-line : (l rest : Bytes) → take (length l) (l ++ rest) ≡ l
take-line [] rest = refl
take-line (c ∷ l) rest = ap (◌∷◌ c) (take-line l rest)

drop-line : (l rest : Bytes) → drop (suc (length l)) (l ++ newline ∷ rest) ≡ rest
drop-line [] rest = refl
drop-line (c ∷ l) rest = drop-line l rest

-- A buffer that was read and not looked at.
abbrev pub unread : ℕ → Bytes → Proc
unread pid buf = record { pid = pid; buf = buf; scanned = 0 }

pop_line-line :
    (pid : ℕ) (l rest : Bytes)
    → find_byte newline l ≡ none
    → pop_line (unread pid (l ++ newline ∷ rest)) ≡ (unread pid rest, some l)
unfolding pop_line
pop_line-line pid l rest h =
    rw (find_byte-line l rest h, pop_line)
      (let zero_more : length l + 0 ≡ length l = omega arith in
        simp (zero_more, drop-line l rest, take-line l (newline ∷ rest)) refl)

module _ {P J : Type 0} ⦃o : Ord P⦄ (json : JsonLib J) (dir : StoreDir P)
    (parse : Bytes → Option J) where
  -- parseResponse, of which `none` is the exception.
  unfoldable pub parse_response : Bytes → Option (Response P J × J)
  parse_response line = do
    value ← parse line
    response ← response_from_json json dir value
    some (response, value)

-- JSON that is printed is one line, and is parsed again.
pub record IsText {J : Type 0} (dump : J → Option Bytes) (parse : Bytes → Option J) : Type 0 where
  pub parse_dump : (j : J) (line : Bytes) → dump j ≡ some line → parse line ≡ some j
  pub one_line : (j : J) (line : Bytes) → dump j ≡ some line → find_byte newline line ≡ none

module _ {W E V X D R P J : Type 0} ⦃o : Ord P⦄ (state : Evaluator W E V X D R P J)
    (sound : IsSound state) (json : JsonLib J) (dir : StoreDir P) (lines : Lines J) where
  Ended-out :
      (args : MyArgs) (a : Answers) (before line : Bytes) (o : Outcome) (r : State W × End)
      → Puts line o
      → Ended state sound json dir lines args a before o r
      → (r.1 ≡ ends (if should_restart a.rss args then Next.restart else Next.job))
      → r.0.out ≡ before ++ line
  Ended-out args a before line (written out) r p (e, _) goes = e ∙ ap (λ x. before ++ x) p
  Ended-out args a before line (write_failed out errno) r p (_, e) goes =
      elim (Bool-cases (should_restart a.rss args)) [
        | inl h ↦
            absurd (let x : ends Next.exit ≡ ends Next.restart = sym e ∙ goes ∙ rw h refl in cc)
        | inr h ↦ absurd (let x : ends Next.exit ≡ ends Next.job = sym e ∙ goes ∙ rw h refl in cc)
      ]
  Ended-out args a before line (blocked out) r p (_, e) goes =
      absurd (let x : hangs ≡ ends _ = sym e ∙ goes in cc)

  -- A worker that goes on sent a line.
  sent-line :
      (args : MyArgs) (a : Answers) (before : Bytes) (text : Option Bytes) (r : State W × End)
      → Sent state sound json dir lines args a before text r
      → (r.1 ≡ ends (if should_restart a.rss args then Next.restart else Next.job))
      → (line : Bytes) × (text ≡ some line) × (r.0.out ≡ before ++ (line ++ newline ∷ []))
  sent-line args a before text r (a_line line e puts ended) goes =
      (line, e, Ended-out args a before _ _ r puts ended goes)
  sent-line args a before text r (no_text e out dies) goes =
      absurd (let x : throws_other _ ≡ ends _ = sym dies ∙ goes in cc)

  module _ (law : IsLawful json)
      (parses : (sd : Bytes) (p : P) → dir.parse_store_path sd (dir.print_store_path sd p) ≡ some p)
      (parse : Bytes → Option J) (text : IsText lines.dump parse) where
    -- The collector takes two lines off the pipe, `next` and a response to the request for `p`.
    pub record Received (root : V) (args : MyArgs) (p : AttrPath) (w : World W) (before out : Bytes)
        (pid : ℕ) : Type 0 where
      pub sent : Bytes
      pub left : Bytes
      pub line : Bytes
      pub got : Response P J
      pub value : J
      pub payload : Payload P J
      pub puts : out ≡ before ++ sent
      pub first : pop_line (unread pid sent) ≡ (unread pid left, some msg_next)
      pub second : pop_line (unread pid left) ≡ (unread pid [], some line)
      pub reads : parse_response json dir parse line ≡ some (got, value)
      pub attr : got.attr ≡ join_attr_path p
      pub attr_path : got.attr_path ≡ p
      pub evaluated : Caught state sound (evaluate_value state root p args (quiet w)).1 payload
      pub same_payload : SamePayload json dir law parses payload got.payload

    Replied-Received :
        (root : V) (args : MyArgs) (p : AttrPath) (a : Answers) (w : World W) (before : Bytes)
        (r : State W × End) (pid : ℕ)
        → Replied state sound json dir lines root args p a w
            (before ++ (msg_next ++ newline ∷ []))
            r
        → ((q : Payload P J)
            → Caught state sound (evaluate_value state root p args (quiet w)).1 q
            → IsSendable json dir law parses q)
        → r.1 ≡ ends (if should_restart a.rss args then Next.restart else Next.job)
        → Received root args p w before r.0.out pid
    unfolding parse_response find_byte
    Replied-Received root args p a w before r pid x sendable goes =
        let (line, has, out) =
          sent-line args a _ (line_of state sound json dir lines x.response) r x.sent goes in
        let (got, e, same) =
          response_from_json-response_to_json json dir law parses x.response
            (sendable _ x.payload) in
        record {
          sent = msg_next ++ newline ∷ (line ++ newline ∷ []);
          left = line ++ newline ∷ [];
          line = line;
          got = got;
          value = response_to_json json dir x.response;
          payload = x.response.payload;
          puts = out ∙ append_assoc before (msg_next ++ newline ∷ []) (line ++ newline ∷ []);
          first = pop_line-line pid msg_next _ refl;
          second = pop_line-line pid line [] (text.one_line _ line has);
          reads =
              simp
                (text.parse_dump (response_to_json json dir x.response) line has, e, parse_response)
                refl;
          attr = ap (λ r. r.attr) same.same_head ∙ x.attr;
          attr_path = ap (λ r. r.attr_path) same.same_head ∙ x.attr_path;
          evaluated = x.payload;
          same_payload = same.same_payload;
        }

    -- If a worker answers a request for `p` and goes on or restarts, and a derivation in its payload
    -- can be printed, then the collector takes exactly two lines off the pipe: `next`, and one that
    -- parseResponse reads as a response for `p` with the payload of the evaluation.
    pub process_job_request-Received :
        (root : V) (args : MyArgs) (p : AttrPath) (a : Answers) (s : State W) (words : Bytes)
        (pid : ℕ)
        → HasNoError a.next_writes
        → suc (length msg_next) ≤ taken a.next_writes
        → read_line a.input ≡ some (msg_do ++ words)
        → lines.parse_path words ≡ path p
        → ((q : Payload P J)
            → Caught state sound (evaluate_value state root p args (quiet s.world)).1 q
            → IsSendable json dir law parses q)
        → (process_job_request state json dir lines root args a s).1
          ≡ ends (if should_restart a.rss args then Next.restart else Next.job)
        → Received root args p s.world s.out
            (process_job_request state json dir lines root args a s).0.out
            pid
    process_job_request-Received root args p a s words pid clear fits asked parsed sendable goes =
        Replied-Received root args p a s.world s.out _ pid
          (process_job_request-Replied state sound json dir lines root args p a s words clear fits
            asked parsed)
          sendable goes
