-- ===== src/Examples/Rounds.antt =====
-- Rounds of a worker with the evaluator of Examples/Evaluation.
use nix_eval_jobs.Prelude.{
  ℕ, ◌≡◌, refl, List, [], ◌∷◌, ◌++◌, none, some, false, Bytes, arith, list_ord, nat_ord, subst,
  find, insert, size_t,
}
use nix_eval_jobs.Messages.{ascii, msg_next, msg_do}
use nix_eval_jobs.Args.{default_args}
use nix_eval_jobs.EvalLog.{no_logs, on_calls}
use nix_eval_jobs.BufferedIo.{wrote, newline, read_line, strip_newline}
use nix_eval_jobs.Response.{Payload, join_attr_path}
use nix_eval_jobs.Worker.{World, value, return, read, lift, throw, ◌>>=◌, ◌>>◌}
use nix_eval_jobs.Worker.Values.{
  process_derivation, extract_constituents, extra_value, register_gc_root,
}
use nix_eval_jobs.Worker.Evaluate.{walk, check_cycle, select, evaluate_value, evaluate}
use nix_eval_jobs.Worker.Logged.{Evaluated, evaluate-Evaluated}
use nix_eval_jobs.Worker.Cycle.{Acyclic, select-Acyclic}
use nix_eval_jobs.Worker.Recursion.{Recursion, collect_attrs-Recursion}
use nix_eval_jobs.Worker.Rounds.{path, Lines, Answers, State, process_job_request}
use nix_eval_jobs.Worker.Protocol.{Replied, process_job_request-Replied}
use nix_eval_jobs.BufferedIo.{try_write_line, write_loop, strip_newline}
use nix_eval_jobs.EvalLog.{take_logs, on_calls}
use nix_eval_jobs.Drv.Print.{drv_to_json}
use nix_eval_jobs.Response.Print.{response_to_json, payload_to_json}
use nix_eval_jobs.Drv.RoundTrip.{IsPrintable}
use nix_eval_jobs.Response.RoundTrip.{IsSendable}
use nix_eval_jobs.Worker.Logged.{Caught}
use nix_eval_jobs.Worker.Rounds.{
  ends, Next, quiet, on_input, obey, on_command, answer, reply, send_reply, response_of,
  should_restart, after_write,
}
use nix_eval_jobs.Worker.Rounds.{Setup, ready}
use nix_eval_jobs.Worker.Received.{Received, process_job_request-Received}
use nix_eval_jobs.Examples.Text.{dump, parse, encode, text-IsText}
use nix_eval_jobs.Examples.Cases.{parses}
use nix_eval_jobs.Examples.Values.{Value, json, json-IsLawful}
use nix_eval_jobs.Examples.Cases.{dir, minimal}
use nix_eval_jobs.Examples.Evaluation.{root, hello, marked, loop, state, state-IsSound}

abbrev pub world : World (Unit {0})
world = record { heap = tt; capture = record { logs = no_logs; forwarded = [] } }

abbrev pub hello_path : List Bytes
hello_path = ascii "hello" ∷ []

evaluate-Evaluated_example :
    Evaluated state state-IsSound world
      (evaluate_value state root hello_path default_args world).1
      (evaluate state root hello_path default_args world)
evaluate-Evaluated_example =
    evaluate-Evaluated state state-IsSound root hello_path default_args world

evaluates_hello :
    (evaluate state root hello_path default_args world).1 ≡ value (Payload.job minimal none)
unfolding evaluate evaluate_value select walk check_cycle ◌>>=◌ ◌>>◌ read lift return throw
    process_derivation extract_constituents extra_value register_gc_root on_calls
evaluates_hello = refl

refuses_loop :
    (evaluate state loop (ascii "loop" ∷ []) default_args world).1
    ≡ value (Payload.error (ascii "attribute set contains itself (cycle)") false)
unfolding evaluate evaluate_value select walk check_cycle ◌>>=◌ ◌>>◌ read lift return throw on_calls
refuses_loop = refl

selects_hello : select state root hello_path world ≡ (world, value hello)
unfolding select walk check_cycle ◌>>=◌ ◌>>◌ read lift return throw on_calls
selects_hello = refl

select-Acyclic_example : Acyclic state root hello_path world world hello
select-Acyclic_example = select-Acyclic state root hello_path world world hello selects_hello

collect_attrs-Recursion_example : Recursion state marked hello_path default_args world
collect_attrs-Recursion_example = collect_attrs-Recursion state marked hello_path default_args world

-- Any text behind `do ` asks for `hello`.
abbrev pub lines : Lines Value
lines = record {
  parse_path = λ words. path hello_path;
  dump = λ v. some (ascii "{}");
  invalid_command = λ line. line;
  invalid_path = λ line. line;
  error_line = λ msg. some msg;
  bad_text = ascii "invalid UTF-8 byte";
}

abbrev pub answers : Answers
answers = record {
  next_writes = wrote 5 ∷ [];
  input = msg_do ++ (ascii "[\"hello\"]" ++ newline ∷ []);
  elapsed_ms = 7;
  start_alloc = 100;
  end_alloc = 150;
  reply_writes = wrote 2000 ∷ [];
  rss = 4097;
}

abbrev pub idle : State (Unit {0})
idle = record { world = world; out = [] }

asked : read_line answers.input ≡ some (msg_do ++ ascii "[\"hello\"]")
unfolding read_line strip_newline
asked = refl

process_job_request-Replied_example :
    Replied state state-IsSound json dir lines root default_args hello_path answers world
      (msg_next ++ newline ∷ [])
      (process_job_request state json dir lines root default_args answers idle)
process_job_request-Replied_example =
    process_job_request-Replied state state-IsSound json dir lines root default_args hello_path
      answers idle (ascii "[\"hello\"]") tt (omega arith) asked refl

-- The same round with lines that are the texts of JSON values.
abbrev written_lines : Lines Value
written_lines = record lines { dump = dump }

minimal-IsPrintable : IsPrintable json dir json-IsLawful parses minimal
unfolding find
minimal-IsPrintable = record {
  has_outputs = λ e. cc;
  outputs_named = (refl, tt);
  inputs_named = λ m e. absurd (let x : none ≡ some m = e in cc);
  features_set = λ f e. absurd (let x : none ≡ some f = e in cc);
}

hello-evaluated :
    (evaluate_value state root hello_path default_args (quiet world)).1
    ≡ value (Payload.job minimal none)
unfolding evaluate_value select walk check_cycle ◌>>=◌ ◌>>◌ read lift return throw
    process_derivation extract_constituents extra_value register_gc_root on_calls
hello-evaluated = refl

hello-IsSendable :
    (q : Payload Bytes Value)
    → Caught state state-IsSound
        (evaluate_value state root hello_path default_args (quiet world)).1
        q
    → IsSendable json dir json-IsLawful parses q
hello-IsSendable q h =
    let same : Payload.job minimal none ≡ q =
      subst (λ r. Caught state state-IsSound r q) hello-evaluated h in
    subst (IsSendable json dir json-IsLawful parses) same minimal-IsPrintable

goes_on :
    (process_job_request state json dir written_lines root default_args answers idle).1
    ≡ ends Next.restart
unfolding process_job_request on_input obey on_command answer reply send_reply response_of
    after_write should_restart try_write_line write_loop evaluate evaluate_value select walk
    check_cycle ◌>>=◌ ◌>>◌ read lift return throw process_derivation extract_constituents
    extra_value register_gc_root on_calls read_line strip_newline take_logs dump encode
    response_to_json payload_to_json drv_to_json find insert size_t join_attr_path
goes_on = refl

process_job_request-Received_example :
    Received state state-IsSound json dir written_lines json-IsLawful parses parse text-IsText root
      default_args hello_path world []
      (process_job_request state json dir written_lines root default_args answers idle).0.out
      42
unfolding should_restart
process_job_request-Received_example =
    process_job_request-Received state state-IsSound json dir written_lines json-IsLawful parses
      parse text-IsText root default_args hello_path answers idle (ascii "[\"hello\"]") 42 tt
      (omega arith) asked refl hello-IsSendable goes_on

abbrev set_up : Bytes → Setup (Unit {0}) ℕ
set_up config = ready world root
