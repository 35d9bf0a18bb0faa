-- ===== src/Examples/Options.antt =====
-- The options of a command line, the log of an evaluation, and a line through a pipe.
use nix_eval_jobs.Prelude.{
  ◌≡◌, refl, List, [], ◌∷◌, ◌++◌, none, some, true, false, Bytes, ◌↔◌, ◌≢◌, ◌≤◌, ◌<◌, size_mod,
  arith,
}
use nix_eval_jobs.Messages.{ascii}
use nix_eval_jobs.Response.{all_of}
use nix_eval_jobs.Args.{
  MyArgs, default_args, is_digit, scan_digits, from_chars, parse_positive, Flag, handle, handle_all,
  join_flags, validate_incompatible_flags,
}
use nix_eval_jobs.Args.Parsed.{
  InRange, value, parse_positive_iff, handle_all-InRange, validate_incompatible_flags_iff,
}
use nix_eval_jobs.EvalLog.{LogCall, log, log_ei, warn, EvalLogCapture, no_logs, take_logs, on_calls}
use nix_eval_jobs.EvalLog.Recorded.{Recorded, on_calls-Recorded, take_logs-between}
use nix_eval_jobs.BufferedIo.{
  Write, wrote, interrupted, failed, written, newline, try_write_line, read_line, getline,
}
use nix_eval_jobs.BufferedIo.Written.{
  Puts, try_write_line-Puts, try_write_line-written, read_line-try_write_line,
}

parse_positive_iff_example : (parse_positive (ascii "4096") ≡ some 4096) ↔ (
    (ascii "4096" ≢ [])
    × (all_of is_digit (ascii "4096") ≡ true)
    × (value 0 (ascii "4096") ≡ 4096)
    × (1 ≤ 4096)
    × (4096 < size_mod))
parse_positive_iff_example = parse_positive_iff (ascii "4096") 4096

accepts : parse_positive (ascii "4096") ≡ some 4096
unfolding parse_positive from_chars scan_digits
accepts = refl

refuses_zero : parse_positive (ascii "0") ≡ none
unfolding parse_positive from_chars scan_digits
refuses_zero = refl

refuses_suffix : parse_positive (ascii "4k") ≡ none
unfolding parse_positive from_chars scan_digits
refuses_suffix = refl

refuses_overflow : parse_positive (ascii "18446744073709551616") ≡ none
unfolding parse_positive from_chars scan_digits
refuses_overflow = refl

abbrev flags : List Flag
flags =
    Flag.workers (ascii "8")
    ∷ Flag.no_instantiate
    ∷ Flag.max_memory_size (ascii "512")
    ∷ Flag.constituents
    ∷ []

abbrev parsed : MyArgs
parsed = record default_args {
  nr_workers = 8;
  no_instantiate = true;
  max_memory_size = 512;
  constituents = true;
}

flags-parsed : handle_all flags default_args ≡ some parsed
unfolding handle_all handle parse_positive from_chars scan_digits
flags-parsed = refl

handle_all-InRange_example : InRange parsed
handle_all-InRange_example = handle_all-InRange flags parsed flags-parsed

validate_incompatible_flags_iff_example :
    (validate_incompatible_flags parsed ≡ none)
    ↔ ((true ≡ true) → (false ≡ false) × (false ≡ false) × (true ≡ false))
validate_incompatible_flags_iff_example = validate_incompatible_flags_iff parsed

names_the_flag : validate_incompatible_flags parsed ≡ some (ascii "--constituents")
unfolding validate_incompatible_flags join_flags
names_the_flag = refl

-- Without escapes in a text there is nothing to filter.
abbrev plain : Bytes → Bytes
plain s = s

abbrev calls : List LogCall
calls =
    warn (ascii "deprecated")
    ∷ log 0 (ascii "trace: x")
    ∷ log_ei 0 (ascii "an error")
    ∷ log 3 (ascii "copying")
    ∷ log_ei 1 (ascii "dirty tree")
    ∷ []

abbrev fresh : EvalLogCapture
fresh = record { logs = no_logs; forwarded = [] }

on_calls-Recorded_example : Recorded plain fresh (on_calls plain calls fresh) calls
on_calls-Recorded_example = on_calls-Recorded plain calls fresh

take_logs-between_example :
    (take_logs (on_calls plain calls (take_logs fresh).0)).1
    ≡ record { warnings = ascii "deprecated" ∷ ascii "dirty tree" ∷ []; traces = ascii "x" ∷ [] }
take_logs-between_example = take_logs-between plain calls fresh

-- A write that the kernel cuts in three, with an interrupt between.
abbrev answers : List Write
answers = wrote 1 ∷ interrupted ∷ wrote 2 ∷ wrote 7 ∷ []

try_write_line-Puts_example :
    Puts (ascii "next" ++ newline ∷ []) (try_write_line (wrote 2 ∷ failed 32 ∷ []) (ascii "next"))
try_write_line-Puts_example = try_write_line-Puts (wrote 2 ∷ failed 32 ∷ []) (ascii "next")

try_write_line-written_example :
    try_write_line answers (ascii "next") ≡ written (ascii "next" ++ newline ∷ [])
try_write_line-written_example = try_write_line-written answers (ascii "next") tt (omega arith)

read_line-try_write_line_example :
    (read_line (getline ((ascii "next" ++ newline ∷ []) ++ ascii "do")).0 ≡ some (ascii "next"))
    × ((getline ((ascii "next" ++ newline ∷ []) ++ ascii "do")).1 ≡ ascii "do")
read_line-try_write_line_example =
    read_line-try_write_line answers (ascii "next") (ascii "next" ++ newline ∷ []) (ascii "do") refl
      (try_write_line-written answers (ascii "next") tt (omega arith))
