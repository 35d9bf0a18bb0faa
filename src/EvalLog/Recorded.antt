-- ===== src/EvalLog/Recorded.antt =====
-- What the capture of eval-log.cc holds after a sequence of calls.
use nix_eval_jobs.Prelude.{
  ◌≡◌, refl, sym, ◌∙◌, List, [], ◌∷◌, ◌++◌, Bytes, if◌then◌else◌, ◌==◌, length, drop, arith,
}
use mathlib.Core.List.{append-nil, append_assoc, reverse, reverse-append}
use nix_eval_jobs.Messages.{starts_with}
use nix_eval_jobs.EvalLog.{
  LogCall, log, log_ei, warn, EvalLogCapture, trace_prefix, lvl_warn, take_logs, on_call, on_calls,
}

module _ (filter_ansi : Bytes → Bytes) where
  -- The warning or the trace in a call.
  abbrev warning_in : LogCall → List Bytes
  warning_in (log lvl msg) = []
  warning_in (log_ei level msg) = if level == lvl_warn then filter_ansi msg ∷ [] else []
  warning_in (warn msg) = filter_ansi msg ∷ []

  abbrev trace_in : LogCall → List Bytes
  trace_in (log lvl msg) =
      if starts_with trace_prefix (filter_ansi msg)
      then drop (length trace_prefix) (filter_ansi msg) ∷ []
      else []
  trace_in (log_ei level msg) = []
  trace_in (warn msg) = []

  -- Those of a sequence of calls, in its order.
  abbrev pub warnings_in : List LogCall → List Bytes
  warnings_in [] = []
  warnings_in (call ∷ calls) = warning_in call ++ warnings_in calls

  abbrev pub traces_in : List LogCall → List Bytes
  traces_in [] = []
  traces_in (call ∷ calls) = trace_in call ++ traces_in calls

  pub record Recorded (c d : EvalLogCapture) (calls : List LogCall) : Type 0 where
    pub warnings : d.logs.warnings ≡ c.logs.warnings ++ warnings_in calls
    pub traces : d.logs.traces ≡ c.logs.traces ++ traces_in calls
    pub forwarded : d.forwarded ≡ reverse calls ++ c.forwarded

  on_call-Recorded :
      (call : LogCall) (c : EvalLogCapture)
      → ((on_call filter_ansi call c).logs.warnings ≡ c.logs.warnings ++ warning_in call)
        × ((on_call filter_ansi call c).logs.traces ≡ c.logs.traces ++ trace_in call)
        × ((on_call filter_ansi call c).forwarded ≡ call ∷ c.forwarded)
  unfolding on_call
  on_call-Recorded (log lvl msg) c =
      ground (arith, append-nil c.logs.warnings, append-nil c.logs.traces)
  on_call-Recorded (log_ei level msg) c =
      ground (arith, append-nil c.logs.warnings, append-nil c.logs.traces)
  on_call-Recorded (warn msg) c = ground (arith, append-nil c.logs.traces)

  -- The capture records the warnings and the traces in the calls, in their order, after what it
  -- held, and forwards every call.
  pub on_calls-Recorded :
      (calls : List LogCall) (c : EvalLogCapture) → Recorded c (on_calls filter_ansi calls c) calls
  unfolding on_calls
  on_calls-Recorded [] c = record {
    warnings = sym (append-nil c.logs.warnings);
    traces = sym (append-nil c.logs.traces);
    forwarded = refl;
  }
  on_calls-Recorded (call ∷ calls) c =
      let rest = on_calls-Recorded calls (on_call filter_ansi call c) in
      let (w, t, f) = on_call-Recorded call c in
      record {
        warnings = rest.warnings ∙ simp (w, append_assoc);
        traces = rest.traces ∙ simp (t, append_assoc);
        forwarded = rest.forwarded ∙ simp (f, reverse-append (call ∷ []) calls, append_assoc);
      }

  -- After a `take` the next `take` gives the warnings and the traces of the calls between them, and
  -- nothing of what came before.
  pub take_logs-between :
      (calls : List LogCall) (c : EvalLogCapture)
      → (take_logs (on_calls filter_ansi calls (take_logs c).0)).1
        ≡ record { warnings = warnings_in calls; traces = traces_in calls }
  unfolding take_logs
  take_logs-between calls c =
      let r = on_calls-Recorded calls (take_logs c).0 in ground (arith, r.warnings, r.traces)
