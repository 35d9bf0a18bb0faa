-- ===== src/EvalLog.antt =====
-- EvalLogCapture of eval-log.cc: the logger of a worker records the warnings and traces of the
-- attribute that is being evaluated, and forwards everything to the logger it wraps.
use nix_eval_jobs.Prelude.{
  ℕ, zero, suc, List, [], ◌∷◌, ◌++◌, Option, none, some, Bool, true, false, Bytes, if◌then◌else◌,
  ◌==◌, length, drop,
}
use nix_eval_jobs.Messages.{ascii, starts_with}
pub mod Recorded

-- EvalLogCapture::Logs
pub record Logs : Type 0 where
  pub warnings : List Bytes
  pub traces : List Bytes

abbrev pub no_logs : Logs
no_logs = record { warnings = []; traces = [] }

-- The calls of the logger that the capture looks at: `log` with a verbosity, `logEI` with the level
-- and the text of an ErrorInfo, and `warn`. The other methods only forward.
pub data LogCall : Type 0 where
  log : ℕ → Bytes → LogCall
  log_ei : ℕ → Bytes → LogCall
  warn : Bytes → LogCall

-- `logs`, and the calls that were forwarded to `inner`, the latest first.
pub record EvalLogCapture : Type 0 where
  pub logs : Logs
  pub forwarded : List LogCall

abbrev pub trace_prefix : Bytes
trace_prefix = ascii "trace: "

-- nix::lvlWarn
abbrev pub lvl_warn : ℕ
lvl_warn = 1

abbrev pub add_warning : Bytes → EvalLogCapture → EvalLogCapture
add_warning text c = record c { logs = record c.logs { warnings = c.logs.warnings ++ text ∷ [] } }

abbrev pub add_trace : Bytes → EvalLogCapture → EvalLogCapture
add_trace text c = record c { logs = record c.logs { traces = c.logs.traces ++ text ∷ [] } }

abbrev pub forward : LogCall → EvalLogCapture → EvalLogCapture
forward call c = record c { forwarded = call ∷ c.forwarded }

-- take
unfoldable pub take_logs : EvalLogCapture → EvalLogCapture × Logs
take_logs c = (record c { logs = no_logs }, c.logs)

-- `filter_ansi` is nix::filterANSIEscapes with all escapes removed.
module _ (filter_ansi : Bytes → Bytes) where
  -- EvalLogCapture::log
  unfoldable pub on_log : ℕ → Bytes → EvalLogCapture → EvalLogCapture
  on_log lvl msg c =
      let plain = filter_ansi msg in
      let c' =
        if starts_with trace_prefix plain
        then add_trace (drop (length trace_prefix) plain) c
        else c in
      forward (log lvl msg) c'

  -- EvalLogCapture::logEI
  unfoldable pub on_log_ei : ℕ → Bytes → EvalLogCapture → EvalLogCapture
  on_log_ei level msg c =
      let c' = if level == lvl_warn then add_warning (filter_ansi msg) c else c in
      forward (log_ei level msg) c'

  -- EvalLogCapture::warn
  unfoldable pub on_warn : Bytes → EvalLogCapture → EvalLogCapture
  on_warn msg c = forward (warn msg) (add_warning (filter_ansi msg) c)

  unfoldable pub on_call : LogCall → EvalLogCapture → EvalLogCapture
  unfolding on_log on_log_ei on_warn
  on_call (log lvl msg) c = on_log lvl msg c
  on_call (log_ei level msg) c = on_log_ei level msg c
  on_call (warn msg) c = on_warn msg c

  -- A sequence of calls, the first one first.
  unfoldable pub on_calls : List LogCall → EvalLogCapture → EvalLogCapture
  unfolding on_call
  on_calls [] c = c
  on_calls (call ∷ calls) c = on_calls calls (on_call call c)
