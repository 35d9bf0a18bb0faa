-- ===== src/Worker/Evaluate.antt =====
-- The struct Evaluator of worker.cc: the selection of an attribute, and what it evaluates to.
use nix_eval_jobs.Prelude.{
  ℕ, List, [], ◌∷◌, ◌++◌, none, some, Bool, true, false, ◌&&◌, if◌then◌else◌, contains, nat_ord,
}
use nix_eval_jobs.Messages.{ascii}
use nix_eval_jobs.Args.{MyArgs}
use nix_eval_jobs.Response.{AttrPath, Payload, join_attr_path}
use nix_eval_jobs.Worker.{
  World, Step, value, throws, undefined, Exn, stack_overflow, eval_error, std_exception, Kind,
  Evaluator, Eval, return, throw, read, ◌>>=◌, ◌>>◌,
}
use nix_eval_jobs.Worker.Values.{call, process_derivation}

abbrev pub is_attrs : Kind → Bool
is_attrs Kind.attrs = true
is_attrs Kind.text = false
is_attrs Kind.other = false

module _ {W E V X D R P J : Type 0} (state : Evaluator W E V X D R P J) where
  -- The loop of `select`, with the addresses of the sets that it goes through.
  unfoldable pub walk : AttrPath → List ℕ → V → Eval W E (List ℕ × V)
  walk [] ancestors v = return (ancestors, v)
  walk (name ∷ path) ancestors v = do
    call state (state.force_attrs v (ascii "while selecting an attribute"))
    set ← read (λ h. state.attrs_of h v)
    attr ← read (λ h. state.get h set name)
    elim attr [
      | none ↦
          throw (eval_error (state.error_info (ascii "attribute '" ++ (name ++ ascii "' missing"))))
      | some a ↦ do
        next ← call state (state.auto_call_function a)
        walk path (ancestors ++ set ∷ []) next
    ]

  -- The end of `select`: the value may be none of the sets on the way to it.
  unfoldable pub check_cycle : List ℕ → V → Eval W E V
  check_cycle ancestors v = do
    call state (state.force_value v)
    kind ← read (λ h. state.type_of h v)
    set ← read (λ h. state.attrs_of h v)
    if is_attrs kind && contains set ancestors
        then throw (eval_error (state.error_info (ascii "attribute set contains itself (cycle)")))
        else return v

  -- Evaluator::select
  unfoldable pub select : V → AttrPath → Eval W E V
  unfolding walk check_cycle
  select root path = do
    v ← call state (state.auto_call_function root)
    reached ← walk path [] v
    check_cycle reached.0 reached.1

  -- The body of the `try` of `evaluate`.
  unfoldable pub evaluate_value : V → AttrPath → MyArgs → Eval W E (Payload P J)
  unfolding select
  evaluate_value root path args = do
    v ← select root path
    kind ← read (λ h. state.type_of h v)
    if is_attrs kind
        then process_derivation state v (join_attr_path path) path args
        else return (Payload.attrs [])

  -- Its handlers.
  abbrev pub error_of : Exn E → Payload P J
  error_of (stack_overflow e) = Payload.error (state.filter_ansi (state.show_error e)) true
  error_of (eval_error e) = Payload.error (state.filter_ansi (state.show_error e)) false
  error_of (std_exception what) = Payload.error (state.filter_ansi what) false

  abbrev pub catch_all : World W × Step E (Payload P J) → World W × Step E (Payload P J)
  catch_all (w, value p) = (w, value p)
  catch_all (w, throws e) = (w, value (error_of e))
  catch_all (w, undefined) = (w, undefined)

  -- Evaluator::evaluate
  unfoldable pub evaluate : V → AttrPath → MyArgs → Eval W E (Payload P J)
  unfolding evaluate_value
  evaluate root path args w = catch_all (evaluate_value root path args w)
