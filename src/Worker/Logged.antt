-- ===== src/Worker/Logged.antt =====
-- The log of an evaluation: a computation of the worker changes the capture only by the calls of
-- the logger that it makes.
use nix_eval_jobs.Prelude.{
  ℕ, ◌≡◌, refl, sym, ◌∙◌, ap, List, [], ◌∷◌, ◌++◌, Option, none, some, Bool, true, false, Bytes,
  Bool-cases, inl, inr, arith, ◌&&◌, count, ◌≢◌, ◌≤◌, ◌⊎◌, inl, inr, nat_ord, ◌=?◌, =?_iff,
  list_ord, not, if◌then◌else◌,
}
use nix_eval_jobs.Messages.{ascii}
use nix_eval_jobs.Args.{MyArgs}
use nix_eval_jobs.EvalLog.{LogCall, EvalLogCapture, on_calls}
use nix_eval_jobs.Drv.{Drv}
use nix_eval_jobs.Response.{AttrPath, Payload}
use nix_eval_jobs.Worker.{
  World, Step, value, throws, undefined, step_of, Exn, stack_overflow, eval_error, std_exception,
  Evaluator, Op, Eval, return, throw, fault, read, lift, ◌>>=◌, ◌>>◌, continue,
}
use nix_eval_jobs.Worker.Values.{
  call, force_bool_attr, drv_constituents, collect_names, named_constituents,
  aggregate_constituents, extract_constituents, apply_expr_to_value, register_gc_root, recurse_flag,
  collect_attrs_for_recursion, extra_value, process_derivation,
}
use nix_eval_jobs.Worker.Evaluate.{
  walk, check_cycle, select, evaluate_value, evaluate, catch_all, error_of,
}

module _ (filter_ansi : Bytes → Bytes) where
  on_calls-append :
      (a b : List LogCall) (c : EvalLogCapture)
      → on_calls filter_ansi (a ++ b) c ≡ on_calls filter_ansi b (on_calls filter_ansi a c)
  unfolding on_calls
  on_calls-append [] b c = refl
  on_calls-append (x ∷ a) b c = on_calls-append a b _

  module _ {W : Type 0} where
    -- From a world to a world the capture saw a sequence of calls and nothing else.
    abbrev pub Saw : World W → World W → Type 0
    Saw w w' = (calls : List LogCall) × (w'.capture ≡ on_calls filter_ansi calls w.capture)

    Saw-nothing : (w : World W) → Saw w w
    unfolding on_calls
    Saw-nothing w = ([], refl)

    Saw-then : (u v w : World W) → Saw u v → Saw v w → Saw u w
    Saw-then u v w (a, p) (b, q) =
        (a ++ b, q ∙ ap (on_calls filter_ansi b) p ∙ sym (on_calls-append a b u.capture))

  module _ {W E : Type 0} where
    -- A computation came from `w` to a world by calls of the logger, and to no undefined behaviour.
    pub record Fine {A : Type 0} (w : World W) (r : World W × Step E A) : Type 0 where
      pub saw : Saw w r.0
      pub defined : r.1 ≢ undefined

    abbrev pub Logged : {A : Type 0} → Eval W E A → Type 0
    Logged m = (w : World W) → Fine w (m w)

    module _ {A : Type 0} where
      Fine-value : (w : World W) (a : A) → Fine w (w, value a)
      Fine-value w a = record { saw = Saw-nothing w; defined = λ e. cc }

      pub return-Logged : (a : A) → Logged (return a)
      unfolding return
      return-Logged a w = Fine-value w a

      pub throw-Logged : (e : Exn E) → Logged {A = A} (throw e)
      unfolding throw
      throw-Logged e w = record { saw = Saw-nothing w; defined = λ e. cc }

      pub read-Logged : (f : W → A) → Logged (read f)
      unfolding read
      read-Logged f w = Fine-value w (f w.heap)

      pub step-Fine : (w w' : World W) → Saw w w' → (r : Exn E ⊎ A) → Fine {A = A} w (w', step_of r)
      step-Fine w w' s (inl e) = record { saw = s; defined = λ e. cc }
      step-Fine w w' s (inr a) = record { saw = s; defined = λ e. cc }

    module _ {A B : Type 0} where
      pub continue-Fine :
          (f : A → Eval W E B) (u : World W) (r : World W × Step E A)
          → Fine u r
          → ((a : A) → (r.1 ≡ value a) → Fine r.0 (f a r.0))
          → Fine u (continue f r)
      continue-Fine f u (w, value a) s g =
          let next = g a refl in
          record { saw = Saw-then u w (f a w).0 s.saw next.saw; defined = next.defined }
      continue-Fine f u (w, throws e) s g = record { saw = s.saw; defined = λ e. cc }
      continue-Fine f u (w, undefined) s g = absurd (s.defined refl)

      pub bind-Logged :
          {m : Eval W E A} {f : A → Eval W E B}
          → Logged m
          → ((a : A) → Logged (f a))
          → Logged (m >>= f)
      unfolding ◌>>=◌
      bind-Logged {m = m} {f = f} h g w = continue-Fine f w (m w) (h w) (λ a e. g a (m w).0)

      pub then-Logged : {m : Eval W E A} {k : Eval W E B} → Logged m → Logged k → Logged (m >> k)
      unfolding ◌>>◌
      then-Logged {m = m} {k = k} h g w = continue-Fine (λ _. k) w (m w) (h w) (λ a e. g (m w).0)

    module _ {A : Type 0} where
      pub if-Logged :
          {m k : Eval W E A} (b : Bool) → Logged m → Logged k → Logged (if b then m else k)
      if-Logged true h g = h
      if-Logged false h g = g

      pub option-Logged :
          {B : Type 0} {m : Eval W E A} {f : B → Eval W E A} (b : Option B)
          → Logged m
          → ((x : B) → Logged (f x))
          → Logged (elim b [ none ↦ m | some x ↦ f x ])
      option-Logged none h g = h
      option-Logged (some x) h g = g x

module _ {W E V X D R P J : Type 0} (state : Evaluator W E V X D R P J) where
  -- What the worker relies on of the evaluator: the attributes that a set lists are in it, and it
  -- lists none twice.
  pub record IsSound : Type 0 where
    pub listed :
        (h : W) (set : ℕ) (name : Bytes)
        → 1 ≤ count name (state.lexicographic_order h set)
        → state.get h set name ≢ none
    pub listed_once :
        (h : W) (set : ℕ) (name : Bytes) → count name (state.lexicographic_order h set) ≤ 1

module _ {W E V X D R P J : Type 0} (state : Evaluator W E V X D R P J)
    (sound : IsSound state) where
  abbrev Quiet : {A : Type 0} → Eval W E A → Type 0
  Quiet m = Logged state.filter_ansi m

  called : {A : Type 0} (op : Op W E A) → Quiet (call state op)
  unfolding lift
  called op w = step-Fine state.filter_ansi w _ ((op w.heap).0, refl) (op w.heap).2

  force_bool_attr-Quiet : (v : V) (name : Bytes) → Quiet (force_bool_attr state v name)
  unfolding force_bool_attr
  force_bool_attr-Quiet v name =
      bind-Logged _ (read-Logged _ _)
        (λ attr. option-Logged _ attr (return-Logged _ _) (λ a. called _))

  drv_constituents-Quiet : (v : V) → Quiet (drv_constituents state v)
  unfolding drv_constituents
  drv_constituents-Quiet v = bind-Logged _ (called _) (λ context. return-Logged _ _)

  collect_names-Quiet : (vs : List V) → Quiet (collect_names state vs)
  unfolding collect_names
  collect_names-Quiet [] = return-Logged _ _
  collect_names-Quiet (v ∷ vs) = then-Logged _ (called _) (
      bind-Logged _ (read-Logged _ _) (λ kind.
        bind-Logged _ (read-Logged _ _)
          (λ name. bind-Logged _ (collect_names-Quiet vs) (λ names. return-Logged _ _))))

  named_constituents-Quiet : (v : V) → Quiet (named_constituents state v)
  unfolding named_constituents
  named_constituents-Quiet v =
      then-Logged _ (called _) (bind-Logged _ (read-Logged _ _) (λ vs. collect_names-Quiet vs))

  aggregate_constituents-Quiet : (v : V) → Quiet (aggregate_constituents state v)
  unfolding aggregate_constituents
  aggregate_constituents-Quiet v = bind-Logged _ (read-Logged _ _) (λ attr.
      option-Logged _ attr (throw-Logged _ _) (λ a.
        bind-Logged _ (drv_constituents-Quiet a) (λ drvs.
          bind-Logged _ (named_constituents-Quiet a)
            (λ names. bind-Logged _ (force_bool_attr-Quiet v _) (λ glob. return-Logged _ _)))))

  extract_constituents-Quiet : (v : V) (args : MyArgs) → Quiet (extract_constituents state v args)
  unfolding extract_constituents
  extract_constituents-Quiet v args = if-Logged _ _ (return-Logged _ _) (
      bind-Logged _ (force_bool_attr-Quiet v _)
        (λ is_aggregate. if-Logged _ _ (return-Logged _ _) (aggregate_constituents-Quiet v)))

  apply_expr_to_value-Quiet : (v : V) (expr : Bytes) → Quiet (apply_expr_to_value state v expr)
  unfolding apply_expr_to_value
  apply_expr_to_value-Quiet v expr = if-Logged _ _ (return-Logged _ _) (
      bind-Logged _ (called _) (λ x. bind-Logged _ (called _) (λ apply.
        bind-Logged _ (called _)
          (λ res. then-Logged _ (called _) (bind-Logged _ (called _) (λ stream. called _))))))

  register_gc_root-Quiet : (drv : Drv P J) (args : MyArgs) → Quiet (register_gc_root state drv args)
  unfolding register_gc_root
  register_gc_root-Quiet drv args =
      if-Logged _ _ (return-Logged _ _)
        (bind-Logged _ (called _) (λ exists. if-Logged _ _ (return-Logged _ _) (called _)))

  abbrev key : Bytes
  key = ascii "recurseForDerivations"

  force-Fine :
      (names : List Bytes) (set : ℕ) (force : Bool) (attrv : Option V) (w : World W)
      → attrv ≢ none
      → ((flag : Bool) → Quiet (recurse_flag state set force names flag))
      → Fine state.filter_ansi w (
          elim attrv as (λ _. Eval W E Bool) [
            | none ↦ fault
            | some a ↦
                call state (state.force_bool a (ascii "while evaluating recurseForDerivations"))
                >>= λ flag. recurse_flag state set force names flag
          ]
            w)
  force-Fine names set force none w has rest = absurd (has refl)
  force-Fine names set force (some a) w has rest = bind-Logged _ (called _) rest w

  recurse_flag-Fine :
      (set : ℕ) (force : Bool) (names : List Bytes) (recurse : Bool) (w : World W)
      → count key names ≤ 1
      → (1 ≤ count key names → state.get w.heap set key ≢ none)
      → Fine state.filter_ansi w (recurse_flag state set force names recurse w)
  unfolding recurse_flag ◌>>=◌ read
  recurse_flag-Fine set force [] recurse w once has = return-Logged _ _ w
  recurse_flag-Fine set force (name ∷ names) recurse w once has =
      elim (Bool-cases (not force && name =? key)) [
        | inl h ↦
            let seen : (key =? name) ≡ true = ground (arith, =?_iff name key, =?_iff key name) in
            let none_left : count key names ≡ 0 = ground arith in
            rw h (
              force-Fine names set force (state.get w.heap set key) w (has (ground arith))
                (λ flag w'.
                  recurse_flag-Fine set force names flag w' (omega (arith, none_left))
                    (λ more. absurd (omega (arith, none_left, more)))))
        | inr h ↦ rw h (
            recurse_flag-Fine set force names recurse w (ground arith) (λ more. has (ground arith)))
      ]

  collect_attrs-Quiet :
      (v : V) (path : AttrPath) (args : MyArgs)
      → Quiet (collect_attrs_for_recursion state v path args)
  unfolding collect_attrs_for_recursion ◌>>=◌ read
  collect_attrs-Quiet v path args w =
      let set = state.attrs_of w.heap v in
      let attrs = state.lexicographic_order w.heap set in
      continue-Fine _ (λ recurse. return (if recurse then attrs else [])) w _
        (recurse_flag-Fine set args.force_recurse attrs _ w (sound.listed_once w.heap set key)
          (sound.listed w.heap set key))
        (λ a e. return-Logged _ _ _)

  extra_value-Quiet : (v : V) (args : MyArgs) → Quiet (extra_value state v args)
  unfolding extra_value
  extra_value-Quiet v args =
      if-Logged _ _ (return-Logged _ _)
        (bind-Logged _ (apply_expr_to_value-Quiet v _) (λ j. return-Logged _ _))

  process_derivation-Quiet :
      (v : V) (attr : Bytes) (path : AttrPath) (args : MyArgs)
      → Quiet (process_derivation state v attr path args)
  unfolding process_derivation
  process_derivation-Quiet v attr path args = bind-Logged _ (called _) (λ info.
      option-Logged _ info
        (bind-Logged _ (collect_attrs-Quiet v path args) (λ attrs. return-Logged _ _))
        (λ info. bind-Logged _ (extract_constituents-Quiet v args) (λ constituents.
          bind-Logged _ (extra_value-Quiet v args) (λ extra.
            bind-Logged _ (called _)
              (λ drv. then-Logged _ (register_gc_root-Quiet drv args) (return-Logged _ _))))))

  walk-Quiet : (path : AttrPath) (ancestors : List ℕ) (v : V) → Quiet (walk state path ancestors v)
  unfolding walk
  walk-Quiet [] ancestors v = return-Logged _ _
  walk-Quiet (name ∷ path) ancestors v = then-Logged _ (called _) (
      bind-Logged _ (read-Logged _ _) (λ set. bind-Logged _ (read-Logged _ _) (λ attr.
        option-Logged _ attr (throw-Logged _ _)
          (λ a. bind-Logged _ (called _) (λ next. walk-Quiet path _ next)))))

  check_cycle-Quiet : (ancestors : List ℕ) (v : V) → Quiet (check_cycle state ancestors v)
  unfolding check_cycle
  check_cycle-Quiet ancestors v = then-Logged _ (called _) (
      bind-Logged _ (read-Logged _ _) (λ kind.
        bind-Logged _ (read-Logged _ _)
          (λ set. if-Logged _ _ (throw-Logged _ _) (return-Logged _ _))))

  evaluate_value-Quiet :
      (root : V) (path : AttrPath) (args : MyArgs) → Quiet (evaluate_value state root path args)
  unfolding evaluate_value select
  evaluate_value-Quiet root path args =
      bind-Logged _
        (bind-Logged _ (called _) (λ v.
          bind-Logged _ (walk-Quiet path [] v) (λ reached. check_cycle-Quiet reached.0 reached.1)))
        (λ v.
          bind-Logged _ (read-Logged _ _)
            (λ kind. if-Logged _ _ (process_derivation-Quiet v _ path args) (return-Logged _ _)))

  -- Where an evaluation ends: with what its body gave, or with an error of the text of what it
  -- threw, without escape sequences, which is fatal (`true`) for a stack overflow only.
  abbrev pub Caught : Step E (Payload P J) → Payload P J → Type 0
  Caught (value p) payload = p ≡ payload
  Caught (throws (stack_overflow e)) payload =
      payload ≡ Payload.error (state.filter_ansi (state.show_error e)) true
  Caught (throws (eval_error e)) payload =
      payload ≡ Payload.error (state.filter_ansi (state.show_error e)) false
  Caught (throws (std_exception what)) payload =
      payload ≡ Payload.error (state.filter_ansi what) false
  Caught undefined payload = ⊥

  error_of-Caught : (e : Exn E) → Caught (throws e) (error_of state e)
  error_of-Caught (stack_overflow e) = refl
  error_of-Caught (eval_error e) = refl
  error_of-Caught (std_exception what) = refl

  pub record Evaluated (w : World W) (body : Step E (Payload P J))
      (r : World W × Step E (Payload P J)) : Type 0 where
    pub payload : Payload P J
    pub gives : r.1 ≡ value payload
    pub caught : Caught body payload
    pub saw : Saw state.filter_ansi w r.0

  catch-Evaluated :
      (w : World W) (r : World W × Step E (Payload P J))
      → Fine state.filter_ansi w r
      → Evaluated w r.1 (catch_all state r)
  catch-Evaluated w (w', value p) f = record {
    payload = p;
    gives = refl;
    caught = refl;
    saw = f.saw;
  }
  catch-Evaluated w (w', throws e) f = record {
    payload = error_of state e;
    gives = refl;
    caught = error_of-Caught e;
    saw = f.saw;
  }
  catch-Evaluated w (w', undefined) f = absurd (f.defined refl)

  -- On an evaluator that gets the attributes that it lists, and lists none twice, the evaluation of
  -- any path gives a payload: what its body returned, or the error of the exception that it threw,
  -- which is fatal exactly for a stack overflow. The capture saw the calls of the logger only.
  pub evaluate-Evaluated :
      (root : V) (path : AttrPath) (args : MyArgs) (w : World W)
      → Evaluated w (evaluate_value state root path args w).1 (evaluate state root path args w)
  unfolding evaluate
  evaluate-Evaluated root path args w = catch-Evaluated w _ (evaluate_value-Quiet root path args w)
