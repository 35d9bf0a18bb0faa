-- ===== src/Worker/Values.antt =====
-- worker.cc: what is read of the value of a derivation, from forceBoolAttr to
-- collectAttrsForRecursion.
use nix_eval_jobs.Prelude.{
  ℕ, List, [], ◌∷◌, ◌++◌, Option, none, some, Bool, false, ◌&&◌, ◌||◌, not, Bytes, if◌then◌else◌,
  is_empty, ◌=?◌, list_ord, nat_ord,
}
use nix_eval_jobs.Messages.{ascii}
use nix_eval_jobs.Args.{MyArgs}
use nix_eval_jobs.Drv.{Drv, Constituents}
use nix_eval_jobs.Response.{AttrPath, Payload}
use nix_eval_jobs.Worker.{
  Op, eval_error, Kind, ContextElem, built, opaque, drv_deep, Evaluator, Eval, return, throw, fault,
  read, lift, ◌>>=◌, ◌>>◌,
}

module _ {W E V X D R P J : Type 0} (state : Evaluator W E V X D R P J) where
  abbrev pub call : {A : Type 0} → Op W E A → Eval W E A
  call op = lift state.filter_ansi op

  -- forceBoolAttr
  unfoldable pub force_bool_attr : V → Bytes → Eval W E Bool
  force_bool_attr v name = do
    attr ← read (λ h. state.get h (state.attrs_of h v) name)
    elim attr [
      | none ↦ return false
      | some a ↦
          call
            (state.force_bool a (ascii "while evaluating the `" ++ (name ++ ascii "` attribute")))
    ]

  -- The paths of the derivations in a string context.
  unfoldable pub built_paths : List (ContextElem R) → List Bytes
  built_paths [] = []
  built_paths (built p ∷ context) = state.to_string p ∷ built_paths context
  built_paths (opaque p ∷ context) = built_paths context
  built_paths (drv_deep p ∷ context) = built_paths context

  -- drvConstituents
  unfoldable pub drv_constituents : V → Eval W E (List Bytes)
  unfolding built_paths
  drv_constituents attr = do
    context ←
        call (state.coerce_to_string attr (ascii "while evaluating the `constituents` attribute"))
    return (built_paths context)

  -- The loop of namedConstituents.
  unfoldable pub collect_names : List V → Eval W E (List Bytes)
  collect_names [] = return []
  collect_names (v ∷ vs) = do
    call (state.force_value v)
    kind ← read (λ h. state.type_of h v)
    name ← read (λ h. state.c_str h v)
    names ← collect_names vs
    return (elim kind [ Kind.text ↦ name ∷ names | Kind.attrs ↦ names | Kind.other ↦ names ])

  -- namedConstituents
  unfoldable pub named_constituents : V → Eval W E (List Bytes)
  unfolding collect_names
  named_constituents attr = do
    call (state.force_list attr (ascii "while evaluating the `constituents` attribute"))
    elements ← read (λ h. state.list_view h attr)
    collect_names elements

  abbrev pub no_constituents : Constituents
  no_constituents = record { constituents = []; named_constituents = []; glob_constituents = false }

  -- The rest of extractConstituents, behind its guard.
  unfoldable pub aggregate_constituents : V → Eval W E Constituents
  unfolding drv_constituents named_constituents force_bool_attr
  aggregate_constituents v = do
    attr ← read (λ h. state.get h (state.attrs_of h v) (ascii "constituents"))
    elim attr [
      | none ↦
          throw (
            eval_error (state.error_info (ascii "derivation must have a 'constituents' attribute")))
      | some a ↦ do
        drvs ← drv_constituents a
        names ← named_constituents a
        glob ← force_bool_attr v (ascii "_hydraGlobConstituents")
        return
            (record { constituents = drvs; named_constituents = names; glob_constituents = glob })
    ]

  -- extractConstituents
  unfoldable pub extract_constituents : V → MyArgs → Eval W E Constituents
  unfolding aggregate_constituents
  extract_constituents v args = if not args.constituents then return no_constituents else (do
    is_aggregate ← force_bool_attr v (ascii "_hydraAggregate")
    if not is_aggregate then return no_constituents else aggregate_constituents v)

  -- applyExprToValue
  unfoldable pub apply_expr_to_value : V → Bytes → Eval W E J
  apply_expr_to_value v apply_expr = if is_empty apply_expr then return state.null_json else (do
    expr ← call (state.parse_expr apply_expr)
    apply ← call (state.eval expr)
    res ← call (state.call_function apply v)
    call (state.force_attrs res (ascii "apply needs to evaluate to an attrset"))
    stream ← call (state.print_json res)
    call (state.parse_json stream))

  -- `path / name` for a name that is not absolute.
  abbrev pub in_dir : Bytes → Bytes → Bytes
  in_dir dir name = dir ++ (ascii "/" ++ name)

  abbrev pub gc_root : Drv P J → MyArgs → Bytes
  gc_root drv args = in_dir args.gc_roots_dir (state.path_to_string drv.drv_path)

  -- registerGCRoot
  unfoldable pub register_gc_root : Drv P J → MyArgs → Eval W E Unit
  register_gc_root drv args =
      if is_empty args.gc_roots_dir || state.read_only_mode then return tt else (do
        exists ← call (state.path_exists (gc_root drv args))
        if exists || not state.is_local_store
            then return tt
            else call (state.add_perm_root drv.drv_path (gc_root drv args)))

  -- The loop of collectAttrsForRecursion: the last value of `recurse`.
  unfoldable pub recurse_flag : ℕ → Bool → List Bytes → Bool → Eval W E Bool
  recurse_flag set force [] recurse = return recurse
  recurse_flag set force (name ∷ names) recurse =
      if not force && name =? ascii "recurseForDerivations"
      then (do
        attrv ← read (λ h. state.get h set (ascii "recurseForDerivations"))
        elim attrv [
          | none ↦ fault
          | some a ↦ do
            flag ← call (state.force_bool a (ascii "while evaluating recurseForDerivations"))
            recurse_flag set force names flag
        ])
      else recurse_flag set force names recurse

  -- collectAttrsForRecursion
  unfoldable pub collect_attrs_for_recursion : V → AttrPath → MyArgs → Eval W E (List Bytes)
  unfolding recurse_flag
  collect_attrs_for_recursion v path args = do
    set ← read (λ h. state.attrs_of h v)
    attrs ← read (λ h. state.lexicographic_order h set)
    recurse ← recurse_flag set args.force_recurse attrs (args.force_recurse || is_empty path)
    return (if recurse then attrs else [])

  unfoldable pub extra_value : V → MyArgs → Eval W E (Option J)
  unfolding apply_expr_to_value
  extra_value v args =
      if is_empty args.apply_expr
      then return none
      else (do j ← apply_expr_to_value v args.apply_expr; return (some j))

  -- processDerivation
  unfoldable pub process_derivation : V → Bytes → AttrPath → MyArgs → Eval W E (Payload P J)
  unfolding collect_attrs_for_recursion extract_constituents extra_value register_gc_root
  process_derivation v attr_path path args = do
    found ← call (state.get_derivation v)
    elim found [
      | none ↦ do attrs ← collect_attrs_for_recursion v path args; return (Payload.attrs attrs)
      | some info ↦ do
        constituents ← extract_constituents v args
        extra ← extra_value v args
        drv ← call (state.drv_of_package attr_path info constituents)
        register_gc_root drv args
        return (Payload.job drv extra)
    ]
