-- ===== src/Worker/Recursion.antt =====
-- Which attributes of a set the collector is told to evaluate: collectAttrsForRecursion.
use nix_eval_jobs.Prelude.{
  ℕ, ◌≡◌, refl, List, [], ◌∷◌, some, Bool, true, false, Bytes, count, not, ◌&&◌, ◌||◌,
  if◌then◌else◌, ◌=?◌, =?_iff, list_ord, nat_ord, is_empty, arith, Bool-cases, inl, inr,
}
use nix_eval_jobs.Messages.{ascii}
use nix_eval_jobs.Args.{MyArgs}
use nix_eval_jobs.Response.{AttrPath}
use nix_eval_jobs.Worker.{
  World, Step, value, throws, undefined, Evaluator, return, read, ◌>>=◌, continue,
}
use nix_eval_jobs.Worker.Values.{call, recurse_flag, collect_attrs_for_recursion}

module _ {W E V X D R P J : Type 0} (state : Evaluator W E V X D R P J) where
  abbrev pub recurse_key : Bytes
  recurse_key = ascii "recurseForDerivations"

  -- The loop looks at one attribute only.
  recurse_flag-skips :
      (set : ℕ) (force : Bool) (names : List Bytes) (recurse : Bool) (w : World W)
      → (force || count recurse_key names =? 0) ≡ true
      → recurse_flag state set force names recurse w ≡ (w, value recurse)
  unfolding recurse_flag return
  recurse_flag-skips set force [] recurse w h = refl
  recurse_flag-skips set force (name ∷ names) recurse w h =
      elim (Bool-cases (not force && name =? recurse_key)) [
        | inl hit ↦ absurd (ground (arith, =?_iff name recurse_key, =?_iff recurse_key name))
        | inr miss ↦ rw miss (
            recurse_flag-skips set force names recurse w
              (ground (arith, =?_iff name recurse_key, =?_iff recurse_key name)))
      ]

  rest-skips :
      (set : ℕ) (names : List Bytes)
      → count recurse_key names ≡ 0
      → (r : World W × Step E Bool)
      → continue (λ flag. recurse_flag state set false names flag) r ≡ r
  rest-skips set names none_left (w, value flag) =
      recurse_flag-skips set false names flag w (rw none_left refl)
  rest-skips set names none_left (w, throws e) = refl
  rest-skips set names none_left (w, undefined) = refl

  -- What the loop does at the attribute.
  recurse_flag-forces :
      (set : ℕ) (names : List Bytes) (recurse : Bool) (w : World W) (a : V)
      → count recurse_key names ≡ 1
      → state.get w.heap set recurse_key ≡ some a
      → recurse_flag state set false names recurse w
        ≡ call state (state.force_bool a (ascii "while evaluating recurseForDerivations")) w
  unfolding recurse_flag ◌>>=◌ read
  recurse_flag-forces set [] recurse w a once has = cc
  recurse_flag-forces set (name ∷ names) recurse w a once has =
      elim (Bool-cases (name =? recurse_key)) [
        | inl hit ↦
            let last : count recurse_key names ≡ 0 =
              ground (arith, =?_iff name recurse_key, =?_iff recurse_key name) in
            rw hit (rw has (rest-skips set names last _))
        | inr miss ↦ rw miss (
            recurse_flag-forces set names recurse w a
              (ground (arith, =?_iff name recurse_key, =?_iff recurse_key name)) has)
      ]

  module _ (v : V) (path : AttrPath) (args : MyArgs) (w : World W) where
    abbrev pub set_at : ℕ
    set_at = state.attrs_of w.heap v

    abbrev pub names_at : List Bytes
    names_at = state.lexicographic_order w.heap set_at

    -- The children that the collector is told of.
    pub record Recursion : Type 0 where
      pub forced :
          args.force_recurse ≡ true
          → collect_attrs_for_recursion state v path args w ≡ (w, value names_at)
      pub unmarked :
          args.force_recurse ≡ false
          → count recurse_key names_at ≡ 0
          → collect_attrs_for_recursion state v path args w
            ≡ (w, value (if is_empty path then names_at else []))
      pub marked :
          (a : V)
          → args.force_recurse ≡ false
          → count recurse_key names_at ≡ 1
          → state.get w.heap set_at recurse_key ≡ some a
          → collect_attrs_for_recursion state v path args w
            ≡ continue
                (λ flag. return (if flag then names_at else []))
                (call state (state.force_bool a (ascii "while evaluating recurseForDerivations")) w)

    -- With --force-recurse all attributes of a set are evaluated, and nothing is forced. Without it,
    -- a set that has no `recurseForDerivations` gives its attributes at the root only; and a set
    -- that has it, once, gives them exactly if that attribute evaluates to true, at the root too,
    -- and the exception if that throws.
    pub collect_attrs-Recursion : Recursion
    unfolding collect_attrs_for_recursion ◌>>=◌ read return
    collect_attrs-Recursion = record {
      forced = λ on. rw on (rw (recurse_flag-skips set_at true names_at true w refl) refl);
      unmarked = λ off absent.
          rw off
            (rw (recurse_flag-skips set_at false names_at (is_empty path) w (rw absent refl)) refl);
      marked = λ a off once has.
          rw off (rw (recurse_flag-forces set_at names_at (is_empty path) w a once has) refl);
    }
