-- ===== src/Args.antt =====
-- MyArgs of eval-args.hh and eval-args.cc: the options, their defaults and the handlers of the
-- flags that do more than set a Boolean; validateIncompatibleFlags of nix-eval-jobs.cc.
use nix_eval_jobs.Prelude.{
  ℕ, zero, suc, ◌+◌, ◌-◌, ◌*◌, List, [], ◌∷◌, ◌++◌, Option, none, some, Bool, true, false, ◌&&◌,
  ◌||◌, not, Bytes, if◌then◌else◌, ltb, leb, is_empty, size_mod,
}
use nix_eval_jobs.Messages.{ascii}
pub mod Parsed

pub record MyArgs : Type 0 where
  pub release_expr : Bytes
  pub apply_expr : Bytes
  pub select_expr : Bytes
  pub gc_roots_dir : Bytes
  pub flake : Bool
  pub from_args : Bool
  pub meta : Bool
  pub show_trace : Bool
  pub impure : Bool
  pub force_recurse : Bool
  pub check_cache_status : Bool
  pub show_input_drvs : Bool
  pub constituents : Bool
  pub no_instantiate : Bool
  pub run_as_worker : Bool
  pub locked_flake_attrs : Bytes
  pub nr_workers : ℕ
  pub max_memory_size : ℕ

abbrev pub default_max_memory_size : ℕ
default_max_memory_size = 4096

abbrev pub default_args : MyArgs
default_args = record {
  release_expr = [];
  apply_expr = [];
  select_expr = [];
  gc_roots_dir = [];
  flake = false;
  from_args = false;
  meta = false;
  show_trace = false;
  impure = false;
  force_recurse = false;
  check_cache_status = false;
  show_input_drvs = false;
  constituents = false;
  no_instantiate = false;
  run_as_worker = false;
  locked_flake_attrs = [];
  nr_workers = 1;
  max_memory_size = default_max_memory_size;
}

abbrev pub is_digit : ℕ → Bool
is_digit c = leb b'0' c && leb c b'9'

-- std::from_chars for a size_t at base ten: the digits at the front, of which the value is `none`
-- if it does not fit, and what follows them; `none` in all if there is no digit.
unfoldable pub scan_digits : ℕ → Bytes → ℕ × Bytes
scan_digits n [] = (n, [])
scan_digits n (c ∷ cs) =
    let rest = scan_digits (n * 10 + (c - b'0')) cs in if is_digit c then rest else (n, c ∷ cs)

unfoldable pub from_chars : Bytes → Option (Option ℕ × Bytes)
unfolding scan_digits
from_chars [] = none
from_chars (c ∷ cs) =
    if is_digit c
    then (let (n, rest) = scan_digits 0 (c ∷ cs) in
        some (if ltb n size_mod then some n else none, rest))
    else none

-- parsePositive<size_t>; `none` is the usage error.
unfoldable pub parse_positive : Bytes → Option ℕ
unfolding from_chars
parse_positive str = elim (from_chars str) [
  | none ↦ none
  | some (none, rest) ↦ none
  | some (some value, rest) ↦ if not (is_empty rest) || ltb value 1 then none else some value
]

-- The flags, with their arguments.
pub data Flag : Type 0 where
  impure force_recurse flake meta constituents check_cache_status : Flag
  show_input_drvs show_trace no_instantiate expr worker : Flag
  gc_roots_dir workers max_memory_size apply select : Bytes → Flag

-- The handler of a flag; `none` is a usage error.
unfoldable pub handle : Flag → MyArgs → Option MyArgs
unfolding parse_positive
handle Flag.impure a = some (record a { impure = true })
handle Flag.force_recurse a = some (record a { force_recurse = true })
handle (Flag.gc_roots_dir path) a = some (record a { gc_roots_dir = path })
handle (Flag.workers str) a = elim (parse_positive str) [
  | none ↦ none
  | some n ↦ some (record a { nr_workers = n })
]
handle (Flag.max_memory_size str) a = elim (parse_positive str) [
  | none ↦ none
  | some n ↦ some (record a { max_memory_size = n })
]
handle Flag.flake a = some (record a { flake = true })
handle Flag.meta a = some (record a { meta = true })
handle Flag.constituents a = some (record a { constituents = true })
handle Flag.check_cache_status a = some (record a { check_cache_status = true })
handle Flag.show_input_drvs a = some (record a { show_input_drvs = true })
handle Flag.show_trace a = some (record a { show_trace = true })
handle Flag.no_instantiate a = some (record a { no_instantiate = true })
handle Flag.expr a = some (record a { from_args = true })
handle (Flag.apply e) a = some (record a { apply_expr = e })
handle (Flag.select e) a = some (record a { select_expr = e })
handle Flag.worker a = some (record a { run_as_worker = true })

-- The flags of a command line, in their order.
unfoldable pub handle_all : List Flag → MyArgs → Option MyArgs
unfolding handle
handle_all [] a = some a
handle_all (flag ∷ flags) a = elim (handle flag a) [ none ↦ none | some a' ↦ handle_all flags a' ]

-- The names of the checks that are set, joined by a comma.
unfoldable pub join_flags : Bytes → List (Bool × Bytes) → Bytes
join_flags names [] = names
join_flags names ((is_set, name) ∷ checks) =
    join_flags
      (if is_set then names ++ ((if is_empty names then [] else ascii ", ") ++ name) else names)
      checks

-- validateIncompatibleFlags: the names of the flags in the usage error, or `none`.
unfoldable pub validate_incompatible_flags : MyArgs → Option Bytes
unfolding join_flags
validate_incompatible_flags a =
    let names = join_flags [] (
      (a.show_input_drvs, ascii "--show-input-drvs")
      ∷ (a.check_cache_status, ascii "--check-cache-status")
      ∷ (a.constituents, ascii "--constituents")
      ∷ []) in
    if not a.no_instantiate then none else if is_empty names then none else some names
