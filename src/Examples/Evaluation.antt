-- ===== src/Examples/Evaluation.antt =====
-- A small evaluator, whose heap never changes and whose sets have at most one attribute each.
use nix_eval_jobs.Prelude.{
  ℕ, ◌≢◌, ◌≤◌, List, [], ◌∷◌, Option, none, some, true, false, Bytes, if◌then◌else◌, ◌==◌, ◌=?◌,
  count, list_ord, nat_ord, arith, inr,
}
use nix_eval_jobs.Messages.{ascii}
use nix_eval_jobs.Worker.{Op, Kind, Evaluator}
use nix_eval_jobs.Worker.Logged.{IsSound}
use nix_eval_jobs.Examples.Values.{Value, json}
use nix_eval_jobs.Examples.Cases.{minimal}

-- The values: a root with one package, the package, a set with `recurseForDerivations`, its value, and a set that contains itself.
abbrev pub root : ℕ
root = 0

abbrev pub hello : ℕ
hello = 1

abbrev pub marked : ℕ
marked = 2

abbrev pub yes : ℕ
yes = 3

abbrev pub loop : ℕ
loop = 4

abbrev pub attribute : ℕ → Option (Bytes × ℕ)
attribute v =
    if v == root
    then some (ascii "hello", hello)
    else if v == marked
    then some (ascii "recurseForDerivations", yes)
    else if v == loop
    then some (ascii "loop", loop)
    else none

abbrev pub lookup : Option (Bytes × ℕ) → Bytes → Option ℕ
lookup none name = none
lookup (some (key, v)) name = if name =? key then some v else none

abbrev pub names_of : Option (Bytes × ℕ) → List Bytes
names_of none = []
names_of (some (key, v)) = key ∷ []

abbrev pub pure : {A : Type 0} → A → Op (Unit {0}) Bytes A
pure a h = ([], h, inr a)

abbrev pub state : Evaluator (Unit {0}) Bytes ℕ Bytes Bytes Bytes Bytes Value
state = record {
  auto_call_function = λ v. pure v;
  call_function = λ f v. pure v;
  force_value = λ v. pure tt;
  force_attrs = λ v msg. pure tt;
  force_bool = λ v msg. pure (v == yes);
  force_list = λ v msg. pure tt;
  coerce_to_string = λ v msg. pure [];
  parse_expr = λ s. pure s;
  eval = λ x. pure root;
  get_derivation = λ v. pure (if v == hello then some (ascii "hello") else none);
  drv_of_package = λ attr info constituents. pure minimal;
  print_json = λ v. pure (ascii "{}");
  parse_json = λ s. pure (json.object []);
  path_exists = λ p. pure true;
  add_perm_root = λ p s. pure tt;
  type_of = λ h v. if v == yes then Kind.other else Kind.attrs;
  attrs_of = λ h v. v;
  list_view = λ h v. [];
  c_str = λ h v. [];
  get = λ h set name. lookup (attribute set) name;
  lexicographic_order = λ h set. names_of (attribute set);
  to_string = λ r. r;
  error_info = λ msg. msg;
  show_error = λ e. e;
  null_json = json.null;
  filter_ansi = λ s. s;
  read_only_mode = false;
  is_local_store = true;
  path_to_string = λ p. p;
}

listed_lem :
    (a : Option (Bytes × ℕ)) (name : Bytes) → 1 ≤ count name (names_of a) → lookup a name ≢ none
listed_lem none name h = absurd (omega arith)
listed_lem (some (key, v)) name h = ground arith

listed_once_lem : (a : Option (Bytes × ℕ)) (name : Bytes) → count name (names_of a) ≤ 1
listed_once_lem none name = omega arith
listed_once_lem (some (key, v)) name = ground arith

pub state-IsSound : IsSound state
state-IsSound = record {
  listed = λ h set name. listed_lem (attribute set) name;
  listed_once = λ h set name. listed_once_lem (attribute set) name;
}
