-- ===== src/Worker.antt =====
-- worker.cc: what a worker process does with an attribute path. The evaluator of Nix is a record of
-- operations on a heap; each gives the calls of the logger that it makes, the heap it leaves, and a
-- value or an exception.
use nix_eval_jobs.Prelude.{ℕ, List, [], ◌∷◌, Option, Bool, Bytes, ◌⊎◌, inl, inr}
use nix_eval_jobs.EvalLog.{LogCall, EvalLogCapture, on_calls}
use nix_eval_jobs.Drv.{Drv, Constituents}
pub mod Values
pub mod Evaluate
pub mod Rounds
pub mod Recursion
pub mod Received
pub mod Cycle
pub mod Logged
pub mod Protocol
pub mod Loop

-- The exceptions that `evaluate` tells apart: nix::StackOverflowError, nix::EvalError, and any
-- other std::exception with its what(). `E` is nix::ErrorInfo.
pub data Exn (E : Type 0) : Type 0 where
  stack_overflow : E → Exn E
  eval_error : E → Exn E
  std_exception : Bytes → Exn E

-- `undefined` is the undefined behaviour of C++, a null pointer.
pub data Step (E A : Type 0) : Type 0 where
  value : A → Step E A
  throws : Exn E → Step E A
  undefined : Step E A

-- `W` is the heap of the evaluator.
pub record World (W : Type 0) : Type 0 where
  pub heap : W
  pub capture : EvalLogCapture

abbrev pub Op : Type 0 → Type 0 → Type 0 → Type 0
Op W E A = W → List LogCall × W × (Exn E ⊎ A)

abbrev pub Eval : Type 0 → Type 0 → Type 0 → Type 0
Eval W E A = World W → World W × Step E A

pub data Kind : Type 0 where
  attrs text other : Kind

-- nix::NixStringContextElem, over the derived paths `R`.
pub data ContextElem (R : Type 0) : Type 0 where
  opaque : R → ContextElem R
  drv_deep : R → ContextElem R
  built : R → ContextElem R

-- nix::EvalState and what else of Nix the worker calls, with the auto arguments applied already.
-- `V` is a nix::Value *, `X` a nix::Expr *, `D` a nix::PackageInfo, `P` a nix::StorePath; a
-- nix::Bindings * is an address.
pub record Evaluator (W E V X D R P J : Type 0) : Type 0 where
  pub auto_call_function : V → Op W E V
  pub call_function : V → V → Op W E V
  pub force_value : V → Op W E Unit
  pub force_attrs : V → Bytes → Op W E Unit
  pub force_bool : V → Bytes → Op W E Bool
  pub force_list : V → Bytes → Op W E Unit
  pub coerce_to_string : V → Bytes → Op W E (List (ContextElem R))
  pub parse_expr : Bytes → Op W E X
  pub eval : X → Op W E V
  pub get_derivation : V → Op W E (Option D)
  pub drv_of_package : Bytes → D → Constituents → Op W E (Drv P J)
  pub print_json : V → Op W E Bytes
  pub parse_json : Bytes → Op W E J
  pub path_exists : Bytes → Op W E Bool
  pub add_perm_root : P → Bytes → Op W E Unit
  -- What is read of a value that was forced.
  pub type_of : W → V → Kind
  pub attrs_of : W → V → ℕ
  pub list_view : W → V → List V
  pub c_str : W → V → Bytes
  -- The attributes of a set: one by its name, and all of them in the order of their names.
  pub get : W → ℕ → Bytes → Option V
  pub lexicographic_order : W → ℕ → List Bytes
  pub to_string : R → Bytes
  pub error_info : Bytes → E
  pub show_error : E → Bytes
  pub null_json : J
  pub filter_ansi : Bytes → Bytes
  pub read_only_mode : Bool
  pub is_local_store : Bool
  pub path_to_string : P → Bytes

abbrev pub step_of : {E A : Type 0} → Exn E ⊎ A → Step E A
step_of (inl e) = throws e
step_of (inr a) = value a

module _ {W E : Type 0} where
  unfoldable pub return : {A : Type 0} → A → Eval W E A
  return a w = (w, value a)

  unfoldable pub throw : {A : Type 0} → Exn E → Eval W E A
  throw e w = (w, throws e)

  unfoldable pub fault : {A : Type 0} → Eval W E A
  fault w = (w, undefined)

  abbrev pub continue : {A B : Type 0} → (A → Eval W E B) → World W × Step E A → World W × Step E B
  continue f (w, value a) = f a w
  continue f (w, throws e) = (w, throws e)
  continue f (w, undefined) = (w, undefined)

  infixl 1 ◌>>=◌ ◌>>◌
  unfoldable pub ◌>>=◌ : {A B : Type 0} → Eval W E A → (A → Eval W E B) → Eval W E B
  ◌>>=◌ m f w = continue f (m w)

  unfoldable pub ◌>>◌ : {A B : Type 0} → Eval W E A → Eval W E B → Eval W E B
  ◌>>◌ m k w = continue (λ _. k) (m w)

  -- What is read of the heap.
  unfoldable pub read : {A : Type 0} → (W → A) → Eval W E A
  read f w = (w, value (f w.heap))

  -- An operation, whose calls of the logger go through the capture.
  unfoldable pub lift : {A : Type 0} → (Bytes → Bytes) → Op W E A → Eval W E A
  lift filter_ansi op w =
      let (calls, heap, r) = op w.heap in
      (record { heap = heap; capture = on_calls filter_ansi calls w.capture }, step_of r)
