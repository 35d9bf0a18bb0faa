-- ===== src/Json.antt =====
-- What the conversions of drv.cc and response.cc ask of nlohmann::json and of the helpers of Nix
-- over it. `J` stands for a JSON value; `none` is the exception that the operation throws.
use nix_eval_jobs.Prelude.{
  ℕ, List, [], ◌∷◌, Option, none, some, Bool, Bytes, Map, find, list_ord, nat_ord,
}
pub mod Fields

pub record JsonLib (J : Type 0) : Type 0 where
  pub null : J
  pub is_null : J → Bool
  pub of_string : Bytes → J
  pub of_strings : List Bytes → J
  pub of_number : ℕ → J
  pub of_bool : Bool → J
  -- `json{{key, value}, ...}`
  pub object : List (Bytes × J) → J
  -- `res[key] = value`
  pub set_field : Bytes → J → J → J
  -- `res.update(other)`, the other one first
  pub update : J → J → J
  pub get_object : J → Option (Map Bytes J)
  pub get_string : J → Option Bytes
  pub get_strings : J → Option (List Bytes)
  pub get_number : J → Option ℕ
  pub get_bool : J → Option Bool

infixl 1 ◌>>=◌
abbrev pub ◌>>=◌ : {A B : Type 0} → Option A → (A → Option B) → Option B
none >>= f = none
some a >>= f = f a

-- nix::valueAt
abbrev pub value_at : {J : Type 0} → Map Bytes J → Bytes → Option J
value_at json key = find key json

-- A field that may be missing, and has a default then.
abbrev pub field_or : {J A : Type 0} → (J → Option A) → A → Option J → Option A
field_or read default none = some default
field_or read default (some value) = read value

-- A field that may be missing, as an optional.
abbrev pub field_opt : {J A : Type 0} → (J → Option A) → Option J → Option (Option A)
field_opt read none = some none
field_opt read (some value) = do a ← read value; some (some a)

abbrev pub traverse : {A B : Type 0} → (A → Option B) → List A → Option (List B)
traverse f [] = some []
traverse f (x ∷ xs) = do y ← f x; ys ← traverse f xs; some (y ∷ ys)
