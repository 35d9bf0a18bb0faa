-- ===== src/Json/Fields.antt =====
-- What the JSON library documents of objects and their fields, and the fields of the objects that
-- drv.cc and response.cc build.
use nix_eval_jobs.Prelude.{
  ℕ, ◌≡◌, ◌∙◌, List, [], ◌∷◌, Option, none, some, Bool, true, false, Bytes, Map, if◌then◌else◌,
  find, ◌=?◌, list_ord, nat_ord,
}
use nix_eval_jobs.Json.{JsonLib}

-- The value of every key.
abbrev pub Fields : Type 0 → Type 0
Fields J = Bytes → Option J

abbrev pub or_else {ℓ} : {A : Type ℓ} → Option A → Option A → Option A
or_else none y = y
or_else (some x) y = some x

abbrev pub assign : {J : Type 0} → Bytes → Option J → Fields J → Fields J
assign key x f j = if j =? key then or_else x (f j) else f j

abbrev pub no_fields : {J : Type 0} → Fields J
no_fields j = none

abbrev pub has_key : {V : Type 0} → Bytes → Map Bytes V → Bool
has_key k m = elim (find k m) [ none ↦ false | some v ↦ true ]

-- No key occurs twice.
abbrev pub IsMap : {V : Type 0} → Map Bytes V → Type 0
IsMap [] = Unit {0}
IsMap ((k, v) ∷ m) = (find k m ≡ none) × IsMap m

module _ {J : Type 0} (json : JsonLib J) where
  -- The value is an object with these fields.
  pub record Holds (v : J) (f : Fields J) : Type 0 where
    pub fields : Map Bytes J
    pub opened : json.get_object v ≡ some fields
    pub is_map : IsMap fields
    pub found : (k : Bytes) → find k fields ≡ f k

  -- The documented behaviour that the conversions rely on.
  pub record IsLawful : Type 0 where
    pub object_Holds : (kvs : Map Bytes J) → Holds (json.object kvs) (λ k. find k kvs)
    pub set_field_Holds :
        (k : Bytes) (x v : J) (f : Fields J)
        → Holds v f
        → Holds (json.set_field k x v) (assign k (some x) f)
    pub set_field_null :
        (k : Bytes) (x : J) → Holds (json.set_field k x json.null) (assign k (some x) no_fields)
    pub update_Holds :
        (u v : J) (f g : Fields J)
        → Holds u f
        → Holds v g
        → Holds (json.update u v) (λ k. or_else (f k) (g k))
    pub null_lem : json.is_null json.null ≡ true
    pub string_not_null : (s : Bytes) → json.is_null (json.of_string s) ≡ false
    pub string_lem : (s : Bytes) → json.get_string (json.of_string s) ≡ some s
    pub strings_lem : (ss : List Bytes) → json.get_strings (json.of_strings ss) ≡ some ss
    pub number_lem : (n : ℕ) → json.get_number (json.of_number n) ≡ some n
    pub bool_lem : (b : Bool) → json.get_bool (json.of_bool b) ≡ some b

  -- The fields are known up to a pointwise equation.
  pub Holds-eq : (v : J) (f g : Fields J) → ((k : Bytes) → f k ≡ g k) → Holds v f → Holds v g
  Holds-eq v f g e h = record {
    fields = h.fields;
    opened = h.opened;
    is_map = h.is_map;
    found = λ k. h.found k ∙ e k;
  }
