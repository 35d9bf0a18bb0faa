-- ===== src/Examples/Values.antt =====
-- A JSON library that behaves as documented: objects are lists of fields without repetition.
use nix_eval_jobs.Prelude.{
  ℕ, ◌≡◌, refl, List, [], ◌∷◌, Option, none, some, Bool, true, false, Bytes, Map, if◌then◌else◌,
  find, ◌=?◌, =?_iff, =?_refl, list_ord, nat_ord, arith,
}
use nix_eval_jobs.Json.{JsonLib}
use nix_eval_jobs.Json.Fields.{Fields, or_else, assign, no_fields, IsMap, Holds, IsLawful}

mutual
  pub data Value : Type 0 where
    null : Value
    text : Bytes → Value
    texts : List Bytes → Value
    number : ℕ → Value
    bool : Bool → Value
    object : Entries → Value

  pub data Entries : Type 0 where
    nil : Entries
    entry : Bytes → Value → Entries → Entries

abbrev to_map : Entries → Map Bytes Value
to_map nil = []
to_map (entry k v es) = (k, v) ∷ to_map es

abbrev of_map : Map Bytes Value → Entries
of_map [] = nil
of_map ((k, v) ∷ m) = entry k v (of_map m)

to_map-of_map : (m : Map Bytes Value) → to_map (of_map m) ≡ m
to_map-of_map [] = refl
to_map-of_map ((k, v) ∷ m) = cc (to_map-of_map m)

abbrev without : Bytes → Map Bytes Value → Map Bytes Value
without k [] = []
without k ((j, v) ∷ m) = let rest = without k m in if k =? j then rest else (j, v) ∷ rest

abbrev put_all : Map Bytes Value → Map Bytes Value → Map Bytes Value
put_all [] m = m
put_all ((k, v) ∷ kvs) m = (k, v) ∷ without k (put_all kvs m)

abbrev fields_of : Value → Map Bytes Value
fields_of (object es) = to_map es
fields_of _ = []

abbrev object_of : Value → Option (Map Bytes Value)
object_of (object es) = some (to_map es)
object_of _ = none

abbrev text_of : Value → Option Bytes
text_of (text t) = some t
text_of _ = none

abbrev texts_of : Value → Option (List Bytes)
texts_of (texts ts) = some ts
texts_of _ = none

abbrev number_of : Value → Option ℕ
number_of (number n) = some n
number_of _ = none

abbrev bool_of : Value → Option Bool
bool_of (bool b) = some b
bool_of _ = none

abbrev null_of : Value → Bool
null_of null = true
null_of _ = false

abbrev pub json : JsonLib Value
json = record {
  null = null;
  is_null = null_of;
  of_string = text;
  of_strings = texts;
  of_number = number;
  of_bool = bool;
  object = λ kvs. object (of_map (put_all kvs []));
  set_field = λ k x v. object (of_map (put_all ((k, x) ∷ []) (fields_of v)));
  update = λ u v. object (of_map (put_all (fields_of u) (fields_of v)));
  get_object = object_of;
  get_string = text_of;
  get_strings = texts_of;
  get_number = number_of;
  get_bool = bool_of;
}

find-without :
    (k j : Bytes) (m : Map Bytes Value) → find j (without k m) ≡ (if j =? k then none else find j m)
unfolding find
find-without k j [] = ground arith
find-without k j ((i, v) ∷ m) =
    ground (arith, find-without k j m, =?_iff k i, =?_iff j i, =?_iff j k)

without-IsMap : (k : Bytes) (m : Map Bytes Value) → IsMap m → IsMap (without k m)
without-IsMap k [] i = tt
without-IsMap k ((j, v) ∷ m) (fresh, i) = ground (arith, without-IsMap k m i, find-without k j m)

find-put_all :
    (kvs m : Map Bytes Value) (j : Bytes) → find j (put_all kvs m) ≡ or_else (find j kvs) (find j m)
unfolding find
find-put_all [] m j = refl
find-put_all ((k, v) ∷ kvs) m j =
    ground (arith, find-put_all kvs m j, find-without k j (put_all kvs m))

put_all-IsMap : (kvs m : Map Bytes Value) → IsMap m → IsMap (put_all kvs m)
put_all-IsMap [] m i = i
put_all-IsMap ((k, v) ∷ kvs) m i = ground (
  arith,
  without-IsMap k (put_all kvs m) (put_all-IsMap kvs m i),
  find-without k k (put_all kvs m),
  =?_refl k,
)

fields-opened : (v : Value) (m : Map Bytes Value) → object_of v ≡ some m → fields_of v ≡ m
fields-opened (object es) m h = ground arith
fields-opened null m h = cc
fields-opened (text t) m h = cc
fields-opened (texts ts) m h = cc
fields-opened (number n) m h = cc
fields-opened (bool b) m h = cc

object-Holds :
    (m : Map Bytes Value) (f : Fields Value)
    → IsMap m
    → ((k : Bytes) → find k m ≡ f k)
    → Holds json (object (of_map m)) f
object-Holds m f i e = record {
  fields = m;
  opened = simp (to_map-of_map m) refl;
  is_map = i;
  found = e;
}

set-Holds :
    (k : Bytes) (x : Value) (m : Map Bytes Value) (f : Fields Value)
    → IsMap m
    → ((k : Bytes) → find k m ≡ f k)
    → Holds json (object (of_map (put_all ((k, x) ∷ []) m))) (assign k (some x) f)
unfolding find
set-Holds k x m f i e =
    object-Holds (put_all ((k, x) ∷ []) m) _ (put_all-IsMap ((k, x) ∷ []) m i)
      (λ j. ground (arith, find-put_all ((k, x) ∷ []) m j, e j))

pub json-IsLawful : IsLawful json
unfolding find
json-IsLawful = record {
  object_Holds = λ kvs.
      object-Holds (put_all kvs []) _ (put_all-IsMap kvs [] tt)
        (λ k. ground (arith, find-put_all kvs [] k));
  set_field_Holds = λ k x v f h.
      set-Holds k x (fields_of v) f (ground (arith, fields-opened v h.fields h.opened, h.is_map))
        (λ j. ground (arith, fields-opened v h.fields h.opened, h.found j));
  set_field_null = λ k x. set-Holds k x [] no_fields tt (λ j. refl);
  update_Holds = λ u v f g h i.
      object-Holds (put_all (fields_of u) (fields_of v)) _
        (put_all-IsMap (fields_of u) (fields_of v)
          (ground (arith, fields-opened v i.fields i.opened, i.is_map)))
        (λ k. ground (
          arith,
          find-put_all (fields_of u) (fields_of v) k,
          fields-opened u h.fields h.opened,
          fields-opened v i.fields i.opened,
          h.found k,
          i.found k,
        ));
  null_lem = refl;
  string_not_null = λ s. refl;
  string_lem = λ s. refl;
  strings_lem = λ s. refl;
  number_lem = λ n. refl;
  bool_lem = λ b. refl;
}
