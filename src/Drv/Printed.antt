-- ===== src/Drv/Printed.antt =====
-- The parts of the JSON of a derivation, printed and read back by drv.cc.
use nix_eval_jobs.Prelude.{
  ◌≡◌, refl, List, [], ◌∷◌, Option, none, some, Bytes, Map, find, list_ord, nat_ord, arith, emplace,
  Ord, ◌≢◌, map,
}
use mathlib.Core.Option
use nix_eval_jobs.Messages.{ascii}
use nix_eval_jobs.Json.{JsonLib, traverse}
use nix_eval_jobs.Json.Fields.{Fields, assign, no_fields, Holds, IsLawful, Holds-eq}
use nix_eval_jobs.Drv.{Constituents}
use nix_eval_jobs.Drv.Print.{
  inputs_to_json, StoreDir, constituents_from_json, output_to_json, outputs_to_json, set_opt,
}
use nix_eval_jobs.Drv.Parse.{
  output_from_json, outputs_from_json, inputs_from_json, set_of, named_output, input_from_json,
  paths_from_json,
}
use nix_eval_jobs.Drv.Entries.{IsNamed, printed, read_back}
use mathlib.Core.List.{foldl}

module _ {P J : Type 0} (json : JsonLib J) (dir : StoreDir P) (law : IsLawful json) where
  pub set_opt_Holds :
      {A : Type 0} (key : Bytes) (print : A → J) (o : Option A) (v : J) (f : Fields J)
      → Holds json v f
      → Holds json (set_opt json dir key print o v) (assign key (Option.map print o) f)
  set_opt_Holds key print none v f h = Holds-eq json v f _ (λ k. ground arith) h
  set_opt_Holds key print (some a) v f h = law.set_field_Holds key (print a) v f h

  -- The constituents are read back from any object that has their three fields.
  pub constituents_lem :
      (c : Constituents) (fields : Map Bytes J)
      → find (ascii "constituents") fields ≡ some (json.of_strings c.constituents)
      → find (ascii "namedConstituents") fields ≡ some (json.of_strings c.named_constituents)
      → find (ascii "globConstituents") fields ≡ some (json.of_bool c.glob_constituents)
      → constituents_from_json json dir fields ≡ some c
  unfolding constituents_from_json
  constituents_lem c fields a b g =
      simp (a, b, g, law.strings_lem, law.bool_lem, constituents_from_json) refl

  pub fold_Holds :
      {K A : Type 0} (name : K → Bytes) (value : A → J) (m : Map K A) (v : J) (f : Fields J)
      → Holds json v f
      → Holds json
          (foldl (λ res e. json.set_field (name e.0) (value e.1) res) v m)
          (printed name value m f)
  fold_Holds name value [] v f h = h
  fold_Holds name value ((k, a) ∷ m) v f h =
      fold_Holds name value m _ _ (law.set_field_Holds (name k) (value a) v f h)

  pub outputs_Holds :
      (sd : Bytes) (outputs : Map Bytes (Option P))
      → outputs ≢ []
      → Holds json
          (outputs_to_json json dir sd outputs)
          (printed (λ k. k) (output_to_json json dir sd) outputs no_fields)
  unfolding outputs_to_json
  outputs_Holds sd [] ne = absurd (ne refl)
  outputs_Holds sd ((k, o) ∷ outputs) ne =
      fold_Holds (λ k. k) (output_to_json json dir sd) outputs _ _
        (law.set_field_null k (output_to_json json dir sd o))

  pub inputs_Holds :
      (sd : Bytes) (inputs : Map P (List Bytes))
      → Holds json
          (inputs_to_json json dir sd inputs)
          (printed (dir.print_store_path sd) json.of_strings inputs no_fields)
  unfolding inputs_to_json find
  inputs_Holds sd inputs =
      fold_Holds (dir.print_store_path sd) json.of_strings inputs _ _ (law.object_Holds [])

  module _ ⦃o : Ord P⦄
      (parses : (sd : Bytes) (p : P)
        → dir.parse_store_path sd (dir.print_store_path sd p) ≡ some p) where
    pub print-injective :
        (sd : Bytes) (a b : P) → dir.print_store_path sd a ≡ dir.print_store_path sd b → a ≡ b
    print-injective sd a b e = cc (parses sd a, parses sd b)

    output_lem :
        (sd : Bytes) (x : Option P)
        → output_from_json json dir sd (output_to_json json dir sd x) ≡ some x
    output_lem sd none = rw law.null_lem refl
    output_lem sd (some p) = simp (law.string_not_null, law.string_lem, parses) refl

    pub outputs_lem :
        (sd : Bytes) (outputs : Map Bytes (Option P))
        (h : Holds json
          (outputs_to_json json dir sd outputs)
          (printed (λ k. k) (output_to_json json dir sd) outputs no_fields))
        → IsNamed outputs
        → (m : Map Bytes (Option P)) × (outputs_from_json json dir sd h.fields ≡ some m)
          × ((k : Bytes) → find k m ≡ find k outputs)
    unfolding outputs_from_json
    outputs_lem sd outputs h n =
        let (entries, all, same) =
          read_back (λ k. k) (output_to_json json dir sd) (λ a b e. e) (named_output json dir sd)
            outputs n (λ k a e. simp (output_lem sd a) refl) h.fields h.is_map h.found in
        (foldl (λ m e. emplace e.0 e.1 m) [] entries, simp (all, outputs_from_json) refl, same)

    -- The names of outputs are a std::set.
    abbrev pub AreSets : Map P (List Bytes) → Type 0
    AreSets inputs =
        (p : P) (names : List Bytes) → find p inputs ≡ some names → set_of names ≡ names

    pub inputs_lem :
        (sd : Bytes) (inputs : Map P (List Bytes))
        → IsNamed inputs
        → AreSets inputs
        → (m : Map P (List Bytes)) × (inputs_from_json json dir sd
              (inputs_to_json json dir sd inputs)
            ≡ some m)
          × ((p : P) → find p m ≡ find p inputs)
    unfolding inputs_from_json
    inputs_lem sd inputs n sets =
        let h = inputs_Holds sd inputs in
        let (entries, all, same) =
          read_back (dir.print_store_path sd) json.of_strings (print-injective sd)
            (input_from_json json dir sd) inputs n
            (λ p names e. simp (parses, law.strings_lem, sets p names e) refl) h.fields h.is_map
            h.found in
        (
          foldl (λ m e. emplace e.0 e.1 m) [] entries,
          simp (h.opened, all, inputs_from_json) refl,
          same,
        )

    traverse_parse :
        (sd : Bytes) (ps : List P)
        → traverse (dir.parse_store_path sd) (map (dir.print_store_path sd) ps) ≡ some ps
    traverse_parse sd [] = refl
    traverse_parse sd (p ∷ ps) = simp (parses, traverse_parse sd ps) refl

    pub paths_lem :
        (sd : Bytes) (ps : List P)
        → paths_from_json json dir sd (json.of_strings (map (dir.print_store_path sd) ps)) ≡ some ps
    unfolding paths_from_json
    paths_lem sd ps = simp (law.strings_lem, traverse_parse sd ps, paths_from_json) refl
