-- ===== src/Drv/Print.antt =====
-- The conversions of drv.cc between a derivation and JSON. A store directory prints and parses
-- store paths.
use nix_eval_jobs.Prelude.{
  List, [], ◌∷◌, Option, none, some, Bool, true, false, Bytes, Map, if◌then◌else◌, map, find, ◌=?◌,
  list_ord, nat_ord,
}
use mathlib.Core.List.{foldl}
use nix_eval_jobs.Messages.{ascii}
use nix_eval_jobs.Drv.{Constituents, CacheStatus, Drv}
use nix_eval_jobs.Json.{JsonLib, ◌>>=◌, field_or}

-- nix::StoreDirConfig
pub record StoreDir (P : Type 0) : Type 0 where
  pub print_store_path : Bytes → P → Bytes
  pub parse_store_path : Bytes → Bytes → Option P

-- The Booleans and the text of a status that is known.
unfoldable pub is_cached : CacheStatus → Bool
is_cached CacheStatus.cached = true
is_cached CacheStatus.local = true
is_cached CacheStatus.not_built = false
is_cached CacheStatus.unknown = false

unfoldable pub status_name : CacheStatus → Bytes
status_name CacheStatus.cached = ascii "cached"
status_name CacheStatus.local = ascii "local"
status_name CacheStatus.not_built = ascii "notBuilt"
status_name CacheStatus.unknown = ascii "notBuilt"

unfoldable pub status_of : Bytes → CacheStatus
status_of s =
    if s =? ascii "cached"
    then CacheStatus.cached
    else if s =? ascii "local"
    then CacheStatus.local
    else CacheStatus.not_built

module _ {P J : Type 0} (json : JsonLib J) (dir : StoreDir P) where
  unfoldable pub constituents_to_json : Constituents → J
  constituents_to_json val = json.object (
      (ascii "constituents", json.of_strings val.constituents)
      ∷ (ascii "namedConstituents", json.of_strings val.named_constituents)
      ∷ (ascii "globConstituents", json.of_bool val.glob_constituents)
      ∷ [])

  unfoldable pub constituents_from_json : Map Bytes J → Option Constituents
  constituents_from_json fields = do
    constituents ← field_or json.get_strings [] (find (ascii "constituents") fields)
    named ← field_or json.get_strings [] (find (ascii "namedConstituents") fields)
    glob ← field_or json.get_bool false (find (ascii "globConstituents") fields)
    some (record {
      constituents = constituents;
      named_constituents = named;
      glob_constituents = glob;
    })

  abbrev pub output_to_json : Bytes → Option P → J
  output_to_json store_dir none = json.null
  output_to_json store_dir (some path) = json.of_string (dir.print_store_path store_dir path)

  -- The outputs, which are null if there is none.
  unfoldable pub outputs_to_json : Bytes → Map Bytes (Option P) → J
  outputs_to_json store_dir outputs =
      foldl (λ res output. json.set_field output.0 (output_to_json store_dir output.1) res)
        json.null outputs

  unfoldable pub inputs_to_json : Bytes → Map P (List Bytes) → J
  inputs_to_json store_dir inputs =
      foldl
        (λ res input.
          json.set_field (dir.print_store_path store_dir input.0) (json.of_strings input.1) res)
        (json.object []) inputs

  -- `if (optional) res[key] = *optional`
  abbrev pub set_opt : {A : Type 0} → Bytes → (A → J) → Option A → J → J
  set_opt key print none res = res
  set_opt key print (some value) res = json.set_field key (print value) res

  abbrev paths_to_json : Bytes → List P → J
  paths_to_json store_dir paths = json.of_strings (map (dir.print_store_path store_dir) paths)

  -- What a status that is known adds.
  unfoldable pub status_to_json : Drv P J → J → J
  unfolding is_cached status_name
  status_to_json drv res =
      let known =
        json.set_field (ascii "neededSubstitutes")
          (paths_to_json drv.store_dir drv.needed_substitutes)
          (json.set_field (ascii "neededBuilds") (paths_to_json drv.store_dir drv.needed_builds) (
            json.set_field (ascii "cacheStatus") (json.of_string (status_name drv.cache_status)) (
              json.set_field (ascii "isCached") (json.of_bool (is_cached drv.cache_status))
                res))) in
      elim drv.cache_status [ CacheStatus.unknown ↦ res | _ ↦ known ]

  -- adl_serializer<Drv>::to_json
  unfoldable pub drv_to_json : Drv P J → J
  unfolding constituents_to_json outputs_to_json inputs_to_json status_to_json
  drv_to_json drv =
      let res = json.object (
        (ascii "name", json.of_string drv.name)
        ∷ (ascii "storeDir", json.of_string drv.store_dir)
        ∷ (ascii "system", json.of_string drv.system)
        ∷ (ascii "drvPath", json.of_string (dir.print_store_path drv.store_dir drv.drv_path))
        ∷ (ascii "outputs", outputs_to_json drv.store_dir drv.outputs)
        ∷ []) in
      let with_meta = set_opt (ascii "meta") (λ m. m) drv.meta res in
      let with_inputs =
        set_opt (ascii "inputDrvs") (inputs_to_json drv.store_dir) drv.input_drvs with_meta in
      let with_features =
        set_opt (ascii "requiredSystemFeatures") json.of_strings drv.required_system_features
          with_inputs in
      status_to_json drv (json.update (constituents_to_json drv.constituents) with_features)
