-- ===== src/Drv/Parse.antt =====
-- adl_serializer<Drv>::from_json of drv.cc.
use nix_eval_jobs.Prelude.{
  List, [], Option, none, some, Bytes, Map, Ord, if◌then◌else◌, find, emplace, insert, list_ord,
  nat_ord,
}
use mathlib.Core.List.{foldl}
use nix_eval_jobs.Messages.{ascii}
use nix_eval_jobs.Drv.{CacheStatus, Drv}
use nix_eval_jobs.Drv.Print.{StoreDir, status_of, constituents_from_json}
use nix_eval_jobs.Json.{JsonLib, ◌>>=◌, value_at, field_or, field_opt, traverse}

abbrev pub set_of : List Bytes → List Bytes
set_of names = foldl (λ s name. insert name s) [] names

module _ {P J : Type 0} ⦃o : Ord P⦄ (json : JsonLib J) (dir : StoreDir P) where
  -- A store path in a string.
  abbrev pub get_path : Bytes → J → Option P
  get_path store_dir value = do s ← json.get_string value; dir.parse_store_path store_dir s

  abbrev pub output_from_json : Bytes → J → Option (Option P)
  output_from_json store_dir value =
      if json.is_null value then some none else field_opt (get_path store_dir) (some value)

  abbrev pub named_output : Bytes → Bytes × J → Option (Bytes × Option P)
  named_output store_dir (name, value) = do
    path ← output_from_json store_dir value
    some (name, path)

  -- The loop over the outputs.
  unfoldable pub outputs_from_json : Bytes → Map Bytes J → Option (Map Bytes (Option P))
  outputs_from_json store_dir fields = do
    outputs ← traverse (named_output store_dir) fields
    some (foldl (λ m output. emplace output.0 output.1 m) [] outputs)

  abbrev pub get_set : J → Option (List Bytes)
  get_set value = do names ← json.get_strings value; some (set_of names)

  abbrev pub input_from_json : Bytes → Bytes × J → Option (P × List Bytes)
  input_from_json store_dir (path, names) = do
    p ← dir.parse_store_path store_dir path
    ns ← get_set names
    some (p, ns)

  -- The loop over the inputs.
  unfoldable pub inputs_from_json : Bytes → J → Option (Map P (List Bytes))
  inputs_from_json store_dir value = do
    fields ← json.get_object value
    inputs ← traverse (input_from_json store_dir) fields
    some (foldl (λ m input. emplace input.0 input.1 m) [] inputs)

  unfoldable pub paths_from_json : Bytes → J → Option (List P)
  paths_from_json store_dir value = do
    texts ← json.get_strings value
    traverse (dir.parse_store_path store_dir) texts

  -- What follows the key `cacheStatus`: the lists are read only with it.
  unfoldable pub status_from_json : Bytes → Map Bytes J → Drv P J → Option (Drv P J)
  unfolding paths_from_json
  status_from_json store_dir fields drv = elim (find (ascii "cacheStatus") fields) [
    | none ↦ some drv
    | some value ↦ do
      status ← json.get_string value
      builds ← field_or (paths_from_json store_dir) [] (find (ascii "neededBuilds") fields)
      substitutes ←
          field_or (paths_from_json store_dir) [] (find (ascii "neededSubstitutes") fields)
      some (record drv {
        cache_status = status_of status;
        needed_builds = builds;
        needed_substitutes = substitutes;
      })
  ]

  -- adl_serializer<Drv>::from_json
  unfoldable pub drv_from_json : J → Option (Drv P J)
  unfolding outputs_from_json inputs_from_json status_from_json
  drv_from_json value = do
    fields ← json.get_object value
    store_dir ← value_at fields (ascii "storeDir") >>= json.get_string
    outputs ← value_at fields (ascii "outputs") >>= json.get_object >>= outputs_from_json store_dir
    name ← value_at fields (ascii "name") >>= json.get_string
    system ← value_at fields (ascii "system") >>= json.get_string
    drv_path ← value_at fields (ascii "drvPath") >>= get_path store_dir
    input_drvs ← field_opt (inputs_from_json store_dir) (find (ascii "inputDrvs") fields)
    features ← field_opt get_set (find (ascii "requiredSystemFeatures") fields)
    constituents ← constituents_from_json json dir fields
    status_from_json store_dir fields (record {
      name = name;
      store_dir = store_dir;
      system = system;
      drv_path = drv_path;
      outputs = outputs;
      input_drvs = input_drvs;
      required_system_features = features;
      needed_builds = [];
      needed_substitutes = [];
      unknown_paths = [];
      cache_status = CacheStatus.unknown;
      meta = find (ascii "meta") fields;
      constituents = constituents;
    })
