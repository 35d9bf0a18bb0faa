-- ===== src/Drv/RoundTrip.antt =====
-- A derivation is read back from the JSON that drv.cc prints.
use nix_eval_jobs.Prelude.{
  ◌≡◌, ◌≢◌, refl, ◌∙◌, List, [], ◌∷◌, Option, none, some, Bool, false, ◌||◌, Bytes, Map, Ord, find,
  ◌=?◌, list_ord, nat_ord, arith, map,
}
use mathlib.Core.Option
use nix_eval_jobs.Messages.{ascii}
use nix_eval_jobs.Json.{JsonLib, field_opt}
use nix_eval_jobs.Json.Fields.{Fields, or_else, assign, Holds, IsLawful}
use nix_eval_jobs.Drv.{CacheStatus, Drv}
use nix_eval_jobs.Drv.Print.{
  StoreDir, constituents_to_json, inputs_to_json, outputs_to_json, status_to_json, drv_to_json,
  is_cached, status_name, status_of,
}
use nix_eval_jobs.Drv.Parse.{drv_from_json, set_of, get_set, inputs_from_json, status_from_json}
use nix_eval_jobs.Drv.Entries.{IsNamed}
use nix_eval_jobs.Drv.Printed.{
  set_opt_Holds, constituents_lem, outputs_Holds, outputs_lem, AreSets, inputs_lem, paths_lem,
}

pub or_else-none {ℓ} : {A : Type ℓ} (x : Option A) → or_else x none ≡ x
or_else-none none = refl
or_else-none (some x) = refl

pub map-same {ℓ} : {A : Type ℓ} (x : Option A) → Option.map (λ m. m) x ≡ x
map-same none = refl
map-same (some x) = refl

module _ {P J : Type 0} (json : JsonLib J) (dir : StoreDir P) where
  abbrev paths : Bytes → List P → J
  paths sd ps = json.of_strings (map (dir.print_store_path sd) ps)

  -- The fields that a status adds.
  abbrev pub status_fields : CacheStatus → Drv P J → Fields J → Fields J
  status_fields CacheStatus.unknown drv f = f
  status_fields s drv f =
      assign (ascii "neededSubstitutes") (some (paths drv.store_dir drv.needed_substitutes)) (
        assign (ascii "neededBuilds") (some (paths drv.store_dir drv.needed_builds)) (
          assign (ascii "cacheStatus") (some (json.of_string (status_name s)))
            (assign (ascii "isCached") (some (json.of_bool (is_cached s))) f)))

  abbrev pub is_status_key : Bytes → Bool
  is_status_key k =
      k =? ascii "neededSubstitutes"
      || k =? ascii "neededBuilds"
      || k =? ascii "cacheStatus"
      || k =? ascii "isCached"

  -- The fields of a derivation but for its status.
  abbrev pub static_fields : Drv P J → Fields J
  static_fields drv k =
      or_else
        (find k (
          (ascii "constituents", json.of_strings drv.constituents.constituents)
          ∷ (ascii "namedConstituents", json.of_strings drv.constituents.named_constituents)
          ∷ (ascii "globConstituents", json.of_bool drv.constituents.glob_constituents)
          ∷ []))
        (assign (ascii "requiredSystemFeatures")
          (Option.map json.of_strings drv.required_system_features)
          (assign (ascii "inputDrvs")
            (Option.map (inputs_to_json json dir drv.store_dir) drv.input_drvs)
            (assign (ascii "meta") (Option.map (λ m. m) drv.meta) (λ k. find k (
              (ascii "name", json.of_string drv.name)
              ∷ (ascii "storeDir", json.of_string drv.store_dir)
              ∷ (ascii "system", json.of_string drv.system)
              ∷ (ascii "drvPath", json.of_string (dir.print_store_path drv.store_dir drv.drv_path))
              ∷ (ascii "outputs", outputs_to_json json dir drv.store_dir drv.outputs)
              ∷ []))))
          k)

  pub status_fields_other :
      (s : CacheStatus) (drv : Drv P J) (f : Fields J) (k : Bytes)
      → is_status_key k ≡ false
      → status_fields s drv f k ≡ f k
  status_fields_other CacheStatus.unknown drv f k h = refl
  status_fields_other CacheStatus.local drv f k h = ground arith
  status_fields_other CacheStatus.cached drv f k h = ground arith
  status_fields_other CacheStatus.not_built drv f k h = ground arith

  module _ (law : IsLawful json) where
    added :
        (s : CacheStatus) (drv : Drv P J) (v : J) (f : Fields J)
        → Holds json v f
        → Holds json
            (json.set_field
              (ascii "neededSubstitutes")
              (paths drv.store_dir drv.needed_substitutes)
              (json.set_field (ascii "neededBuilds") (paths drv.store_dir drv.needed_builds) (
                json.set_field
                  (ascii "cacheStatus")
                  (json.of_string (status_name s))
                  (json.set_field (ascii "isCached") (json.of_bool (is_cached s)) v))))
            (assign
              (ascii "neededSubstitutes")
              (some (paths drv.store_dir drv.needed_substitutes))
              (assign (ascii "neededBuilds") (some (paths drv.store_dir drv.needed_builds)) (
                assign
                  (ascii "cacheStatus")
                  (some (json.of_string (status_name s)))
                  (assign (ascii "isCached") (some (json.of_bool (is_cached s))) f))))
    added s drv v f h =
        law.set_field_Holds _ _ _ _ (
          law.set_field_Holds _ _ _ _ (law.set_field_Holds _ _ _ _ (law.set_field_Holds _ _ _ _ h)))

    known_Holds :
        (s : CacheStatus) (drv : Drv P J) (v : J) (f : Fields J)
        → Holds json v f
        → drv.cache_status ≡ s
        → Holds json (status_to_json json dir drv v) (status_fields s drv f)
    unfolding status_to_json
    known_Holds CacheStatus.unknown drv v f h e = simp (e, status_to_json) h
    known_Holds CacheStatus.local drv v f h e =
        simp (e, status_to_json) (added CacheStatus.local drv v f h)
    known_Holds CacheStatus.cached drv v f h e =
        simp (e, status_to_json) (added CacheStatus.cached drv v f h)
    known_Holds CacheStatus.not_built drv v f h e =
        simp (e, status_to_json) (added CacheStatus.not_built drv v f h)

    pub drv_Holds :
        (drv : Drv P J)
        → Holds json
            (drv_to_json json dir drv)
            (status_fields drv.cache_status drv (static_fields drv))
    unfolding drv_to_json constituents_to_json
    drv_Holds drv =
        known_Holds drv.cache_status drv _ (static_fields drv)
          (law.update_Holds _ _ _ _ (law.object_Holds _) (
            set_opt_Holds json dir law (ascii "requiredSystemFeatures") json.of_strings
              drv.required_system_features _ _
              (set_opt_Holds json dir law (ascii "inputDrvs")
                (inputs_to_json json dir drv.store_dir) drv.input_drvs _ _
                (set_opt_Holds json dir law (ascii "meta") (λ m. m) drv.meta _ _
                  (law.object_Holds _)))))
          refl

    abbrev field_at :
        (drv : Drv P J) (k : Bytes)
        → is_status_key k ≡ false
        → find k (drv_Holds drv).fields ≡ static_fields drv k
    field_at drv k h =
        (drv_Holds drv).found k ∙ status_fields_other drv.cache_status drv (static_fields drv) k h

    module _ ⦃o : Ord P⦄
        (parses : (sd : Bytes) (p : P)
          → dir.parse_store_path sd (dir.print_store_path sd p) ≡ some p) where
      -- Lists that are printed only with a status that is known.
      abbrev pub kept : CacheStatus → List P → List P
      kept CacheStatus.unknown ps = []
      kept _ ps = ps

      abbrev pub SameInputs : Option (Map P (List Bytes)) → Option (Map P (List Bytes)) → Type 0
      SameInputs none none = Unit {0}
      SameInputs (some m) (some n) = (p : P) → find p n ≡ find p m
      SameInputs _ _ = ⊥

      status_of_name : (s : CacheStatus) → s ≢ CacheStatus.unknown → status_of (status_name s) ≡ s
      unfolding status_of status_name
      status_of_name CacheStatus.unknown h = absurd (h refl)
      status_of_name CacheStatus.local h = refl
      status_of_name CacheStatus.cached h = refl
      status_of_name CacheStatus.not_built h = refl

      inputs_opt :
          (sd : Bytes) (m : Option (Map P (List Bytes)))
          → ((n : Map P (List Bytes)) → m ≡ some n → IsNamed n × AreSets json dir law parses n)
          → (x : Option (Map P (List Bytes))) × (field_opt
                (inputs_from_json json dir sd)
                (Option.map (inputs_to_json json dir sd) m)
              ≡ some x)
            × SameInputs m x
      inputs_opt sd none h = (none, refl, tt)
      inputs_opt sd (some m) h =
          let (named, sets) = h m refl in
          let (n, e, same) = inputs_lem json dir law parses sd m named sets in
          (some n, simp e refl, same)

      features_opt :
          (fs : Option (List Bytes))
          → ((f : List Bytes) → fs ≡ some f → set_of f ≡ f)
          → field_opt (get_set json dir) (Option.map json.of_strings fs) ≡ some fs
      features_opt none h = refl
      features_opt (some f) h = simp (law.strings_lem, h f refl) refl

      -- The fields that are read of a status.
      pub record HasStatus (s : CacheStatus) (drv : Drv P J) (m : Map Bytes J) : Type 0 where
        pub status :
            find (ascii "cacheStatus") m
            ≡ status_fields s drv (static_fields drv) (ascii "cacheStatus")
        pub builds :
            find (ascii "neededBuilds") m
            ≡ status_fields s drv (static_fields drv) (ascii "neededBuilds")
        pub substitutes :
            find (ascii "neededSubstitutes") m
            ≡ status_fields s drv (static_fields drv) (ascii "neededSubstitutes")

      known_status :
          (drv base : Drv P J) (m : Map Bytes J) (s : CacheStatus)
          → s ≢ CacheStatus.unknown
          → find (ascii "cacheStatus") m ≡ some (json.of_string (status_name s))
          → find (ascii "neededBuilds") m ≡ some (paths drv.store_dir drv.needed_builds)
          → find (ascii "neededSubstitutes") m ≡ some (paths drv.store_dir drv.needed_substitutes)
          → status_from_json json dir drv.store_dir m base
            ≡ some (record base {
              cache_status = s;
              needed_builds = drv.needed_builds;
              needed_substitutes = drv.needed_substitutes;
            })
      unfolding status_from_json
      known_status drv base m s k a b c =
          simp
            (
              a,
              b,
              c,
              law.string_lem,
              paths_lem json dir law parses,
              status_of_name s k,
              status_from_json,
            )
            refl

      unknown_status :
          (drv base : Drv P J) (m : Map Bytes J)
          → base.cache_status ≡ CacheStatus.unknown
          → base.needed_builds ≡ []
          → base.needed_substitutes ≡ []
          → find (ascii "cacheStatus") m ≡ none
          → status_from_json json dir drv.store_dir m base
            ≡ some (record base {
              cache_status = CacheStatus.unknown;
              needed_builds = [];
              needed_substitutes = [];
            })
      unfolding status_from_json
      unknown_status drv base m u b n a = simp (a, status_from_json) (ground arith)

      status_lem :
          (drv base : Drv P J)
          → base.cache_status ≡ CacheStatus.unknown
          → base.needed_builds ≡ []
          → base.needed_substitutes ≡ []
          → (m : Map Bytes J) (s : CacheStatus) → HasStatus s drv m
          → status_from_json json dir drv.store_dir m base
            ≡ some (record base {
              cache_status = s;
              needed_builds = kept s drv.needed_builds;
              needed_substitutes = kept s drv.needed_substitutes;
            })
      unfolding status_from_json find
      status_lem drv base u b n m CacheStatus.unknown f = unknown_status drv base m u b n f.status
      status_lem drv base u b n m CacheStatus.local f =
          known_status drv base m CacheStatus.local (λ h. cc) f.status f.builds f.substitutes
      status_lem drv base u b n m CacheStatus.cached f =
          known_status drv base m CacheStatus.cached (λ h. cc) f.status f.builds f.substitutes
      status_lem drv base u b n m CacheStatus.not_built f =
          known_status drv base m CacheStatus.not_built (λ h. cc) f.status f.builds f.substitutes

      pub record HasStatic (drv : Drv P J) (m : Map Bytes J) : Type 0 where
        pub name : find (ascii "name") m ≡ some (json.of_string drv.name)
        pub store_dir : find (ascii "storeDir") m ≡ some (json.of_string drv.store_dir)
        pub system : find (ascii "system") m ≡ some (json.of_string drv.system)
        pub drv_path :
            find (ascii "drvPath") m
            ≡ some (json.of_string (dir.print_store_path drv.store_dir drv.drv_path))
        pub outputs :
            find (ascii "outputs") m ≡ some (outputs_to_json json dir drv.store_dir drv.outputs)
        pub meta : find (ascii "meta") m ≡ drv.meta
        pub input_drvs :
            find (ascii "inputDrvs") m
            ≡ Option.map (inputs_to_json json dir drv.store_dir) drv.input_drvs
        pub features :
            find (ascii "requiredSystemFeatures") m
            ≡ Option.map json.of_strings drv.required_system_features
        pub constituents :
            find (ascii "constituents") m ≡ some (json.of_strings drv.constituents.constituents)
        pub named :
            find (ascii "namedConstituents") m
            ≡ some (json.of_strings drv.constituents.named_constituents)
        pub glob :
            find (ascii "globConstituents") m
            ≡ some (json.of_bool drv.constituents.glob_constituents)

      drv-HasStatic :
          (drv : Drv P J) (m : Map Bytes J)
          → ((k : Bytes) → is_status_key k ≡ false → find k m ≡ static_fields drv k)
          → HasStatic drv m
      unfolding find
      drv-HasStatic drv m f = record {
        name = f (ascii "name") refl;
        store_dir = f (ascii "storeDir") refl;
        system = f (ascii "system") refl;
        drv_path = f (ascii "drvPath") refl;
        outputs = f (ascii "outputs") refl;
        meta = f (ascii "meta") refl ∙ or_else-none _ ∙ map-same drv.meta;
        input_drvs = f (ascii "inputDrvs") refl ∙ or_else-none _;
        features = f (ascii "requiredSystemFeatures") refl ∙ or_else-none _;
        constituents = f (ascii "constituents") refl;
        named = f (ascii "namedConstituents") refl;
        glob = f (ascii "globConstituents") refl;
      }

      -- What the types of the source give of the maps and sets of a derivation, and that it has an
      -- output.
      pub record IsPrintable (drv : Drv P J) : Type 0 where
        pub has_outputs : drv.outputs ≢ []
        pub outputs_named : IsNamed drv.outputs
        pub inputs_named :
            (m : Map P (List Bytes))
            → drv.input_drvs ≡ some m
            → IsNamed m × AreSets json dir law parses m
        pub features_set : (f : List Bytes) → drv.required_system_features ≡ some f → set_of f ≡ f

      -- The same derivation, its maps compared by their lookups, but for what is not printed.
      pub record Reread (drv got : Drv P J) : Type 0 where
        pub same_outputs : (k : Bytes) → find k got.outputs ≡ find k drv.outputs
        pub same_inputs : SameInputs drv.input_drvs got.input_drvs
        pub same_rest :
            record got { outputs = drv.outputs; input_drvs = drv.input_drvs } ≡ record drv {
              needed_builds = kept drv.cache_status drv.needed_builds;
              needed_substitutes = kept drv.cache_status drv.needed_substitutes;
              unknown_paths = [];
            }

      -- A derivation is read back from any object that has its fields, other ones beside them.
      pub drv_from_json_lem :
          (drv : Drv P J)
          → IsPrintable drv
          → (v : J) (m : Map Bytes J) → json.get_object v ≡ some m
          → HasStatic drv m
          → HasStatus drv.cache_status drv m
          → (got : Drv P J) × (drv_from_json json dir v ≡ some got) × Reread drv got
      unfolding drv_from_json
      drv_from_json_lem drv w v m opened f status =
          let o = outputs_Holds json dir law drv.store_dir drv.outputs w.has_outputs in
          let (outs, eo, so) =
            outputs_lem json dir law parses drv.store_dir drv.outputs o w.outputs_named in
          let (ins, ei, si) = inputs_opt drv.store_dir drv.input_drvs w.inputs_named in
          let base : Drv P J = record drv {
            outputs = outs;
            input_drvs = ins;
            needed_builds = [];
            needed_substitutes = [];
            unknown_paths = [];
            cache_status = CacheStatus.unknown;
          } in
          let e = status_lem drv base refl refl refl m drv.cache_status status in
          let got : Drv P J = record base {
            cache_status = drv.cache_status;
            needed_builds = kept drv.cache_status drv.needed_builds;
            needed_substitutes = kept drv.cache_status drv.needed_substitutes;
          } in
          (
            got,
            simp
                (
                  opened,
                  f.store_dir,
                  f.outputs,
                  f.name,
                  f.system,
                  f.drv_path,
                  f.input_drvs,
                  f.features,
                  f.meta,
                  law.string_lem,
                  o.opened,
                  eo,
                  parses,
                  ei,
                  features_opt drv.required_system_features w.features_set,
                  constituents_lem json dir law drv.constituents m f.constituents f.named f.glob,
                  e,
                  drv_from_json,
                )
                refl,
            record { same_outputs = so; same_inputs = si; same_rest = refl },
          )

      -- If the JSON library keeps its laws and printed store paths are parsed again, a derivation that
      -- has an output, and whose maps and sets hold what their types in the source can, is read back
      -- from the JSON that is printed of it: all but the unknown paths, and the lists of a status that
      -- is unknown.
      pub drv_from_json-drv_to_json :
          (drv : Drv P J)
          → IsPrintable drv
          → (got : Drv P J) × (drv_from_json json dir (drv_to_json json dir drv) ≡ some got)
            × Reread drv got
      drv_from_json-drv_to_json drv w =
          let h = drv_Holds drv in
          drv_from_json_lem drv w _ h.fields h.opened (drv-HasStatic drv h.fields (field_at drv))
            (record {
              status = h.found (ascii "cacheStatus");
              builds = h.found (ascii "neededBuilds");
              substitutes = h.found (ascii "neededSubstitutes");
            })
