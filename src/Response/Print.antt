-- ===== src/Response/Print.antt =====
-- The conversions of response.cc between a response and JSON.
use nix_eval_jobs.Prelude.{
  List, [], ◌∷◌, Option, none, some, false, Bytes, Map, Ord, if◌then◌else◌, is_empty, find,
  list_ord, nat_ord,
}
use nix_eval_jobs.Messages.{ascii}
use nix_eval_jobs.Json.{JsonLib, ◌>>=◌, value_at, field_or, field_opt}
use nix_eval_jobs.Drv.Print.{StoreDir, drv_to_json, set_opt}
use nix_eval_jobs.Drv.Parse.{drv_from_json}
use nix_eval_jobs.Response.{Response, Payload, Stats}

module _ {P J : Type 0} ⦃o : Ord P⦄ (json : JsonLib J) (dir : StoreDir P) where
  abbrev pub set_list : Bytes → List Bytes → J → J
  set_list key texts res =
      if is_empty texts then res else json.set_field key (json.of_strings texts) res

  unfoldable pub stats_to_json : Stats → J
  stats_to_json stats = json.object (
      (ascii "wallMs", json.of_number stats.wall_ms)
      ∷ (ascii "allocBytes", json.of_number stats.alloc_bytes)
      ∷ [])

  -- The visitor of the payload.
  unfoldable pub payload_to_json : Payload P J → J → J
  payload_to_json (Payload.job drv extra) res =
      set_opt json dir (ascii "extraValue") (λ v. v) extra
        (json.update (drv_to_json json dir drv) res)
  payload_to_json (Payload.attrs names) res =
      json.set_field (ascii "attrs") (json.of_strings names) res
  payload_to_json (Payload.error msg fatal) res =
      json.set_field (ascii "fatal") (json.of_bool fatal)
        (json.set_field (ascii "error") (json.of_string msg) res)

  -- adl_serializer<Response>::to_json
  unfoldable pub response_to_json : Response P J → J
  unfolding payload_to_json stats_to_json
  response_to_json r =
      let res = json.object (
        (ascii "attr", json.of_string r.attr)
        ∷ (ascii "attrPath", json.of_strings r.attr_path)
        ∷ []) in
      payload_to_json r.payload (
        set_opt json dir (ascii "stats") stats_to_json r.stats
          (set_list (ascii "traces") r.traces (set_list (ascii "warnings") r.warnings res)))

  unfoldable pub stats_from_json : J → Option Stats
  stats_from_json value = do
    fields ← json.get_object value
    wall ← value_at fields (ascii "wallMs") >>= json.get_number
    alloc ← value_at fields (ascii "allocBytes") >>= json.get_number
    some (record { wall_ms = wall; alloc_bytes = alloc })

  -- The chain of tests at the end of from_json.
  unfoldable pub payload_from_json : J → Map Bytes J → Option (Payload P J)
  payload_from_json value fields = elim (find (ascii "attrs") fields) [
    | some attrs ↦ do names ← json.get_strings attrs; some (Payload.attrs names)
    | none ↦ elim (find (ascii "error") fields) [
      | some error ↦ do
        msg ← json.get_string error
        fatal ← field_or json.get_bool false (find (ascii "fatal") fields)
        some (Payload.error msg fatal)
      | none ↦ elim (find (ascii "drvPath") fields) [
        | none ↦ none
        | some path ↦ do
          drv ← drv_from_json json dir value
          some (Payload.job drv (find (ascii "extraValue") fields))
      ]
    ]
  ]

  -- adl_serializer<Response>::from_json
  unfoldable pub response_from_json : J → Option (Response P J)
  unfolding payload_from_json stats_from_json
  response_from_json value = do
    fields ← json.get_object value
    attr ← value_at fields (ascii "attr") >>= json.get_string
    attr_path ← value_at fields (ascii "attrPath") >>= json.get_strings
    stats ← field_opt stats_from_json (find (ascii "stats") fields)
    payload ← payload_from_json value fields
    warnings ← field_or json.get_strings [] (find (ascii "warnings") fields)
    traces ← field_or json.get_strings [] (find (ascii "traces") fields)
    some (record {
      attr = attr;
      attr_path = attr_path;
      payload = payload;
      warnings = warnings;
      traces = traces;
      stats = stats;
    })
