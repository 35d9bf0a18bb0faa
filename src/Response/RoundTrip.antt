-- ===== src/Response/RoundTrip.antt =====
-- A response is read back from the JSON that response.cc prints: what a worker writes of a job is
-- what the collector reads.
use nix_eval_jobs.Prelude.{
  ◌≡◌, refl, ◌∙◌, List, [], ◌∷◌, Option, none, some, Bool, false, Bytes, Map, Ord, find, ◌=?◌,
  list_ord, nat_ord, arith, is_empty, if◌then◌else◌,
}
use mathlib.Core.Option
use nix_eval_jobs.Messages.{ascii}
use nix_eval_jobs.Json.{JsonLib, field_opt, field_or}
use nix_eval_jobs.Json.Fields.{Fields, or_else, assign, Holds, IsLawful, Holds-eq}
use nix_eval_jobs.Drv.{Drv}
use nix_eval_jobs.Drv.Print.{StoreDir}
use nix_eval_jobs.Drv.Parse.{drv_from_json}
use nix_eval_jobs.Drv.Printed.{set_opt_Holds}
use nix_eval_jobs.Drv.RoundTrip.{
  status_fields, static_fields, is_status_key, drv_Holds, IsPrintable, Reread, HasStatic,
  drv_from_json_lem, status_fields_other, map-same, or_else-none, HasStatus,
}
use nix_eval_jobs.Response.{Response, Payload, Stats}
use nix_eval_jobs.Response.Print.{
  set_list, stats_to_json, payload_to_json, response_to_json, stats_from_json, payload_from_json,
  response_from_json,
}

module _ {P J : Type 0} ⦃o : Ord P⦄ (json : JsonLib J) (dir : StoreDir P) where
  abbrev list_opt : List Bytes → Option J
  list_opt texts = if is_empty texts then none else some (json.of_strings texts)

  -- The fields in front of the payload.
  abbrev head_fields : Response P J → Fields J
  head_fields r = assign (ascii "stats") (Option.map (stats_to_json json dir) r.stats) (
      assign (ascii "traces") (list_opt r.traces) (
        assign (ascii "warnings") (list_opt r.warnings) (λ k. find k (
          (ascii "attr", json.of_string r.attr)
          ∷ (ascii "attrPath", json.of_strings r.attr_path)
          ∷ []))))

  abbrev payload_fields : Payload P J → Fields J → Fields J
  payload_fields (Payload.job drv extra) f =
      assign (ascii "extraValue") (Option.map (λ v. v) extra) (λ k.
        or_else (status_fields json dir drv.cache_status drv (static_fields json dir drv) k) (f k))
  payload_fields (Payload.attrs names) f = assign (ascii "attrs") (some (json.of_strings names)) f
  payload_fields (Payload.error msg fatal) f =
      assign (ascii "fatal") (some (json.of_bool fatal))
        (assign (ascii "error") (some (json.of_string msg)) f)

  module _ (law : IsLawful json) where
    set_list_Holds :
        (key : Bytes) (texts : List Bytes) (v : J) (f : Fields J)
        → Holds json v f
        → Holds json (set_list json dir key texts v) (assign key (list_opt texts) f)
    set_list_Holds key [] v f h = Holds-eq json v f _ (λ k. ground arith) h
    set_list_Holds key (t ∷ ts) v f h = law.set_field_Holds key _ v f h

    payload_Holds :
        (p : Payload P J) (v : J) (f : Fields J)
        → Holds json v f
        → Holds json (payload_to_json json dir p v) (payload_fields p f)
    unfolding payload_to_json
    payload_Holds (Payload.job drv extra) v f h =
        set_opt_Holds json dir law (ascii "extraValue") (λ v. v) extra _ _
          (law.update_Holds _ _ _ _ (drv_Holds json dir law drv) h)
    payload_Holds (Payload.attrs names) v f h = law.set_field_Holds _ _ _ _ h
    payload_Holds (Payload.error msg fatal) v f h =
        law.set_field_Holds _ _ _ _ (law.set_field_Holds _ _ _ _ h)

    response_Holds :
        (r : Response P J)
        → Holds json (response_to_json json dir r) (payload_fields r.payload (head_fields r))
    unfolding response_to_json
    response_Holds r = payload_Holds r.payload _ _ (
        set_opt_Holds json dir law (ascii "stats") (stats_to_json json dir) r.stats _ _ (
          set_list_Holds (ascii "traces") r.traces _ _
            (set_list_Holds (ascii "warnings") r.warnings _ _ (law.object_Holds _))))

    outside :
        (p : Payload P J) (f : Fields J) (k : Bytes)
        → is_status_key json dir k ≡ false
        → ((drv : Drv P J) → static_fields json dir drv k ≡ none)
        → (k =? ascii "extraValue") ≡ false
        → (k =? ascii "attrs") ≡ false
        → (k =? ascii "error") ≡ false
        → (k =? ascii "fatal") ≡ false
        → payload_fields p f k ≡ f k
    outside (Payload.job drv extra) f k s n x a e t = ground (
      arith,
      n drv,
      status_fields_other json dir drv.cache_status drv (static_fields json dir drv) k s,
    )
    outside (Payload.attrs names) f k s n x a e t = ground arith
    outside (Payload.error msg fatal) f k s n x a e t = ground arith

    record HasHead (r : Response P J) (m : Map Bytes J) : Type 0 where
      attr : find (ascii "attr") m ≡ some (json.of_string r.attr)
      attr_path : find (ascii "attrPath") m ≡ some (json.of_strings r.attr_path)
      stats : find (ascii "stats") m ≡ Option.map (stats_to_json json dir) r.stats
      warnings : find (ascii "warnings") m ≡ list_opt r.warnings
      traces : find (ascii "traces") m ≡ list_opt r.traces

    response-HasHead :
        (r : Response P J) (m : Map Bytes J)
        → ((k : Bytes) → find k m ≡ payload_fields r.payload (head_fields r) k)
        → HasHead r m
    unfolding find
    response-HasHead r m f =
        let g = λ (k : Bytes). outside r.payload (head_fields r) k in
        record {
          attr = f (ascii "attr") ∙ g (ascii "attr") refl (λ d. refl) refl refl refl refl;
          attr_path =
              f (ascii "attrPath") ∙ g (ascii "attrPath") refl (λ d. refl) refl refl refl refl;
          stats =
              f (ascii "stats")
              ∙ g (ascii "stats") refl (λ d. refl) refl refl refl refl
              ∙ or_else-none _;
          warnings =
              f (ascii "warnings")
              ∙ g (ascii "warnings") refl (λ d. refl) refl refl refl refl
              ∙ or_else-none _;
          traces =
              f (ascii "traces")
              ∙ g (ascii "traces") refl (λ d. refl) refl refl refl refl
              ∙ or_else-none _;
        }

    stats_at :
        (s : Stats) (v : J) (m : Map Bytes J)
        → json.get_object v ≡ some m
        → find (ascii "wallMs") m ≡ some (json.of_number s.wall_ms)
        → find (ascii "allocBytes") m ≡ some (json.of_number s.alloc_bytes)
        → field_opt (stats_from_json json dir) (some v) ≡ some (some s)
    unfolding stats_from_json
    stats_at s v m e a b = simp (e, a, b, law.number_lem, stats_from_json) refl

    stats_lem :
        (s : Option Stats)
        → field_opt (stats_from_json json dir) (Option.map (stats_to_json json dir) s) ≡ some s
    unfolding stats_from_json stats_to_json find
    stats_lem none = refl
    stats_lem (some s) =
        let h = law.object_Holds (
          (ascii "wallMs", json.of_number s.wall_ms)
          ∷ (ascii "allocBytes", json.of_number s.alloc_bytes)
          ∷ []) in
        stats_at s _ h.fields h.opened (h.found (ascii "wallMs")) (h.found (ascii "allocBytes"))

    list_lem : (texts : List Bytes) → field_or json.get_strings [] (list_opt texts) ≡ some texts
    list_lem [] = refl
    list_lem (t ∷ ts) = law.strings_lem (t ∷ ts)

    module _
        (parses : (sd : Bytes) (p : P)
          → dir.parse_store_path sd (dir.print_store_path sd p) ≡ some p) where
      -- The same payload, a derivation as far as it is printed.
      abbrev pub SamePayload : Payload P J → Payload P J → Type 0
      SamePayload (Payload.job drv extra) (Payload.job got extra') =
          Reread json dir law parses drv got × (extra' ≡ extra)
      SamePayload (Payload.attrs names) q = q ≡ Payload.attrs names
      SamePayload (Payload.error msg fatal) q = q ≡ Payload.error msg fatal
      SamePayload _ _ = ⊥

      abbrev pub IsSendable : Payload P J → Type 0
      IsSendable (Payload.job drv extra) = IsPrintable json dir law parses drv
      IsSendable _ = Unit {0}

      attrs_lem :
          (names : List Bytes) (v : J) (m : Map Bytes J)
          → find (ascii "attrs") m ≡ some (json.of_strings names)
          → payload_from_json json dir v m ≡ some (Payload.attrs names)
      unfolding payload_from_json
      attrs_lem names v m a = simp (a, law.strings_lem, payload_from_json) refl

      error_lem :
          (msg : Bytes) (fatal : Bool) (v : J) (m : Map Bytes J)
          → find (ascii "attrs") m ≡ none
          → find (ascii "error") m ≡ some (json.of_string msg)
          → find (ascii "fatal") m ≡ some (json.of_bool fatal)
          → payload_from_json json dir v m ≡ some (Payload.error msg fatal)
      unfolding payload_from_json
      error_lem msg fatal v m a e f =
          simp (a, e, f, law.string_lem, law.bool_lem, payload_from_json) refl

      job_lem :
          (drv : Drv P J) (extra : Option J) (text v : J) (m : Map Bytes J)
          → find (ascii "attrs") m ≡ none
          → find (ascii "error") m ≡ none
          → find (ascii "drvPath") m ≡ some text
          → drv_from_json json dir v ≡ some drv
          → find (ascii "extraValue") m ≡ extra
          → payload_from_json json dir v m ≡ some (Payload.job drv extra)
      unfolding payload_from_json
      job_lem drv extra text v m a e p d x = simp (a, e, p, d, x, payload_from_json) refl

      extra_fields :
          (x : Option J) {y : Option J}
          → y ≡ none
          → or_else (Option.map (λ v. v) x) (or_else y none) ≡ x
      extra_fields none e = rw e refl
      extra_fields (some x) e = refl

      module _ (r : Response P J) (drv : Drv P J) (extra : Option J) (m : Map Bytes J)
          (found : (k : Bytes)
            → find k m ≡ payload_fields (Payload.job drv extra) (head_fields r) k) where
        static_at :
            (k : Bytes)
            → is_status_key json dir k ≡ false
            → (k =? ascii "extraValue") ≡ false
            → head_fields r k ≡ none
            → find k m ≡ static_fields json dir drv k
        static_at k s x h = ground (
          arith,
          found k,
          or_else-none (static_fields json dir drv k),
          status_fields_other json dir drv.cache_status drv (static_fields json dir drv) k s,
        )

        extra_lem : find (ascii "extraValue") m ≡ extra
        unfolding find
        extra_lem =
            found (ascii "extraValue")
            ∙ extra_fields extra (
                status_fields_other json dir drv.cache_status drv (static_fields json dir drv)
                  (ascii "extraValue") refl)

        status_at :
            (k : Bytes)
            → (k =? ascii "extraValue") ≡ false
            → head_fields r k ≡ none
            → find k m ≡ status_fields json dir drv.cache_status drv (static_fields json dir drv) k
        status_at k x h = ground (
          arith,
          found k,
          or_else-none (status_fields json dir drv.cache_status drv (static_fields json dir drv) k),
        )

        job-HasStatus : HasStatus json dir law parses drv.cache_status drv m
        unfolding find
        job-HasStatus = record {
          status = status_at (ascii "cacheStatus") refl refl;
          builds = status_at (ascii "neededBuilds") refl refl;
          substitutes = status_at (ascii "neededSubstitutes") refl refl;
        }

        job-HasStatic : HasStatic json dir law parses drv m
        unfolding find
        job-HasStatic = record {
          name = static_at (ascii "name") refl refl refl;
          store_dir = static_at (ascii "storeDir") refl refl refl;
          system = static_at (ascii "system") refl refl refl;
          drv_path = static_at (ascii "drvPath") refl refl refl;
          outputs = static_at (ascii "outputs") refl refl refl;
          meta = static_at (ascii "meta") refl refl refl ∙ or_else-none _ ∙ map-same drv.meta;
          input_drvs = static_at (ascii "inputDrvs") refl refl refl ∙ or_else-none _;
          features = static_at (ascii "requiredSystemFeatures") refl refl refl ∙ or_else-none _;
          constituents = static_at (ascii "constituents") refl refl refl;
          named = static_at (ascii "namedConstituents") refl refl refl;
          glob = static_at (ascii "globConstituents") refl refl refl;
        }

      payload_lem :
          (r : Response P J) (p : Payload P J) (v : J)
          (h : Holds json v (payload_fields p (head_fields r)))
          → IsSendable p
          → (q : Payload P J) × (payload_from_json json dir v h.fields ≡ some q) × SamePayload p q
      unfolding find
      payload_lem r (Payload.attrs names) v h w =
          (Payload.attrs names, attrs_lem names v h.fields (h.found (ascii "attrs")), refl)
      payload_lem r (Payload.error msg fatal) v h w = (
        Payload.error msg fatal,
        error_lem msg fatal v h.fields (h.found (ascii "attrs")) (h.found (ascii "error"))
            (h.found (ascii "fatal")),
        refl,
      )
      payload_lem r (Payload.job drv extra) v h w =
          let s = job-HasStatic r drv extra h.fields h.found in
          let (got, e, same) =
            drv_from_json_lem json dir law parses drv w v h.fields h.opened s
              (job-HasStatus r drv extra h.fields h.found) in
          (
            Payload.job got extra,
            job_lem got extra _ v h.fields
                (static_at r drv extra h.fields h.found (ascii "attrs") refl refl refl)
                (static_at r drv extra h.fields h.found (ascii "error") refl refl refl) s.drv_path e
                (extra_lem r drv extra h.fields h.found),
            (same, refl),
          )

      -- The same response, a derivation in it as far as it is printed.
      pub record SameResponse (r got : Response P J) : Type 0 where
        pub same_payload : SamePayload r.payload got.payload
        pub same_head : record got { payload = r.payload } ≡ r

      -- If the JSON library keeps its laws and printed store paths are parsed again, what is printed of
      -- a response is read back as the same response, where a derivation in it has an output and maps
      -- and sets that hold what their types in the source can, and is read back as far as it is
      -- printed.
      pub response_from_json-response_to_json :
          (r : Response P J)
          → IsSendable r.payload
          → (got : Response P J) × (response_from_json json dir (response_to_json json dir r)
              ≡ some got)
            × SameResponse r got
      unfolding response_from_json
      response_from_json-response_to_json r w =
          let h = response_Holds r in
          let f = response-HasHead r h.fields h.found in
          let (q, e, same) = payload_lem r r.payload _ h w in
          (
            record r { payload = q },
            simp
                (
                  h.opened,
                  f.attr,
                  f.attr_path,
                  f.stats,
                  f.warnings,
                  f.traces,
                  law.string_lem,
                  law.strings_lem,
                  stats_lem r.stats,
                  e,
                  list_lem r.warnings,
                  list_lem r.traces,
                  response_from_json,
                )
                refl,
            record { same_payload = same; same_head = refl },
          )
