-- ===== src/Resolver/Walk.antt =====
-- visitDrv and tryResolve of cache-status-resolver.cc.
use nix_eval_jobs.Prelude.{
  ℕ, zero, suc, ◌≡◌, length, List, [], ◌∷◌, ◌++◌, Option, none, some, true, false, not, Bytes, Map,
  Ord, Ordering, if◌then◌else◌, insert, contains, is_empty, list_ord, nat_ord,
}
use mathlib.Core.List.{foldl}
use nix_eval_jobs.Drv.{Drv, CacheStatus}
use nix_eval_jobs.Resolver.{
  Stores, Resolver, Traversal, MissingOutputs, all_substitutable, read_derivation, missing_outputs,
  no_missing, probe_validity, note_valid,
}

-- The name of a store path and its full text, by which paths are printed in order, and
-- std::ranges::sort, by a comparison, which keeps the number of the elements.
pub record PathText (P : Type 0) : Type 0 where
  pub name : P → Bytes
  pub to_string : P → Bytes
  pub sort : (P → P → Ordering) → List P → List P
  pub sort_length : (cmp : P → P → Ordering) (ps : List P) → length (sort cmp ps) ≡ length ps

abbrev pub path_cmp : {P : Type 0} → PathText P → P → P → Ordering
path_cmp text a b = elim (Ord.cmp list_ord (text.name a) (text.name b)) [
  | Ordering.lt ↦ Ordering.lt
  | Ordering.gt ↦ Ordering.gt
  | Ordering.eq ↦ Ord.cmp list_ord (text.to_string a) (text.to_string b)
]

-- sortPaths
unfoldable pub sort_paths : {P : Type 0} → PathText P → List P → List P
sort_paths text ps = text.sort (path_cmp text) ps

module _ {P : Type 0} ⦃o : Ord P⦄ where
  -- The end of visitDrv for outputs that are missing and known: substitutes, or the inputs and
  -- then the derivation itself.
  unfoldable pub visit_missing :
      (Traversal P → Resolver P → Option (Resolver P × Traversal P))
      → P
      → List P
      → Traversal P
      → Resolver P
      → Option (Resolver P × Traversal P)
  visit_missing visit_inputs path missing t r =
      let (r', substitutable) = all_substitutable missing r in
      elim substitutable [
        | none ↦ some (r', t)
        | some true ↦ some (
          r',
          record t { substitute_paths = foldl (λ s p. insert p s) t.substitute_paths missing },
        )
        | some false ↦ elim (visit_inputs t r') [
          | none ↦ none
          | some (r'', t') ↦ some (r'', record t' { needed_builds = t'.needed_builds ++ path ∷ [] })
        ]
      ]

  -- visitDrv behind its test of `visited`.
  unfoldable pub visit_outputs :
      (Map P (List Bytes) → Traversal P → Resolver P → Option (Resolver P × Traversal P))
      → Stores P
      → P
      → List Bytes
      → Traversal P
      → Resolver P
      → Option (Resolver P × Traversal P)
  unfolding visit_missing
  visit_outputs visit_inputs stores path names t r =
      let (r', drv) = read_derivation stores path r in
      let (r'', outputs) = missing_outputs names drv.outputs no_missing r' in
      if not outputs.known
      then some (r'', record t { unknown_paths = t.unknown_paths ++ path ∷ [] })
      else if not outputs.complete
      then visit_inputs drv.input_drvs t r''
      else if is_empty outputs.missing
      then some (r'', t)
      else visit_missing (visit_inputs drv.input_drvs) path outputs.missing t r''

  -- The loop over the inputs.
  unfoldable pub visit_each :
      (P → List Bytes → Traversal P → Resolver P → Option (Resolver P × Traversal P))
      → Map P (List Bytes)
      → Traversal P
      → Resolver P
      → Option (Resolver P × Traversal P)
  visit_each visit [] t r = some (r, t)
  visit_each visit ((path, names) ∷ inputs) t r = elim (visit path names t r) [
    | none ↦ none
    | some (r', t') ↦ visit_each visit inputs t' r'
  ]

  -- visitDrv, with `none` for no fuel.
  unfoldable pub visit_drv :
      ℕ → Stores P → P → List Bytes → Traversal P → Resolver P → Option (Resolver P × Traversal P)
  unfolding visit_outputs visit_each
  visit_drv zero stores path names t r = none
  visit_drv (suc fuel) stores path names t r =
      let visit = visit_drv fuel stores in
      if contains path t.visited
      then some (r, t)
      else visit_outputs (visit_each visit) stores path names
          (record t { visited = insert path t.visited }) r

  -- The loop of tryResolve over the outputs of the job, which stops at an unknown path.
  unfoldable pub job_outputs :
      Map Bytes (Option P) → MissingOutputs P → Resolver P → Resolver P × MissingOutputs P
  job_outputs [] m r = (r, m)
  job_outputs ((name, none) ∷ outputs) m r = (r, record m { known = false })
  job_outputs ((name, some path) ∷ outputs) m r =
      let (r', valid) = probe_validity path r in job_outputs outputs (note_valid path valid m) r'

  module _ {J : Type 0} (text : PathText P) where
    -- The fast path found every missing output in a cache.
    unfoldable pub resolve_obtainable : List P → Drv P J → Drv P J
    resolve_obtainable missing drv = record drv {
      needed_substitutes = sort_paths text missing;
      cache_status = if is_empty missing then CacheStatus.local else CacheStatus.cached;
    }

    unfoldable pub resolve_built : Traversal P → Drv P J → Drv P J
    resolve_built t drv = record drv {
      needed_builds = t.needed_builds;
      unknown_paths = t.unknown_paths;
      needed_substitutes = sort_paths text t.substitute_paths;
      cache_status = CacheStatus.not_built;
    }

    -- The slow path, which walks the inputs.
    unfoldable pub try_walk :
        ℕ → Stores P → Drv P J → Resolver P → Option (Resolver P × Option (Drv P J))
    unfolding resolve_built
    try_walk fuel stores drv r =
        elim (visit_drv fuel stores drv.drv_path []
          (record { visited = []; needed_builds = []; unknown_paths = []; substitute_paths = [] })
          r) [
            | none ↦ none
            | some (r', t) ↦
                some (r', if r'.attempt_complete then some (resolve_built t drv) else none)
          ]

    -- tryResolve returns the job with its status, or nothing while a probe is unknown.
    unfoldable pub try_resolve :
        ℕ → Stores P → Drv P J → Resolver P → Option (Resolver P × Option (Drv P J))
    unfolding try_walk resolve_obtainable
    try_resolve fuel stores drv r =
        let (r', m) = job_outputs drv.outputs no_missing (record r { attempt_complete = true }) in
        let (r'', all) = all_substitutable m.missing r' in
        if not m.known
        then try_walk fuel stores drv r'
        else if not m.complete
        then some (r', none)
        else elim all [
          | none ↦ some (r'', none)
          | some true ↦ some (r'', some (resolve_obtainable m.missing drv))
          | some false ↦ try_walk fuel stores drv r''
        ]
