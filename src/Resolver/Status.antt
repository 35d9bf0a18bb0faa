-- ===== src/Resolver/Status.antt =====
-- The status that tryResolve of cache-status-resolver.cc gives a job.
use nix_eval_jobs.Prelude.{
  ℕ, ◌≡◌, refl, sym, ◌∙◌, subst, List, [], ◌∷◌, ◌++◌, Option, none, some, Bool, true, false, Bytes,
  Map, Ord, find, arith, Bool-cases, length,
}
use nix_eval_jobs.Drv.{Drv, CacheStatus}
use nix_eval_jobs.Resolver.{
  Stores, Resolver, MissingOutputs, probe_validity, note_valid, no_missing, all_substitutable,
}
use nix_eval_jobs.Resolver.Walk.{
  PathText, job_outputs, resolve_obtainable, resolve_built, try_walk, try_resolve, sort_paths,
  path_cmp,
}

module _ {P : Type 0} ⦃o : Ord P⦄ where
  -- Every output has a known path that the cache has as valid.
  abbrev pub AllValid : Map P Bool → Map Bytes (Option P) → Type 0
  AllValid cache [] = Unit {0}
  AllValid cache ((name, none) ∷ outputs) = ⊥
  AllValid cache ((name, some path) ∷ outputs) =
      (find path cache ≡ some true) × AllValid cache outputs

  abbrev Clean : MissingOutputs P → Type 0
  Clean m = (m.known ≡ true) × (m.complete ≡ true) × (m.missing ≡ [])

  snoc_ne : (xs : List P) (x : P) → xs ++ x ∷ [] ≡ [] → ⊥
  snoc_ne [] x h = cc
  snoc_ne (y ∷ xs) x h = cc

  note_valid-Clean :
      (path : P) (valid : Option Bool) (m : MissingOutputs P)
      → Clean (note_valid path valid m)
      → Clean m × (valid ≡ some true)
  unfolding note_valid
  note_valid-Clean path none m (k, c, e) = absurd (ground arith)
  note_valid-Clean path (some true) m c = (c, refl)
  note_valid-Clean path (some false) m (k, c, e) = absurd (snoc_ne m.missing path e)

  probe_validity-find :
      (path : P) (r : Resolver P)
      → ((probe_validity path r).0.valid_cache ≡ r.valid_cache)
        × ((probe_validity path r).1 ≡ find path r.valid_cache)
  unfolding probe_validity
  probe_validity-find path r = (ground arith, ground arith)

  job_outputs-Clean :
      (outputs : Map Bytes (Option P)) (m : MissingOutputs P) (r : Resolver P)
      → Clean (job_outputs outputs m r).1
      → Clean m × AllValid r.valid_cache outputs
  unfolding job_outputs
  job_outputs-Clean [] m r c = (c, tt)
  job_outputs-Clean ((name, none) ∷ outputs) m r (k, c, e) = absurd (ground arith)
  job_outputs-Clean ((name, some path) ∷ outputs) m r c =
      let (after, valid) = job_outputs-Clean outputs _ (probe_validity path r).0 c in
      let (before, e) = note_valid-Clean path (probe_validity path r).1 m after in
      (
        before,
        (
          sym (probe_validity-find path r).1 ∙ e,
          subst (λ cache. AllValid cache outputs) (probe_validity-find path r).0 valid,
        ),
      )

  -- A status that the slow path gives is that of a job to build.
  try_walk-not_built :
      {J : Type 0} (text : PathText P) (fuel : ℕ) (stores : Stores P) (drv drv' : Drv P J)
      (r r' : Resolver P)
      → try_walk text fuel stores drv r ≡ some (r', some drv')
      → drv'.cache_status ≡ CacheStatus.not_built
  unfolding try_walk resolve_built
  try_walk-not_built text fuel stores drv drv' r r' h = ground arith

  empty_of : (ps : List P) → length ps ≡ 0 → ps ≡ []
  empty_of [] h = refl
  empty_of (p ∷ ps) h = absurd (omega (arith, h))

  obtainable-local :
      {J : Type 0} (text : PathText P) (missing : List P) (drv : Drv P J)
      → (resolve_obtainable text missing drv).cache_status ≡ CacheStatus.local
      → (missing ≡ []) × ((resolve_obtainable text missing drv).needed_substitutes ≡ [])
  unfolding resolve_obtainable sort_paths
  obtainable-local text [] drv e =
      (refl, empty_of (text.sort (path_cmp text) []) (text.sort_length (path_cmp text) []))
  obtainable-local text (p ∷ ps) drv e = cc

  -- A job that tryResolve gives the status local has known outputs only, each of them valid in the
  -- cache of the build store, and needs no substitutes.
  pub try_resolve-local :
      {J : Type 0} (text : PathText P) (fuel : ℕ) (stores : Stores P) (drv drv' : Drv P J)
      (r r' : Resolver P)
      → try_resolve text fuel stores drv r ≡ some (r', some drv')
      → drv'.cache_status ≡ CacheStatus.local
      → AllValid r.valid_cache drv.outputs × (drv'.needed_substitutes ≡ [])
  unfolding try_resolve
  try_resolve-local text fuel stores drv drv' r r' h e =
      let r0 : Resolver P = record r { attempt_complete = true } in
      let j = job_outputs drv.outputs no_missing r0 in
      let a = all_substitutable j.1.missing j.0 in
      ground (
        arith,
        job_outputs-Clean drv.outputs no_missing r0,
        obtainable-local text j.1.missing drv,
        Bool-cases j.1.known,
        Bool-cases j.1.complete,
        try_walk-not_built text fuel stores drv drv' j.0 r',
        try_walk-not_built text fuel stores drv drv' a.0 r',
      )
