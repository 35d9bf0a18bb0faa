-- ===== src/Resolver/Caches.antt =====
-- resolveWanted and the probes of cache-status-resolver.cc: what the caches answer.
use nix_eval_jobs.Prelude.{
  ◌≡◌, refl, List, [], ◌∷◌, Option, none, some, Bool, true, false, ◌&&◌, ◌||◌, not, Map, Ord,
  contains, find, emplace, is_some, is_empty, insert, inl, inr, if◌then◌else◌, =?_iff, find-emplace,
  arith, Option-cases, contains-insert,
}
use nix_eval_jobs.Resolver.{
  Stores, Resolver, remember, resolve_wanted, probe_all, all_substitutable,
}

module _ {P : Type 0} ⦃o : Ord P⦄ where
  -- What a lookup gives after a batch was remembered: the old answer, or the new one.
  abbrev pub answer : List P → List P → Map P Bool → P → Option Bool
  answer found batch cache path =
      if contains path batch && not (is_some (find path cache))
      then some (contains path found)
      else find path cache

  find-remember :
      (found batch : List P) (cache : Map P Bool) (path : P)
      → find path (remember found batch cache) ≡ answer found batch cache path
  unfolding remember
  find-remember found [] cache path = refl
  find-remember found (b ∷ batch) cache path = ground (
    arith,
    find-remember found batch (emplace b (contains b found) cache) path,
    find-emplace b path (contains b found) cache,
    =?_iff path b,
  )

  batch_answer :
      (query : List P → List P) (batch : List P) (cache : Map P Bool) (path : P)
      → find path (if is_empty batch then cache else remember (query batch) batch cache)
        ≡ answer (query batch) batch cache path
  batch_answer query [] cache path = refl
  batch_answer query (b ∷ batch) cache path =
      find-remember (query (b ∷ batch)) (b ∷ batch) cache path

  -- After a batch every wanted path is cached with the answer of the build store, the answers that
  -- the caches had are kept, no other path is cached, and nothing is wanted any more.
  pub resolve_wanted-answer :
      (stores : Stores P) (r : Resolver P) (path : P)
      → (find path (resolve_wanted stores r).valid_cache
          ≡ answer (stores.query_valid_paths r.wanted_valid) r.wanted_valid r.valid_cache path)
        × (find path (resolve_wanted stores r).probe_cache
            ≡ answer (stores.query_substitutable r.wanted) r.wanted r.probe_cache path)
        × ((resolve_wanted stores r).wanted ≡ [])
        × ((resolve_wanted stores r).wanted_valid ≡ [])
  unfolding resolve_wanted
  resolve_wanted-answer stores r path = (
    batch_answer stores.query_valid_paths r.wanted_valid r.valid_cache path,
    batch_answer stores.query_substitutable r.wanted r.probe_cache path,
    refl,
    refl,
  )

  -- Every path is cached as substitutable.
  abbrev pub all_cached : Map P Bool → List P → Bool
  all_cached cache [] = true
  all_cached cache (path ∷ paths) = is_some (find path cache) && all_cached cache paths

  abbrev pub all_true : Map P Bool → List P → Bool
  all_true cache [] = true
  all_true cache (path ∷ paths) = elim (find path cache) [
    | none ↦ all_true cache paths
    | some b ↦ b && all_true cache paths
  ]

  probe_all-answer :
      (paths : List P) (all complete : Bool) (r : Resolver P)
      → (((probe_all paths all complete r).1.0 ≡ (all && all_true r.probe_cache paths))
          × ((probe_all paths all complete r).1.1 ≡ (complete && all_cached r.probe_cache paths)))
        × ((probe_all paths all complete r).0.probe_cache ≡ r.probe_cache)
        × ((p : P)
            → contains p (probe_all paths all complete r).0.wanted
              ≡ (contains p r.wanted || (contains p paths && not (is_some (find p r.probe_cache)))))
  unfolding probe_all
  probe_all-answer [] all complete r = ((ground arith, ground arith), refl, λ p. ground arith)
  probe_all-answer (path ∷ paths) all complete r = elim (Option-cases (find path r.probe_cache)) [
    | inl e ↦
        let r' : Resolver P = record r {
          wanted = insert path r.wanted;
          attempt_complete = false;
        } in
        let (a, c, w) = probe_all-answer paths all false r' in
        simp (e, probe_all)
          (
            (ground arith, ground arith),
            c,
            λ p. ground (arith, w p, contains-insert path p r.wanted, =?_iff p path),
          )
    | inr (b, e) ↦
        let (a, c, w) = probe_all-answer paths (all && b) complete r in
        simp (e, probe_all)
          ((ground arith, ground arith), c, λ p. ground (arith, w p, =?_iff p path))
  ]

  -- allSubstitutable answers if every path is cached, and then whether all are substitutable; and
  -- it wants, beside what was wanted, the paths that are not cached.
  pub all_substitutable-answer :
      (paths : List P) (r : Resolver P)
      → ((all_substitutable paths r).1
          ≡ (if all_cached r.probe_cache paths then some (all_true r.probe_cache paths) else none))
        × ((p : P)
            → contains p (all_substitutable paths r).0.wanted
              ≡ (contains p r.wanted || (contains p paths && not (is_some (find p r.probe_cache)))))
  unfolding all_substitutable
  all_substitutable-answer paths r =
      let (a, c, w) = probe_all-answer paths true true r in (ground (arith, a.0, a.1), w)
