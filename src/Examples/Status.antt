-- ===== src/Examples/Status.antt =====
-- The status of a job whose only output is in the store.
use nix_eval_jobs.Prelude.{◌≡◌, refl, [], ◌∷◌, some, none, true, false, find, nat_ord, ℕ}
use nix_eval_jobs.Drv.{Drv, CacheStatus}
use nix_eval_jobs.Resolver.{Stores, Resolver, note_valid, probe_validity, all_substitutable}
use nix_eval_jobs.Resolver.Walk.{PathText, try_resolve, job_outputs, sort_paths}
use nix_eval_jobs.Resolver.Status.{AllValid, try_resolve-local}

abbrev text : PathText ℕ
text = record {
  name = λ p. p ∷ [];
  to_string = λ p. p ∷ [];
  sort = λ cmp ps. ps;
  sort_length = λ cmp ps. refl;
}

abbrev stores : Stores ℕ
stores = record {
  read_derivation = λ p. record { outputs = []; input_drvs = [] };
  query_valid_paths = λ ps. ps;
  query_substitutable = λ ps. [];
}

abbrev caches : Resolver ℕ
caches = record {
  probe_cache = [];
  wanted = [];
  valid_cache = (4, true) ∷ [];
  wanted_valid = [];
  drv_cache = [];
  attempt_complete = true;
}

abbrev hello : CacheStatus → Drv ℕ ℕ
hello status = record {
  name = b'h' ∷ [];
  store_dir = [];
  system = [];
  drv_path = 3;
  outputs = (b'o' ∷ [], some 4) ∷ [];
  input_drvs = none;
  required_system_features = none;
  needed_builds = [];
  needed_substitutes = [];
  unknown_paths = [];
  cache_status = status;
  meta = none;
  constituents = record { constituents = []; named_constituents = []; glob_constituents = false };
}

hello-resolved :
    try_resolve text 1 stores (hello CacheStatus.unknown) caches
    ≡ some (caches, some (hello CacheStatus.local))
unfolding try_resolve find job_outputs note_valid probe_validity all_substitutable sort_paths
hello-resolved = refl

try_resolve-local_example :
    AllValid caches.valid_cache (hello CacheStatus.unknown).outputs
    × ((hello CacheStatus.local).needed_substitutes ≡ [])
try_resolve-local_example =
    try_resolve-local text 1 stores (hello CacheStatus.unknown) (hello CacheStatus.local) caches
      caches hello-resolved refl
