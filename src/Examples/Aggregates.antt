-- ===== src/Examples/Aggregates.antt =====
-- Two aggregate jobs of which one names the other, and the batches of two paths.
use nix_eval_jobs.Prelude.{
  ℕ, ◌≡◌, refl, [], ◌∷◌, none, some, true, false, ◌||◌, ◌&&◌, not, contains, find, insert, is_some,
  nat_ord, list_ord, if◌then◌else◌,
}
use nix_eval_jobs.Constituents.{AggregateJob, dict_of, topo_sort, done, cycle}
use nix_eval_jobs.Constituents.Order.{Ends}
use nix_eval_jobs.Constituents.Sorted.{Sorts, topo_sort-Sorts}
use nix_eval_jobs.Resolver.{Stores, Resolver, resolve_wanted, all_substitutable}
use nix_eval_jobs.Resolver.Caches.{
  answer, all_cached, all_true, resolve_wanted-answer, all_substitutable-answer,
}

abbrev all : AggregateJob
all = record { name = b'a' ∷ []; dependencies = (b'b' ∷ []) ∷ (b'z' ∷ []) ∷ []; broken_jobs = [] }

abbrev base : AggregateJob
base = record { name = b'b' ∷ []; dependencies = []; broken_jobs = [] }

abbrev looped : AggregateJob
looped = record { name = b'b' ∷ []; dependencies = (b'a' ∷ []) ∷ []; broken_jobs = [] }

sorts : topo_sort (all ∷ base ∷ []) ≡ done (base ∷ all ∷ [])
unfolding topo_sort insert
sorts = refl

finds_cycle :
    topo_sort (all ∷ looped ∷ [])
    ≡ cycle (record { a = b'a' ∷ []; b = b'b' ∷ []; remaining_aggregates = [] })
unfolding topo_sort insert
finds_cycle = refl

topo_sort-Sorts_example :
    Ends (dict_of (all ∷ base ∷ [])) (Sorts (all ∷ base ∷ [])) (topo_sort (all ∷ base ∷ []))
topo_sort-Sorts_example = topo_sort-Sorts (all ∷ base ∷ [])

abbrev stores : Stores ℕ
stores = record {
  read_derivation = λ p. record { outputs = []; input_drvs = [] };
  query_valid_paths = λ ps. 1 ∷ [];
  query_substitutable = λ ps. 2 ∷ [];
}

abbrev fresh : Resolver ℕ
fresh = record {
  probe_cache = (5, true) ∷ [];
  wanted = 2 ∷ 3 ∷ [];
  valid_cache = [];
  wanted_valid = 1 ∷ 2 ∷ [];
  drv_cache = [];
  attempt_complete = false;
}

resolve_wanted-answer_example :
    (find 2 (resolve_wanted stores fresh).valid_cache
      ≡ answer (stores.query_valid_paths fresh.wanted_valid) fresh.wanted_valid fresh.valid_cache 2)
    × (find 2 (resolve_wanted stores fresh).probe_cache
        ≡ answer (stores.query_substitutable fresh.wanted) fresh.wanted fresh.probe_cache 2)
    × ((resolve_wanted stores fresh).wanted ≡ [])
    × ((resolve_wanted stores fresh).wanted_valid ≡ [])
resolve_wanted-answer_example = resolve_wanted-answer stores fresh 2

all_substitutable-answer_example :
    ((all_substitutable (5 ∷ 2 ∷ []) fresh).1 ≡ (
      if all_cached fresh.probe_cache (5 ∷ 2 ∷ [])
      then some (all_true fresh.probe_cache (5 ∷ 2 ∷ []))
      else none))
    × ((p : ℕ)
        → contains p (all_substitutable (5 ∷ 2 ∷ []) fresh).0.wanted ≡ (
            contains p fresh.wanted
            || (contains p (5 ∷ 2 ∷ []) && not (is_some (find p fresh.probe_cache)))))
all_substitutable-answer_example = all_substitutable-answer (5 ∷ 2 ∷ []) fresh
