-- ===== src/Constituents.antt =====
-- constituents.hh and topoSort of constituents.cc: the aggregate jobs and their order.
use nix_eval_jobs.Prelude.{
  ℕ, zero, suc, List, [], ◌∷◌, ◌++◌, Option, none, some, Bool, ◌&&◌, not, Bytes, Map, Ordering, Ord,
  if◌then◌else◌, contains, insert, emplace, find, is_some, ◌=?◌, list_ord, nat_ord, length, map,
}
use mathlib.Core.List.{foldl}
pub mod Order
mod Visits
pub mod Sorted
pub mod Resolve
pub mod Picked
pub mod Rewrite
pub mod Rewritten
pub mod Handle
pub mod Reported

pub record AggregateJob : Type 0 where
  pub name : Bytes
  pub dependencies : List Bytes
  pub broken_jobs : Map Bytes Bytes

pub record DependencyCycle : Type 0 where
  pub a : Bytes
  pub b : Bytes
  pub remaining_aggregates : List Bytes

-- The variables of topoSort that the search changes.
pub record Search : Type 0 where
  pub sorted : List AggregateJob
  pub visited : List Bytes
  pub parents : List Bytes

-- How the search ends: as it should, by the exception, by a null pointer, or without fuel.
pub data Outcome (A : Type 0) : Type 0 where
  done : A → Outcome A
  cycle : DependencyCycle → Outcome A
  fault out_of_fuel : Outcome A

infixl 1 ◌>>=◌
abbrev pub ◌>>=◌ : {A B : Type 0} → Outcome A → (A → Outcome B) → Outcome B
done a >>= f = f a
cycle e >>= f = cycle e
fault >>= f = fault
out_of_fuel >>= f = out_of_fuel

-- std::set::erase
unfoldable pub erase : Bytes → List Bytes → List Bytes
erase a [] = []
erase a (x ∷ xs) = let rest = erase a xs in if a =? x then rest else x ∷ rest

abbrev pub keys : {V : Type 0} → Map Bytes V → List Bytes
keys m = map (λ kv. kv.0) m

abbrev pub names : List AggregateJob → List Bytes
names items = map AggregateJob.name items

-- dictIdentToObject
unfoldable pub dict_of : List AggregateJob → Map Bytes AggregateJob
unfolding emplace
dict_of items = foldl (λ dict item. emplace item.name item dict) [] items

-- `dictIdentToObject[path]`, where a missing key gives a default object. The search only asks for
-- keys, so the entry that the operator adds then is left out.
unfoldable pub at : Map Bytes AggregateJob → Bytes → AggregateJob
unfolding find
at dict path = elim (find path dict) [
  | none ↦ record { name = []; dependencies = []; broken_jobs = [] }
  | some job ↦ job
]

abbrev pub has : Map Bytes AggregateJob → Bytes → Bool
has dict path = is_some (find path dict)

-- The loop over the references of `path`, where `visit` is the search.
unfoldable pub visit_refs :
    (Bytes → Search → Outcome Search)
    → Map Bytes AggregateJob
    → Bytes
    → List Bytes
    → Search
    → Outcome Search
visit_refs visit dict path [] s = done s
visit_refs visit dict path (ref ∷ refs) s = do
  s' ← if not (ref =? path) && has dict ref then visit ref s else done s
  visit_refs visit dict path refs s'

-- The exception, which dereferences `parent`.
unfoldable pub throw_cycle : Map Bytes AggregateJob → Bytes → Option Bytes → Outcome Search
unfolding erase
throw_cycle dict path none = fault
throw_cycle dict path (some parent) =
    cycle (record {
      a = path;
      b = parent;
      remaining_aggregates = erase parent (erase path (keys dict));
    })

abbrev pub mark : Bytes → Search → Search
mark path s = record s { visited = insert path s.visited; parents = insert path s.parents }

abbrev pub leave : Map Bytes AggregateJob → Bytes → Search → Search
leave dict path s = record s {
  sorted = s.sorted ++ at dict path ∷ [];
  parents = erase path s.parents;
}

-- dfsVisit
unfoldable pub dfs_visit :
    ℕ → Map Bytes AggregateJob → Option Bytes → Bytes → Search → Outcome Search
unfolding throw_cycle visit_refs at erase
dfs_visit zero dict parent path s = out_of_fuel
dfs_visit (suc fuel) dict parent path s =
    let visit = dfs_visit fuel dict (some path) in
    if contains path s.parents
    then throw_cycle dict path parent
    else if contains path s.visited
    then done s
    else do
      s' ← visit_refs visit dict path (at dict path).dependencies (mark path s)
      done (leave dict path s')

-- The loop over the keys.
unfoldable pub visit_all : ℕ → Map Bytes AggregateJob → List Bytes → Search → Outcome Search
unfolding dfs_visit
visit_all fuel dict [] s = done s
visit_all fuel dict (key ∷ ks) s = do s' ← dfs_visit fuel dict none key s; visit_all fuel dict ks s'

-- topoSort; every call that goes on marks a key, so one more than there are keys is enough fuel.
unfoldable pub topo_sort : List AggregateJob → Outcome (List AggregateJob)
unfolding dict_of visit_all
topo_sort items =
    let dict = dict_of items in
    do
      s ←
          visit_all (suc (length dict)) dict (keys dict)
            (record { sorted = []; visited = []; parents = [] })
      done s.sorted
