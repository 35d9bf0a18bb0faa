-- ===== src/Constituents/Sorted.antt =====
-- topoSort of constituents.cc as a whole.
use nix_eval_jobs.Prelude.{
  emplace, find-emplace, insert_or_assign, suc, ◌≡◌, refl, ◌∙◌, List, [], ◌∷◌, true, false, ◌||◌,
  Bytes, Map, bit, count, contains, find, ◌=?◌, =?_iff, list_ord, nat_ord, length, arith,
}
use nix_eval_jobs.Constituents.{
  AggregateJob, Search, keys, names, dict_of, at, has, visit_all, topo_sort,
}
use nix_eval_jobs.Constituents.Order.{InOrder, Ends, Ends-bind, left-le_length, count-le_contains}
use nix_eval_jobs.Constituents.Visits.{AllDone, visit_all-AllDone}
use mathlib.Core.List.{foldl}

abbrev IsKeyed : Map Bytes AggregateJob → Type 0
IsKeyed [] = Unit {0}
IsKeyed ((k, job) ∷ m) = (job.name ≡ k) × IsKeyed m

insert_or_assign-IsKeyed :
    (k : Bytes) (job : AggregateJob) (m : Map Bytes AggregateJob)
    → job.name ≡ k
    → IsKeyed m
    → IsKeyed (insert_or_assign k job m)
unfolding insert_or_assign
insert_or_assign-IsKeyed k job [] e h = (e, tt)
insert_or_assign-IsKeyed k job ((j, w) ∷ m) e h = ground (arith, insert_or_assign-IsKeyed k job m)

emplace-IsKeyed :
    (job : AggregateJob) (m : Map Bytes AggregateJob) → IsKeyed m → IsKeyed (emplace job.name job m)
unfolding emplace
emplace-IsKeyed job m h = ground (arith, insert_or_assign-IsKeyed job.name job m refl h)

find-IsKeyed :
    (m : Map Bytes AggregateJob) (k : Bytes) → IsKeyed m → has m k ≡ true → (at m k).name ≡ k
unfolding find at
find-IsKeyed [] k h f = cc
find-IsKeyed ((j, w) ∷ m) k (e, h) f = ground (arith, find-IsKeyed m k h, =?_iff k j)

has-emplace :
    (k p : Bytes) (job : AggregateJob) (m : Map Bytes AggregateJob)
    → has (emplace k job m) p ≡ ((p =? k) || has m p)
has-emplace k p job m = ground (arith, find-emplace k p job m, =?_iff p k)

has-keys : (m : Map Bytes AggregateJob) (p : Bytes) → has m p ≡ contains p (keys m)
unfolding find
has-keys [] p = refl
has-keys ((j, w) ∷ m) p = ground (arith, has-keys m p)

dict-go :
    (items : List AggregateJob) (m : Map Bytes AggregateJob)
    → IsKeyed m
    → IsKeyed (foldl (λ dict item. emplace item.name item dict) m items)
      × ((p : Bytes)
          → has (foldl (λ dict item. emplace item.name item dict) m items) p
            ≡ (has m p || contains p (names items)))
dict-go [] m k = (k, λ p. ground arith)
dict-go (item ∷ items) m k =
    let (k', h) = dict-go items (emplace item.name item m) (emplace-IsKeyed item m k) in
    (k', λ p. ground (arith, h p, has-emplace item.name p item m))

dict_of-IsKeyed : (items : List AggregateJob) → IsKeyed (dict_of items)
unfolding dict_of
dict_of-IsKeyed items = (dict-go items [] tt).0

has-dict_of :
    (items : List AggregateJob) (p : Bytes) → has (dict_of items) p ≡ contains p (names items)
unfolding dict_of find
has-dict_of items p = (dict-go items [] tt).1 p

-- The jobs are those of the items, each once and after its dependencies.
pub record Sorts (items jobs : List AggregateJob) : Type 0 where
  pub once : (p : Bytes) → count p (names jobs) ≡ bit (contains p (names items))
  pub ordered : InOrder (dict_of items) [] jobs

AllDone-Sorts :
    (items : List AggregateJob) (s t : Search)
    → ((p : Bytes) → contains p s.parents ≡ false)
    → AllDone (dict_of items) (keys (dict_of items)) s t
    → Sorts items t.sorted
AllDone-Sorts items s t c d = record {
  once = λ p. ground (
    arith,
    d.after.good.marks p,
    d.after.kept p,
    c p,
    d.after.good.known p,
    d.there p,
    has-keys (dict_of items) p,
    has-dict_of items p,
    count-le_contains p (names t.sorted),
  );
  ordered = d.after.good.ordered;
}

-- The search ends, neither for lack of fuel nor at a null pointer. Either it lists every aggregate
-- once, behind the aggregates that it depends on, or it throws an exception that names two
-- aggregates of a cycle.
pub topo_sort-Sorts :
    (items : List AggregateJob) → Ends (dict_of items) (Sorts items) (topo_sort items)
unfolding topo_sort
topo_sort-Sorts items =
    let dict = dict_of items in
    let s : Search = record { sorted = []; visited = []; parents = [] } in
    Ends-bind dict (AllDone dict (keys dict) s) (Sorts items)
      (visit_all (suc (length dict)) dict (keys dict) s) _
      (visit_all-AllDone dict (λ k. find-IsKeyed dict k (dict_of-IsKeyed items)) (suc (length dict))
        (keys dict) s (record { marks = λ p. refl; ordered = tt; known = λ p h. cc })
        (omega (arith, left-le_length dict s dict)) (λ p h. has-keys dict p ∙ h) (λ p. refl))
      (λ t d. AllDone-Sorts items s t (λ p. refl) d)
