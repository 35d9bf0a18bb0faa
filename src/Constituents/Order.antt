-- ===== src/Constituents/Order.antt =====
-- What topoSort of constituents.cc owes: the order of the jobs, a cycle, and the state of its
-- depth-first search.
use nix_eval_jobs.Prelude.{
  ℕ, ◌+◌, ◌≤◌, ◌<◌, ◌≡◌, refl, ap, ◌∙◌, List, [], ◌∷◌, ◌++◌, Option, none, some, true, false, ◌&&◌,
  ◌||◌, not, Bytes, Map, bit, count, count_if, contains, find, is_some, ◌=?◌, =?_iff, list_ord,
  nat_ord, length, arith, contains-insert,
}
use nix_eval_jobs.Constituents.{
  AggregateJob, DependencyCycle, Search, Outcome, done, cycle, fault, out_of_fuel, ◌>>=◌, erase,
  names, at, has, mark,
}

pub contains-append :
    (p : Bytes) (xs ys : List Bytes) → contains p (xs ++ ys) ≡ (contains p xs || contains p ys)
contains-append p [] ys = refl
contains-append p (x ∷ xs) ys = ground (arith, contains-append p xs ys)

pub contains-erase :
    (a p : Bytes) (xs : List Bytes) → contains p (erase a xs) ≡ (not (p =? a) && contains p xs)
unfolding erase
contains-erase a p [] = ground arith
contains-erase a p (x ∷ xs) =
    ground (arith, contains-erase a p xs, =?_iff a x, =?_iff p x, =?_iff p a)

pub names-append : (xs ys : List AggregateJob) → names (xs ++ ys) ≡ names xs ++ names ys
names-append [] ys = refl
names-append (x ∷ xs) ys = ap (◌∷◌ x.name) (names-append xs ys)

pub count-le_contains : (p : Bytes) (xs : List Bytes) → contains p xs ≡ true → 1 ≤ count p xs
count-le_contains p [] h = cc
count-le_contains p (x ∷ xs) h = ground (arith, count-le_contains p xs)

pub contains-count : (p : Bytes) (xs : List Bytes) → 1 ≤ count p xs → contains p xs ≡ true
contains-count p [] h = absurd (omega arith)
contains-count p (x ∷ xs) h = ground (arith, contains-count p xs)

module _ (dict : Map Bytes AggregateJob) where
  -- `b` depends on `a`, and not by naming itself.
  pub record Depends (b a : Bytes) : Type 0 where
    pub named : contains a (at dict b).dependencies ≡ true
    pub other : (a =? b) ≡ false
    pub known : has dict a ≡ true

  -- A chain of dependencies.
  pub data Reaches (b : Bytes) : Bytes → Type 0 where
    here : Reaches b b
    next : (a c : Bytes) → Reaches b a → Depends a c → Reaches b c

  -- Each job of the list is the one of its name, and its dependencies are among `before` or in
  -- front of it.
  abbrev pub InOrder : List Bytes → List AggregateJob → Type 0
  InOrder before [] = Unit {0}
  InOrder before (job ∷ jobs) =
      (at dict job.name ≡ job)
      × ((a : Bytes) → Depends job.name a → contains a before ≡ true)
      × InOrder (job.name ∷ before) jobs

  pub InOrder-snoc :
      (before : List Bytes) (jobs : List AggregateJob) (job : AggregateJob)
      → InOrder before jobs
      → at dict job.name ≡ job
      → ((a : Bytes) → Depends job.name a → (contains a before || contains a (names jobs)) ≡ true)
      → InOrder before (jobs ++ job ∷ [])
  InOrder-snoc before [] job o e h = (e, λ a d. ground (arith, h a d), tt)
  InOrder-snoc before (j ∷ jobs) job (ej, dj, o) e h =
      (ej, dj, InOrder-snoc (j.name ∷ before) jobs job o e (λ a d. ground (arith, h a d)))

  -- A job is sorted or in progress if it is marked, and once.
  pub record Good (s : Search) : Type 0 where
    pub marks :
        (p : Bytes)
        → count p (names s.sorted) + bit (contains p s.parents) ≡ bit (contains p s.visited)
    pub ordered : InOrder [] s.sorted
    pub known : (p : Bytes) → contains p s.visited ≡ true → has dict p ≡ true

  pub record After (s t : Search) : Type 0 where
    pub good : Good t
    pub kept : (p : Bytes) → contains p t.parents ≡ contains p s.parents
    pub grown : (p : Bytes) → contains p s.visited ≡ true → contains p t.visited ≡ true

  -- The exception names two jobs of a cycle.
  pub record IsCycle (e : DependencyCycle) : Type 0 where
    pub edge : Depends e.b e.a
    pub back : Reaches e.a e.b

  abbrev pub Ends : {A : Type 0} → (A → Type 0) → Outcome A → Type 0
  Ends ok (done a) = ok a
  Ends ok (cycle e) = IsCycle e
  Ends ok fault = ⊥
  Ends ok out_of_fuel = ⊥

  pub Ends-bind :
      {A B : Type 0} (ok : A → Type 0) (ok' : B → Type 0) (m : Outcome A) (f : A → Outcome B)
      → Ends ok m
      → ((a : A) → ok a → Ends ok' (f a))
      → Ends ok' (m >>= f)
  Ends-bind ok ok' (done a) f h k = k a h
  Ends-bind ok ok' (cycle e) f h k = h
  Ends-bind ok ok' fault f h k = h
  Ends-bind ok ok' out_of_fuel f h k = h

  pub Ends-mono :
      {A : Type 0} (ok ok' : A → Type 0) (m : Outcome A)
      → Ends ok m
      → ((a : A) → ok a → ok' a)
      → Ends ok' m
  Ends-mono ok ok' (done a) h k = k a h
  Ends-mono ok ok' (cycle e) h k = h
  Ends-mono ok ok' fault h k = h
  Ends-mono ok ok' out_of_fuel h k = h

  -- What led to the visit of `path`: everything in progress reaches it by way of `parent`.
  abbrev pub Context : Option Bytes → Bytes → Search → Type 0
  Context none path s = (p : Bytes) → contains p s.parents ≡ false
  Context (some parent) path s =
      Depends parent path × ((p : Bytes) → contains p s.parents ≡ true → Reaches p parent)

  pub left : Search → Map Bytes AggregateJob → ℕ
  left s m = count_if (λ kv. not (contains kv.0 s.visited)) m

  pub left-le_length : (s : Search) (m : Map Bytes AggregateJob) → left s m ≤ length m
  unfolding left
  left-le_length s [] = omega arith
  left-le_length s ((k, v) ∷ m) = ground (arith, left-le_length s m)

  pub left-grown :
      (s t : Search) (m : Map Bytes AggregateJob)
      → ((p : Bytes) → contains p s.visited ≡ true → contains p t.visited ≡ true)
      → left t m ≤ left s m
  unfolding left
  left-grown s t [] h = omega arith
  left-grown s t ((k, v) ∷ m) h = ground (arith, left-grown s t m h, h k)

  pub left-mark :
      (path : Bytes) (s : Search) (m : Map Bytes AggregateJob)
      → is_some (find path m) ≡ true
      → contains path s.visited ≡ false
      → left (mark path s) m < left s m
  unfolding left find
  left-mark path s [] h f = cc
  left-mark path s ((k, v) ∷ m) h f = ground (
    arith,
    left-mark path s m,
    =?_iff path k,
    =?_iff k path,
    contains-insert path k s.visited,
    left-grown s (mark path s) m (λ p g. ground (arith, contains-insert path p s.visited)),
  )

  pub After-refl : (s : Search) → Good s → After s s
  After-refl s g = record { good = g; kept = λ p. refl; grown = λ p h. h }

  pub After-trans : (s t u : Search) → After s t → After t u → After s u
  After-trans s t u a b = record {
    good = b.good;
    kept = λ p. b.kept p ∙ a.kept p;
    grown = λ p h. b.grown p (a.grown p h);
  }

  -- The result of a visit.
  pub record Visited (path : Bytes) (s t : Search) : Type 0 where
    pub after : After s t
    pub there : contains path (names t.sorted) ≡ true

  pub sorted-grown :
      (s t : Search) (p : Bytes)
      → Good s
      → After s t
      → contains p (names s.sorted) ≡ true
      → contains p (names t.sorted) ≡ true
  sorted-grown s t p g a h = contains-count p (names t.sorted) (
      ground (
        arith,
        count-le_contains p (names s.sorted) h,
        g.marks p,
        a.good.marks p,
        a.kept p,
        a.grown p,
      ))
