-- ===== src/Constituents/Visits.antt =====
-- The depth-first search of topoSort in constituents.cc, by induction on its fuel.
use nix_eval_jobs.Prelude.{
  ℕ, zero, suc, ◌+◌, ◌<◌, ◌≡◌, sym, ap, ◌∙◌, List, [], ◌∷◌, ◌++◌, Option, none, some, true, false,
  ◌&&◌, ◌||◌, not, Bytes, Map, bit, count, contains, ◌=?◌, =?_iff, =?_refl, list_ord, nat_ord,
  if◌then◌else◌, arith, Bool-cases, contains-insert, subst, inl, inr,
}
use nix_eval_jobs.Constituents.{
  AggregateJob, Search, Outcome, done, ◌>>=◌, names, at, has, visit_refs, throw_cycle, mark, leave,
  dfs_visit, visit_all,
}
use nix_eval_jobs.Constituents.Order.{
  here, next, Depends, Reaches, InOrder-snoc, Good, After, Ends, Ends-bind, Ends-mono, Context,
  left, left-grown, left-mark, After-refl, After-trans, Visited, sorted-grown, contains-erase,
  contains-count,
}

module _ (dict : Map Bytes AggregateJob) where
  -- What the search from each reference owes the loop over them.
  abbrev Visits : ℕ → (Option Bytes → Bytes → Search → Outcome Search) → Type 0
  Visits fuel visit =
      (parent : Option Bytes) (path : Bytes) (s : Search)
      → Good dict s
      → left dict s dict < fuel
      → has dict path ≡ true
      → Context dict parent path s
      → Ends dict (Visited dict path s) (visit parent path s)

  record RefsDone (path : Bytes) (refs : List Bytes) (s t : Search) : Type 0 where
    after : After dict s t
    there :
        (a : Bytes)
        → contains a refs ≡ true
        → (a =? path) ≡ false
        → has dict a ≡ true
        → contains a (names t.sorted) ≡ true

  -- One reference: skipped, or visited.
  ref-RefsDone :
      (fuel : ℕ) (visit : Option Bytes → Bytes → Search → Outcome Search)
      → Visits fuel visit
      → (path ref : Bytes) (s : Search) → Good dict s
      → left dict s dict < fuel
      → contains ref (at dict path).dependencies ≡ true
      → ((p : Bytes) → contains p s.parents ≡ true → Reaches dict p path)
      → Ends dict
          (RefsDone path (ref ∷ []) s)
          (if not (ref =? path) && has dict ref then visit (some path) ref s else done s)
  ref-RefsDone fuel visit v path ref s g l named back =
      elim (Bool-cases (not (ref =? path) && has dict ref)) [
        | inl h ↦ rw h (
            Ends-mono dict (Visited dict ref s) (RefsDone path (ref ∷ []) s) _
              (v (some path) ref s g l (ground arith)
                (record { named = named; other = ground arith; known = ground arith }, back))
              (λ t d. record {
                after = d.after;
                there = λ a n o k. ground (arith, d.there, =?_iff a ref);
              }))
        | inr h ↦ rw h (record {
          after = After-refl dict s g;
          there = λ a n o k. ground (arith, =?_iff a ref);
        })
      ]

  -- What holds before and after each step of the loop.
  record Looping (fuel : ℕ) (path : Bytes) (s : Search) : Type 0 where
    good : Good dict s
    enough : left dict s dict < fuel
    back : (p : Bytes) → contains p s.parents ≡ true → Reaches dict p path

  After-Looping :
      (fuel : ℕ) (path : Bytes) (s t : Search)
      → Looping fuel path s
      → After dict s t
      → Looping fuel path t
  After-Looping fuel path s t l a = record {
    good = a.good;
    enough = omega (arith, l.enough, left-grown dict s t dict a.grown);
    back = λ p h. l.back p (sym (a.kept p) ∙ h);
  }

  visit_refs-RefsDone :
      (fuel : ℕ) (visit : Option Bytes → Bytes → Search → Outcome Search)
      → Visits fuel visit
      → (path : Bytes) (refs : List Bytes) (s : Search) → Looping fuel path s
      → ((a : Bytes) → contains a refs ≡ true → contains a (at dict path).dependencies ≡ true)
      → Ends dict (RefsDone path refs s) (visit_refs (visit (some path)) dict path refs s)
  unfolding visit_refs
  visit_refs-RefsDone fuel visit v path [] s l sub = record {
    after = After-refl dict s l.good;
    there = λ a n o k. cc;
  }
  visit_refs-RefsDone fuel visit v path (ref ∷ refs) s l sub =
      Ends-bind dict (RefsDone path (ref ∷ []) s) (RefsDone path (ref ∷ refs) s)
        (if not (ref =? path) && has dict ref then visit (some path) ref s else done s)
        (visit_refs (visit (some path)) dict path refs)
        (ref-RefsDone fuel visit v path ref s l.good l.enough
          (sub ref (ground (arith, =?_refl ref))) l.back)
        (λ t d.
          Ends-mono dict (RefsDone path refs t) (RefsDone path (ref ∷ refs) s) _
            (visit_refs-RefsDone fuel visit v path refs t (After-Looping fuel path s t l d.after)
              (λ a n. sub a (ground arith)))
            (λ u e. record {
              after = After-trans dict s t u d.after e.after;
              there = λ a n o k.
                  ground
                    (arith, e.there a, d.there a, sorted-grown dict t u a d.after.good e.after);
            }))

  mark-known :
      (path p : Bytes) (s : Search)
      → has dict path ≡ true
      → (contains p s.visited ≡ true → has dict p ≡ true)
      → contains p (mark path s).visited ≡ true
      → has dict p ≡ true
  mark-known path p s k g h = elim (Bool-cases (p =? path)) [
    | inl e ↦ subst (λ q. has dict q ≡ true) (sym ((=?_iff p path).0 e)) k
    | inr n ↦ g (ground (arith, contains-insert path p s.visited))
  ]

  mark-Good :
      (path : Bytes) (s : Search)
      → Good dict s
      → has dict path ≡ true
      → contains path s.parents ≡ false
      → contains path s.visited ≡ false
      → Good dict (mark path s)
  mark-Good path s g k fp fv = record {
    marks = λ p. ground (
      arith,
      g.marks p,
      contains-insert path p s.parents,
      contains-insert path p s.visited,
      =?_iff p path,
    );
    ordered = g.ordered;
    known = λ p h. mark-known path p s k (g.known p) h;
  }

  Context-Reaches :
      (parent : Option Bytes) (path : Bytes) (s : Search)
      → Context dict parent path s
      → (p : Bytes) → contains p s.parents ≡ true
      → Reaches dict p path
  Context-Reaches none path s c p h = ground (arith, c p)
  Context-Reaches (some parent) path s (edge, back) p h = next parent path (back p h) edge

  mark-back :
      (parent : Option Bytes) (path : Bytes) (s : Search)
      → Context dict parent path s
      → (p : Bytes) → contains p (mark path s).parents ≡ true
      → Reaches dict p path
  mark-back parent path s c p h = elim (Bool-cases (p =? path)) [
    | inl e ↦ subst (λ q. Reaches dict p q) ((=?_iff p path).0 e) here
    | inr n ↦ Context-Reaches parent path s c p (ground (arith, contains-insert path p s.parents))
  ]

  count-snoc :
      (p path : Bytes) (jobs : List AggregateJob) (job : AggregateJob)
      → job.name ≡ path
      → count p (names (jobs ++ job ∷ [])) ≡ count p (names jobs) + bit (p =? path)
  count-snoc p path [] job e = rw e (omega arith)
  count-snoc p path (j ∷ jobs) job e = omega (arith, count-snoc p path jobs job e)

  -- Every key of the list is among the sorted jobs.
  pub record AllDone (ks : List Bytes) (s t : Search) : Type 0 where
    pub after : After dict s t
    pub there : (p : Bytes) → contains p ks ≡ true → contains p (names t.sorted) ≡ true

  module _ (keyed : (k : Bytes) → has dict k ≡ true → (at dict k).name ≡ k) where
    leave-there :
        (path name : Bytes)
        → name ≡ path
        → (t : Search) (a : Bytes)
        → ((a : Bytes)
            → contains a (at dict path).dependencies ≡ true
            → (a =? path) ≡ false
            → has dict a ≡ true
            → contains a (names t.sorted) ≡ true)
        → Depends dict name a
        → (contains a [] || contains a (names t.sorted)) ≡ true
    leave-there path name e t a h d =
        let d' = subst (λ n. Depends dict n a) e d in h a d'.named d'.other d'.known

    leave-Visited :
        (path : Bytes) (s t : Search)
        → has dict path ≡ true
        → contains path s.parents ≡ false
        → RefsDone path (at dict path).dependencies (mark path s) t
        → Visited dict path s (leave dict path t)
    leave-Visited path s t k fp d = record {
      after = record {
        good = record {
          marks = λ p. ground (
            arith,
            count-snoc p path t.sorted (at dict path) (keyed path k),
            d.after.good.marks p,
            contains-erase path p t.parents,
            d.after.kept p,
            contains-insert path p s.parents,
            =?_iff p path,
          );
          ordered =
              InOrder-snoc dict [] t.sorted (at dict path) d.after.good.ordered
                (ap (at dict) (keyed path k))
                (λ a e. leave-there path (at dict path).name (keyed path k) t a d.there e);
          known = d.after.good.known;
        };
        kept = λ p. ground (
          arith,
          contains-erase path p t.parents,
          d.after.kept p,
          contains-insert path p s.parents,
          =?_iff p path,
        );
        grown = λ p h. d.after.grown p (ground (arith, contains-insert path p s.visited));
      };
      there = contains-count path _ (
          ground
            (arith, count-snoc path path t.sorted (at dict path) (keyed path k), =?_refl path));
    }

    throw_cycle-IsCycle :
        (parent : Option Bytes) (path : Bytes) (s : Search)
        → Context dict parent path s
        → contains path s.parents ≡ true
        → Ends dict (Visited dict path s) (throw_cycle dict path parent)
    unfolding throw_cycle
    throw_cycle-IsCycle none path s c h = ground (arith, c path)
    throw_cycle-IsCycle (some parent) path s (edge, back) h = record {
      edge = edge;
      back = back path h;
    }

    unmarked :
        (fuel : ℕ) (visit : Option Bytes → Bytes → Search → Outcome Search)
        → Visits fuel visit
        → (parent : Option Bytes) (path : Bytes) (s : Search) → Good dict s
        → left dict s dict < suc fuel
        → has dict path ≡ true
        → Context dict parent path s
        → contains path s.parents ≡ false
        → Ends dict (Visited dict path s) (
            if contains path s.visited
            then done s
            else (visit_refs (visit (some path)) dict path (at dict path).dependencies (mark path s)
                >>= λ s'. done (leave dict path s')))
    unmarked fuel visit v parent path s g l k c fp = elim (Bool-cases (contains path s.visited)) [
      | inl h ↦ rw h (record {
        after = After-refl dict s g;
        there = contains-count path _ (ground (arith, g.marks path));
      })
      | inr fv ↦ rw fv (
          Ends-bind dict (RefsDone path (at dict path).dependencies (mark path s))
            (Visited dict path s) _ _
            (visit_refs-RefsDone fuel visit v path (at dict path).dependencies (mark path s)
              (record {
                good = mark-Good path s g k fp fv;
                enough = omega (arith, l, left-mark dict path s dict k fv);
                back = mark-back parent path s c;
              })
              (λ a h. h))
            (λ t d. leave-Visited path s t k fp d))
    ]

    dfs_visit-Visited : (fuel : ℕ) → Visits fuel (dfs_visit fuel dict)
    unfolding dfs_visit
    dfs_visit-Visited zero parent path s g l k c = absurd (omega arith)
    dfs_visit-Visited (suc fuel) parent path s g l k c =
        elim (Bool-cases (contains path s.parents)) [
          | inl h ↦ rw h (throw_cycle-IsCycle parent path s c h)
          | inr fp ↦ rw fp (
              unmarked fuel (dfs_visit fuel dict) (dfs_visit-Visited fuel) parent path s g l k c fp)
        ]

    pub visit_all-AllDone :
        (fuel : ℕ) (ks : List Bytes) (s : Search)
        → Good dict s
        → left dict s dict < fuel
        → ((p : Bytes) → contains p ks ≡ true → has dict p ≡ true)
        → ((p : Bytes) → contains p s.parents ≡ false)
        → Ends dict (AllDone ks s) (visit_all fuel dict ks s)
    unfolding visit_all
    visit_all-AllDone fuel [] s g l sub c = record {
      after = After-refl dict s g;
      there = λ p h. cc;
    }
    visit_all-AllDone fuel (key ∷ ks) s g l sub c =
        Ends-bind dict (Visited dict key s) (AllDone (key ∷ ks) s) (dfs_visit fuel dict none key s)
          (visit_all fuel dict ks)
          (dfs_visit-Visited fuel none key s g l (sub key (ground (arith, =?_refl key))) c)
          (λ t d.
            Ends-mono dict (AllDone ks t) (AllDone (key ∷ ks) s) _
              (visit_all-AllDone fuel ks t d.after.good
                (omega (arith, l, left-grown dict s t dict d.after.grown))
                (λ p h. sub p (ground arith)) (λ p. d.after.kept p ∙ c p))
              (λ u e. record {
                after = After-trans dict s t u d.after e.after;
                there = λ p h. ground (
                  arith,
                  e.there p,
                  d.there,
                  =?_iff p key,
                  sorted-grown dict t u p d.after.good e.after,
                );
              }))
