-- ===== src/Constituents/Picked.antt =====
-- What resolveNamedConstituents of constituents.cc gives an aggregate job.
use nix_eval_jobs.Prelude.{
  ℕ, zero, suc, ◌≡◌, subst, List, [], ◌∷◌, Option, none, some, Bool, true, false, ◌&&◌, ◌||◌, not,
  Bytes, Map, contains, contains-insert, find, find-insert_or_assign, ◌=?◌, =?_iff, =?_refl,
  list_ord, nat_ord, is_some, get_elem?, arith, Option-cases, Bool-cases, inl, inr,
}
use nix_eval_jobs.Messages.{ascii}
use nix_eval_jobs.Constituents.{AggregateJob}
use nix_eval_jobs.Constituents.Resolve.{
  Json, Picked, ◌>>=◌, add_broken, add_result, error_of, is_broken, insert_unless_broken,
  insert_matching, expanded, pick_child, pick_children, glob_of, named_of, aggregate_of,
}

-- The name is a dependency, or has an error.
abbrev pub covered : Bytes → Picked → Bool
covered d p = contains d p.results || is_some (find d p.broken)

covered-add_broken :
    (d child reason : Bytes) (p : Picked)
    → covered d (add_broken child reason p) ≡ (d =? child || covered d p)
covered-add_broken d child reason p = ground (arith, find-insert_or_assign child d reason p.broken)

covered-add_result :
    (d child : Bytes) (p : Picked) → covered d (add_result child p) ≡ (d =? child || covered d p)
covered-add_result d child p = ground (arith, contains-insert child d p.results)

module _ {J : Type 0} (json : Json J) (fnmatch : Bytes → Bytes → Bool) (jobs : Map Bytes J) where
  -- There is a job of that name, and it has no error.
  abbrev pub usable : Bytes → Map Bytes J → Bool
  usable d [] = false
  usable d ((name, job) ∷ more) =
      (d =? name && not (is_some (error_of json fnmatch job))) || usable d more

  -- What a step of the loops does to the choice so far.
  record Step (p q : Picked) : Type 0 where
    sound :
        ((d : Bytes) → contains d p.results ≡ true → usable d jobs ≡ true)
        → (d : Bytes) → contains d q.results ≡ true
        → usable d jobs ≡ true
    grown : (d : Bytes) → covered d p ≡ true → covered d q ≡ true

  Step-refl : (p : Picked) → Step p p
  Step-refl p = record { sound = λ h. h; grown = λ d h. h }

  Step-trans : (p q r : Picked) → Step p q → Step q r → Step p r
  Step-trans p q r a b = record {
    sound = λ h. b.sound (a.sound h);
    grown = λ d h. b.grown d (a.grown d h);
  }

  Step-add_broken : (child reason : Bytes) (p : Picked) → Step p (add_broken child reason p)
  Step-add_broken child reason p = record {
    sound = λ h. h;
    grown = λ d h. ground (arith, covered-add_broken d child reason p);
  }

  Step-add_result :
      (child : Bytes) (p : Picked) → usable child jobs ≡ true → Step p (add_result child p)
  Step-add_result child p u = record {
    sound = λ h d c. ground (arith, h d, contains-insert child d p.results, =?_iff d child);
    grown = λ d h. ground (arith, covered-add_result d child p);
  }

  -- A step that may throw, and covers `child` under a condition.
  abbrev Steps : {A : Type 0} → (A → Picked) → Picked → (Picked → Type 0) → Option A → Type 0
  Steps out p also none = Unit {0}
  Steps out p also (some a) = Step p (out a) × also (out a)

  insert_unless_broken-Steps :
      (child : Bytes) (job : J) (p : Picked)
      → (is_some (error_of json fnmatch job) ≡ false → usable child jobs ≡ true)
      → Steps
          (λ r. r.1)
          p
          (λ q. covered child q ≡ true)
          (insert_unless_broken json fnmatch child job p)
  unfolding insert_unless_broken is_broken
  insert_unless_broken-Steps child job p u = elim (Option-cases (error_of json fnmatch job)) [
    | inl e ↦
        simp (e, insert_unless_broken, is_broken)
          (
            Step-add_result child p (u (ground arith)),
            ground (arith, covered-add_result child child p, =?_refl child),
          )
    | inr (v, e) ↦ elim (Option-cases (json.as_string v)) [
      | inl n ↦ simp (e, n, insert_unless_broken, is_broken) tt
      | inr (error, n) ↦
          simp (e, n, insert_unless_broken, is_broken)
            (
              Step-add_broken child error p,
              ground (arith, covered-add_broken child child error p, =?_refl child),
            )
    ]
  ]

  find-usable :
      (child : Bytes) (more : Map Bytes J) (job : J)
      → find child more ≡ some job
      → is_some (error_of json fnmatch job) ≡ false
      → usable child more ≡ true
  unfolding find
  find-usable child [] job h e = cc
  find-usable child ((name, j) ∷ more) job h e = ground (arith, find-usable child more job)

  Steps-bind :
      {A B : Type 0} (out : A → Picked) (out' : B → Picked) (p : Picked)
      (also also' : Picked → Type 0) (m : Option A) (f : A → Option B)
      → Steps out p also m
      → ((a : A) → also (out a) → Steps out' (out a) also' (f a))
      → Steps out' p also' (m >>= f)
  Steps-bind out out' p also also' none f h k = tt
  Steps-bind out out' p also also' (some a) f (s, c) k = follow (f a) (k a c)
    where
      follow : (r : Option _) → Steps out' (out a) also' r → Steps out' p also' r
      follow none h = tt
      follow (some b) (t, c') = (Step-trans p (out a) (out' b) s t, c')

  insert_matching-Steps :
      (child job_name : Bytes) (more : Map Bytes J) (found : Bool) (p : Picked)
      → ((d : Bytes) → usable d more ≡ true → usable d jobs ≡ true)
      → Steps
          (λ r. r.1)
          p
          (λ q. Unit {0})
          (insert_matching json fnmatch child job_name more found p)
  unfolding insert_matching
  insert_matching-Steps child job_name [] found p sub = (Step-refl p, tt)
  insert_matching-Steps child job_name ((current, job) ∷ more) found p sub =
      let rest = λ (found' : Bool) (q : Picked).
        insert_matching-Steps child job_name more found' q (λ d h. sub d (ground arith)) in
      elim (Bool-cases (current =? job_name)) [
        | inl e ↦ rw e (rest found p)
        | inr e ↦ elim (Bool-cases (fnmatch child current)) [
          | inl m ↦
              rw (e, m)
                (Steps-bind (λ r. r.1) (λ r. r.1) p (λ q. covered current q ≡ true) (λ q. Unit {0})
                  (insert_unless_broken json fnmatch current job p) _
                  (insert_unless_broken-Steps current job p
                    (λ n. sub current (ground (arith, =?_refl current))))
                  (λ r c. rest (found || r.0) r.1))
          | inr m ↦ rw (e, m) (rest found p)
        ]
      ]

  expanded-Step : (child : Bytes) (r : Bool × Picked) → Step r.1 (expanded json fnmatch child r)
  expanded-Step child (true, p) = Step-refl p
  expanded-Step child (false, p) =
      Step-add_broken child (ascii "constituent glob pattern had no matches") p

  -- A constituent that is not a pattern is covered.
  abbrev Picks : Bool → Bytes → Picked → Type 0
  Picks glob child q = glob ≡ false → covered child q ≡ true

  pick_child-Steps :
      (glob : Bool) (job_name child : Bytes) (p : Picked)
      → Steps (λ q. q) p (Picks glob child) (pick_child json fnmatch jobs glob job_name child p)
  unfolding pick_child
  pick_child-Steps glob job_name child p = elim (Option-cases (find child jobs)) [
    | inr (job, e) ↦
        simp (e, pick_child)
          (Steps-bind (λ r. r.1) (λ q. q) p (λ q. covered child q ≡ true) (Picks glob child)
            (insert_unless_broken json fnmatch child job p) _
            (insert_unless_broken-Steps child job p (find-usable child jobs job e))
            (λ r c. (Step-refl r.1, λ g. c)))
    | inl e ↦ elim (Bool-cases glob) [
      | inl g ↦
          simp (e, g, pick_child)
            (Steps-bind (λ r. r.1) (λ q. q) p (λ q. Unit {0}) (Picks true child)
              (insert_matching json fnmatch child job_name jobs false p) _
              (insert_matching-Steps child job_name jobs false p (λ d h. h))
              (λ r c. (expanded-Step child r, λ h. absurd (ground arith))))
      | inr g ↦
          simp (e, g, pick_child)
            (
              Step-add_broken child (ascii "does not exist") p,
              λ h.
                  ground (
                    arith,
                    covered-add_broken child child (ascii "does not exist") p,
                    =?_refl child,
                  ),
            )
    ]
  ]

  abbrev AllPicks : Bool → List J → Picked → Type 0
  AllPicks glob values q =
      (i : ℕ) (value : J) (child : Bytes)
      → get_elem? values i ≡ some value
      → json.as_string value ≡ some child
      → Picks glob child q

  AllPicks-cons :
      (glob : Bool) (value : J) (child : Bytes) (values : List J) (q r : Picked)
      → json.as_string value ≡ some child
      → Picks glob child q
      → Step q r
      → AllPicks glob values r
      → AllPicks glob (value ∷ values) r
  AllPicks-cons glob value child values q r e c s all zero v d at read g =
      ground (arith, s.grown d, c g)
  AllPicks-cons glob value child values q r e c s all (suc i) v d at read g = all i v d at read g

  Steps-cons :
      (glob : Bool) (value : J) (child : Bytes) (values : List J) (q : Picked) (m : Option Picked)
      → json.as_string value ≡ some child
      → Picks glob child q
      → Steps (λ q. q) q (AllPicks glob values) m
      → Steps (λ q. q) q (AllPicks glob (value ∷ values)) m
  Steps-cons glob value child values q none e c h = tt
  Steps-cons glob value child values q (some r) e c (s, all) =
      (s, AllPicks-cons glob value child values q r e c s all)

  pick_children-Steps :
      (glob : Bool) (job_name : Bytes) (values : List J) (p : Picked)
      → Steps
          (λ q. q)
          p
          (AllPicks glob values)
          (pick_children json fnmatch jobs glob job_name values p)
  unfolding pick_children
  pick_children-Steps glob job_name [] p = (Step-refl p, λ i value child e. cc)
  pick_children-Steps glob job_name (value ∷ values) p =
      elim (Option-cases (json.as_string value)) [
        | inl e ↦ simp (e, pick_children) tt
        | inr (child, e) ↦
            simp (e, pick_children)
              (Steps-bind (λ q. q) (λ q. q) p (Picks glob child) (AllPicks glob (value ∷ values))
                (pick_child json fnmatch jobs glob job_name child p)
                (pick_children json fnmatch jobs glob job_name values)
                (pick_child-Steps glob job_name child p)
                (λ q c.
                  Steps-cons glob value child values q
                    (pick_children json fnmatch jobs glob job_name values q) e c
                    (pick_children-Steps glob job_name values q)))
      ]

  -- The dependencies of an aggregate are jobs without an error; and unless its names are patterns,
  -- each of them is a dependency or has an error.
  pub record Resolves (job : J) (item : AggregateJob) : Type 0 where
    pub usable_only : (d : Bytes) → contains d item.dependencies ≡ true → usable d jobs ≡ true
    pub complete :
        glob_of json fnmatch job ≡ some false
        → (i : ℕ) (value : J) (child : Bytes) → get_elem? (named_of json fnmatch job) i ≡ some value
        → json.as_string value ≡ some child
        → (contains child item.dependencies || is_some (find child item.broken_jobs)) ≡ true

  picked-Resolves :
      (job_name : Bytes) (job : J) (glob : Bool) (p : Picked)
      → glob_of json fnmatch job ≡ some glob
      → Step (record { results = []; broken = [] }) p
      → AllPicks glob (named_of json fnmatch job) p
      → Resolves job (record { name = job_name; dependencies = p.results; broken_jobs = p.broken })
  picked-Resolves job_name job glob p g s all = record {
    usable_only = s.sound (λ d h. cc);
    complete = λ no i value child at read. all i value child at read (ground arith);
  }

  -- If no conversion throws, the dependencies of an aggregate are names of jobs without an error;
  -- and if its names are no patterns, each of them is a dependency or has an error recorded.
  pub aggregate_of-Resolves :
      (job_name : Bytes) (job : J) (item : AggregateJob)
      → aggregate_of json fnmatch jobs job_name job ≡ some item
      → Resolves job item
  unfolding aggregate_of
  aggregate_of-Resolves job_name job item h = elim (Option-cases (glob_of json fnmatch job)) [
    | inl e ↦ ground arith
    | inr (glob, e) ↦
        elim (Option-cases (
          pick_children json fnmatch jobs glob job_name (named_of json fnmatch job)
            (record { results = []; broken = [] }))) [
              | inl n ↦ ground arith
              | inr (p, n) ↦
                  let (s, all) =
                    subst (Steps (λ q. q) _ (AllPicks glob (named_of json fnmatch job))) n
                      (pick_children-Steps glob job_name (named_of json fnmatch job) _) in
                  subst (Resolves job) (ground arith) (picked-Resolves job_name job glob p e s all)
            ]
  ]
