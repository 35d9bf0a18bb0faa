-- ===== src/Constituents/Resolve.antt =====
-- resolveNamedConstituents of constituents.cc: the aggregates among the jobs, and what they
-- name. `J` stands for nlohmann::json; log messages are left out.
use nix_eval_jobs.Prelude.{
  List, [], ◌∷◌, Option, none, some, Bool, true, false, ◌||◌, not, Bytes, Map, if◌then◌else◌,
  insert, insert_or_assign, find, ◌=?◌, list_ord, nat_ord, is_empty,
}
use nix_eval_jobs.Messages.{ascii}
use nix_eval_jobs.Constituents.{AggregateJob, Outcome, topo_sort}

-- What the code asks of a JSON value. `elements` is the range of its iteration, and `none` of a
-- conversion is the exception that it throws.
pub record Json (J : Type 0) : Type 0 where
  pub find_field : Bytes → J → Option J
  pub elements : J → List J
  pub as_string : J → Option Bytes
  pub as_bool : J → Option Bool

infixl 1 ◌>>=◌
abbrev pub ◌>>=◌ : {A B : Type 0} → Option A → (A → Option B) → Option B
none >>= f = none
some a >>= f = f a

-- The variables `results` and `brokenJobs`.
pub record Picked : Type 0 where
  pub results : List Bytes
  pub broken : Map Bytes Bytes

abbrev pub add_broken : Bytes → Bytes → Picked → Picked
add_broken child reason p = record p { broken = insert_or_assign child reason p.broken }

abbrev pub add_result : Bytes → Picked → Picked
add_result child p = record p { results = insert child p.results }

module _ {J : Type 0} (json : Json J) (fnmatch : Bytes → Bytes → Bool) where
  abbrev pub error_of : J → Option J
  error_of job = json.find_field (ascii "error") job

  -- isBroken
  unfoldable pub is_broken : Bytes → J → Picked → Option (Bool × Picked)
  is_broken child job p = elim (error_of job) [
    | none ↦ some (false, p)
    | some e ↦ do error ← json.as_string e; some (true, add_broken child error p)
  ]

  -- `if (!isBroken(child, job)) results.insert(child)`
  unfoldable pub insert_unless_broken : Bytes → J → Picked → Option (Bool × Picked)
  unfolding is_broken
  insert_unless_broken child job p = do
    (broken, p') ← is_broken child job p
    some (not broken, if broken then p' else add_result child p')

  -- insertMatchingConstituents, with `expansionFound` so far
  unfoldable pub insert_matching :
      Bytes → Bytes → Map Bytes J → Bool → Picked → Option (Bool × Picked)
  unfolding insert_unless_broken
  insert_matching child job_name [] found p = some (found, p)
  insert_matching child job_name ((current, job) ∷ jobs) found p =
      let rest = insert_matching child job_name jobs in
      if current =? job_name
      then rest found p
      else if fnmatch child current
      then insert_unless_broken current job p >>= (λ r. rest (found || r.0) r.1)
      else rest found p

  abbrev pub expanded : Bytes → Bool × Picked → Picked
  expanded child (true, p) = p
  expanded child (false, p) = add_broken child (ascii "constituent glob pattern had no matches") p

  -- The body of the loop over the named constituents.
  unfoldable pub pick_child : Map Bytes J → Bool → Bytes → Bytes → Picked → Option Picked
  unfolding insert_matching
  pick_child jobs glob job_name child p = elim (find child jobs) [
    | none ↦
        if not glob
        then some (add_broken child (ascii "does not exist") p)
        else do found ← insert_matching child job_name jobs false p; some (expanded child found)
    | some job ↦ do (inserted, p') ← insert_unless_broken child job p; some p'
  ]

  unfoldable pub pick_children : Map Bytes J → Bool → Bytes → List J → Picked → Option Picked
  unfolding pick_child
  pick_children jobs glob job_name [] p = some p
  pick_children jobs glob job_name (value ∷ values) p = do
    child ← json.as_string value
    p' ← pick_child jobs glob job_name child p
    pick_children jobs glob job_name values p'

  -- `job.value<bool>("globConstituents", false)`
  unfoldable pub glob_of : J → Option Bool
  glob_of job = elim (json.find_field (ascii "globConstituents") job) [
    | none ↦ some false
    | some value ↦ json.as_bool value
  ]

  -- The names that a job gives; none if it is no aggregate.
  unfoldable pub named_of : J → List J
  named_of job = elim (json.find_field (ascii "namedConstituents") job) [
    | none ↦ []
    | some named ↦ json.elements named
  ]

  unfoldable pub aggregate_of : Map Bytes J → Bytes → J → Option AggregateJob
  unfolding pick_children glob_of named_of
  aggregate_of jobs job_name job = do
    glob ← glob_of job
    p ← pick_children jobs glob job_name (named_of job) (record { results = []; broken = [] })
    some (record { name = job_name; dependencies = p.results; broken_jobs = p.broken })

  -- The loop over the jobs, whose names are in the order of the set of aggregates.
  unfoldable pub aggregates_of : Map Bytes J → Map Bytes J → Option (List AggregateJob)
  unfolding aggregate_of
  aggregates_of jobs [] = some []
  aggregates_of jobs ((job_name, job) ∷ more) =
      let rest = aggregates_of jobs more in
      if is_empty (named_of job)
      then rest
      else do item ← aggregate_of jobs job_name job; items ← rest; some (item ∷ items)

  -- resolveNamedConstituents, whose variant is the outcome of the sort.
  unfoldable pub resolve_named_constituents : Map Bytes J → Option (Outcome (List AggregateJob))
  unfolding aggregates_of
  resolve_named_constituents jobs = do items ← aggregates_of jobs jobs; some (topo_sort items)
