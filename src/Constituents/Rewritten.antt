-- ===== src/Constituents/Rewritten.antt =====
-- What rewriteAggregates of constituents.cc leaves of the jobs, the store and the output.
use nix_eval_jobs.Prelude.{
  ◌≡◌, List, [], ◌∷◌, some, Bool, true, false, Bytes, Map, Ord, ◌++◌, ◌&&◌, ◌||◌, ◌=?◌, map,
  if◌then◌else◌, insert_or_assign, find, list_ord, nat_ord, is_empty,
}
use nix_eval_jobs.Messages.{ascii}
use nix_eval_jobs.Constituents.{AggregateJob}
use nix_eval_jobs.Constituents.Rewrite.{
  Store, JobJson, Output, input_addressed, deferred, other, Derivation, first_name, Rewriting,
}

module _ {S P X J : Type 0} ⦃o : Ord P⦄ (store : Store S P X) (json : JobJson J)
    (hash_order : Map Bytes Bytes → Map Bytes Bytes) (gc_roots_dir : Bytes) where
  -- A line for each broken constituent: its name, and its error behind a colon.
  abbrev pub error_lines : Map Bytes Bytes → List Bytes
  error_lines [] = []
  error_lines (e ∷ broken) = (e.0 ++ (ascii ": " ++ e.1)) ∷ error_lines broken

  abbrev pub unlines : List Bytes → Bytes
  unlines [] = []
  unlines (line ∷ lines) = line ++ 10 ∷ unlines lines

  -- The errors of the constituents in place of their names.
  abbrev pub with_errors : AggregateJob → J → J
  with_errors item job =
      json.set_error (unlines (error_lines (hash_order item.broken_jobs)))
        (json.erase_named_constituents job)

  -- The path of the derivation of a job.
  abbrev pub IsPath : J → P → Type 0
  IsPath job path =
      (text : Bytes) × (json.drv_path job ≡ some text) × (store.parse_store_path text ≡ some path)

  -- Each dependency adds the path of its derivation to the job, and that derivation with its first
  -- output to the inputs. `jobs` has the other jobs, and the job itself may be its own dependency.
  pub data Joins (s : S) (name : Bytes) (jobs : Map Bytes J)
      : List Bytes → J → Derivation P X → J → Derivation P X → Type 0 where
    joined : (job : J) (drv : Derivation P X) → Joins s name jobs [] job drv job drv
    joins :
        (child : Bytes) (children : List Bytes) (job job' child_job : J)
        (drv drv' child_drv : Derivation P X) (path : P) (output : Bytes)
        → (if child =? name then some job else find child jobs) ≡ some child_job
        → IsPath child_job path
        → store.read_derivation s path ≡ some child_drv
        → first_name child_drv.outputs ≡ some output
        → Joins s name jobs children
            (json.push_constituent (store.print_store_path path) job)
            (record drv { input_drvs = insert_or_assign path (output ∷ []) drv.input_drvs })
            job'
            drv'
        → Joins s name jobs (child ∷ children) job drv job' drv'

  -- An output with a path waits for it again.
  abbrev pub is_addressed : Output → Bool
  is_addressed (input_addressed path) = true
  is_addressed deferred = false
  is_addressed other = false

  abbrev pub wait_again : Bytes × Output → Bytes × Output
  wait_again e = (e.0, if is_addressed e.1 then deferred else e.1)

  abbrev pub addressed : Bytes → Map Bytes Output → Bool
  addressed name [] = false
  addressed name (e ∷ outputs) = (name =? e.0 && is_addressed e.1) || addressed name outputs

  -- Every output with a path lost it, and its variable is empty; other variables stay.
  pub record IsReset (outputs : Map Bytes Output) (env : Map Bytes Bytes)
      (outputs' : Map Bytes Output) (env' : Map Bytes Bytes) : Type 0 where
    pub waits : outputs' ≡ map wait_again outputs
    pub emptied :
        (name : Bytes)
        → find name env' ≡ (if addressed name outputs then some [] else find name env)

  -- A job whose derivation has a new path gets it, and the path of each output.
  pub data Prints (env : Map Bytes Bytes) : Map Bytes Output → J → J → Type 0 where
    no_outputs : (job : J) → Prints env [] job job
    prints :
        (name value : Bytes) (output : Output) (outputs : Map Bytes Output) (job job' : J)
        → find name env ≡ some value
        → Prints env outputs (json.set_output name value job) job'
        → Prints env ((name, output) ∷ outputs) job job'

  -- A sound aggregate: its constituents are joined, its outputs reset and computed anew, and the
  -- derivation is written; and if it has a new path, then the job is that of the new derivation.
  pub record Registered (item : AggregateJob) (r : Rewriting S J) (s : S) (job done : J)
      : Type 0 where
    pub path : P
    pub drv : Derivation P X
    pub had_path : IsPath job path
    pub read : store.read_derivation r.store path ≡ some drv
    pub added : J
    pub inputs : Derivation P X
    pub joined_all : Joins r.store item.name r.jobs item.dependencies job drv added inputs
    pub outputs : Map Bytes Output
    pub env : Map Bytes Bytes
    pub reset : IsReset inputs.outputs inputs.env outputs env
    pub filled : Derivation P X
    pub fills :
        store.fill_in_output_paths r.store (record inputs { outputs = outputs; env = env })
        ≡ some filled
    pub new_path : P
    pub written_store : S
    pub writes : store.write_derivation r.store filled ≡ (written_store, new_path)
    pub same_path : (new_path =? path) ≡ true → (s ≡ written_store) × (done ≡ added)
    pub changed_path :
        (new_path =? path) ≡ false
        → Prints filled.env filled.outputs
            (json.set_drv_path (store.print_store_path new_path) added)
            done

  -- What one aggregate changes: its own job, by a job that is printed. If a constituent is broken,
  -- the store stays, and the job gets the errors and loses its named constituents; if none is, the
  -- aggregate is registered, and loses its named constituents.
  pub record Rewritten (item : AggregateJob) (r r' : Rewriting S J) : Type 0 where
    pub job : J
    pub final : J
    pub had : find item.name r.jobs ≡ some job
    pub jobs : r'.jobs ≡ insert_or_assign item.name final r.jobs
    pub printed : r'.printed ≡ json.dump final ∷ r.printed
    pub broken :
        is_empty item.broken_jobs ≡ false → (r'.store ≡ r.store) × (final ≡ with_errors item job)
    pub sound :
        is_empty item.broken_jobs ≡ true
        → (done : J) × Registered item r r'.store job done
          × (final ≡ json.erase_named_constituents done)

  -- The lines and jobs after some aggregates.
  pub data Rewrites : List AggregateJob → Rewriting S J → Rewriting S J → Type 0 where
    finished : (r : Rewriting S J) → Rewrites [] r r
    next :
        (item : AggregateJob) (items : List AggregateJob) (r r' r'' : Rewriting S J)
        → Rewritten item r r'
        → Rewrites items r' r''
        → Rewrites (item ∷ items) r r''
