-- ===== src/Constituents/Rewrite.antt =====
-- rewriteAggregates of constituents.cc: the derivations of the aggregates get their constituents as
-- inputs, in the order of the sort. The store of Nix and the fields of a JSON value are interfaces;
-- messages of the logger are left out.
use nix_eval_jobs.Prelude.{
  List, [], ◌∷◌, ◌++◌, Option, none, some, Bool, not, ◌||◌, Bytes, Map, Ord, if◌then◌else◌,
  insert_or_assign, find, ◌=?◌, list_ord, nat_ord, is_empty,
}
use nix_eval_jobs.Messages.{ascii}
use nix_eval_jobs.Constituents.{AggregateJob}

-- nix::DerivationOutput, of which the code tells one kind from the others.
pub data Output : Type 0 where
  input_addressed : Bytes → Output
  deferred other : Output

-- The fields of nix::Derivation that the code changes, and the others.
pub record Derivation (P X : Type 0) : Type 0 where
  pub outputs : Map Bytes Output
  pub env : Map Bytes Bytes
  pub input_drvs : Map P (List Bytes)
  pub others : X

-- nix::Store at a state `S`; `none` is an exception.
pub record Store (S P X : Type 0) : Type 0 where
  pub parse_store_path : Bytes → Option P
  pub print_store_path : P → Bytes
  pub base_name : Bytes → Bytes
  pub read_derivation : S → P → Option (Derivation P X)
  pub fill_in_output_paths : S → Derivation P X → Option (Derivation P X)
  pub write_derivation : S → Derivation P X → S × P
  pub is_local : Bool
  pub path_exists : S → Bytes → Bool
  pub add_perm_root : S → P → Bytes → S

-- What the code does to the JSON of a job. `none` is the exception of a field that is no string.
pub record JobJson (J : Type 0) : Type 0 where
  pub drv_path : J → Option Bytes
  pub push_constituent : Bytes → J → J
  pub set_drv_path : Bytes → J → J
  pub set_output : Bytes → Bytes → J → J
  pub erase_named_constituents : J → J
  pub set_error : Bytes → J → J
  pub dump : J → Bytes

-- An exception of a library, or a null pointer.
pub data Result (A : Type 0) : Type 0 where
  ok : A → Result A
  throws fault : Result A

infixl 1 ◌>>=◌
unfoldable pub ◌>>=◌ : {A B : Type 0} → Result A → (A → Result B) → Result B
ok a >>= f = f a
throws >>= f = throws
fault >>= f = fault

abbrev pub or_throw : {A : Type 0} → Option A → Result A
or_throw none = throws
or_throw (some a) = ok a

abbrev pub or_fault : {A : Type 0} → Option A → Result A
or_fault none = fault
or_fault (some a) = ok a

-- What rewriteAggregates changes; the newest line is first.
pub record Rewriting (S J : Type 0) : Type 0 where
  pub store : S
  pub jobs : Map Bytes J
  pub printed : List Bytes

abbrev pub first_name : Map Bytes Output → Option Bytes
first_name [] = none
first_name ((name, output) ∷ outputs) = some name

module _ {S P X J : Type 0} ⦃o : Ord P⦄ (store : Store S P X) (json : JobJson J) where
  -- The derivation of a job.
  unfoldable pub path_of : J → Result P
  path_of job = do text ← or_throw (json.drv_path job); or_throw (store.parse_store_path text)

  -- addConstituents, where `name` is the job, which is one of `jobs`.
  unfoldable pub add_constituents :
      S → Bytes → List Bytes → Map Bytes J → J → Derivation P X → Result (J × Derivation P X)
  unfolding path_of
  add_constituents s name [] jobs job drv = ok (job, drv)
  add_constituents s name (child ∷ children) jobs job drv = do
    child_job ← or_fault (if child =? name then some job else find child jobs)
    child_path ← path_of child_job
    child_drv ← or_throw (store.read_derivation s child_path)
    output ← or_fault (first_name child_drv.outputs)
    add_constituents s name children jobs
        (json.push_constituent (store.print_store_path child_path) job)
        (record drv { input_drvs = insert_or_assign child_path (output ∷ []) drv.input_drvs })

  -- The loop that resets the outputs.
  unfoldable pub reset_outputs :
      Map Bytes Output → Map Bytes Bytes → Map Bytes Output × Map Bytes Bytes
  reset_outputs [] env = ([], env)
  reset_outputs ((name, input_addressed path) ∷ outputs) env =
      let (rest, env') = reset_outputs outputs (insert_or_assign name [] env) in
      ((name, deferred) ∷ rest, env')
  reset_outputs ((name, deferred) ∷ outputs) env =
      let (rest, env') = reset_outputs outputs env in ((name, deferred) ∷ rest, env')
  reset_outputs ((name, other) ∷ outputs) env =
      let (rest, env') = reset_outputs outputs env in ((name, other) ∷ rest, env')

  -- `job["outputs"][name] = drv.env.at(name)` for each output.
  unfoldable pub set_outputs : Map Bytes Output → Map Bytes Bytes → J → Result J
  set_outputs [] env job = ok job
  set_outputs ((name, output) ∷ outputs) env job = do
    value ← or_throw (find name env)
    set_outputs outputs env (json.set_output name value job)

  -- The root of the garbage collector for a new derivation.
  unfoldable pub root_new_drv : S → P → Bytes → S
  root_new_drv s path gc_roots_dir =
      let root = gc_roots_dir ++ (ascii "/" ++ store.base_name (store.print_store_path path)) in
      if is_empty gc_roots_dir || (not store.is_local || store.path_exists s root)
      then s
      else store.add_perm_root s path root

  -- rewriteAndRegisterDrv
  unfoldable pub rewrite_and_register_drv : S → J → Derivation P X → P → Bytes → Result (S × J)
  unfolding reset_outputs set_outputs root_new_drv
  rewrite_and_register_drv s job drv drv_path gc_roots_dir = do
    let (outputs, env) = reset_outputs drv.outputs drv.env
    filled ← or_throw (store.fill_in_output_paths s (record drv { outputs = outputs; env = env }))
    let (s', new_path) = store.write_derivation s filled
    if new_path =? drv_path then ok (s', job) else (do
      job' ←
          set_outputs filled.outputs filled.env
            (json.set_drv_path (store.print_store_path new_path) job)
      ok (root_new_drv s' new_path gc_roots_dir, job'))

  -- addBrokenJobsError, over the entries in the order of the hash table.
  unfoldable pub broken_text : Map Bytes Bytes → Bytes
  broken_text [] = []
  broken_text ((name, error) ∷ broken) =
      name ++ (ascii ": " ++ (error ++ (10 ∷ broken_text broken)))

  -- The `if` on an aggregate without broken jobs.
  unfoldable pub rewrite_sound :
      S → Map Bytes J → AggregateJob → J → Derivation P X → P → Bytes → Result (S × J)
  unfolding add_constituents rewrite_and_register_drv
  rewrite_sound s jobs item job drv drv_path gc_roots_dir = do
    added ← add_constituents s item.name item.dependencies jobs job drv
    rewrite_and_register_drv s added.0 added.1 drv_path gc_roots_dir

  -- The job as it is printed.
  unfoldable pub final_json : (Map Bytes Bytes → Map Bytes Bytes) → AggregateJob → J → J
  unfolding broken_text
  final_json hash_order item job =
      let plain = json.erase_named_constituents job in
      if is_empty item.broken_jobs
      then plain
      else json.set_error (broken_text (hash_order item.broken_jobs)) plain

  abbrev pub put_job : Bytes → S → J → Rewriting S J → Rewriting S J
  put_job name s final r = record {
    store = s;
    jobs = insert_or_assign name final r.jobs;
    printed = json.dump final ∷ r.printed;
  }

  -- The body of the loop.
  unfoldable pub rewrite_aggregate :
      (Map Bytes Bytes → Map Bytes Bytes)
      → Bytes
      → AggregateJob
      → Rewriting S J
      → Result (Rewriting S J)
  unfolding rewrite_sound final_json path_of
  rewrite_aggregate hash_order gc_roots_dir item r = do
    job ← or_fault (find item.name r.jobs)
    drv_path ← path_of job
    drv ← or_throw (store.read_derivation r.store drv_path)
    done ←
        if is_empty item.broken_jobs
        then rewrite_sound r.store r.jobs item job drv drv_path gc_roots_dir
        else ok (r.store, job)
    ok (put_job item.name done.0 (final_json hash_order item done.1) r)

  -- rewriteAggregates
  unfoldable pub rewrite_aggregates :
      (Map Bytes Bytes → Map Bytes Bytes)
      → Bytes
      → List AggregateJob
      → Rewriting S J
      → Result (Rewriting S J)
  unfolding rewrite_aggregate
  rewrite_aggregates hash_order gc_roots_dir [] r = ok r
  rewrite_aggregates hash_order gc_roots_dir (item ∷ items) r = do
    r' ← rewrite_aggregate hash_order gc_roots_dir item r
    rewrite_aggregates hash_order gc_roots_dir items r'
