-- ===== src/Examples/Rewriting.antt =====
-- Two aggregates are rewritten, one of them with a broken constituent, in a store of paths.
use nix_eval_jobs.Prelude.{
  ◌≤◌, count, arith, refl, List, [], ◌∷◌, ◌++◌, some, true, Bytes, list_ord, nat_ord,
}
use nix_eval_jobs.Messages.{ascii}
use nix_eval_jobs.Constituents.{AggregateJob, DependencyCycle}
use nix_eval_jobs.Constituents.Handle.{report_cycle}
use nix_eval_jobs.Constituents.Reported.{Reported, report_cycle-Reported}
use nix_eval_jobs.Constituents.Rewrite.{
  Store, JobJson, Derivation, input_addressed, deferred, Rewriting,
}

-- A job: its derivation, its constituents, and its error.
record Job : Type 0 where
  drv : Bytes
  children : List Bytes
  error : Bytes

abbrev json : JobJson Job
json = record {
  drv_path = λ job. some job.drv;
  push_constituent = λ path job. record job { children = job.children ++ path ∷ [] };
  set_drv_path = λ path job. record job { drv = path };
  set_output = λ name path job. job;
  erase_named_constituents = λ job. job;
  set_error = λ error job. record job { error = error };
  dump = λ job. job.drv ++ job.error;
}

abbrev plain_drv : Derivation Bytes (Unit {0})
plain_drv = record {
  outputs = (ascii "out", input_addressed (ascii "old")) ∷ [];
  env = (ascii "out", ascii "old") ∷ [];
  input_drvs = [];
  others = tt;
}

-- A store whose state is the derivations written, all of them under one path.
abbrev store : Store (List (Derivation Bytes (Unit {0}))) Bytes (Unit {0})
store = record {
  parse_store_path = λ s. some s;
  print_store_path = λ p. p;
  base_name = λ p. p;
  read_derivation = λ s p. some plain_drv;
  fill_in_output_paths = λ s d. some (record d { env = (ascii "out", ascii "new") ∷ [] });
  write_derivation = λ s d. (d ∷ s, ascii "new.drv");
  is_local = true;
  path_exists = λ s p. true;
  add_perm_root = λ s p root. s;
}

abbrev job_of : Bytes → Job
job_of drv = record { drv = drv; children = []; error = [] }

abbrev before : Rewriting (List (Derivation Bytes (Unit {0}))) Job
before = record {
  store = [];
  jobs =
      (ascii "all", job_of (ascii "all.drv"))
      ∷ (ascii "bad", job_of (ascii "bad.drv"))
      ∷ (ascii "hello", job_of (ascii "hello.drv"))
      ∷ [];
  printed = [];
}

abbrev items : List AggregateJob
items =
    record { name = ascii "all"; dependencies = ascii "hello" ∷ []; broken_jobs = [] }
    ∷ record {
      name = ascii "bad";
      dependencies = [];
      broken_jobs = (ascii "gone", ascii "does not exist") ∷ [];
    }
    ∷ []

abbrev after : Rewriting (List (Derivation Bytes (Unit {0}))) Job
after = record {
  store =
      record {
        outputs = (ascii "out", deferred) ∷ [];
        env = (ascii "out", ascii "new") ∷ [];
        input_drvs = (ascii "hello.drv", ascii "out" ∷ []) ∷ [];
        others = tt;
      }
      ∷ [];
  jobs =
      (ascii "all", record { drv = ascii "new.drv"; children = ascii "hello.drv" ∷ []; error = [] })
      ∷ (
        ascii "bad",
        record {
          drv = ascii "bad.drv";
          children = [];
          error = ascii "gone: does not exist" ++ 10 ∷ [];
        },
      )
      ∷ (ascii "hello", job_of (ascii "hello.drv"))
      ∷ [];
  printed = (ascii "bad.drvgone: does not exist" ++ 10 ∷ []) ∷ ascii "new.drv" ∷ [];
}

abbrev two : DependencyCycle
two = record { a = ascii "all"; b = ascii "bad"; remaining_aggregates = ascii "hello" ∷ [] }

listed_once : (name : Bytes) → count name two.remaining_aggregates ≤ 1
listed_once name = ground arith

report_cycle-Reported_example :
    Reported store json (job_of []) two before (report_cycle store json (job_of []) two before)
report_cycle-Reported_example =
    report_cycle-Reported store json (job_of []) two before refl listed_once refl refl
