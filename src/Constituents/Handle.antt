-- ===== src/Constituents/Handle.antt =====
-- handleConstituents of nix-eval-jobs.cc: the aggregates after the last job, rewritten, or reported
-- as a cycle.
use nix_eval_jobs.Prelude.{
  List, [], ◌∷◌, ◌++◌, none, some, Bool, Bytes, Map, Ord, insert_or_assign, find, list_ord, nat_ord,
}
use nix_eval_jobs.Messages.{ascii}
use nix_eval_jobs.Constituents.{DependencyCycle, Outcome, done, cycle, out_of_fuel}
use nix_eval_jobs.Constituents.Resolve.{Json, resolve_named_constituents}
use nix_eval_jobs.Constituents.Rewrite.{
  Store, JobJson, Result, ok, throws, Rewriting, rewrite_aggregates,
}

-- DependencyCycle::message
unfoldable pub message : DependencyCycle → Bytes
message c = ascii "Dependency cycle: " ++ (c.a ++ (ascii " <-> " ++ c.b))

abbrev pub skipped : Bytes
skipped = ascii "Skipping aggregate because of a dependency cycle"

module _ {S P X J : Type 0} ⦃o : Ord P⦄ (store : Store S P X) (json : JobJson J) (null : J) where
  -- `jobs[name]`
  abbrev pub job_at : Bytes → Map Bytes J → J
  job_at name jobs = elim (find name jobs) [ none ↦ null | some job ↦ job ]

  -- `jobs[name]["error"] = error`
  unfoldable pub mark_job : Bytes → Bytes → Rewriting S J → Rewriting S J
  mark_job name error r = record r {
    jobs = insert_or_assign name (json.set_error error (job_at name r.jobs)) r.jobs;
  }

  unfoldable pub print_job : Bytes → Rewriting S J → Rewriting S J
  print_job name r = record r { printed = json.dump (job_at name r.jobs) ∷ r.printed }

  -- The loop over the remaining aggregates.
  unfoldable pub skip_all : List Bytes → Rewriting S J → Rewriting S J
  unfolding mark_job print_job
  skip_all [] r = r
  skip_all (name ∷ names) r = skip_all names (print_job name (mark_job name skipped r))

  -- The branch of a cycle.
  unfoldable pub report_cycle : DependencyCycle → Rewriting S J → Rewriting S J
  unfolding skip_all message
  report_cycle c r =
      skip_all c.remaining_aggregates
        (print_job c.b (print_job c.a (mark_job c.b (message c) (mark_job c.a (message c) r))))

  -- handleConstituents
  unfoldable pub handle_constituents :
      Json J
      → (Bytes → Bytes → Bool)
      → (Map Bytes Bytes → Map Bytes Bytes)
      → Bytes
      → Rewriting S J
      → Result (Rewriting S J)
  unfolding report_cycle
  handle_constituents fields fnmatch hash_order gc_roots_dir r =
      elim (resolve_named_constituents fields fnmatch r.jobs) [
        | none ↦ throws
        | some (done items) ↦ rewrite_aggregates store json hash_order gc_roots_dir items r
        | some (cycle c) ↦ ok (report_cycle c r)
        | some Outcome.fault ↦ Result.fault
        | some out_of_fuel ↦ Result.fault
      ]
