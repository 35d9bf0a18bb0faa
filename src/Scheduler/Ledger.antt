-- ===== src/Scheduler/Ledger.antt =====
-- Where the jobs of the scheduler are: each transition accounts for every attribute path.
use nix_eval_jobs.Prelude.{
  ℕ, ◌+◌, ◌≤◌, ◌≡◌, refl, sym, ap, List, [], ◌∷◌, ◌++◌, Option, none, some, Bool, false, ◌&&◌,
  count_if, count, map, bit, count_if-set, count_if-append, arith, insert, count-insert_ge,
  count-insert_le, count-insert_self, subst, inl, inr, Bool-cases, =?_iff, nat_ord, list_ord, ◌=?◌,
}
use nix_eval_jobs.Response.{AttrPath}
use nix_eval_jobs.Scheduler.Phase.{Phase}
use nix_eval_jobs.Scheduler.State.{
  Wire, Worker, Scheduler, no_worker, is_running, running, finished,
}
use nix_eval_jobs.Scheduler.Spec.{
  insert_all, Resized, nil, cons, Move, spawn, send_exit, enter_solo, take_solo, take_todo, started,
  restarted, finish, exited, killed_waiting, killed_retry, killed_error, sample, tick, kill, buffer,
  Moves, here, next, ended, added,
}

abbrev is_job : AttrPath → Option AttrPath → Bool
is_job p none = false
is_job p (some q) = p =? q

-- The worker evaluates `p`, or was killed while it did.
abbrev pub holds : AttrPath → Worker → Bool
holds p w = is_running w && is_job p w.attr_path

module _ {P J : Type 0} where
  -- How often `p` waits in `todo` or `solo` or is with a running worker.
  abbrev pub pending : AttrPath → Scheduler P J → ℕ
  pending p s = count p s.todo + count p s.solo + count_if (holds p) s.workers

count-insert_all_ge :
    (p : AttrPath) (ps todo : List AttrPath) → count p todo ≤ count p (insert_all ps todo)
count-insert_all_ge p [] todo = omega arith
count-insert_all_ge p (q ∷ ps) todo =
    omega (arith, count-insert_ge q p todo, count-insert_all_ge p ps (insert q todo))

count-insert_all_le :
    (p : AttrPath) (ps todo : List AttrPath)
    → count p (insert_all ps todo) ≤ count p todo + count p ps
count-insert_all_le p [] todo = omega arith
count-insert_all_le p (q ∷ ps) todo =
    omega (arith, count-insert_le q p todo, count-insert_all_le p ps (insert q todo))

count-insert_all_grown :
    (p : AttrPath) (ps todo : List AttrPath) → 1 ≤ count p ps → 1 ≤ count p (insert_all ps todo)
count-insert_all_grown p [] todo h = absurd (omega arith)
count-insert_all_grown p (q ∷ ps) todo h = elim (Bool-cases (p =? q)) [
  | inl e ↦ omega (
    arith,
    count-insert_all_ge p ps (insert q todo),
    subst (λ x. 1 ≤ count x (insert q todo)) (sym ((=?_iff p q).0 e)) (count-insert_self q todo),
  )
  | inr n ↦ count-insert_all_grown p ps (insert q todo) (ground arith)
]

pub holds-le_running :
    (p : AttrPath) (ws : List Worker) → count_if (holds p) ws ≤ count_if is_running ws
holds-le_running p [] = omega arith
holds-le_running p (w ∷ ws) = ground (arith, holds-le_running p ws)

holds-no_worker :
    (p : AttrPath) (ws : List Worker) → count_if (holds p) (map (λ _. no_worker) ws) ≡ 0
unfolding no_worker
holds-no_worker p [] = refl
holds-no_worker p (w ∷ ws) = omega (arith, holds-no_worker p ws)

holds-Resized :
    (p : AttrPath) {ws vs : List Worker}
    → Resized ws vs
    → count_if (holds p) vs ≡ count_if (holds p) ws
holds-Resized p nil = refl
holds-Resized p (cons w rss r) = ap (λ n. bit (holds p w) + n) (holds-Resized p r)

module _ {P J : Type 0} where
  -- A transition loses no job, and makes up none but the children of a response: what waited or
  -- ran still does or is settled, and what does so now did before or was added.
  pub record Accounts (p : AttrPath) (s t : Scheduler P J) (gone new : List AttrPath) : Type 0 where
    pub kept : pending p s ≤ pending p t + count p gone
    pub bounded : pending p t + count p gone ≤ pending p s + count p new
    pub grown : 1 ≤ count p new → 1 ≤ pending p t + count p gone

module _ {P J : Type 0} {wire : Wire P J} where
  pub Move-Accounts :
      (p : AttrPath) {s t : Scheduler P J} (m : Move wire s t) → Accounts p s t (ended m) (added m)
  unfolding running finished no_worker
  Move-Accounts p (spawn s idx pid rss w at ph f alone room) = ground (
    arith,
    count_if-set (holds p) s.workers idx w
        (record w {
          proc = some (record { pid = pid; buf = []; scanned = 0 });
          phase = Phase.starting;
          rss = rss;
        })
        at,
  )
  Move-Accounts p (send_exit s idx w io at ph f) =
      ground (arith, count_if-set (holds p) s.workers idx w (record w { phase = Phase.exiting }) at)
  Move-Accounts p (enter_solo s m e r) =
      ground (arith, holds-no_worker p s.workers, holds-le_running p s.workers)
  Move-Accounts p (take_solo s idx start w io q rest at ph m r e) = ground (
    arith,
    count_if-set (holds p) s.workers idx w
        (record w { phase = Phase.busy; attr_path = some q; start_rss = start }) at,
  )
  Move-Accounts p (take_todo s own idx start w io q rest at ph m r e fits) = ground (
    arith,
    count_if-set (holds p) s.workers idx w
        (record w { phase = Phase.busy; attr_path = some q; start_rss = start }) at,
  )
  Move-Accounts p (started s idx w at ph) =
      ground (arith, count_if-set (holds p) s.workers idx w (record w { phase = Phase.idle }) at)
  Move-Accounts p (restarted s idx w at ph) =
      ground (arith, count_if-set (holds p) s.workers idx w no_worker at)
  Move-Accounts p (finish s idx rss estimate w io q children line r json at ph e read l) = ground (
    arith,
    count_if-set (holds p) s.workers idx w
        (record w { phase = Phase.starting; attr_path = none; rss = rss }) at,
    count-insert_all_ge p children s.todo,
    count-insert_all_le p children s.todo,
    count-insert_all_grown p children s.todo,
  )
  Move-Accounts p (exited s idx w at ph) =
      ground (arith, count_if-set (holds p) s.workers idx w no_worker at)
  Move-Accounts p (killed_waiting s idx w at ph) =
      ground (arith, count_if-set (holds p) s.workers idx w no_worker at)
  Move-Accounts p (killed_retry s idx w q at ph e m) =
      ground (arith, count_if-set (holds p) s.workers idx w no_worker at)
  Move-Accounts p (killed_error s idx w q io at ph e m l) =
      ground (arith, count_if-set (holds p) s.workers idx w no_worker at)
  Move-Accounts p (tick s time) = omega arith
  Move-Accounts p (sample s estimate ws r learned) = omega (arith, holds-Resized p r)
  Move-Accounts p (kill s own idx w b at ph over largest has) =
      ground (arith, count_if-set (holds p) s.workers idx w (record w { phase = Phase.killed }) at)
  Move-Accounts p (buffer s idx w b c at e k) =
      ground (arith, count_if-set (holds p) s.workers idx w (record w { proc = some c }) at)

  -- The labels of a sequence of transitions, the latest first.
  abbrev pub all_ended : {s t : Scheduler P J} → Moves wire s t → List AttrPath
  all_ended here = []
  all_ended (next r m) = ended m ++ all_ended r

  abbrev pub all_added : {s t : Scheduler P J} → Moves wire s t → List AttrPath
  all_added here = []
  all_added (next r m) = added m ++ all_added r

  pub Moves-Accounts :
      (p : AttrPath) {s t : Scheduler P J} (r : Moves wire s t)
      → Accounts p s t (all_ended r) (all_added r)
  Moves-Accounts p here = record {
    kept = omega arith;
    bounded = omega arith;
    grown = λ h. absurd (omega arith);
  }
  Moves-Accounts p (next r m) = ground (
    arith,
    Moves-Accounts p r,
    Move-Accounts p m,
    count_if-append (λ x. p =? x) (ended m) (all_ended r),
    count_if-append (λ x. p =? x) (added m) (all_added r),
  )
