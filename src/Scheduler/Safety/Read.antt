-- ===== src/Scheduler/Safety/Read.antt =====
-- readWorker follows the transitions and never faults; the loop that reads lines has fuel enough.
use nix_eval_jobs.Prelude.{
  ℕ, zero, suc, ◌≤◌, ◌<◌, ◌≡◌, ◌≢◌, refl, ap, ◌∙◌, List, [], ◌∷◌, Option, none, some, true,
  get_elem?, length, is_some, arith, get_elem?-set_self, get_elem?-set_ne, length-set,
  length-append, Bytes,
}
use nix_eval_jobs.Proc.{Proc, Wait, Fill, filled, at_eof, read_error, pop_line, newline}
use nix_eval_jobs.Proc.Lines.{
  IsScanned, Pops, line, rest, pop_line-Pops, fill-Filled, Filled, taken,
}
use nix_eval_jobs.Scheduler.State.{Wire, Worker, Scheduler, Result, put_worker}
use nix_eval_jobs.Scheduler.Handlers.{on_line}
use nix_eval_jobs.Scheduler.Loop.{
  Round, use_line, read_next, read_lines, eof_if_alive, read_filled, read_worker,
}
use nix_eval_jobs.Scheduler.Spec.{here, next, buffer, IsSane, Inv}
use nix_eval_jobs.Scheduler.Invariant.{All-get, Moves-Inv}
use nix_eval_jobs.Scheduler.Safety.{
  After, Ensures, Ensures-bind, Ensures-mono, Ensures-case, Ensures-worker_at, Ensures-proc_of,
  After-refl, After-trans, Move-After, unread, unread_of,
}
use nix_eval_jobs.Scheduler.Safety.Handlers.{on_eof-After, on_line-After, some_of}
use nix_eval_jobs.Scheduler.Safety.Dispatch.{Ran, Ran-trans, get_elem?-lt}

pub lt-length {ℓ} :
    {A : Type ℓ} (xs : List A) (i : ℕ) (x : A) → get_elem? xs i ≡ some x → i < length xs
lt-length [] i x h = cc
lt-length (y ∷ xs) zero x h = omega arith
lt-length (y ∷ xs) (suc i) x h = omega (arith, lt-length xs i x h)

-- What popLine leaves is no longer than before, and shorter if there was a line.
Pops-le : (p q : Proc) (o : Option Bytes) → Pops p q o → length q.buf ≤ length p.buf
Pops-le p q o (line l c e) = omega (arith, ap length e, length-append l (newline ∷ q.buf))
Pops-le p q o (rest c e) = omega (arith, ap length e)

Pops-lt :
    (p q : Proc) (o : Option Bytes) → Pops p q o → is_some o ≡ true → length q.buf < length p.buf
Pops-lt p q o (line l c e) h = omega (arith, ap length e, length-append l (newline ∷ q.buf))
Pops-lt p q o (rest c e) h = cc

module _ {P J : Type 0} where
  -- A handler that leaves the other slots alone, but may fill a buffer.
  pub record Local (wire : Wire P J) (idx : ℕ) (s t : Scheduler P J) : Type 0 where
    pub ran : Ran wire s t
    pub frame : (j : ℕ) → idx ≢ j → get_elem? t.workers j ≡ get_elem? s.workers j

module _ {P J : Type 0} {wire : Wire P J} where
  pub Local-refl : (idx : ℕ) (s : Scheduler P J) → Local wire idx s s
  Local-refl idx s = record { ran = record { path = here; slots = refl }; frame = λ j h. refl }

  After-Local : (idx : ℕ) (s t : Scheduler P J) → After wire idx s t → Local wire idx s t
  After-Local idx s t a = record {
    ran = record { path = a.moves; slots = a.size };
    frame = a.frame;
  }

  Local-trans :
      (idx : ℕ) (s t u : Scheduler P J)
      → Local wire idx s t
      → Local wire idx t u
      → Local wire idx s u
  Local-trans idx s t u a b = record {
    ran = Ran-trans s t u a.ran b.ran;
    frame = λ j h. b.frame j h ∙ a.frame j h;
  }

module _ {P J : Type 0} (wire : Wire P J) where
  unread-eq :
      (idx : ℕ) (s : Scheduler P J) (w : Worker) (p : Proc)
      → get_elem? s.workers idx ≡ some w
      → w.proc ≡ some p
      → unread idx s ≡ length p.buf
  unread-eq idx s w p at e = rw (at, unread_of) (rw (e, unread_of) refl)

  -- The buffer of a slot is replaced.
  buffer-After :
      (idx : ℕ) (s : Scheduler P J) (w : Worker) (p q : Proc)
      → get_elem? s.workers idx ≡ some w
      → w.proc ≡ some p
      → IsScanned q
      → length q.buf ≤ length p.buf
      → After wire idx s (put_worker idx (record w { proc = some q }) s)
  buffer-After idx s w p q at e c h =
      Move-After idx s _ w (record w { proc = some q }) (buffer s idx w p q at e c) at refl (rw e h)
        (rw e (omega arith)) (λ m. m)

  -- A round of the loop leaves fewer bytes, if it comes to another one.
  Again : ℕ → ℕ → (Scheduler P J → Result P J (Scheduler P J)) → Type 0
  Again idx fuel again =
      (t : Scheduler P J)
      → idx < length t.workers
      → unread idx t < fuel
      → Inv t
      → Ensures (After wire idx t) (again t)

  use_line-After :
      (rss fuel idx : ℕ) (again : Scheduler P J → Result P J (Scheduler P J))
      → Again idx fuel again
      → (s : Scheduler P J) (w : Worker) (l : Option Bytes) → get_elem? s.workers idx ≡ some w
      → Inv s
      → ((x : Bytes) → l ≡ some x → unread idx s < fuel)
      → Ensures (After wire idx s) (use_line wire rss again idx l s)
  unfolding use_line Again
  use_line-After rss fuel idx again k s w none at v h = After-refl idx s
  use_line-After rss fuel idx again k s w (some l) at v h =
      Ensures-bind (After wire idx s) (After wire idx s) (on_line wire rss idx l s) again
        (on_line-After wire idx s w at v rss l)
        λ t a.
          Ensures-mono (After wire idx t) (After wire idx s) (again t)
            (λ u b. After-trans idx s t u a b)
            (k t (omega (arith, a.size, lt-length s.workers idx w at))
              (omega (arith, a.shrinks, h l refl)) (Moves-Inv a.moves v))

  read_next-After :
      (rss fuel idx : ℕ) (again : Scheduler P J → Result P J (Scheduler P J))
      → Again idx fuel again
      → (s : Scheduler P J) (w : Worker) (o : Option Proc) → w.proc ≡ o
      → get_elem? s.workers idx ≡ some w
      → unread idx s < suc fuel
      → Inv s
      → Ensures (After wire idx s) (read_next wire rss again idx w o s)
  unfolding read_next
  read_next-After rss fuel idx again k s w none e at h v = After-refl idx s
  read_next-After rss fuel idx again k s w (some p) e at h v =
      let sane = All-get IsSane s.workers idx w v.sane at in
      let (pops, scanned) = pop_line-Pops p (rw e at sane.scanned) in
      let q = (pop_line p).0 in
      let w' = record w { proc = some q } in
      let s' = put_worker idx w' s in
      let step = buffer-After idx s w p q at e scanned (Pops-le p q (pop_line p).1 pops) in
      Ensures-mono (After wire idx s') (After wire idx s) _ (λ u b. After-trans idx s s' u step b)
        (use_line-After rss fuel idx again k s' w' (pop_line p).1
          (get_elem?-set_self s.workers idx w w' at) (Moves-Inv step.moves v)
          (λ x found. omega (
            arith,
            Pops-lt p q (pop_line p).1 pops (rw found refl),
            unread-eq idx s w p at e,
            unread-eq idx s' w' q (get_elem?-set_self s.workers idx w w' at) refl,
          )))

  -- The length of the buffer is fuel enough for the loop of readWorker.
  read_lines-After :
      (rss fuel idx : ℕ) (s : Scheduler P J)
      → idx < length s.workers
      → unread idx s < fuel
      → Inv s
      → Ensures (After wire idx s) (read_lines wire rss fuel idx s)
  unfolding read_lines Again
  read_lines-After rss zero idx s i h v = elim h [ ]
  read_lines-After rss (suc fuel) idx s i h v =
      let (w, at) = get_elem?-lt s.workers idx i in
      Ensures-worker_at (After wire idx s) idx s w _ at (
        read_next-After rss fuel idx (read_lines wire rss fuel idx) (read_lines-After rss fuel idx)
          s w w.proc refl at h v)

  eof_if_alive-After :
      (wait : Wait) (idx : ℕ) (s : Scheduler P J)
      → idx < length s.workers
      → Inv s
      → Ensures (After wire idx s) (eof_if_alive wire wait idx s)
  unfolding eof_if_alive
  eof_if_alive-After wait idx s i v =
      let (w, at) = get_elem?-lt s.workers idx i in
      Ensures-worker_at (After wire idx s) idx s w _ at (
        Ensures-case (After wire idx s) (is_some w.proc) _ _
          (λ has. let (p, e) = some_of w.proc has in on_eof-After wire idx s w at v wait p e)
          (λ _. After-refl idx s))

  module _ (r : Round) (idx : ℕ) (s : Scheduler P J) (w : Worker) (p : Proc)
      (at : get_elem? s.workers idx ≡ some w) (e : w.proc ≡ some p) (v : Inv s) where
    -- The buffer that `fill` leaves, put back.
    filled-Local :
        (q : Proc) → IsScanned q → Local wire idx s (put_worker idx (record w { proc = some q }) s)
    filled-Local q c = record {
      ran = record {
        path = next here (buffer s idx w p q at e c);
        slots = length-set s.workers idx (record w { proc = some q });
      };
      frame = λ j h. get_elem?-set_ne s.workers idx j (record w { proc = some q }) h;
    }

    lines-Local :
        (rss : ℕ) (q : Proc)
        → IsScanned q
        → Ensures (Local wire idx s) (
            read_lines wire rss
              (suc (length q.buf))
              idx
              (put_worker idx (record w { proc = some q }) s))
    lines-Local rss q c =
        let w' = record w { proc = some q } in
        let s' = put_worker idx w' s in
        let first = filled-Local q c in
        Ensures-mono (After wire idx s') (Local wire idx s) _
          (λ t a. Local-trans idx s s' t first (After-Local idx s' t a))
          (read_lines-After rss (suc (length q.buf)) idx s'
            (omega (arith, first.ran.slots, lt-length s.workers idx w at))
            (omega (arith, unread-eq idx s' w' q (get_elem?-set_self s.workers idx w w' at) refl))
            (Moves-Inv first.ran.path v))

    read_filled-Local :
        (rss : ℕ) (wait : Wait) (bytes : Bytes) (f : Fill)
        → Filled p bytes f
        → Ensures (Local wire idx s) (read_filled wire rss wait idx w f s)
    unfolding read_filled
    read_filled-Local rss wait bytes (filled q) h = lines-Local rss q h.2
    read_filled-Local rss wait bytes (at_eof q) h =
        Ensures-bind (Local wire idx s) (Local wire idx s) _ _ (lines-Local rss q h.2) λ t a.
          Ensures-mono (After wire idx t) (Local wire idx s) _
            (λ u b. Local-trans idx s t u a (After-Local idx t u b))
            (eof_if_alive-After wait idx t
              (omega (arith, a.ran.slots, lt-length s.workers idx w at)) (Moves-Inv a.ran.path v))
    read_filled-Local rss wait bytes read_error h = tt

    pub read_worker-Local : Ensures (Local wire idx s) (read_worker wire r idx s)
    unfolding read_worker
    read_worker-Local =
        let sane = All-get IsSane s.workers idx w v.sane at in
        Ensures-worker_at (Local wire idx s) idx s w _ at (
          Ensures-proc_of (Local wire idx s) w s p _ e (
            read_filled-Local (r.line_rss idx) (r.read_wait idx) (taken (r.reads idx)) _
              (fill-Filled p (r.reads idx) (rw e at sane.scanned))))
