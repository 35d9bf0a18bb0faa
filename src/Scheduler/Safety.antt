-- ===== src/Scheduler/Safety.antt =====
-- What every handler of the scheduler promises: it follows the transitions of `Spec`, or throws an
-- exception of the source, never the faults that stand for undefined behaviour.
use nix_eval_jobs.Prelude.{
  ℕ, zero, suc, ◌+◌, ◌≤◌, ◌<◌, ◌≡◌, ◌≢◌, refl, sym, ap, ◌∙◌, List, Option, none, some, Bool, true,
  false, if◌then◌else◌, get_elem?, set, length, length-set, get_elem?-set_ne, get_elem?-set_self,
  arith, bit, count_if-set,
}
use nix_eval_jobs.Proc.{Proc}
use nix_eval_jobs.Scheduler.State.{
  Wire, Worker, Io, Scheduler, Error, Result, ok, err, ◌>>=◌, is_solo, put_worker, worker_at,
  proc_of,
}
use nix_eval_jobs.Scheduler.Spec.{is_alive, alive, Move, Moves, here, next, Inv}
use nix_eval_jobs.Scheduler.Invariant.{Move-Inv, Moves-Inv}
pub mod Handlers
pub mod Offer
pub mod Dispatch
pub mod Read
pub mod Poll

abbrev pub IsThrown : Error → Type 0
IsThrown Error.fault = ⊥
IsThrown Error.out_of_fuel = ⊥
IsThrown _ = Unit {0}

-- The bytes of slot `idx` that no line was taken from yet.
abbrev pub unread_of : Option Worker → ℕ
unread_of none = 0
unread_of (some w) = elim w.proc [ none ↦ 0 | some p ↦ length p.buf ]

module _ {P J : Type 0} where
  abbrev pub unread : ℕ → Scheduler P J → ℕ
  unread idx s = unread_of (get_elem? s.workers idx)

  abbrev pub Ensures : {A : Type 0} → (A → Type 0) → Result P J A → Type 0
  Ensures Q (ok a) = Q a
  Ensures Q (err e io) = IsThrown e

  pub Ensures-bind :
      {A B : Type 0} (Q : A → Type 0) (R : B → Type 0) (m : Result P J A) (f : A → Result P J B)
      → Ensures Q m
      → ((a : A) → Q a → Ensures R (f a))
      → Ensures R (m >>= f)
  Ensures-bind Q R (ok a) f q k = k a q
  Ensures-bind Q R (err e io) f q k = q

  pub Ensures-mono :
      {A : Type 0} (Q R : A → Type 0) (m : Result P J A)
      → ((a : A) → Q a → R a)
      → Ensures Q m
      → Ensures R m
  Ensures-mono Q R (ok a) k q = k a q
  Ensures-mono Q R (err e io) k q = q

  pub Ensures-if :
      {A : Type 0} (Q : A → Type 0) (b : Bool) (m n : Result P J A)
      → Ensures Q m
      → Ensures Q n
      → Ensures Q (if b then m else n)
  Ensures-if Q true m n p q = p
  Ensures-if Q false m n p q = q

  pub Ensures-case :
      {A : Type 0} (Q : A → Type 0) (b : Bool) (m n : Result P J A)
      → (b ≡ true → Ensures Q m)
      → (b ≡ false → Ensures Q n)
      → Ensures Q (if b then m else n)
  Ensures-case Q true m n p q = p refl
  Ensures-case Q false m n p q = q refl

  pub Ensures-elim :
      {A : Type 0} (Q : A → Type 0) (b : Bool) (m n : Result P J A)
      → Ensures Q m
      → Ensures Q n
      → Ensures Q (elim b [ true ↦ m | false ↦ n ])
  Ensures-elim Q true m n p q = p
  Ensures-elim Q false m n p q = q

  -- Access to a slot that is there, and to a process that is there.
  pub Ensures-worker_at :
      {A : Type 0} (Q : A → Type 0) (idx : ℕ) (s : Scheduler P J) (w : Worker)
      (f : Worker → Result P J A)
      → get_elem? s.workers idx ≡ some w
      → Ensures Q (f w)
      → Ensures Q (worker_at idx s >>= f)
  Ensures-worker_at Q idx s w f at q = rw (at, Ensures) q

  pub Ensures-proc_of :
      {A : Type 0} (Q : A → Type 0) (w : Worker) (s : Scheduler P J) (p : Proc)
      (f : Proc → Result P J A)
      → w.proc ≡ some p
      → Ensures Q (f p)
      → Ensures Q (proc_of w s >>= f)
  Ensures-proc_of Q w s p f e q = rw e q

  -- A handler of slot `idx` follows the transitions, leaves the other slots alone, and neither
  -- enters Solo mode nor starts a process.
  pub record After (wire : Wire P J) (idx : ℕ) (s t : Scheduler P J) : Type 0 where
    pub moves : Moves wire s t
    pub size : length t.workers ≡ length s.workers
    pub frame : (j : ℕ) → idx ≢ j → get_elem? t.workers j ≡ get_elem? s.workers j
    pub shrinks : unread idx t ≤ unread idx s
    pub calm : is_solo t.mode ≡ true → (is_solo s.mode ≡ true) × (alive t.workers ≤ alive s.workers)

module _ {P J : Type 0} {wire : Wire P J} where
  pub trans : {s t u : Scheduler P J} → Moves wire s t → Moves wire t u → Moves wire s u
  trans r here = r
  trans r (next q m) = next (trans r q) m

  pub After-refl : (idx : ℕ) (s : Scheduler P J) → After wire idx s s
  After-refl idx s = record {
    moves = here;
    size = refl;
    frame = λ j h. refl;
    shrinks = omega arith;
    calm = λ h. (h, omega arith);
  }

  pub After-trans :
      (idx : ℕ) (s t u : Scheduler P J)
      → After wire idx s t
      → After wire idx t u
      → After wire idx s u
  After-trans idx s t u a b = record {
    moves = trans a.moves b.moves;
    size = b.size ∙ a.size;
    frame = λ j h. b.frame j h ∙ a.frame j h;
    shrinks = omega (arith, a.shrinks, b.shrinks);
    calm =
        λ h. let (bs, bn) = b.calm h in let (as', an) = a.calm bs in (as', omega (arith, an, bn));
  }

  -- A transition that replaces the worker of slot `idx`.
  pub Move-After :
      (idx : ℕ) (s t : Scheduler P J) (w v : Worker)
      → Move wire s t
      → get_elem? s.workers idx ≡ some w
      → t.workers ≡ set s.workers idx v
      → unread_of (some v) ≤ unread_of (some w)
      → bit (is_alive v) ≤ bit (is_alive w)
      → (is_solo t.mode ≡ true → is_solo s.mode ≡ true)
      → After wire idx s t
  Move-After idx s t w v m at e h lives solo = record {
    moves = next here m;
    size = ap length e ∙ length-set s.workers idx v;
    frame = λ j ne. ap (λ ws. get_elem? ws j) e ∙ get_elem?-set_ne s.workers idx j v ne;
    shrinks = rw (e, get_elem?-set_self s.workers idx w v at, at) h;
    calm = λ x. (solo x, rw e (omega (arith, count_if-set is_alive s.workers idx w v at, lives)));
  }
