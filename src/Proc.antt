-- ===== src/Proc.antt =====
-- proc.hh and proc.cc: a worker process as the scheduler sees it, with the line buffer over its
-- pipe. Spawning (pipe, posix_spawn, fcntl) and the bytes that read(2) and waitpid(2) give are the
-- environment's.
use nix_eval_jobs.Prelude.{
  ℕ, suc, ◌+◌, List, [], ◌∷◌, ◌++◌, Option, none, some, Bool, true, false, Bytes, ◌==◌, length,
  take, drop, if◌then◌else◌,
}
use mathlib.Core.Option
pub mod Lines

-- `scanned` bytes of `buf` are known to hold no newline.
pub record Proc : Type 0 where
  pub pid : ℕ
  pub buf : Bytes
  pub scanned : ℕ

-- The results of read(2): n > 0 bytes, 0, EAGAIN or EWOULDBLOCK, EINTR, another error.
pub data Read : Type 0 where
  chunk : Bytes → Read
  eof : Read
  again : Read
  interrupted : Read
  failed : Read

pub data Fill : Type 0 where
  filled : Proc → Fill
  at_eof : Proc → Fill
  read_error : Fill

-- The loop of `fill`. The reads end with one that leaves the loop: after the last of the list
-- nothing is available.
unfoldable pub fill : Proc → List Read → Fill
fill p [] = filled p
fill p (chunk bytes ∷ rs) = fill (record p { buf = p.buf ++ bytes }) rs
fill p (eof ∷ rs) = at_eof p
fill p (again ∷ rs) = filled p
fill p (interrupted ∷ rs) = fill p rs
fill p (failed ∷ rs) = read_error

-- std::string::find of a character.
unfoldable pub find_byte : ℕ → Bytes → Option ℕ
find_byte b [] = none
find_byte b (c ∷ cs) = let rest = find_byte b cs in if c == b then some 0 else Option.map suc rest

abbrev pub find_from : ℕ → Bytes → ℕ → Option ℕ
find_from b s pos = Option.map (λ i. i + pos) (find_byte b (drop pos s))

abbrev pub newline : ℕ
newline = 10

unfoldable pub pop_line : Proc → Proc × Option Bytes
pop_line p = elim (find_from newline p.buf p.scanned) [
  | none ↦ (record p { scanned = length p.buf }, none)
  | some nl ↦ (record p { buf = drop (suc nl) p.buf; scanned = 0 }, some (take nl p.buf))
]

-- What waitpid(2) gives in the end: -1, a signal, an exit code.
pub data Wait : Type 0 where
  wait_failed : Wait
  signaled : ℕ → Wait
  exited : ℕ → Wait

pub data Exit : Type 0 where
  worker_killed : Exit
  wait_error : Bytes → Exit
  crashed : Bytes → ℕ → Exit
  exited_with : Bytes → ℕ → Exit

abbrev pub sigkill : ℕ
sigkill = 9

-- The exception of `throwExited(doing)`; exit code 1 differs in the wording only.
unfoldable pub throw_exited : Bytes → Wait → Exit
throw_exited doing wait_failed = wait_error doing
throw_exited doing (signaled n) = if n == sigkill then worker_killed else crashed doing n
throw_exited doing (exited n) = exited_with doing n
