-- ===== src/BufferedIo.antt =====
-- buffered-io.cc: writing a line with write(2), and taking a line that getline(3) read. What
-- write(2) answers is a list; interrupts by the user are left out.
use nix_eval_jobs.Prelude.{
  ℕ, zero, suc, List, [], ◌∷◌, ◌++◌, Option, none, some, Bytes, length, take, drop, min,
  if◌then◌else◌, ◌==◌,
}
pub mod Written

pub data Write : Type 0 where
  wrote : ℕ → Write
  interrupted : Write
  failed : ℕ → Write

-- How far a write came, with the bytes that went out: the function returned 0, or -errno, or it is
-- still in write(2) after the answers given.
pub data Outcome : Type 0 where
  written : Bytes → Outcome
  write_failed : Bytes → ℕ → Outcome
  blocked : Bytes → Outcome

abbrev pub after : Bytes → Outcome → Outcome
after out (written rest) = written (out ++ rest)
after out (write_failed rest errno) = write_failed (out ++ rest) errno
after out (blocked rest) = blocked (out ++ rest)

-- The loop; write(2) takes no more bytes than it was given.
unfoldable pub write_loop : List Write → Bytes → Outcome
write_loop answers [] = written []
write_loop [] (c ∷ cs) = blocked []
write_loop (wrote n ∷ answers) (c ∷ cs) =
    after (take n (c ∷ cs)) (write_loop answers (drop n (c ∷ cs)))
write_loop (interrupted ∷ answers) (c ∷ cs) = write_loop answers (c ∷ cs)
write_loop (failed errno ∷ answers) (c ∷ cs) = write_failed [] errno

abbrev pub newline : ℕ
newline = 10

-- tryWriteLine
unfoldable pub try_write_line : List Write → Bytes → Outcome
unfolding write_loop
try_write_line answers str = write_loop answers (str ++ newline ∷ [])

-- getline(3): up to the first newline, with it, and what stays in the pipe.
unfoldable pub getline : Bytes → Bytes × Bytes
getline [] = ([], [])
getline (c ∷ cs) =
    let (line, rest) = getline cs in if c == newline then (c ∷ [], cs) else (c ∷ line, rest)

-- A newline at the end goes.
unfoldable pub strip_newline : Bytes → Bytes
strip_newline [] = []
strip_newline (c ∷ []) = if c == newline then [] else c ∷ []
strip_newline (c ∷ d ∷ cs) = c ∷ strip_newline (d ∷ cs)

-- LineReader::readLine, over the bytes that getline(3) read: none of them at the end of the file or an error.
unfoldable pub read_line : Bytes → Option Bytes
unfolding strip_newline
read_line [] = none
read_line (c ∷ cs) = some (strip_newline (c ∷ cs))
