-- ===== src/Messages.antt =====
-- worker.hh: the messages between a worker and the collector, and text as bytes.
use Prim.Native.Char.{code}
use Prim.Native.String.{String}
use nix_eval_jobs.Prelude.{[], ◌∷◌, Bytes, Bool, true, false, ◌&&◌, ◌==◌}

-- The bytes of an ASCII text.
abbrev pub ascii : String → Bytes
ascii String.[] = []
ascii (String.◌∷◌ c s) = code c ∷ ascii s

abbrev pub msg_next : Bytes
msg_next = ascii "next"

abbrev pub msg_restart : Bytes
msg_restart = ascii "restart"

abbrev pub msg_exit : Bytes
msg_exit = ascii "exit"

abbrev pub msg_do : Bytes
msg_do = ascii "do "

abbrev pub starts_with : Bytes → Bytes → Bool
starts_with [] line = true
starts_with (p ∷ ps) [] = false
starts_with (p ∷ ps) (c ∷ cs) = p == c && starts_with ps cs
