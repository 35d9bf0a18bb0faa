-- ===== src/Examples/Texts.antt =====
-- Attribute paths and line buffers.
use nix_eval_jobs.Prelude.{◌≡◌, refl, arith, [], ◌∷◌, ◌++◌}
use nix_eval_jobs.Messages.{ascii}
use nix_eval_jobs.Response.{join_attr_path, AttrPath}
use nix_eval_jobs.Response.Paths.{join_attr_path-injective}
use nix_eval_jobs.Proc.{Proc, pop_line, find_byte, fill, chunk, interrupted, again, newline}
use nix_eval_jobs.Proc.Lines.{IsScanned, Pops, pop_line-Pops, Filled, fill-Filled}

abbrev dotted : AttrPath
dotted = ascii "a.b" ∷ ascii "c$" ∷ []

dotted_name : join_attr_path dotted ≡ ascii "\"a.b\".\"c\\$\""
unfolding join_attr_path
dotted_name = refl

-- The theorem turns two spellings of one joined name into an equation of paths.
join_attr_path-injective_example : dotted ≡ dotted
join_attr_path-injective_example = join_attr_path-injective dotted dotted refl

abbrev buffered : Proc
buffered = record { pid = 7; buf = ascii "ab" ++ newline ∷ ascii "c"; scanned = 2 }

buffered-IsScanned : IsScanned buffered
unfolding find_byte
buffered-IsScanned = record { within = omega arith; clear = refl }

pop_line-Pops_example :
    Pops buffered (pop_line buffered).0 (pop_line buffered).1 × IsScanned (pop_line buffered).0
pop_line-Pops_example = pop_line-Pops buffered buffered-IsScanned

fill-Filled_example :
    Filled buffered
      (ascii "xyz")
      (fill buffered (chunk (ascii "xy") ∷ interrupted ∷ chunk (ascii "z") ∷ again ∷ []))
fill-Filled_example =
    fill-Filled buffered (chunk (ascii "xy") ∷ interrupted ∷ chunk (ascii "z") ∷ again ∷ [])
      buffered-IsScanned
