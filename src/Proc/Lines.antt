-- ===== src/Proc/Lines.antt =====
-- Proc::popLine of proc.cc against a plain split of the buffer at its newlines.
use nix_eval_jobs.Prelude.{
  ℕ, zero, suc, ◌≤◌, ◌≡◌, refl, ap, List, [], ◌∷◌, ◌++◌, Option, none, some, inl, inr, Bytes,
  length, take, drop, arith, Option-cases, length-append, sym, ◌∙◌,
}
use mathlib.Core.List.{append-nil, append_assoc}
use nix_eval_jobs.Proc.{
  Proc, Read, chunk, eof, again, interrupted, failed, Fill, filled, at_eof, read_error, fill,
  find_byte, find_from, newline, pop_line,
}

find_byte-drop :
    (b n : ℕ) (s : Bytes) → find_byte b (take n s) ≡ none → find_from b s n ≡ find_byte b s
unfolding find_byte
find_byte-drop b zero s h = elim (Option-cases (find_byte b s)) [
  | inl e ↦ rw e
  | inr (i, e) ↦ rw e (ground arith)
]
find_byte-drop b (suc n) [] h = refl
find_byte-drop b (suc n) (c ∷ cs) h =
    ground (arith, find_byte-drop b n cs, Option-cases (find_byte b (drop n cs)))

-- A byte that is found splits the text at its first occurrence.
find_byte-splits :
    (b n : ℕ) (s : Bytes)
    → find_byte b s ≡ some n
    → (s ≡ take n s ++ b ∷ drop (suc n) s) × (find_byte b (take n s) ≡ none)
unfolding find_byte
find_byte-splits b n [] h = cc
find_byte-splits b zero (c ∷ cs) h = ground (arith, Option-cases (find_byte b cs))
find_byte-splits b (suc n) (c ∷ cs) h =
    ground (arith, find_byte-splits b n cs, Option-cases (find_byte b cs))

find_byte-append : (b n : ℕ) (s t : Bytes) → n ≤ length s → take n (s ++ t) ≡ take n s
find_byte-append b zero s t h = refl
find_byte-append b (suc n) [] t h = absurd (omega arith)
find_byte-append b (suc n) (c ∷ cs) t h = ap (◌∷◌ c) (find_byte-append b n cs t (omega arith))

take-length : (s : Bytes) → take (length s) s ≡ s
take-length [] = refl
take-length (c ∷ cs) = ap (◌∷◌ c) (take-length cs)

-- No newline stands before `scanned`.
pub record IsScanned (p : Proc) : Type 0 where
  pub within : p.scanned ≤ length p.buf
  pub clear : find_byte newline (take p.scanned p.buf) ≡ none

-- What a call of popLine does: it takes the first line off the buffer, or there is no complete
-- line and the buffer stays.
pub data Pops (p q : Proc) : Option Bytes → Type 0 where
  line : (l : Bytes) → find_byte newline l ≡ none → p.buf ≡ l ++ newline ∷ q.buf → Pops p q (some l)
  rest : find_byte newline p.buf ≡ none → q.buf ≡ p.buf → Pops p q none

pop_line-found :
    (p : Proc)
    → IsScanned p
    → (n : ℕ) → find_byte newline p.buf ≡ some n
    → Pops p (pop_line p).0 (pop_line p).1 × IsScanned (pop_line p).0
unfolding pop_line find_byte
pop_line-found p v n e =
    let (split, clear) = find_byte-splits newline n p.buf e in
    rw (find_byte-drop newline p.scanned p.buf v.clear ∙ e, pop_line)
      (line (take n p.buf) clear split, record { within = omega arith; clear = refl })

pop_line-missing :
    (p : Proc)
    → IsScanned p
    → find_byte newline p.buf ≡ none
    → Pops p (pop_line p).0 (pop_line p).1 × IsScanned (pop_line p).0
unfolding pop_line
pop_line-missing p v e =
    rw (find_byte-drop newline p.scanned p.buf v.clear ∙ e, pop_line)
      (rest e refl, record { within = omega arith; clear = rw (take-length p.buf) e })

-- On a buffer with no newline in its scanned part, popLine returns the first line and leaves what
-- follows its newline, or returns nothing, leaves the buffer and there is no newline; and the
-- scanned part of what it leaves has no newline again.
pub pop_line-Pops :
    (p : Proc) → IsScanned p → Pops p (pop_line p).0 (pop_line p).1 × IsScanned (pop_line p).0
pop_line-Pops p v = elim (Option-cases (find_byte newline p.buf)) [
  | inl e ↦ pop_line-missing p v e
  | inr (n, e) ↦ pop_line-found p v n e
]

append-IsScanned :
    (p : Proc) (bytes : Bytes) → IsScanned p → IsScanned (record p { buf = p.buf ++ bytes })
append-IsScanned p bytes v = record {
  within = omega (arith, length-append p.buf bytes, v.within);
  clear = rw (find_byte-append newline p.scanned p.buf bytes v.within) v.clear;
}

-- The bytes that `fill` takes from the pipe.
abbrev pub taken : List Read → Bytes
taken [] = []
taken (chunk bytes ∷ rs) = bytes ++ taken rs
taken (interrupted ∷ rs) = taken rs
taken (eof ∷ rs) = []
taken (again ∷ rs) = []
taken (failed ∷ rs) = []

abbrev pub Filled : Proc → Bytes → Fill → Type 0
Filled p bytes (filled q) = (q.pid ≡ p.pid) × (q.buf ≡ p.buf ++ bytes) × IsScanned q
Filled p bytes (at_eof q) = (q.pid ≡ p.pid) × (q.buf ≡ p.buf ++ bytes) × IsScanned q
Filled p bytes read_error = Unit {0}

Filled-append :
    (p : Proc) (b bytes : Bytes) (r : Fill)
    → Filled (record p { buf = p.buf ++ b }) bytes r
    → Filled p (b ++ bytes) r
Filled-append p b bytes (filled q) (e, h, v) = (e, h ∙ append_assoc p.buf b bytes, v)
Filled-append p b bytes (at_eof q) (e, h, v) = (e, h ∙ append_assoc p.buf b bytes, v)
Filled-append p b bytes read_error h = h

-- Unless a read fails, `fill` appends to the buffer the bytes that the reads up to the first one
-- that finds no more gave, in their order, and the scanned part keeps having no newline.
pub fill-Filled : (p : Proc) (rs : List Read) → IsScanned p → Filled p (taken rs) (fill p rs)
unfolding fill
fill-Filled p [] v = (refl, sym (append-nil p.buf), v)
fill-Filled p (chunk bytes ∷ rs) v =
    Filled-append p bytes (taken rs) _
      (fill-Filled (record p { buf = p.buf ++ bytes }) rs (append-IsScanned p bytes v))
fill-Filled p (eof ∷ rs) v = (refl, sym (append-nil p.buf), v)
fill-Filled p (again ∷ rs) v = (refl, sym (append-nil p.buf), v)
fill-Filled p (interrupted ∷ rs) v = fill-Filled p rs v
fill-Filled p (failed ∷ rs) v = tt
