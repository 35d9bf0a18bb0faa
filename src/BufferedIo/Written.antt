-- ===== src/BufferedIo/Written.antt =====
-- What tryWriteLine of buffered-io.cc puts on the pipe, and what readLine takes off it.
use nix_eval_jobs.Prelude.{
  ℕ, zero, suc, ◌+◌, ◌-◌, ◌≤◌, ◌<◌, ◌≡◌, refl, subst, ◌∙◌, ap, List, [], ◌∷◌, ◌++◌, some, Bytes,
  length, take, drop, arith, length-append, contains, false, nat_ord,
}
use mathlib.Core.List.{append_assoc}
use nix_eval_jobs.BufferedIo.{
  Write, wrote, interrupted, failed, Outcome, written, write_failed, blocked, after, write_loop,
  newline, try_write_line, strip_newline, read_line, getline,
}

-- A success has put out all of the text, anything else a proper beginning of it.
abbrev pub Puts : Bytes → Outcome → Type 0
Puts text (written out) = out ≡ text
Puts text (write_failed out errno) = (rest : Bytes) × (out ++ rest ≡ text) × (0 < length rest)
Puts text (blocked out) = (rest : Bytes) × (out ++ rest ≡ text) × (0 < length rest)

take-drop : (n : ℕ) (s : Bytes) → take n s ++ drop n s ≡ s
take-drop zero s = refl
take-drop (suc n) [] = refl
take-drop (suc n) (c ∷ cs) = ap (◌∷◌ c) (take-drop n cs)

after-Puts : (out text : Bytes) (o : Outcome) → Puts text o → Puts (out ++ text) (after out o)
after-Puts out text (written rest) h = ap (λ x. out ++ x) h
after-Puts out text (write_failed rest errno) (more, e, l) =
    (more, append_assoc out rest more ∙ ap (λ x. out ++ x) e, l)
after-Puts out text (blocked rest) (more, e, l) =
    (more, append_assoc out rest more ∙ ap (λ x. out ++ x) e, l)

write_loop-Puts : (answers : List Write) (s : Bytes) → Puts s (write_loop answers s)
unfolding write_loop
write_loop-Puts [] [] = refl
write_loop-Puts (a ∷ answers) [] = refl
write_loop-Puts [] (c ∷ cs) = (c ∷ cs, refl, omega arith)
write_loop-Puts (wrote n ∷ answers) (c ∷ cs) =
    subst (λ t. Puts t (write_loop (wrote n ∷ answers) (c ∷ cs))) (take-drop n (c ∷ cs))
      (after-Puts (take n (c ∷ cs)) (drop n (c ∷ cs)) _ (write_loop-Puts answers (drop n (c ∷ cs))))
write_loop-Puts (interrupted ∷ answers) (c ∷ cs) = write_loop-Puts answers (c ∷ cs)
write_loop-Puts (failed errno ∷ answers) (c ∷ cs) = (c ∷ cs, refl, omega arith)

-- tryWriteLine returns 0 only with the line and its newline on the pipe, and returns an error only
-- with a proper beginning of them there.
pub try_write_line-Puts :
    (answers : List Write) (str : Bytes) → Puts (str ++ newline ∷ []) (try_write_line answers str)
unfolding try_write_line
try_write_line-Puts answers str = write_loop-Puts answers (str ++ newline ∷ [])

-- How many bytes the answers take, with no error among them.
abbrev pub taken : List Write → ℕ
taken [] = 0
taken (wrote n ∷ answers) = n + taken answers
taken (interrupted ∷ answers) = taken answers
taken (failed errno ∷ answers) = 0

abbrev pub HasNoError : List Write → Type 0
HasNoError [] = Unit {0}
HasNoError (wrote n ∷ answers) = HasNoError answers
HasNoError (interrupted ∷ answers) = HasNoError answers
HasNoError (failed errno ∷ answers) = ⊥

length-drop : (n : ℕ) (s : Bytes) → length s ≤ n + length (drop n s)
length-drop zero s = omega arith
length-drop (suc n) [] = omega arith
length-drop (suc n) (c ∷ cs) = omega (arith, length-drop n cs)

length-drop_sub : (n : ℕ) (s : Bytes) → length (drop n s) ≤ length s - n
length-drop_sub zero s = omega arith
length-drop_sub (suc n) [] = omega arith
length-drop_sub (suc n) (c ∷ cs) = omega (arith, length-drop_sub n cs)

write_loop-done :
    (answers : List Write) (s : Bytes)
    → HasNoError answers
    → length s ≤ taken answers
    → write_loop answers s ≡ written s
unfolding write_loop
write_loop-done [] [] h l = refl
write_loop-done (a ∷ answers) [] h l = refl
write_loop-done [] (c ∷ cs) h l = absurd (omega arith)
write_loop-done (wrote n ∷ answers) (c ∷ cs) h l = ground (
  arith,
  write_loop-done answers (drop n (c ∷ cs)),
  length-drop n (c ∷ cs),
  length-drop_sub n (c ∷ cs),
  take-drop n (c ∷ cs),
)
write_loop-done (interrupted ∷ answers) (c ∷ cs) h l = write_loop-done answers (c ∷ cs) h l
write_loop-done (failed errno ∷ answers) (c ∷ cs) h l = absurd h

-- The loop ends as soon as the writes that succeeded took all of the line, however the kernel cuts
-- it and whatever interrupts come between.
pub try_write_line-written :
    (answers : List Write) (str : Bytes)
    → HasNoError answers
    → suc (length str) ≤ taken answers
    → try_write_line answers str ≡ written (str ++ newline ∷ [])
unfolding try_write_line
try_write_line-written answers str h l =
    write_loop-done answers (str ++ newline ∷ []) h
      (omega (arith, length-append str (newline ∷ [])))

strip-append : (s : Bytes) → strip_newline (s ++ newline ∷ []) ≡ s
unfolding strip_newline
strip-append [] = refl
strip-append (c ∷ []) = refl
strip-append (c ∷ d ∷ s) = ap (◌∷◌ c) (strip-append (d ∷ s))

getline-line :
    (str rest : Bytes)
    → contains newline str ≡ false
    → getline (str ++ newline ∷ rest) ≡ (str ++ newline ∷ [], rest)
unfolding getline
getline-line [] rest h = refl
getline-line (c ∷ str) rest h = ground (arith, getline-line str rest)

read_line-line : (str : Bytes) → read_line (str ++ newline ∷ []) ≡ some str
unfolding read_line
read_line-line [] = refl
read_line-line (c ∷ str) = ap some (strip-append (c ∷ str))

-- A line without a newline that was written is the next line that the other side reads, whatever
-- follows it in the pipe.
pub read_line-try_write_line :
    (answers : List Write) (str out rest : Bytes)
    → contains newline str ≡ false
    → try_write_line answers str ≡ written out
    → (read_line (getline (out ++ rest)).0 ≡ some str) × ((getline (out ++ rest)).1 ≡ rest)
read_line-try_write_line answers str out rest n h =
    let puts : out ≡ str ++ newline ∷ [] =
      subst (Puts (str ++ newline ∷ [])) h (try_write_line-Puts answers str) in
    let e : getline (out ++ rest) ≡ (str ++ newline ∷ [], rest) =
      ap (λ o. getline (o ++ rest)) puts
      ∙ ap getline (append_assoc str (newline ∷ []) rest)
      ∙ getline-line str rest n in
    (ap (λ r. read_line r.0) e ∙ read_line-line str, ap (λ r. r.1) e)
