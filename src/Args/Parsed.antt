-- ===== src/Args/Parsed.antt =====
-- What the options of eval-args.cc accept.
use nix_eval_jobs.Prelude.{
  ℕ, ◌+◌, ◌-◌, ◌*◌, ◌≤◌, ◌<◌, ◌≡◌, ◌≢◌, ◌↔◌, refl, List, [], ◌∷◌, none, some, true, false, Bytes,
  is_empty, size_mod, arith, Option-cases, subst, sym, ◌∙◌, inl, inr,
}
use mathlib.Core.Option.{some-injective}
use nix_eval_jobs.Response.{all_of}
use nix_eval_jobs.Args.{
  MyArgs, default_args, is_digit, scan_digits, from_chars, parse_positive, Flag, handle, handle_all,
  join_flags, validate_incompatible_flags,
}

-- The number that digits spell, with no bound.
abbrev pub value : ℕ → Bytes → ℕ
value n [] = n
value n (c ∷ cs) = value (n * 10 + (c - b'0')) cs

scan_digits-all : (n : ℕ) (s : Bytes) → all_of is_digit s ≡ true → scan_digits n s ≡ (value n s, [])
unfolding scan_digits
scan_digits-all n [] h = refl
scan_digits-all n (c ∷ cs) h = ground (arith, scan_digits-all (n * 10 + (c - b'0')) cs)

scan_digits-rest :
    (n : ℕ) (s : Bytes) → is_empty (scan_digits n s).1 ≡ true → all_of is_digit s ≡ true
unfolding scan_digits
scan_digits-rest n [] h = refl
scan_digits-rest n (c ∷ cs) h = ground (arith, scan_digits-rest (n * 10 + (c - b'0')) cs)

-- An accepted text is made of digits and spells the number.
parse_positive-digits :
    (str : Bytes) (n : ℕ)
    → parse_positive str ≡ some n
    → (str ≢ []) × (all_of is_digit str ≡ true) × (value 0 str ≡ n) × (1 ≤ n) × (n < size_mod)
unfolding parse_positive from_chars
parse_positive-digits [] n h = cc
parse_positive-digits (c ∷ cs) n h =
    ground (arith, scan_digits-all 0 (c ∷ cs), scan_digits-rest 0 (c ∷ cs))

-- Digits that spell a positive number that fits are accepted.
digits-parse_positive :
    (str : Bytes) (n : ℕ)
    → str ≢ []
    → all_of is_digit str ≡ true
    → value 0 str ≡ n
    → 1 ≤ n
    → n < size_mod
    → parse_positive str ≡ some n
unfolding parse_positive from_chars
digits-parse_positive [] n full digits v pos fits = absurd (full refl)
digits-parse_positive (c ∷ cs) n full digits v pos fits = ground (arith, scan_digits-all 0 (c ∷ cs))

-- A count is accepted exactly if its text is one or more digits that spell a positive number that
-- a size_t holds, and it is that number.
pub parse_positive_iff :
    (str : Bytes) (n : ℕ)
    → (parse_positive str ≡ some n)
      ↔ ((str ≢ []) × (all_of is_digit str ≡ true) × (value 0 str ≡ n) × (1 ≤ n) × (n < size_mod))
parse_positive_iff str n = (
  parse_positive-digits str n,
  λ (full, digits, v, pos, fits). digits-parse_positive str n full digits v pos fits,
)

-- The command line never leaves a count of zero or one that a size_t does not hold.
pub record InRange (a : MyArgs) : Type 0 where
  pub workers_pos : 1 ≤ a.nr_workers
  pub workers_fit : a.nr_workers < size_mod
  pub memory_pos : 1 ≤ a.max_memory_size
  pub memory_fit : a.max_memory_size < size_mod

handle-InRange : (flag : Flag) (a b : MyArgs) → InRange a → handle flag a ≡ some b → InRange b
unfolding handle
handle-InRange (Flag.workers str) a b v h = elim (Option-cases (parse_positive str)) [
  | inl eq ↦ absurd (let x : handle (Flag.workers str) a ≡ none = simp (eq, handle) refl in cc)
  | inr (n, eq) ↦
      let (full, digits, spelled, pos, fits) = parse_positive-digits str n eq in
      let now : handle (Flag.workers str) a ≡ some (record a { nr_workers = n }) =
        simp (eq, handle) refl in
      subst InRange (some-injective _ _ (sym now ∙ h)) (record {
        workers_pos = pos;
        workers_fit = fits;
        memory_pos = v.memory_pos;
        memory_fit = v.memory_fit;
      })
]
handle-InRange (Flag.max_memory_size str) a b v h = elim (Option-cases (parse_positive str)) [
  | inl eq ↦
      absurd (let x : handle (Flag.max_memory_size str) a ≡ none = simp (eq, handle) refl in cc)
  | inr (n, eq) ↦
      let (full, digits, spelled, pos, fits) = parse_positive-digits str n eq in
      let now : handle (Flag.max_memory_size str) a ≡ some (record a { max_memory_size = n }) =
        simp (eq, handle) refl in
      subst InRange (some-injective _ _ (sym now ∙ h)) (record {
        workers_pos = v.workers_pos;
        workers_fit = v.workers_fit;
        memory_pos = pos;
        memory_fit = fits;
      })
]
handle-InRange flag a b v h = subst InRange (some-injective _ _ h) (record {
  workers_pos = v.workers_pos;
  workers_fit = v.workers_fit;
  memory_pos = v.memory_pos;
  memory_fit = v.memory_fit;
})

handle_all-keeps :
    (flags : List Flag) (a b : MyArgs) → InRange a → handle_all flags a ≡ some b → InRange b
unfolding handle_all
handle_all-keeps [] a b v h = subst InRange (some-injective _ _ h) v
handle_all-keeps (flag ∷ flags) a b v h = elim (Option-cases (handle flag a)) [
  | inl eq ↦ absurd (let x : handle_all (flag ∷ flags) a ≡ none = simp (eq, handle_all) refl in cc)
  | inr (a', eq) ↦ handle_all-keeps flags a' b (handle-InRange flag a a' v eq) (
      let now : handle_all (flag ∷ flags) a ≡ handle_all flags a' = simp (eq, handle_all) refl in
      sym now ∙ h)
]

-- Whatever flags the command line has, if their handlers accept them then the number of workers
-- and the memory per worker are positive and fit a size_t.
pub handle_all-InRange :
    (flags : List Flag) (b : MyArgs) → handle_all flags default_args ≡ some b → InRange b
handle_all-InRange flags b h =
    handle_all-keeps flags default_args b
      (record {
        workers_pos = omega arith;
        workers_fit = omega arith;
        memory_pos = omega arith;
        memory_fit = omega arith;
      })
      h

-- Without --no-instantiate any options pass; with it, they pass exactly if none of
-- --show-input-drvs, --check-cache-status and --constituents is set.
pub validate_incompatible_flags_iff :
    (a : MyArgs)
    → (validate_incompatible_flags a ≡ none) ↔ (
        (a.no_instantiate ≡ true)
        → (a.show_input_drvs ≡ false) × (a.check_cache_status ≡ false) × (a.constituents ≡ false))
unfolding validate_incompatible_flags join_flags
validate_incompatible_flags_iff a = (λ h on. ground arith, λ h. ground arith)
