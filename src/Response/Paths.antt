-- ===== src/Response/Paths.antt =====
-- joinAttrPath of response.cc: a reader that takes a joined path apart again.
use nix_eval_jobs.Prelude.{
  ℕ, ◌≡◌, refl, sym, ap, ◌∙◌, [], ◌∷◌, ◌++◌, Bool, true, false, ◌⊎◌, inl, inr, Bytes, ◌==◌,
  if◌then◌else◌, arith, Bool-cases,
}
use mathlib.Core.List.{append_assoc}
use nix_eval_jobs.Response.{
  AttrPath, identifier_char, all_of, is_plain_identifier, needs_escape, escape, print_part,
  join_rest, join_attr_path,
}

abbrev prepend : ℕ → Bytes × Bytes → Bytes × Bytes
prepend c (part, rest) = (c ∷ part, rest)

-- Up to the closing quote; the flag says that a backslash stands before.
unquote : Bool → Bytes → Bytes × Bytes
unquote b [] = ([], [])
unquote true (c ∷ cs) = prepend c (unquote false cs)
unquote false (c ∷ cs) =
    let plain = prepend c (unquote false cs) in
    let escaped = unquote true cs in
    if c == 34 then ([], cs) else if c == 92 then escaped else plain

-- Up to the next dot.
word : Bytes → Bytes × Bytes
word [] = ([], [])
word (c ∷ cs) = if c == b'.' then ([], c ∷ cs) else prepend c (word cs)

read_part : Bytes → Bytes × Bytes
unfolding unquote word
read_part [] = ([], [])
read_part (c ∷ cs) = if c == 34 then unquote false cs else word (c ∷ cs)

-- What follows a component: nothing, or a dot and the rest.
abbrev Follows : Bytes → Type 0
Follows rest = (rest ≡ []) ⊎ ((r : Bytes) × (rest ≡ b'.' ∷ r))

unquote-escape : (part rest : Bytes) → unquote false (escape part ++ 34 ∷ rest) ≡ (part, rest)
unfolding unquote escape needs_escape
unquote-escape [] rest = refl
unquote-escape (c ∷ cs) rest = ground (arith, unquote-escape cs rest)

word-Follows : (rest : Bytes) → Follows rest → word rest ≡ ([], rest)
unfolding word
word-Follows [] f = refl
word-Follows (c ∷ cs) (inl e) = cc
word-Follows (c ∷ cs) (inr (r, e)) = ground arith

word-all_of :
    (part rest : Bytes)
    → all_of identifier_char part ≡ true
    → Follows rest
    → word (part ++ rest) ≡ (part, rest)
unfolding word identifier_char
word-all_of [] rest h f = word-Follows rest f
word-all_of (c ∷ cs) rest h f = ground (arith, word-all_of cs rest)

read_part-plain :
    (part rest : Bytes)
    → is_plain_identifier part ≡ true
    → Follows rest
    → read_part (part ++ rest) ≡ (part, rest)
unfolding read_part is_plain_identifier
read_part-plain [] rest h f = cc
read_part-plain (c ∷ cs) rest h f = ground (arith, word-all_of (c ∷ cs) rest)

read_part-print_part :
    (part rest : Bytes) → Follows rest → read_part (print_part part ++ rest) ≡ (part, rest)
unfolding print_part read_part
read_part-print_part part rest f = elim (Bool-cases (is_plain_identifier part)) [
  | inl plain ↦ rw plain (read_part-plain part rest plain f)
  | inr quoted ↦ rw (quoted, append_assoc) (unquote-escape part rest)
]

join_rest-Follows : (p : AttrPath) → Follows (join_rest p)
unfolding join_rest
join_rest-Follows [] = inl refl
join_rest-Follows (part ∷ parts) = inr (print_part part ++ join_rest parts, refl)

-- A joined component and what follows it are read back.
read_part-join :
    (a b : Bytes) (p q : AttrPath)
    → print_part a ++ join_rest p ≡ print_part b ++ join_rest q
    → (a ≡ b) × (join_rest p ≡ join_rest q)
read_part-join a b p q h =
    let both =
      sym (read_part-print_part a (join_rest p) (join_rest-Follows p))
      ∙ ap read_part h
      ∙ read_part-print_part b (join_rest q) (join_rest-Follows q) in
    (ap (λ x. x.0) both, ap (λ x. x.1) both)

join_rest-injective : (p q : AttrPath) → join_rest p ≡ join_rest q → p ≡ q
unfolding join_rest
join_rest-injective [] [] h = refl
join_rest-injective [] (b ∷ q) h = cc
join_rest-injective (a ∷ p) [] h = cc
join_rest-injective (a ∷ p) (b ∷ q) h =
    let (e, rest) = read_part-join a b p q (ground arith) in
    let tail = join_rest-injective p q rest in cc

print_part-cons : (part : Bytes) → (c : ℕ) × (r : Bytes) × (print_part part ≡ c ∷ r)
unfolding print_part is_plain_identifier
print_part-cons [] = (34, 34 ∷ [], refl)
print_part-cons (c ∷ cs) = elim (Bool-cases (is_plain_identifier (c ∷ cs))) [
  | inl plain ↦ (c, cs, ground arith)
  | inr quoted ↦ (34, escape (c ∷ cs) ++ 34 ∷ [], ground arith)
]

-- Attribute paths with the same dot-joined name are equal.
pub join_attr_path-injective : (p q : AttrPath) → join_attr_path p ≡ join_attr_path q → p ≡ q
unfolding join_attr_path
join_attr_path-injective [] [] h = refl
join_attr_path-injective [] (b ∷ q) h = ground (arith, print_part-cons b)
join_attr_path-injective (a ∷ p) [] h = ground (arith, print_part-cons a)
join_attr_path-injective (a ∷ p) (b ∷ q) h =
    let (e, rest) = read_part-join a b p q h in let tail = join_rest-injective p q rest in cc
