-- ===== src/Prelude/Orders.antt =====
-- Byte strings and the ordered containers of the C++ library: a std::set is a list without
-- repetition in the order of its keys, and so is the domain of a std::map.
use Prim.Native.Nat.{ℕ, ◌+◌, ◌≤◌, compare, Ordering}
use mathlib.Core.Path.{◌≡◌, refl}
use mathlib.Core.Logic.{◌↔◌}
use mathlib.Core.Bool.{Bool, true, false, ◌||◌, ◌&&◌, not}
use mathlib.Core.List.{List, [], ◌∷◌}
use mathlib.Core.Option.{Option, none, some}
use native.Mathlib.Omega.{arith}
use nix_eval_jobs.Prelude.Tests.{bit, is_some, if◌then◌else◌}
use nix_eval_jobs.Prelude.Lists.{count_if}

-- A strict order by a three-way comparison.
pub record Ord {ℓ} (A : Type ℓ) : Type ℓ where
  pub cmp : A → A → Ordering
  pub cmp_iff : (a b : A) → (cmp a b ≡ Ordering.eq) ↔ (a ≡ b)

abbrev pub is_eq : Ordering → Bool
is_eq Ordering.eq = true
is_eq _ = false

-- Lexicographic, as operator< of std::string and of a JSON array.
abbrev pub lex {ℓ} : {A : Type ℓ} → (A → A → Ordering) → List A → List A → Ordering
lex c [] [] = Ordering.eq
lex c [] (y ∷ ys) = Ordering.lt
lex c (x ∷ xs) [] = Ordering.gt
lex c (x ∷ xs) (y ∷ ys) = elim (c x y) [
  | Ordering.lt ↦ Ordering.lt
  | Ordering.eq ↦ lex c xs ys
  | Ordering.gt ↦ Ordering.gt
]

pub cmp_nat_iff : (a b : ℕ) → (compare a b ≡ Ordering.eq) ↔ (a ≡ b)
cmp_nat_iff a b = ground arith

instance abbrev pub nat_ord : Ord ℕ
nat_ord = record { cmp = compare; cmp_iff = cmp_nat_iff }

pub lex_iff {ℓ} :
    {A : Type ℓ} (o : Ord A) (xs ys : List A) → (lex o.cmp xs ys ≡ Ordering.eq) ↔ (xs ≡ ys)
lex_iff o [] [] = (λ _. refl, λ _. refl)
lex_iff o [] (y ∷ ys) = (λ h. cc, λ h. cc)
lex_iff o (x ∷ xs) [] = (λ h. cc, λ h. cc)
lex_iff o (x ∷ xs) (y ∷ ys) = ground (arith, o.cmp_iff x y, lex_iff o xs ys)

instance abbrev pub list_ord {ℓ} : {A : Type ℓ} ⦃o : Ord A⦄ → Ord (List A)
list_ord ⦃o⦄ = record { cmp = lex o.cmp; cmp_iff = lex_iff o }

abbrev pub Bytes : Type 0
Bytes = List ℕ

module _ {ℓ} {A : Type ℓ} ⦃o : Ord A⦄ where
  infix 50 ◌=?◌
  abbrev pub ◌=?◌ : A → A → Bool
  a =? b = is_eq (o.cmp a b)

  pub =?_iff : (a b : A) → ((a =? b) ≡ true) ↔ (a ≡ b)
  =?_iff a b = ground (arith, o.cmp_iff a b)

  pub =?_refl : (a : A) → (a =? a) ≡ true
  =?_refl a = (=?_iff a a).1 refl

  -- How often a key occurs.
  abbrev pub count : A → List A → ℕ
  count a = count_if (λ x. a =? x)

  abbrev pub contains : A → List A → Bool
  contains a [] = false
  contains a (x ∷ xs) = (a =? x) || contains a xs

  -- std::set::insert
  unfoldable pub insert : A → List A → List A
  insert a [] = a ∷ []
  insert a (x ∷ xs) = elim (o.cmp a x) [
    | Ordering.lt ↦ a ∷ x ∷ xs
    | Ordering.eq ↦ x ∷ xs
    | Ordering.gt ↦ x ∷ insert a xs
  ]

  pub contains-insert :
      (a b : A) (xs : List A) → contains b (insert a xs) ≡ ((b =? a) || contains b xs)
  unfolding insert
  contains-insert a b [] = refl
  contains-insert a b (x ∷ xs) = ground (arith, o.cmp_iff a x, contains-insert a b xs)

  -- An insertion adds the key at most once, and removes none.
  pub count-insert_ge : (a b : A) (xs : List A) → count b xs ≤ count b (insert a xs)
  unfolding insert
  count-insert_ge a b [] = omega arith
  count-insert_ge a b (x ∷ xs) = ground (arith, count-insert_ge a b xs)

  pub count-insert_le : (a b : A) (xs : List A) → count b (insert a xs) ≤ count b xs + bit (b =? a)
  unfolding insert
  count-insert_le a b [] = ground arith
  count-insert_le a b (x ∷ xs) = ground (arith, count-insert_le a b xs)

  -- An inserted key is there.
  pub count-insert_self : (a : A) (xs : List A) → 1 ≤ count a (insert a xs)
  unfolding insert
  count-insert_self a [] = ground (arith, =?_refl a)
  count-insert_self a (x ∷ xs) = ground (arith, =?_refl a, o.cmp_iff a x, count-insert_self a xs)

-- A std::map as an association list in the order of its keys.
abbrev pub Map {ℓ κ} : Type ℓ → Type κ → Type (ℓ ⊔ κ)
Map K V = List (K × V)

module _ {ℓ κ} {K : Type ℓ} {V : Type κ} ⦃o : Ord K⦄ where
  unfoldable pub find : K → Map K V → Option V
  find k [] = none
  find k ((j, v) ∷ m) = if k =? j then some v else find k m

  unfoldable pub insert_or_assign : K → V → Map K V → Map K V
  insert_or_assign k v [] = (k, v) ∷ []
  insert_or_assign k v ((j, w) ∷ m) = elim (o.cmp k j) [
    | Ordering.lt ↦ (k, v) ∷ (j, w) ∷ m
    | Ordering.eq ↦ (k, v) ∷ m
    | Ordering.gt ↦ (j, w) ∷ insert_or_assign k v m
  ]

  pub find-insert_or_assign :
      (k j : K) (v : V) (m : Map K V)
      → find j (insert_or_assign k v m) ≡ (if j =? k then some v else find j m)
  unfolding find insert_or_assign
  find-insert_or_assign k j v [] = refl
  find-insert_or_assign k j v ((i, w) ∷ m) =
      ground (arith, o.cmp_iff k i, o.cmp_iff j k, o.cmp_iff j i, find-insert_or_assign k j v m)

  -- std::map::insert and emplace, which keep the value of a key that is there.
  unfoldable pub emplace : K → V → Map K V → Map K V
  unfolding find insert_or_assign
  emplace k v m = if is_some (find k m) then m else insert_or_assign k v m

  pub find-emplace :
      (k j : K) (v : V) (m : Map K V)
      → find j (emplace k v m) ≡ (if (j =? k) && not (is_some (find k m)) then some v else find j m)
  unfolding emplace
  find-emplace k j v m = ground (arith, find-insert_or_assign k j v m)
