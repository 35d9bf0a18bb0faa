-- ===== src/Drv/Entries.antt =====
-- The loops of drv.cc over the fields of a JSON object: each prints or reads a map entry by entry.
use nix_eval_jobs.Prelude.{
  ◌≡◌, refl, sym, ◌∙◌, subst, [], ◌∷◌, Option, none, some, Bytes, Map, Ord, find, find-emplace,
  emplace, ◌=?◌, =?_iff, =?_refl, list_ord, nat_ord, arith, ◌⊎◌, inl, inr, Bool-cases, Option-cases,
}
use mathlib.Core.List.{foldl}
use mathlib.Core.Option
use nix_eval_jobs.Json.{traverse}
use nix_eval_jobs.Json.Fields.{or_else, IsMap, assign, no_fields}

-- Emplacing entries one by one keeps the first value of each key.
pub find-emplace_all :
    {K V : Type 0} ⦃o : Ord K⦄ (j : K) (acc entries : Map K V)
    → find j (foldl (λ m e. emplace e.0 e.1 m) acc entries) ≡ or_else (find j acc) (find j entries)
unfolding find
find-emplace_all j acc [] = ground arith
find-emplace_all j acc ((k, v) ∷ entries) =
    ground (arith, find-emplace_all j (emplace k v acc) entries, find-emplace k j v acc, =?_iff j k)

module _ {J A K : Type 0} ⦃o : Ord K⦄ (read : Bytes × J → Option (K × A)) (print : K → Bytes)
    (expected : K → Option A) (injective : (a b : K) → print a ≡ print b → a ≡ b) where
  -- Each entry is read as what is expected of the key that its name prints.
  abbrev pub Reads : Map Bytes J → Type 0
  Reads m =
      (name : Bytes) (v : J)
      → find name m ≡ some v
      → (k : K) × (a : A) × (name ≡ print k)
        × (expected k ≡ some a)
        × (read (name, v) ≡ some (k, a))

  abbrev pub only : Map Bytes J → K → Option A
  only m k = elim (find (print k) m) [ none ↦ none | some v ↦ expected k ]

  same_key : (a b : K) → (a =? b) ≡ (print a =? print b)
  same_key a b = ground (arith, =?_iff a b, =?_iff (print a) (print b), injective a b)

  pub traverse-Reads :
      (m : Map Bytes J)
      → IsMap m
      → Reads m
      → (entries : Map K A) × (traverse read m ≡ some entries)
        × ((k : K) → find k entries ≡ only m k)
  unfolding find
  traverse-Reads [] i r = ([], refl, λ k. refl)
  traverse-Reads ((name, v) ∷ m) (fresh, i) r =
      let (k, a, p, e, here) = r name v (ground (arith, =?_refl name)) in
      let (entries, all, found) =
        traverse-Reads m i (λ j w h. r j w (ground (arith, =?_iff j name))) in
      (
        (k, a) ∷ entries,
        simp (here, all) refl,
        λ j. ground (arith, found j, same_key j k, =?_iff j k),
      )

-- No key occurs twice.
abbrev pub IsNamed : {K A : Type 0} ⦃o : Ord K⦄ → Map K A → Type 0
IsNamed [] = Unit {0}
IsNamed ((k, a) ∷ m) = (find k m ≡ none) × IsNamed m

-- What the loop that prints an entry after the other leaves under each key.
abbrev pub printed :
    {J K A : Type 0} → (K → Bytes) → (A → J) → Map K A → (Bytes → Option J) → Bytes → Option J
printed name value [] f j = f j
printed name value ((k, a) ∷ m) f j = printed name value m (assign (name k) (some (value a)) f) j

module _ {J K A : Type 0} ⦃o : Ord K⦄ (name : K → Bytes) (value : A → J)
    (injective : (a b : K) → name a ≡ name b → a ≡ b) where
  -- The printed value of a key, or what was there before.
  pub printed_at :
      (m : Map K A) (f : Bytes → Option J) (k : K)
      → IsNamed m
      → printed name value m f (name k) ≡ or_else (Option.map value (find k m)) (f (name k))
  unfolding find
  printed_at [] f k n = ground arith
  printed_at ((j, a) ∷ m) f k (fresh, n) = ground (
    arith,
    printed_at m (assign (name j) (some (value a)) f) k n,
    =?_iff k j,
    =?_iff (name k) (name j),
    injective k j,
  )

  -- Every field is an entry, or was there before.
  pub printed_only :
      (m : Map K A) (f : Bytes → Option J) (j : Bytes) (v : J)
      → printed name value m f j ≡ some v
      → (f j ≡ some v) ⊎ ((k : K) × (name k ≡ j))
  printed_only [] f j v h = inl h
  printed_only ((k, a) ∷ m) f j v h =
      elim (printed_only m (assign (name k) (some (value a)) f) j v h) [
        | inr e ↦ inr e
        | inl e ↦ elim (Bool-cases (j =? name k)) [
          | inl same ↦ inr (k, sym ((=?_iff j (name k)).0 same))
          | inr other ↦ inl (ground arith)
        ]
      ]

module _ {J A K : Type 0} ⦃o : Ord K⦄ (name : K → Bytes) (value : A → J)
    (injective : (a b : K) → name a ≡ name b → a ≡ b) (read : Bytes × J → Option (K × A))
    (m : Map K A) (named : IsNamed m)
    (reads : (k : K) (a : A) → find k m ≡ some a → read (name k, value a) ≡ some (k, a)) where
  printed-Reads :
      (fields : Map Bytes J)
      → ((j : Bytes) → find j fields ≡ printed name value m no_fields j)
      → Reads read name (λ k. find k m) injective fields
  printed-Reads fields found j v h =
      elim (printed_only name value injective m no_fields j v (sym (found j) ∙ h)) [
        | inl e ↦ cc
        | inr (k, same) ↦ elim (Option-cases (find k m)) [
          | inl missing ↦
              ground (arith, found j, printed_at name value injective m no_fields k named)
          | inr (a, there) ↦
              let e : value a ≡ v =
                ground (arith, found j, printed_at name value injective m no_fields k named) in
              (
                k,
                a,
                sym same,
                there,
                subst (λ w. read (j, w) ≡ some (k, a)) e
                    (subst (λ i. read (i, value a) ≡ some (k, a)) same (reads k a there)),
              )
        ]
      ]

  -- What was printed entry by entry is read back as a map with the same values.
  pub read_back :
      (fields : Map Bytes J)
      → IsMap fields
      → ((j : Bytes) → find j fields ≡ printed name value m no_fields j)
      → (entries : Map K A) × (traverse read fields ≡ some entries)
        × ((k : K) → find k (foldl (λ m e. emplace e.0 e.1 m) [] entries) ≡ find k m)
  unfolding find
  read_back fields i found =
      let (entries, all, at) =
        traverse-Reads read name (λ k. find k m) injective fields i (printed-Reads fields found) in
      (
        entries,
        all,
        λ k. ground (
          arith,
          find-emplace_all k [] entries,
          at k,
          found (name k),
          printed_at name value injective m no_fields k named,
        ),
      )
