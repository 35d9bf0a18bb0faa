-- ===== src/Examples/Text.antt =====
-- A text form of the JSON values of Examples/Values, without newlines: every element is moved past
-- the newline, and lengths stand in front of texts.
use nix_eval_jobs.Prelude.{
  ℕ, zero, suc, ◌+◌, length-append, ◌-◌, ◌≡◌, ◌≤◌, refl, ap, subst, List, [], ◌∷◌, ◌++◌, Option,
  none, some, true, false, Bytes, length, take, drop, map, arith, ◌==◌, if◌then◌else◌,
}
use mathlib.Core.Option.{some-injective}
use nix_eval_jobs.Proc.{find_byte, newline}
use nix_eval_jobs.Json.{◌>>=◌}
use nix_eval_jobs.Worker.Received.{IsText}
use nix_eval_jobs.Examples.Values.{
  Value, Entries, null, text, texts, number, bool, object, nil, entry,
}

abbrev put : Bytes → Bytes → Bytes
put t k = length t ∷ (t ++ k)

abbrev put_texts : List Bytes → Bytes → Bytes
put_texts [] k = 0 ∷ k
put_texts (t ∷ ts) k = 1 ∷ put t (put_texts ts k)

unfoldable mutual
  pub encode : Value → Bytes → Bytes
  encode null k = 0 ∷ k
  encode (text t) k = 1 ∷ put t k
  encode (texts ts) k = 2 ∷ put_texts ts k
  encode (number n) k = 3 ∷ n ∷ k
  encode (bool true) k = 4 ∷ k
  encode (bool false) k = 5 ∷ k
  encode (object es) k = 6 ∷ encode_all es k

  encode_all : Entries → Bytes → Bytes
  encode_all nil k = 0 ∷ k
  encode_all (entry key v es) k = 1 ∷ put key (encode v (encode_all es k))

unfoldable get : Bytes → Option (Bytes × Bytes)
get [] = none
get (n ∷ k) = some (take n k, drop n k)

unfoldable get_texts : ℕ → Bytes → Option (List Bytes × Bytes)
unfolding get
get_texts zero k = none
get_texts (suc n) [] = none
get_texts (suc n) (tag ∷ k) =
    if tag == 0
    then some ([], k)
    else (do (t, k1) ← get k; (ts, k2) ← get_texts n k1; some (t ∷ ts, k2))

unfoldable mutual
  unfolding get get_texts

  decode : ℕ → Bytes → Option (Value × Bytes)
  decode zero k = none
  decode (suc n) [] = none
  decode (suc n) (tag ∷ k) =
      if tag == 0
      then some (null, k)
      else if tag == 1
      then (do (t, k1) ← get k; some (text t, k1))
      else if tag == 2
      then (do (ts, k1) ← get_texts n k; some (texts ts, k1))
      else if tag == 3
      then elim k [ [] ↦ none | x ∷ k1 ↦ some (number x, k1) ]
      else if tag == 4
      then some (bool true, k)
      else if tag == 5
      then some (bool false, k)
      else (do (es, k1) ← decode_all n k; some (object es, k1))

  decode_all : ℕ → Bytes → Option (Entries × Bytes)
  decode_all zero k = none
  decode_all (suc n) [] = none
  decode_all (suc n) (tag ∷ k) = if tag == 0 then some (nil, k) else (do
    (key, k1) ← get k
    (v, k2) ← decode n k1
    (es, k3) ← decode_all n k2
    some (entry key v es, k3))

take-whole : (t k : Bytes) → take (length t) (t ++ k) ≡ t
take-whole [] k = refl
take-whole (c ∷ t) k = ap (◌∷◌ c) (take-whole t k)

drop-whole : (t k : Bytes) → drop (length t) (t ++ k) ≡ k
drop-whole [] k = refl
drop-whole (c ∷ t) k = drop-whole t k

put-longer : (t k : Bytes) → suc (length k) ≤ length (put t k)
put-longer t k = omega (arith, length-append t k)

texts-longer : (ts : List Bytes) (k : Bytes) → length k ≤ length (put_texts ts k)
texts-longer [] k = omega arith
texts-longer (t ∷ ts) k = omega (arith, texts-longer ts k, put-longer t (put_texts ts k))

get_texts-put_texts :
    (n : ℕ) (ts : List Bytes) (k : Bytes)
    → length (put_texts ts k) ≤ n
    → get_texts n (put_texts ts k) ≡ some (ts, k)
unfolding get_texts get
get_texts-put_texts zero [] k h = absurd (omega arith)
get_texts-put_texts zero (t ∷ ts) k h = absurd (omega arith)
get_texts-put_texts (suc n) [] k h = refl
get_texts-put_texts (suc n) (t ∷ ts) k h =
    simp
      (
        take-whole t (put_texts ts k),
        drop-whole t (put_texts ts k),
        get_texts-put_texts n ts k (omega (arith, put-longer t (put_texts ts k))),
        get_texts,
      )
      refl

mutual
  unfolding encode

  encode-longer : (v : Value) (k : Bytes) → suc (length k) ≤ length (encode v k)
  encode-longer null k = omega arith
  encode-longer (text t) k = omega (arith, put-longer t k)
  encode-longer (texts ts) k = omega (arith, texts-longer ts k)
  encode-longer (number n) k = omega arith
  encode-longer (bool true) k = omega arith
  encode-longer (bool false) k = omega arith
  encode-longer (object es) k = omega (arith, encode_all-longer es k)

  encode_all-longer : (es : Entries) (k : Bytes) → suc (length k) ≤ length (encode_all es k)
  encode_all-longer nil k = omega arith
  encode_all-longer (entry key v es) k = omega (
    arith,
    put-longer key (encode v (encode_all es k)),
    encode-longer v (encode_all es k),
    encode_all-longer es k,
  )

mutual
  unfolding encode decode get

  decode-encode :
      (n : ℕ) (v : Value) (k : Bytes)
      → length (encode v k) ≤ n
      → decode n (encode v k) ≡ some (v, k)
  decode-encode zero v k h = absurd (omega (arith, encode-longer v k))
  decode-encode (suc n) null k h = refl
  decode-encode (suc n) (text t) k h = simp (take-whole t k, drop-whole t k, decode) refl
  decode-encode (suc n) (texts ts) k h =
      simp (get_texts-put_texts n ts k (omega arith), decode) refl
  decode-encode (suc n) (number x) k h = refl
  decode-encode (suc n) (bool true) k h = refl
  decode-encode (suc n) (bool false) k h = refl
  decode-encode (suc n) (object es) k h =
      simp (decode_all-encode_all n es k (omega arith), decode) refl

  decode_all-encode_all :
      (n : ℕ) (es : Entries) (k : Bytes)
      → length (encode_all es k) ≤ n
      → decode_all n (encode_all es k) ≡ some (es, k)
  decode_all-encode_all zero es k h = absurd (omega (arith, encode_all-longer es k))
  decode_all-encode_all (suc n) nil k h = refl
  decode_all-encode_all (suc n) (entry key v es) k h =
      let k2 = encode_all es k in
      let k1 = encode v k2 in
      simp
        (
          take-whole key k1,
          drop-whole key k1,
          decode-encode n v k2 (omega (arith, put-longer key k1)),
          decode_all-encode_all n es k (omega (arith, put-longer key k1, encode-longer v k2)),
          decode_all,
        )
        refl

abbrev up : Bytes → Bytes
up = map (λ c. c + 11)

abbrev down : Bytes → Bytes
down = map (λ c. c - 11)

down-up : (s : Bytes) → down (up s) ≡ s
down-up [] = refl
down-up (c ∷ s) = let same : (c + 11) - 11 ≡ c = omega arith in simp (same, down-up s) refl

up-line : (s : Bytes) → find_byte newline (up s) ≡ none
unfolding find_byte
up-line [] = refl
up-line (c ∷ s) = ground (arith, up-line s)

unfoldable pub dump : Value → Option Bytes
unfolding encode
dump v = some (up (encode v []))

unfoldable pub parse : Bytes → Option Value
unfolding decode
parse s = do (v, k) ← decode (length (down s)) (down s); some v

pub text-IsText : IsText dump parse
unfolding dump parse
text-IsText = record {
  parse_dump = λ v line h.
      let whole = decode-encode (length (encode v [])) v [] (omega arith) in
      subst (λ l. parse l ≡ some v) (some-injective _ _ h)
        (simp (down-up (encode v []), whole, parse) refl);
  one_line = λ v line h.
      subst (λ l. find_byte newline l ≡ none) (some-injective _ _ h) (up-line (encode v []));
}
