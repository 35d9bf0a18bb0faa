-- ===== src/Response.antt =====
-- response.hh and the attribute paths of response.cc: the message that a worker sends for each
-- attribute path. `P` stands for nix::StorePath and `J` for nlohmann::json, both of other packages.
use nix_eval_jobs.Prelude.{
  ℕ, List, [], ◌∷◌, ◌++◌, Option, Bool, true, false, ◌&&◌, ◌||◌, not, Bytes, leb, ◌==◌,
  if◌then◌else◌,
}
use nix_eval_jobs.Drv.{Drv}
pub mod Paths
pub mod Print
pub mod RoundTrip

pub data Payload (P J : Type 0) : Type 0 where
  job : Drv P J → Option J → Payload P J
  attrs : List Bytes → Payload P J
  error : Bytes → Bool → Payload P J

pub record Stats : Type 0 where
  pub wall_ms : ℕ
  pub alloc_bytes : ℕ

pub record Response (P J : Type 0) : Type 0 where
  pub attr : Bytes
  pub attr_path : List Bytes
  pub payload : Payload P J
  pub warnings : List Bytes
  pub traces : List Bytes
  pub stats : Option Stats

abbrev pub AttrPath : Type 0
AttrPath = List Bytes

is_alpha : ℕ → Bool
is_alpha c = (leb b'A' c && leb c b'Z') || (leb b'a' c && leb c b'z')

is_alnum : ℕ → Bool
unfolding is_alpha
is_alnum c = is_alpha c || (leb b'0' c && leb c b'9')

identifier_char : ℕ → Bool
unfolding is_alnum
identifier_char c = is_alnum c || c == b'_' || c == 39 || c == b'-'

abbrev pub all_of {ℓ} : {A : Type ℓ} → (A → Bool) → List A → Bool
all_of p [] = true
all_of p (x ∷ xs) = p x && all_of p xs

-- isalpha and isalnum are those of the "C" locale.
is_plain_identifier : Bytes → Bool
unfolding identifier_char
is_plain_identifier [] = false
is_plain_identifier (c ∷ cs) =
    (is_alpha c || c == b'_') && (identifier_char c && all_of identifier_char cs)

-- A backslash before a quote, a backslash or a dollar.
needs_escape : ℕ → Bool
needs_escape c = c == 34 || c == 92 || c == b'$'

escape : Bytes → Bytes
unfolding needs_escape
escape [] = []
escape (c ∷ cs) = let rest = escape cs in if needs_escape c then 92 ∷ c ∷ rest else c ∷ rest

-- One component, quoted unless it is a plain identifier.
print_part : Bytes → Bytes
unfolding is_plain_identifier escape
print_part part = if is_plain_identifier part then part else 34 ∷ (escape part ++ 34 ∷ [])

-- The components after the first, each behind a dot.
join_rest : AttrPath → Bytes
unfolding print_part
join_rest [] = []
join_rest (part ∷ parts) = b'.' ∷ (print_part part ++ join_rest parts)

unfoldable pub join_attr_path : AttrPath → Bytes
unfolding join_rest
join_attr_path [] = []
join_attr_path (part ∷ parts) = print_part part ++ join_rest parts
