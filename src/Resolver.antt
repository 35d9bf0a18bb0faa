-- ===== src/Resolver.antt =====
-- CacheStatusResolver of cache-status-resolver.cc: the caches, the probes and the batches. `P`
-- stands for nix::StorePath; what the stores answer are arguments.
use nix_eval_jobs.Prelude.{
  ℕ, zero, suc, List, [], ◌∷◌, ◌++◌, Option, none, some, Bool, true, false, ◌&&◌, not, Bytes, Map,
  Ord, if◌then◌else◌, insert, contains, emplace, find, is_empty, list_ord, nat_ord,
}
use mathlib.Core.List.{foldl}
pub mod Walk
pub mod Inbox
pub mod Caches
pub mod Status

-- The parts of nix::Derivation that are read, its outputs as outputsAndOptPaths gives them.
pub record Derivation (P : Type 0) : Type 0 where
  pub outputs : Map Bytes (Option P)
  pub input_drvs : Map P (List Bytes)

-- The answers of the two stores: a derivation, the valid ones of a batch, and those of a batch for
-- which substitutes were found before any error.
pub record Stores (P : Type 0) : Type 0 where
  pub read_derivation : P → Derivation P
  pub query_valid_paths : List P → List P
  pub query_substitutable : List P → List P

-- The fields of CacheStatusResolver that belong to its thread.
pub record Resolver (P : Type 0) : Type 0 where
  pub probe_cache : Map P Bool
  pub wanted : List P
  pub valid_cache : Map P Bool
  pub wanted_valid : List P
  pub drv_cache : Map P (Derivation P)
  pub attempt_complete : Bool

pub record Traversal (P : Type 0) : Type 0 where
  pub visited : List P
  pub needed_builds : List P
  pub unknown_paths : List P
  pub substitute_paths : List P

pub record MissingOutputs (P : Type 0) : Type 0 where
  pub known : Bool
  pub complete : Bool
  pub missing : List P

module _ {P : Type 0} ⦃o : Ord P⦄ where
  -- The answers to one batch join a cache, which keeps what it has.
  unfoldable pub remember : List P → List P → Map P Bool → Map P Bool
  remember found [] cache = cache
  remember found (path ∷ batch) cache =
      remember found batch (emplace path (contains path found) cache)

  -- resolveWanted; an empty batch asks nothing and adds nothing.
  unfoldable pub resolve_wanted : Stores P → Resolver P → Resolver P
  unfolding remember
  resolve_wanted stores r = record r {
    valid_cache =
        if is_empty r.wanted_valid
        then r.valid_cache
        else remember (stores.query_valid_paths r.wanted_valid) r.wanted_valid r.valid_cache;
    wanted_valid = [];
    probe_cache =
        if is_empty r.wanted
        then r.probe_cache
        else remember (stores.query_substitutable r.wanted) r.wanted r.probe_cache;
    wanted = [];
  }

  -- The loop of allSubstitutable, with its variables `all` and `complete`.
  unfoldable pub probe_all : List P → Bool → Bool → Resolver P → Resolver P × (Bool × Bool)
  probe_all [] all complete r = (r, (all, complete))
  probe_all (path ∷ paths) all complete r = elim (find path r.probe_cache) [
    | some cached ↦ probe_all paths (all && cached) complete r
    | none ↦
        probe_all paths all false
          (record r { wanted = insert path r.wanted; attempt_complete = false })
  ]

  -- allSubstitutable
  unfoldable pub all_substitutable : List P → Resolver P → Resolver P × Option Bool
  unfolding probe_all
  all_substitutable paths r =
      let (r', (all, complete)) = probe_all paths true true r in
      (r', if not complete then none else some all)

  -- probeValidity
  unfoldable pub probe_validity : P → Resolver P → Resolver P × Option Bool
  probe_validity path r = elim (find path r.valid_cache) [
    | some cached ↦ (r, some cached)
    | none ↦
        (record r { wanted_valid = insert path r.wanted_valid; attempt_complete = false }, none)
  ]

  -- readDerivation
  unfoldable pub read_derivation : Stores P → P → Resolver P → Resolver P × Derivation P
  read_derivation stores path r = elim (find path r.drv_cache) [
    | some cached ↦ (r, cached)
    | none ↦
        let drv = stores.read_derivation path in
        (record r { drv_cache = emplace path drv r.drv_cache }, drv)
  ]

  -- What one validity probe adds to the missing outputs.
  unfoldable pub note_valid : P → Option Bool → MissingOutputs P → MissingOutputs P
  note_valid path none m = record m { complete = false }
  note_valid path (some valid) m =
      if not valid then record m { missing = m.missing ++ path ∷ [] } else m

  -- The loop of missingOutputs over the outputs, of which no wanted names means all.
  unfoldable pub missing_outputs :
      List Bytes
      → Map Bytes (Option P)
      → MissingOutputs P
      → Resolver P
      → Resolver P × MissingOutputs P
  unfolding probe_validity note_valid
  missing_outputs names [] m r = (r, m)
  missing_outputs names ((name, path) ∷ outputs) m r =
      let rest = missing_outputs names outputs in
      if not (is_empty names) && not (contains name names) then rest m r else elim path [
        | none ↦ (r, record m { known = false })
        | some p ↦ let (r', valid) = probe_validity p r in rest (note_valid p valid m) r'
      ]

  abbrev pub no_missing : MissingOutputs P
  no_missing = record { known = true; complete = true; missing = [] }
