-- ===== src/Drv.antt =====
-- drv.hh: the fields of a derivation that are printed. `P` stands for nix::StorePath and `J` for
-- nlohmann::json, both of other packages.
use nix_eval_jobs.Prelude.{List, Option, Bool, Bytes, Map}
pub mod Print
pub mod Parse
pub mod Entries
pub mod Printed
pub mod RoundTrip

pub record Constituents : Type 0 where
  pub constituents : List Bytes
  pub named_constituents : List Bytes
  pub glob_constituents : Bool

pub data CacheStatus : Type 0 where
  local cached not_built unknown : CacheStatus

pub record Drv (P J : Type 0) : Type 0 where
  pub name : Bytes
  pub store_dir : Bytes
  pub system : Bytes
  pub drv_path : P
  pub outputs : Map Bytes (Option P)
  pub input_drvs : Option (Map P (List Bytes))
  pub required_system_features : Option (List Bytes)
  pub needed_builds : List P
  pub needed_substitutes : List P
  pub unknown_paths : List P
  pub cache_status : CacheStatus
  pub meta : Option J
  pub constituents : Constituents
