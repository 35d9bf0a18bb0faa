-- ===== src/Examples/Cases.antt =====
-- The values of src/tests-unit/json.cc: constituents, derivations and responses. A store path is
-- its text, and a store directory prints it behind a slash.
use nix_eval_jobs.Prelude.{
  ◌≡◌, refl, [], ◌∷◌, ◌++◌, Option, none, some, true, false, ◌==◌, Bytes, if◌then◌else◌, arith,
}
use nix_eval_jobs.Messages.{ascii}
use nix_eval_jobs.Drv.{Constituents, CacheStatus, Drv}
use nix_eval_jobs.Drv.Print.{StoreDir}
use nix_eval_jobs.Response.{Response, Payload}
use nix_eval_jobs.Examples.Values.{Value, json}

-- What follows a prefix.
abbrev pub strip : Bytes → Bytes → Option Bytes
strip [] text = some text
strip (p ∷ ps) [] = none
strip (p ∷ ps) (c ∷ cs) = let rest = strip ps cs in if p == c then rest else none

abbrev pub dir : StoreDir Bytes
dir = record {
  print_store_path = λ sd p. sd ++ b'/' ∷ p;
  parse_store_path = λ sd text. strip (sd ++ b'/' ∷ []) text;
}

pub parses : (sd p : Bytes) → dir.parse_store_path sd (dir.print_store_path sd p) ≡ some p
parses [] p = refl
parses (c ∷ sd) p = ground (arith, parses sd p)

abbrev pub no_constituents : Constituents
no_constituents = record { constituents = []; named_constituents = []; glob_constituents = false }

abbrev pub full_constituents : Constituents
full_constituents = record {
  constituents = ascii "/nix/store/abc-foo.drv" ∷ ascii "/nix/store/def-bar.drv" ∷ [];
  named_constituents = ascii "foo" ∷ ascii "bar" ∷ [];
  glob_constituents = true;
}

abbrev pub minimal : Drv Bytes Value
minimal = record {
  name = ascii "hello";
  store_dir = ascii "/nix/store";
  system = ascii "x86_64-linux";
  drv_path = ascii "00000000000000000000000000000000-hello.drv";
  outputs = (ascii "out", some (ascii "00000000000000000000000000000000-hello")) ∷ [];
  input_drvs = none;
  required_system_features = none;
  needed_builds = [];
  needed_substitutes = [];
  unknown_paths = [];
  cache_status = CacheStatus.unknown;
  meta = none;
  constituents = no_constituents;
}

abbrev pub cached_pkg : Drv Bytes Value
cached_pkg = record minimal {
  name = ascii "cached-pkg";
  drv_path = ascii "00000000000000000000000000000000-pkg.drv";
  outputs = (ascii "out", some (ascii "00000000000000000000000000000000-def")) ∷ [];
  needed_substitutes =
      ascii "00000000000000000000000000000000-sub1"
      ∷ ascii "00000000000000000000000000000000-sub2"
      ∷ [];
  cache_status = CacheStatus.cached;
}

abbrev pub not_built_pkg : Drv Bytes Value
not_built_pkg = record minimal {
  name = ascii "unbuilt-pkg";
  drv_path = ascii "00000000000000000000000000000000-pkg.drv";
  outputs = (ascii "out", none) ∷ [];
  needed_builds = ascii "00000000000000000000000000000001-build1.drv" ∷ [];
  cache_status = CacheStatus.not_built;
}

abbrev pub all_fields : Drv Bytes Value
all_fields = record minimal {
  name = ascii "full-pkg";
  drv_path = ascii "00000000000000000000000000000000-pkg.drv";
  outputs =
      (ascii "dev", some (ascii "00000000000000000000000000000000-ghi"))
      ∷ (ascii "out", some (ascii "00000000000000000000000000000000-def"))
      ∷ [];
  input_drvs = some ((ascii "00000000000000000000000000000000-input.drv", ascii "out" ∷ []) ∷ []);
  required_system_features = some (ascii "big-parallel" ∷ ascii "kvm" ∷ []);
  cache_status = CacheStatus.local;
  meta = some (
      json.object (
        (ascii "description", json.of_string (ascii "A package"))
        ∷ (ascii "license", json.of_string (ascii "MIT"))
        ∷ []));
  constituents = record {
    constituents = ascii "/nix/store/child.drv" ∷ [];
    named_constituents = ascii "childJob" ∷ [];
    glob_constituents = false;
  };
}

abbrev pub job_response : Response Bytes Value
job_response = record {
  attr = ascii "hello";
  attr_path = ascii "hello" ∷ [];
  payload = Payload.job minimal none;
  warnings = [];
  traces = [];
  stats = none;
}

abbrev pub extra_drv : Drv Bytes Value
extra_drv = record minimal {
  name = ascii "pkg";
  drv_path = ascii "00000000000000000000000000000000-pkg.drv";
  outputs = (ascii "out", some (ascii "00000000000000000000000000000000-def")) ∷ [];
}

abbrev pub extra_response : Response Bytes Value
extra_response = record job_response {
  attr = ascii "pkg";
  attr_path = ascii "pkg" ∷ [];
  payload = Payload.job extra_drv (
      some (
        json.object (
          (ascii "version", json.of_string (ascii "1.0"))
          ∷ (ascii "custom", json.of_bool true)
          ∷ [])));
}

abbrev pub attrs_response : Response Bytes Value
attrs_response = record job_response {
  attr = ascii "pkgs";
  attr_path = ascii "pkgs" ∷ [];
  payload = Payload.attrs (ascii "foo" ∷ ascii "bar" ∷ ascii "baz" ∷ []);
}

abbrev pub error_response : Response Bytes Value
error_response = record job_response {
  attr = ascii "broken";
  attr_path = ascii "broken" ∷ [];
  payload = Payload.error (ascii "evaluation failed") false;
}

abbrev pub logs_response : Response Bytes Value
logs_response = record error_response {
  warnings = ascii "deprecated" ∷ ascii "also deprecated" ∷ [];
  traces = ascii "got here" ∷ [];
}

abbrev pub stats_response : Response Bytes Value
stats_response = record attrs_response {
  payload = Payload.attrs (ascii "foo" ∷ []);
  stats = some (record { wall_ms = 12; alloc_bytes = 4096 });
}
