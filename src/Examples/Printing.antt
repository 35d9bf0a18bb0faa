-- ===== src/Examples/Printing.antt =====
-- The round trips of src/tests-unit/json.cc.
use nix_eval_jobs.Prelude.{
  ◌≡◌, refl, List, [], ◌∷◌, none, some, Bytes, Map, find, list_ord, nat_ord, insert, arith, subst,
  Bool-cases, inl, inr, ◌=?◌,
}
use nix_eval_jobs.Messages.{ascii}
use nix_eval_jobs.Drv.{Drv}
use nix_eval_jobs.Drv.Print.{drv_to_json}
use nix_eval_jobs.Drv.Parse.{drv_from_json, set_of}
use nix_eval_jobs.Drv.RoundTrip.{IsPrintable, Reread, drv_from_json-drv_to_json}
use nix_eval_jobs.Drv.Entries.{IsNamed}
use nix_eval_jobs.Drv.Printed.{AreSets}
use nix_eval_jobs.Response.{Response}
use nix_eval_jobs.Response.Print.{response_to_json, response_from_json}
use nix_eval_jobs.Response.RoundTrip.{SameResponse, response_from_json-response_to_json}
use nix_eval_jobs.Examples.Values.{Value, json, json-IsLawful}
use nix_eval_jobs.Examples.Cases.{
  dir, parses, minimal, all_fields, extra_response, extra_drv, stats_response,
}

abbrev inputs : Map Bytes (List Bytes)
inputs = (ascii "00000000000000000000000000000000-input.drv", ascii "out" ∷ []) ∷ []

abbrev features : List Bytes
features = ascii "big-parallel" ∷ ascii "kvm" ∷ []

features-set : set_of features ≡ features
unfolding insert
features-set = refl

out-set : set_of (ascii "out" ∷ []) ≡ ascii "out" ∷ []
unfolding insert
out-set = refl

inputs-AreSets : AreSets json dir json-IsLawful parses inputs
unfolding find
inputs-AreSets p names e =
    elim (Bool-cases (p =? ascii "00000000000000000000000000000000-input.drv")) [
      | inl h ↦
          let same : ascii "out" ∷ [] ≡ names = ground arith in
          subst (λ n. set_of n ≡ n) same out-set
      | inr h ↦ ground arith
    ]

all_fields-IsPrintable : IsPrintable json dir json-IsLawful parses all_fields
unfolding find
all_fields-IsPrintable = record {
  has_outputs = λ e. cc;
  outputs_named = (refl, (refl, tt));
  inputs_named = λ m e.
      let same : inputs ≡ m = cc in
      subst (λ n. IsNamed n × AreSets json dir json-IsLawful parses n) same
        ((refl, tt), inputs-AreSets);
  features_set = λ f e. let same : features ≡ f = cc in subst (λ n. set_of n ≡ n) same features-set;
}

drv_from_json-drv_to_json_example :
    (got : Drv Bytes Value) × (drv_from_json json dir (drv_to_json json dir all_fields) ≡ some got)
    × Reread json dir json-IsLawful parses all_fields got
drv_from_json-drv_to_json_example =
    drv_from_json-drv_to_json json dir json-IsLawful parses all_fields all_fields-IsPrintable

minimal-IsPrintable : IsPrintable json dir json-IsLawful parses extra_drv
unfolding find
minimal-IsPrintable = record {
  has_outputs = λ e. cc;
  outputs_named = (refl, tt);
  inputs_named = λ m e. absurd (cc e);
  features_set = λ f e. cc e;
}

response_from_json-response_to_json_example :
    (got : Response Bytes Value) × (response_from_json json dir
        (response_to_json json dir extra_response)
      ≡ some got)
    × SameResponse json dir json-IsLawful parses extra_response got
response_from_json-response_to_json_example =
    response_from_json-response_to_json json dir json-IsLawful parses extra_response
      minimal-IsPrintable

-- Without an output the print has null for the outputs, which is no object to read.
no_outputs : drv_from_json json dir (drv_to_json json dir (record minimal { outputs = [] })) ≡ none
unfolding drv_from_json drv_to_json find
no_outputs = refl

rereads_response :
    response_from_json json dir (response_to_json json dir stats_response) ≡ some stats_response
unfolding response_from_json response_to_json find
rereads_response = refl
