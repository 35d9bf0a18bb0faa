-- ===== src/Examples/Named.antt =====
-- Three jobs: a good one, a broken one, and an aggregate that names both and one that is missing.
use nix_eval_jobs.Prelude.{
  ◌≡◌, refl, List, [], ◌∷◌, Option, none, some, Bool, Bytes, Map, map, find, if◌then◌else◌, ◌=?◌,
  insert, insert_or_assign, list_ord, nat_ord,
}
use nix_eval_jobs.Messages.{ascii}
use nix_eval_jobs.Constituents.{AggregateJob}
use nix_eval_jobs.Constituents.Resolve.{Json, aggregate_of}
use nix_eval_jobs.Constituents.Picked.{Resolves, aggregate_of-Resolves}

data Value : Type 0 where
  text : Bytes → Value
  texts : List Bytes → Value
  job : List Bytes → Option Bytes → Value

abbrev text_opt : Option Bytes → Option Value
text_opt none = none
text_opt (some t) = some (text t)

abbrev field : Bytes → Value → Option Value
field key (text t) = none
field key (texts ts) = none
field key (job named error) =
    if key =? ascii "namedConstituents"
    then some (texts named)
    else if key =? ascii "error"
    then text_opt error
    else none

abbrev items : Value → List Value
items (text t) = text t ∷ []
items (texts ts) = map text ts
items (job named error) = []

abbrev to_text : Value → Option Bytes
to_text (text t) = some t
to_text (texts ts) = none
to_text (job named error) = none

abbrev json : Json Value
json = record { find_field = field; elements = items; as_string = to_text; as_bool = λ v. none }

abbrev equals : Bytes → Bytes → Bool
equals pattern name = pattern =? name

abbrev every : Value
every = job (ascii "good" ∷ ascii "bad" ∷ ascii "gone" ∷ []) none

abbrev jobs : Map Bytes Value
jobs =
    (ascii "all", every)
    ∷ (ascii "bad", job [] (some (ascii "oops")))
    ∷ (ascii "good", job [] none)
    ∷ []

abbrev resolved : AggregateJob
resolved = record {
  name = ascii "all";
  dependencies = ascii "good" ∷ [];
  broken_jobs = (ascii "bad", ascii "oops") ∷ (ascii "gone", ascii "does not exist") ∷ [];
}

resolves : aggregate_of json equals jobs (ascii "all") every ≡ some resolved
unfolding aggregate_of find insert insert_or_assign
resolves = refl

aggregate_of-Resolves_example : Resolves json equals jobs every resolved
aggregate_of-Resolves_example =
    aggregate_of-Resolves json equals jobs (ascii "all") every resolved resolves
