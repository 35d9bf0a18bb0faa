-- ===== src/Scheduler/State.antt =====
-- The state of `Scheduler` in src/nix-eval-jobs.cc, its counters, and what it takes from other
-- packages. `P` stands for nix::StorePath and `J` for nlohmann::json. Sizes are in MiB.
use nix_eval_jobs.Prelude.{
  ℕ, ◌+◌, ◌-◌, ◌*◌, List, [], ◌∷◌, Option, none, some, Bool, true, false, ◌&&◌, ◌||◌, Bytes, Map,
  ltb, leb, ◌==◌, if◌then◌else◌, size_t, count_if, is_empty, get_elem?, set, is_some, replicate,
}
use nix_eval_jobs.Response.{Response, AttrPath}
use nix_eval_jobs.Proc.{Proc, Exit}
use nix_eval_jobs.Scheduler.Phase.{Phase, Mode}

-- What `value("error", "")` gives of a line that is a JSON object: the string under "error", or the
-- exception of one that is no string. A line that is no object has none.
pub data ErrorField : Type 0 where
  no_field : ErrorField
  field : Bytes → ErrorField
  not_text : ErrorField

-- The JSON library and the serialisation of a response. `parse_response` is JSON parsing followed
-- by the reading of a Response, `error_field` what a line has under "error", `dump_path` the text of an attribute path as a JSON array, and
-- `over_budget` the formatted message for a job that exceeds the budget alone.
pub record Wire (P J : Type 0) : Type 0 where
  pub parse_response : Bytes → Option (Response P J × J)
  pub to_json : Response P J → J
  pub dump : J → Bytes
  pub error_field : Bytes → ErrorField
  pub dump_path : AttrPath → Bytes
  pub over_budget : ℕ → Bytes

-- `attr_path` is `none` where the source has a null.
pub record Worker : Type 0 where
  pub proc : Option Proc
  pub phase : Phase
  pub attr_path : Option AttrPath
  pub rss : ℕ
  pub start_rss : ℕ

-- What leaves the scheduler: the map of jobs, the lines on stdout, the responses handed to the
-- cache-status resolver, the processes that got SIGKILL, and the lines sent to workers. The lists
-- have the newest entry first.
pub record Io (P J : Type 0) : Type 0 where
  pub jobs : Map Bytes J
  pub printed : List Bytes
  pub pushed : List (Response P J)
  pub signals : List ℕ
  pub sent : List (ℕ × Bytes)

-- The head of `solo` is the back of the vector; `resolver` says whether the pointer to the
-- resolver is set; `last_sample` is in milliseconds.
pub record Scheduler (P J : Type 0) : Type 0 where
  pub resolver : Bool
  pub budget : ℕ
  pub todo : List AttrPath
  pub solo : List AttrPath
  pub mode : Mode
  pub estimate : ℕ
  pub workers : List Worker
  pub last_sample : ℕ
  pub io : Io P J

-- What ends `run` by an exception. A `fault` is a null pointer, an index out of range or an empty
-- vector, where the source has undefined behaviour; `out_of_fuel` is an end of the model only.
pub data Error : Type 0 where
  fault : Error
  out_of_fuel : Error
  worker_error : Bytes → Error
  error_not_text : Error
  unexpected_line : Bytes → Error
  unexpected_idle_line : Bytes → Error
  invalid_json : Bytes → Error
  fatal_error : Bytes → Error
  process_exit : Exit → Error
  spawn_failed : Error
  poll_failed : Error
  read_failed : Error

-- An exception leaves behind what was printed and sent before it.
pub data Result {ℓ} (P J : Type 0) (A : Type ℓ) : Type ℓ where
  ok : A → Result P J A
  err : Error → Io P J → Result P J A

infixl 5 ◌>>=◌
abbrev pub ◌>>=◌ {ℓ κ} :
    {P J : Type 0} {A : Type ℓ} {B : Type κ} → Result P J A → (A → Result P J B) → Result P J B
ok a >>= f = f a
err e io >>= f = err e io

abbrev pub initial_estimate : ℕ
initial_estimate = 512

abbrev pub decay_percent : ℕ
decay_percent = 98

abbrev pub sample_interval : ℕ
sample_interval = 200

-- Worker{}
unfoldable pub no_worker : Worker
no_worker = record { proc = none; phase = Phase.none; attr_path = none; rss = 0; start_rss = 0 }

abbrev pub is_phase : Phase → Phase → Bool
is_phase Phase.none Phase.none = true
is_phase Phase.starting Phase.starting = true
is_phase Phase.idle Phase.idle = true
is_phase Phase.busy Phase.busy = true
is_phase Phase.killed Phase.killed = true
is_phase Phase.exiting Phase.exiting = true
is_phase _ _ = false

abbrev pub is_solo : Mode → Bool
is_solo Mode.parallel = false
is_solo Mode.solo = true

-- Worker::running
abbrev pub is_running : Worker → Bool
is_running w = is_phase Phase.busy w.phase || is_phase Phase.killed w.phase

-- Worker::growth
unfoldable pub growth : Worker → ℕ
growth w = if ltb w.start_rss w.rss then w.rss - w.start_rss else 0

unfoldable pub running : List Worker → ℕ
running ws = count_if is_running ws

unfoldable pub count_phase : Phase → List Worker → ℕ
count_phase ph ws = count_if (λ w. is_phase ph w.phase) ws

unfoldable pub any_worker_alive : List Worker → Bool
any_worker_alive [] = false
any_worker_alive (w ∷ ws) = is_some w.proc || any_worker_alive ws

-- From the collector's own memory; every sum is a size_t.
unfoldable pub total_rss : ℕ → List Worker → ℕ
total_rss sum [] = sum
total_rss sum (w ∷ ws) = total_rss (size_t (sum + w.rss)) ws

module _ {P J : Type 0} where
  -- The constructor: one job, the empty attribute path, and `nrWorkers` empty slots.
  unfoldable pub make : ℕ → ℕ → Bool → Scheduler P J
  unfolding no_worker
  make nr_workers max_memory_size resolver = record {
    resolver = resolver;
    budget = size_t (nr_workers * max_memory_size);
    todo = [] ∷ [];
    solo = [];
    mode = Mode.parallel;
    estimate = initial_estimate;
    workers = replicate nr_workers no_worker;
    last_sample = 0;
    io = record { jobs = []; printed = []; pushed = []; signals = []; sent = [] };
  }

  unfoldable pub finished : Scheduler P J → Bool
  finished s = is_empty s.todo && is_empty s.solo && running s.workers == 0

  -- `own` is the resident memory of the collector.
  unfoldable pub fits_budget : ℕ → Scheduler P J → Bool
  fits_budget own s =
      let busy = count_phase Phase.busy s.workers in
      busy == 0
      || leb (size_t (total_rss own s.workers + size_t ((busy + 1) * s.estimate))) s.budget

  -- `workers[idx] = w`
  abbrev pub put_worker : ℕ → Worker → Scheduler P J → Scheduler P J
  put_worker idx w s = record s { workers = set s.workers idx w }

  abbrev pub throw {ℓ} : {A : Type ℓ} → Error → Scheduler P J → Result P J A
  throw e s = err e s.io

  -- `workers[idx]`
  abbrev pub worker_at : ℕ → Scheduler P J → Result P J Worker
  worker_at idx s = elim (get_elem? s.workers idx) [ none ↦ throw fault s | some w ↦ ok w ]

  -- `*w.proc`
  abbrev pub proc_of : Worker → Scheduler P J → Result P J Proc
  proc_of w s = elim w.proc [ none ↦ throw fault s | some p ↦ ok p ]
