-- ===== src/Resolver/Inbox.antt =====
-- The inbox of CacheStatusResolver in cache-status-resolver.cc, and the body of its thread's loop.
-- What the sink was given is a list, the latest first.
use nix_eval_jobs.Prelude.{
  ℕ, List, [], ◌∷◌, ◌++◌, Option, none, some, Bool, true, ◌&&◌, ◌||◌, not, Ord, if◌then◌else◌,
  is_empty,
}
use nix_eval_jobs.Drv.{Drv}
use nix_eval_jobs.Response.{Response, Payload}
use nix_eval_jobs.Resolver.{Stores, Resolver, resolve_wanted}
use nix_eval_jobs.Resolver.Walk.{PathText, try_resolve}

-- The fields that the threads share, and whether an exception of the thread is kept.
pub record Inbox (P J : Type 0) : Type 0 where
  pub inbox : List (Response P J)
  pub closed : Bool
  pub failed : Bool
  pub aborted : Bool

-- A job that waits: its response, and the derivation in it.
pub record Waiting (P J : Type 0) : Type 0 where
  pub response : Response P J
  pub drv : Drv P J
  pub extra : Option J

module _ {P J : Type 0} where
  -- push
  unfoldable pub push : Response P J → Inbox P J → Inbox P J
  push response b =
      if b.closed || b.failed then b else record b { inbox = b.inbox ++ response ∷ [] }

  -- finish up to the join, and whether it then rethrows.
  unfoldable pub close : Inbox P J → Inbox P J
  close b = record b { closed = true }

  unfoldable pub rethrows : Inbox P J → Bool
  rethrows b = b.failed

  -- The handler of exceptions in `run`.
  unfoldable pub fail : Inbox P J → Inbox P J
  fail b = record b { failed = true; aborted = true }

  -- The condition that `run` waits for, and the one on which it then returns.
  unfoldable pub wakes : Inbox P J → Bool
  wakes b = not (is_empty b.inbox) || b.closed || b.aborted

  unfoldable pub returns : Inbox P J → Bool
  returns b = b.aborted || (b.closed && is_empty b.inbox)

  -- The loop of takeInbox: jobs join the end, anything else goes to the sink.
  unfoldable pub sort_taken :
      List (Response P J)
      → List (Waiting P J)
      → List (Response P J)
      → List (Waiting P J) × List (Response P J)
  sort_taken [] jobs sunk = (jobs, sunk)
  sort_taken (response ∷ taken) jobs sunk = elim response.payload [
    | Payload.job drv extra ↦
        sort_taken taken (jobs ++ record { response = response; drv = drv; extra = extra } ∷ [])
          sunk
    | Payload.attrs names ↦ sort_taken taken jobs (response ∷ sunk)
    | Payload.error msg fatal ↦ sort_taken taken jobs (response ∷ sunk)
  ]

  -- takeInbox
  unfoldable pub take_inbox :
      Inbox P J
      → List (Waiting P J)
      → List (Response P J)
      → Inbox P J × (List (Waiting P J) × List (Response P J))
  unfolding sort_taken
  take_inbox b jobs sunk = (record b { inbox = [] }, sort_taken b.inbox jobs sunk)

  module _ ⦃o : Ord P⦄ (fuel : ℕ) (stores : Stores P) (text : PathText P) where
    abbrev pub answered : Waiting P J → Drv P J → Response P J
    answered w drv = record w.response { payload = Payload.job drv w.extra }

    -- std::erase_if over the jobs: the resolved ones go to the sink, the others stay.
    unfoldable pub resolve_jobs :
        List (Waiting P J)
        → List (Response P J)
        → Resolver P
        → Option (Resolver P × (List (Waiting P J) × List (Response P J)))
    resolve_jobs [] sunk r = some (r, ([], sunk))
    resolve_jobs (w ∷ jobs) sunk r = elim (try_resolve text fuel stores w.drv r) [
      | none ↦ none
      | some (r', some drv) ↦ resolve_jobs jobs (answered w drv ∷ sunk) r'
      | some (r', none) ↦ elim (resolve_jobs jobs sunk r') [
        | none ↦ none
        | some (r'', (stay, sunk')) ↦ some (r'', (w ∷ stay, sunk'))
      ]
    ]

    -- The body of the inner loop of `run`.
    unfoldable pub batch :
        Inbox P J
        → List (Waiting P J)
        → List (Response P J)
        → Resolver P
        → Option (Inbox P J × (List (Waiting P J) × (List (Response P J) × Resolver P)))
    unfolding resolve_jobs take_inbox
    batch b jobs sunk r = elim (resolve_jobs jobs sunk r) [
      | none ↦ none
      | some (r', (stay, sunk')) ↦
          let (b', (jobs', sunk'')) = take_inbox b stay sunk' in
          some (b', (jobs', (sunk'', resolve_wanted stores r')))
    ]
