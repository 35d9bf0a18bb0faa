-- ===== src/Scheduler/Memory/Victim.antt =====
-- The worker that sampleMemory of src/nix-eval-jobs.cc kills.
use nix_eval_jobs.Prelude.{
  ℕ, suc, ◌+◌, ◌≤◌, ◌≡◌, inl, inr, refl, subst, List, [], ◌∷◌, Option, none, some, Bool, true,
  false, ◌&&◌, get_elem?, Bool-cases, arith, if◌then◌else◌,
}
use nix_eval_jobs.Scheduler.Phase.{Phase}
use nix_eval_jobs.Scheduler.State.{Worker, is_phase}
use nix_eval_jobs.Scheduler.Memory.{larger, pick_victim, sample_all}
use nix_eval_jobs.Scheduler.Handlers.{sample_rss}
use nix_eval_jobs.Scheduler.Spec.{Resized, nil, cons}

abbrev pub is_busy : Worker → Bool
is_busy w = is_phase Phase.busy w.phase

-- No busy worker of the list is larger than the choice, and there is a choice if there is one.
abbrev pub Covers : Option (ℕ × ℕ) → List Worker → Type 0
Covers best [] = Unit {0}
Covers none (w ∷ ws) = (is_busy w ≡ false) × Covers none ws
Covers (some (k, size)) (w ∷ ws) = (is_busy w ≡ true → w.rss ≤ size) × Covers (some (k, size)) ws

-- The choice is a busy worker of the list, with its size.
abbrev pub Chosen : List Worker → Option (ℕ × ℕ) → Type 0
Chosen ws none = Unit {0}
Chosen ws (some (k, size)) =
    (w : Worker) × (get_elem? ws k ≡ some w) × (is_busy w ≡ true) × (w.rss ≡ size)

abbrev next_best : Option (ℕ × ℕ) → ℕ → Worker → Option (ℕ × ℕ)
next_best best idx w = if is_busy w && larger w best then some (idx, w.rss) else best

next_best-Chosen :
    (ws : List Worker) (best : Option (ℕ × ℕ)) (idx : ℕ) (w : Worker)
    → get_elem? ws idx ≡ some w
    → Chosen ws best
    → Chosen ws (next_best best idx w)
next_best-Chosen ws best idx w at c = elim (Bool-cases (is_busy w && larger w best)) [
  | inl h ↦ rw h (w, at, ground arith, refl)
  | inr h ↦ rw h c
]

pub pick_victim-Chosen :
    (all ws : List Worker) (best : Option (ℕ × ℕ)) (idx : ℕ)
    → ((j : ℕ) (w : Worker) → get_elem? ws j ≡ some w → get_elem? all (j + idx) ≡ some w)
    → Chosen all best
    → Chosen all (pick_victim best idx ws)
unfolding pick_victim
pick_victim-Chosen all [] best idx sub c = c
pick_victim-Chosen all (w ∷ ws) best idx sub c =
    pick_victim-Chosen all ws _ (suc idx)
      (λ j x at. subst (λ n. get_elem? all n ≡ some x) (omega arith) (sub (suc j) x at))
      (next_best-Chosen all best idx w
        (subst (λ n. get_elem? all n ≡ some w) (omega arith) (sub 0 w refl)) c)

abbrev AtLeast : Option (ℕ × ℕ) → Option (ℕ × ℕ) → Type 0
AtLeast none r = Unit {0}
AtLeast (some (k, size)) none = ⊥
AtLeast (some (k, size)) (some (j, larger')) = size ≤ larger'

AtLeast-refl : (r : Option (ℕ × ℕ)) → AtLeast r r
AtLeast-refl none = tt
AtLeast-refl (some (k, size)) = omega arith

Covers-step :
    (best r : Option (ℕ × ℕ)) (idx : ℕ) (w : Worker) (ws : List Worker)
    → AtLeast (next_best best idx w) r
    → Covers r ws
    → AtLeast best r × Covers r (w ∷ ws)
Covers-step none none idx w ws h c = (tt, (ground arith, c))
Covers-step none (some (j, size)) idx w ws h c = (tt, (λ busy. ground arith, c))
Covers-step (some (k, size)) none idx w ws h c = ground arith
Covers-step (some (k, size)) (some (j, more)) idx w ws h c =
    (ground arith, (λ busy. ground arith, c))

pub pick_victim-Covers :
    (ws : List Worker) (best : Option (ℕ × ℕ)) (idx : ℕ)
    → AtLeast best (pick_victim best idx ws) × Covers (pick_victim best idx ws) ws
unfolding pick_victim
pick_victim-Covers [] best idx = (AtLeast-refl best, tt)
pick_victim-Covers (w ∷ ws) best idx =
    let (least, covers) = pick_victim-Covers ws (next_best best idx w) (suc idx) in
    Covers-step best _ idx w ws least covers

-- sampleMemory picks a busy worker that no busy worker exceeds in size, and finds none only if
-- no worker is busy.
pub pick_victim-largest :
    (ws : List Worker) → Chosen ws (pick_victim none 0 ws) × Covers (pick_victim none 0 ws) ws
pick_victim-largest ws = (
  pick_victim-Chosen ws ws none 0 (λ j w at. subst (λ n. get_elem? ws n ≡ some w) (omega arith) at)
      tt,
  (pick_victim-Covers ws none 0).1,
)

pub sample_all-Resized :
    (rss : ℕ → ℕ) (idx : ℕ) (ws : List Worker) → Resized ws (sample_all rss idx ws)
unfolding sample_all sample_rss
sample_all-Resized rss idx [] = nil
sample_all-Resized rss idx (w ∷ ws) = cons w _ (sample_all-Resized rss (suc idx) ws)
