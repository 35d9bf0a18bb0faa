-- ===== src/Constituents/Reported.antt =====
-- What the branch of a cycle of handleConstituents leaves of the jobs.
use nix_eval_jobs.Prelude.{
  ◌≡◌, ◌≤◌, Bool, bit, refl, sym, ◌∙◌, ap, List, [], ◌∷◌, Option, none, some, true, false, Bytes,
  Ord, if◌then◌else◌, find, find-insert_or_assign, ◌=?◌, =?_iff, =?_refl, list_ord, nat_ord, count,
  arith, Bool-cases, inl, inr, ◌||◌,
}
use nix_eval_jobs.Constituents.{DependencyCycle}
use nix_eval_jobs.Constituents.Rewrite.{Store, JobJson, Rewriting}
use nix_eval_jobs.Constituents.Handle.{
  message, skipped, job_at, mark_job, print_job, skip_all, report_cycle,
}

bit-le : (b : Bool) → bit b ≤ 1
bit-le b = ground arith

module _ {S P X J : Type 0} ⦃o : Ord P⦄ (store : Store S P X) (json : JobJson J) (null : J) where
  abbrev marked : Bytes → Bytes → Rewriting S J → Option J
  marked error name r = some (json.set_error error (job_at store json null name r.jobs))

  find-mark_job :
      (k j error : Bytes) (r : Rewriting S J)
      → find j (mark_job store json null k error r).jobs
        ≡ (if j =? k then marked error k r else find j r.jobs)
  unfolding mark_job
  find-mark_job k j error r = find-insert_or_assign k j _ r.jobs

  mark_job-same :
      (k error : Bytes) (r : Rewriting S J)
      → find k (mark_job store json null k error r).jobs ≡ marked error k r
  mark_job-same k error r = find-mark_job k k error r ∙ rw (=?_refl k) refl

  mark_job-other :
      (k j error : Bytes) (r : Rewriting S J)
      → (j =? k) ≡ false
      → find j (mark_job store json null k error r).jobs ≡ find j r.jobs
  mark_job-other k j error r h = find-mark_job k j error r ∙ rw h refl

  skip_all-other :
      (names : List Bytes) (name : Bytes) (r : Rewriting S J)
      → count name names ≡ 0
      → find name (skip_all store json null names r).jobs ≡ find name r.jobs
  unfolding skip_all print_job
  skip_all-other [] name r h = refl
  skip_all-other (k ∷ names) name r h =
      skip_all-other names name _ (ground arith) ∙ mark_job-other k name skipped r (ground arith)

  skip_all-listed :
      (names : List Bytes) (name : Bytes) (r : Rewriting S J)
      → count name names ≡ 1
      → find name (skip_all store json null names r).jobs ≡ marked skipped name r
  unfolding skip_all print_job
  skip_all-listed [] name r h = absurd (omega arith)
  skip_all-listed (k ∷ names) name r h = elim (Bool-cases (name =? k)) [
    | inl e ↦
        let same : name ≡ k = (=?_iff name k).0 e in
        skip_all-other names name _ (ground arith)
        ∙ find-mark_job k name skipped r
        ∙ rw e (ap (λ x. marked skipped x r) (sym same))
    | inr e ↦
        skip_all-listed names name _ (ground arith)
        ∙ ap (λ j. some (json.set_error skipped (elim j [ none ↦ null | some job ↦ job ])))
            (mark_job-other k name skipped r e)
  ]

  marked-same :
      (error name : Bytes) (r r' : Rewriting S J)
      → find name r.jobs ≡ find name r'.jobs
      → marked error name r ≡ marked error name r'
  marked-same error name r r' h =
      ap (λ j. some (json.set_error error (elim j [ none ↦ null | some job ↦ job ]))) h

  -- The lines of jobs as they were, with an error set in each, the latest first.
  abbrev pub line_with : Bytes → Rewriting S J → Bytes → Bytes
  line_with error r name = json.dump (json.set_error error (job_at store json null name r.jobs))

  abbrev pub lines_with : Bytes → Rewriting S J → List Bytes → List Bytes → List Bytes
  lines_with error r [] before = before
  lines_with error r (name ∷ names) before =
      lines_with error r names (line_with error r name ∷ before)

  -- The line of a job that was marked.
  marked-line :
      (name error : Bytes) (r r' : Rewriting S J)
      → find name r'.jobs ≡ marked error name r
      → json.dump (job_at store json null name r'.jobs) ≡ line_with error r name
  marked-line name error r r' h = ap (λ j. json.dump (elim j [ none ↦ null | some job ↦ job ])) h

  skip_all-lines :
      (names : List Bytes) (r r' : Rewriting S J)
      → ((name : Bytes) → count name names ≤ 1)
      → ((name : Bytes) → 1 ≤ count name names → find name r'.jobs ≡ find name r.jobs)
      → (skip_all store json null names r').printed ≡ lines_with skipped r names r'.printed
  unfolding skip_all print_job mark_job
  skip_all-lines [] r r' once same = refl
  skip_all-lines (k ∷ names) r r' once same =
      let r1 = mark_job store json null k skipped r' in
      let rest =
        skip_all-lines names r (print_job store json null k r1)
          (λ n. omega (arith, once n, bit-le (n =? k)))
          (λ n h.
            mark_job-other k n skipped r' (apart n h)
            ∙ same n (omega (arith, h, bit-le (n =? k)))) in
      let line = marked-line k skipped r r1 (
        mark_job-same k skipped r'
        ∙ marked-same skipped k r' r (same k (ground (arith, =?_refl k)))) in
      rest ∙ ap (λ x. lines_with skipped r names (x ∷ r'.printed)) line
    where
      apart : (n : Bytes) → 1 ≤ count n names → (n =? k) ≡ false
      apart n h = ground (arith, once n)

  -- The jobs and the lines after a cycle was reported.
  pub record Reported (c : DependencyCycle) (r r' : Rewriting S J) : Type 0 where
    pub on_cycle :
        (name : Bytes)
        → ((name =? c.a) || (name =? c.b)) ≡ true
        → find name r'.jobs ≡ marked (message c) name r
    pub on_remaining :
        (name : Bytes)
        → ((name =? c.a) || (name =? c.b)) ≡ false
        → count name c.remaining_aggregates ≡ 1
        → find name r'.jobs ≡ marked skipped name r
    pub on_others :
        (name : Bytes)
        → ((name =? c.a) || (name =? c.b)) ≡ false
        → count name c.remaining_aggregates ≡ 0
        → find name r'.jobs ≡ find name r.jobs
    pub lines :
        r'.printed
        ≡ lines_with skipped r c.remaining_aggregates
            (line_with (message c) r c.b ∷ line_with (message c) r c.a ∷ r.printed)
    pub store_kept : r'.store ≡ r.store

  skip_all-store :
      (names : List Bytes) (r : Rewriting S J) → (skip_all store json null names r).store ≡ r.store
  unfolding skip_all print_job mark_job
  skip_all-store [] r = refl
  skip_all-store (k ∷ names) r = skip_all-store names _

  neither :
      (c : DependencyCycle) (r : Rewriting S J) (name : Bytes)
      → ((name =? c.a) || (name =? c.b)) ≡ false
      → find name
          (mark_job store json null c.b
            (message c)
            (mark_job store json null c.a (message c) r)).jobs
        ≡ find name r.jobs
  neither c r name h =
      mark_job-other c.b name (message c) _ (ground arith)
      ∙ mark_job-other c.a name (message c) r (ground arith)

  both :
      (c : DependencyCycle) (r : Rewriting S J) (name : Bytes)
      → (c.b =? c.a) ≡ false
      → ((name =? c.a) || (name =? c.b)) ≡ true
      → find name
          (mark_job store json null c.b
            (message c)
            (mark_job store json null c.a (message c) r)).jobs
        ≡ marked (message c) name r
  both c r name apart h = elim (Bool-cases (name =? c.b)) [
    | inl e ↦
        let same : name ≡ c.b = (=?_iff name c.b).0 e in
        ap
          (λ n.
            find n
              (mark_job store json null c.b (message c)
                (mark_job store json null c.a (message c) r)).jobs)
          same
        ∙ mark_job-same c.b (message c) _
        ∙ marked-same (message c) c.b (mark_job store json null c.a (message c) r) r
            (mark_job-other c.a c.b (message c) r apart)
        ∙ ap (λ n. marked (message c) n r) (sym same)
    | inr e ↦
        let same : name ≡ c.a = (=?_iff name c.a).0 (ground arith) in
        mark_job-other c.b name (message c) _ e
        ∙ ap (λ n. find n (mark_job store json null c.a (message c) r).jobs) same
        ∙ mark_job-same c.a (message c) r
        ∙ ap (λ n. marked (message c) n r) (sym same)
  ]

  unlisted :
      (c : DependencyCycle) (name : Bytes)
      → count c.a c.remaining_aggregates ≡ 0
      → count c.b c.remaining_aggregates ≡ 0
      → ((name =? c.a) || (name =? c.b)) ≡ true
      → count name c.remaining_aggregates ≡ 0
  unlisted c name not_a not_b h = elim (Bool-cases (name =? c.a)) [
    | inl e ↦ ap (λ n. count n c.remaining_aggregates) ((=?_iff name c.a).0 e) ∙ not_a
    | inr e ↦ ap (λ n. count n c.remaining_aggregates) ((=?_iff name c.b).0 (ground arith)) ∙ not_b
  ]

  listed_apart :
      (c : DependencyCycle) (name : Bytes)
      → count c.a c.remaining_aggregates ≡ 0
      → count c.b c.remaining_aggregates ≡ 0
      → 1 ≤ count name c.remaining_aggregates
      → ((name =? c.a) || (name =? c.b)) ≡ false
  listed_apart c name not_a not_b h = elim (Bool-cases ((name =? c.a) || (name =? c.b))) [
    | inl e ↦ absurd (omega (arith, h, unlisted c name not_a not_b e))
    | inr e ↦ e
  ]

  or-left : (c : DependencyCycle) → ((c.a =? c.a) || (c.a =? c.b)) ≡ true
  or-left c = rw (=?_refl c.a) refl

  or-right : (c : DependencyCycle) → ((c.b =? c.a) || (c.b =? c.b)) ≡ true
  or-right c = ground (arith, =?_refl c.b)

  cons-eq : {x x' y y' : Bytes} → x ≡ x' → y ≡ y' → (l : List Bytes) → x ∷ y ∷ l ≡ x' ∷ y' ∷ l
  cons-eq e e' l = λ i. e i ∷ e' i ∷ l

  -- The report of a cycle between two jobs and aggregates that remain, each of them listed once
  -- and none of the two: the two jobs get the message of the cycle as their error, an aggregate that
  -- remains gets the one that it is skipped, and no other job changes. The lines of the two and then
  -- of the others, in their order, are printed after what was printed: each is the text of the job
  -- with that error. The store stays.
  pub report_cycle-Reported :
      (c : DependencyCycle) (r : Rewriting S J)
      → (c.b =? c.a) ≡ false
      → ((name : Bytes) → count name c.remaining_aggregates ≤ 1)
      → count c.a c.remaining_aggregates ≡ 0
      → count c.b c.remaining_aggregates ≡ 0
      → Reported c r (report_cycle store json null c r)
  unfolding report_cycle print_job mark_job
  report_cycle-Reported c r apart once not_a not_b =
      let r1 = mark_job store json null c.a (message c) r in
      let r2 = mark_job store json null c.b (message c) r1 in
      record {
        on_cycle = λ name h.
            skip_all-other c.remaining_aggregates name _ (unlisted c name not_a not_b h)
            ∙ both c r name apart h;
        on_remaining = λ name h once'.
            skip_all-listed c.remaining_aggregates name _ once'
            ∙ marked-same skipped name r2 r (neither c r name h);
        on_others =
            λ name h left. skip_all-other c.remaining_aggregates name _ left ∙ neither c r name h;
        lines =
            skip_all-lines c.remaining_aggregates r _ once
              (λ name h. neither c r name (listed_apart c name not_a not_b h))
            ∙ ap (λ x. lines_with skipped r c.remaining_aggregates x)
                (cons-eq (marked-line c.b (message c) r r2 (both c r c.b apart (or-right c)))
                  (marked-line c.a (message c) r r2 (both c r c.a apart (or-left c))) r.printed);
        store_kept = skip_all-store c.remaining_aggregates _;
      }
