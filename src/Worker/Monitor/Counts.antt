-- ===== src/Worker/Monitor/Counts.antt =====
-- What the counts of a snapshot are.
use clipper_ai.Base.{
  ℕ, ◌+◌, ◌≤◌, ◌≡◌, refl, ◌↔◌, true, false, List, [], ◌∷◌, arith, filter, length, All,
}
use clipper_ai.Store.Jobs.{JobRecord, is_queued, is_held, is_expired}
use clipper_ai.Worker.Monitor.{
  QueueSnapshot, healthy, stalled_after, count_jobs, count_job, snapshot, no_jobs, is_dead,
}

module _ (now window : ℕ) where
  count_jobs-counts :
      (rs : List JobRecord) (q : QueueSnapshot)
      → let s = count_jobs now window rs q in
        (s.waiting ≡ q.waiting + length (filter (λ r. is_queued r.state) rs))
        × (s.held ≡ q.held + length (filter (λ r. is_held r.state) rs))
        × (s.buried ≡ q.buried + length (filter (λ r. is_dead r.state) rs))
        × (s.stale_leases ≡ q.stale_leases + length (filter (is_expired now) rs))
  unfolding count_jobs
  count_jobs-counts [] q = ground arith
  count_jobs-counts (r ∷ rs) q =
      ground (arith, count_jobs-counts rs (count_job now window r.state r q))

  -- The counts of a snapshot are the numbers of rows that wait, are held and are dead, and its
  -- stale leases are the rows whose lease a reap at that instant would take back.
  pub snapshot_counts :
      (rs : List JobRecord)
      → let s = snapshot now window rs in
        (s.waiting ≡ length (filter (λ r. is_queued r.state) rs))
        × (s.held ≡ length (filter (λ r. is_held r.state) rs))
        × (s.buried ≡ length (filter (λ r. is_dead r.state) rs))
        × (s.stale_leases ≡ length (filter (is_expired now) rs))
  unfolding snapshot
  snapshot_counts rs = ground (arith, count_jobs-counts rs no_jobs)

  -- A row that no operator has to look at.
  abbrev pub IsFine : JobRecord → Type 0
  IsFine r =
      (is_expired now r ≡ false) × (is_queued r.state ≡ true → now ≤ r.run_after + stalled_after)

  healthy-count_job :
      (r : JobRecord) (q : QueueSnapshot)
      → healthy (count_job now window r.state r q) ≡ true ↔ (healthy q ≡ true) × IsFine r
  unfolding healthy
  healthy-count_job r q = ground arith

  healthy-count_jobs :
      (rs : List JobRecord) (q : QueueSnapshot)
      → healthy (count_jobs now window rs q) ≡ true ↔ (healthy q ≡ true) × All IsFine rs
  unfolding count_jobs
  healthy-count_jobs [] q = ground arith
  healthy-count_jobs (r ∷ rs) q =
      let (a, b) = healthy-count_job r q in
      let (c, d) = healthy-count_jobs rs (count_job now window r.state r q) in
      (
        (λ h. let (h1, h2) = c h in let (h3, h4) = a h1 in (h3, (h4, h2))),
        (λ h. d (b (h.0, h.1.0), h.1.1)),
      )

  -- A queue is healthy exactly when no held job's lease has expired and no queued job has waited
  -- for more than an hour since it became ready.
  pub healthy-snapshot :
      (rs : List JobRecord) → healthy (snapshot now window rs) ≡ true ↔ All IsFine rs
  unfolding snapshot healthy
  healthy-snapshot rs =
      let (a, b) = healthy-count_jobs rs no_jobs in ((λ h. (a h).1), (λ h. b (refl, h)))
