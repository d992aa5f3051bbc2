-- ===== src/Worker/Monitor.antt =====
-- src/clipforge/worker/monitor.py: the counts of a tenant's queue, and the requeueing of dead jobs.
-- Durations are microseconds. The notes, texts for a dashboard, are left out.
pub mod Requeue
pub mod Counts
use clipper_ai.Base.{
  ℕ, ◌+◌, ◌-◌, String, Bool, true, false, not, ◌&&◌, ◌||◌, Option, none, some, List, [], ◌∷◌, ◌==◌,
  if◌then◌else◌, ltb, leb, eqb, max, seconds, Result, ok, err, pure, ◌>>=◌, ◌>>◌,
}
use clipper_ai.Store.Unit.{Tables, StoreError, transaction}
use clipper_ai.Store.Repository.{all, save}
use clipper_ai.Store.Jobs.{
  JobState, queued, leased, running, succeeded, failed, dead, JobRecord, Jobs, jobs_table,
}

abbrev pub stalled_after : ℕ
stalled_after = seconds 3600

pub record QueueSnapshot : Type 0 where
  pub waiting : ℕ
  pub held : ℕ
  pub buried : ℕ
  pub succeeded_recently : ℕ
  -- `oldest_queued_s`
  pub oldest_queued : Option ℕ
  pub stale_leases : ℕ

-- `healthy`
abbrev pub is_stalled : Option ℕ → Bool
is_stalled none = false
is_stalled (some age) = ltb stalled_after age

unfoldable pub healthy : QueueSnapshot → Bool
healthy q = eqb q.stale_leases 0 && not (is_stalled q.oldest_queued)

abbrev pub older : Option ℕ → ℕ → Option ℕ
older none age = some age
older (some oldest) age = some (max oldest age)

-- A queued job: its age counts from `run_after`, if that has come.
abbrev pub count_queued : ℕ → JobRecord → QueueSnapshot → QueueSnapshot
count_queued now r q = record q {
  waiting = q.waiting + 1;
  oldest_queued =
      if ltb r.run_after now then older q.oldest_queued (now - r.run_after) else q.oldest_queued;
}

abbrev pub one_if : Bool → ℕ
one_if true = 1
one_if false = 0

abbrev pub is_before : Option ℕ → ℕ → Bool
is_before none now = false
is_before (some t) now = ltb t now

abbrev pub count_held : ℕ → JobRecord → QueueSnapshot → QueueSnapshot
count_held now r q = record q {
  held = q.held + 1;
  stale_leases = q.stale_leases + one_if (is_before r.lease_until now);
}

-- `(moment - finished_at) <= window`
abbrev pub is_recent : Option ℕ → ℕ → ℕ → Bool
is_recent none now window = false
is_recent (some t) now window = leb now (t + window)

abbrev pub count_job : ℕ → ℕ → JobState → JobRecord → QueueSnapshot → QueueSnapshot
count_job now window queued r q = count_queued now r q
count_job now window leased r q = count_held now r q
count_job now window running r q = count_held now r q
count_job now window dead r q = record q { buried = q.buried + 1 }
count_job now window succeeded r q = record q {
  succeeded_recently = q.succeeded_recently + one_if (is_recent r.finished_at now window);
}
count_job now window failed r q = q

unfoldable pub count_jobs : ℕ → ℕ → List JobRecord → QueueSnapshot → QueueSnapshot
count_jobs now window [] q = q
count_jobs now window (r ∷ rs) q = count_jobs now window rs (count_job now window r.state r q)

abbrev pub no_jobs : QueueSnapshot
no_jobs = record {
  waiting = 0;
  held = 0;
  buried = 0;
  succeeded_recently = 0;
  oldest_queued = none;
  stale_leases = 0;
}

-- `snapshot`, of the rows that the transaction read
unfoldable pub snapshot : ℕ → ℕ → List JobRecord → QueueSnapshot
snapshot now window rows = count_jobs now window rows no_jobs

-- `job.state != "dead" or (kind and job.kind != kind)`, negated
abbrev pub is_dead : JobState → Bool
is_dead dead = true
is_dead _ = false

abbrev pub is_revived : String → JobRecord → Bool
is_revived kind r = is_dead r.state && (kind == "" || r.kind == kind)

abbrev pub revive_row : ℕ → JobRecord → JobRecord
revive_row now r = record r {
  state = queued;
  attempts = 0;
  run_after = now;
  lease_owner = "";
  lease_until = none;
  finished_at = none;
}

-- The loop of `requeue_dead` over the rows, with `moved`.
unfoldable pub revive_rows : String → ℕ → ℕ → ℕ → List JobRecord → Jobs ℕ
revive_rows kind limit now moved [] u = pure moved u
revive_rows kind limit now moved (r ∷ rs) u =
    let (skipped, u') = revive_rows kind limit now moved rs u in
    if leb limit moved
    then (ok moved, u)
    else if is_revived kind r
    then (save jobs_table now (revive_row now r) >> revive_rows kind limit now (moved + 1) rs) u
    else (skipped, u')

unfoldable pub requeue_block : String → ℕ → ℕ → Jobs ℕ
requeue_block kind limit now = do rows ← all jobs_table; revive_rows kind limit now 0 rows

unfoldable pub requeue_dead :
    String → String → ℕ → ℕ → Tables JobRecord → Result StoreError ℕ × Tables JobRecord
requeue_dead tenant kind limit now t = transaction tenant (requeue_block kind limit now) t
