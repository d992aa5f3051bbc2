-- ===== src/Worker/Runtime.antt =====
-- src/clipforge/worker/runtime.py, without its threads and signals: a heartbeat is an event that
-- may come between two changes of the tables while a handler runs. Durations are microseconds.
pub mod Recording
pub mod Lost
pub mod Release
use clipper_ai.Base.{
  ℕ, ◌+◌, ◌-◌, ◌*◌, ◌/◌, ◌^◌, String, Bool, true, false, not, Option, none, some, List, [], ◌∷◌,
  ◌==◌, if◌then◌else◌, eqb, length, min, max, map, seconds, Result, ok, err, Exec, pure, gets,
  ◌>>=◌, ◌>>◌,
}
use clipper_ai.Base.Json.{Json, Items, nil, cons, Fields, end, str, arr, set_field, set_default}
use clipper_ai.Base.Text.{◌⧺◌, text_or}
use clipper_ai.Store.Unit.{Tables, StoreError, transaction}
use clipper_ai.Store.Repository.{get, save}
use clipper_ai.Store.Jobs.{
  JobRecord, Jobs, queued, jobs_table, claim, heartbeat, succeed, fail, reap,
}
use clipper_ai.Worker.Types.{
  JobSpec, Disposition, done, retry, fatal, Outcome, WorkerStats, record_stats, retry_outcome,
}
use clipper_ai.Worker.Chain.{enqueue_specs}

abbrev pub backoff_base : ℕ
backoff_base = seconds 15

abbrev pub backoff_cap : ℕ
backoff_cap = seconds 3600

-- `raw` of `backoff_seconds`
unfoldable pub backoff_raw : ℕ → ℕ
backoff_raw attempt = min backoff_cap (backoff_base * 2 ^ (attempt - 1))

-- `backoff_seconds` with the jitter that the runtime uses, a quarter. `uniform w` stands for a draw
-- from an interval of the width `w`, counted from its lower end.
unfoldable pub backoff_seconds : (ℕ → ℕ) → ℕ → ℕ
backoff_seconds uniform attempt =
    let raw = backoff_raw attempt in
    let spread = raw / 4 in max (seconds 1) ((raw - spread) + uniform (2 * spread))

-- The fields of `WorkerConfig` that the operations here read.
pub record WorkerConfig : Type 0 where
  pub kinds : List String
  pub lease_s : ℕ
  pub batch : ℕ
  pub tenants : List String
  pub owner : String

-- The tables and the counters of one worker process.
pub record Worker : Type 0 where
  pub tables : Tables JobRecord
  pub stats : WorkerStats

abbrev pub count_claimed : ℕ → WorkerStats → WorkerStats
count_claimed n w = record w { claimed = w.claimed + n }

abbrev pub claimed_rows :
    WorkerStats → Result StoreError (List JobRecord) × Tables JobRecord → List JobRecord × Worker
claimed_rows w (err e, t) = ([], record { tables = t; stats = w })
claimed_rows w (ok rows, t) = (rows, record { tables = t; stats = count_claimed (length rows) w })

-- `_claim`
unfoldable pub claim_jobs : WorkerConfig → String → ℕ → Worker → List JobRecord × Worker
claim_jobs c tenant now w =
    claimed_rows w.stats (transaction tenant (claim c.owner now c.lease_s c.kinds c.batch) w.tables)

abbrev pub texts : List String → Items
texts [] = nil
texts (t ∷ ts) = cons (str t) (texts ts)

abbrev pub or_empty : Option Fields → Fields
or_empty none = end
or_empty (some fs) = fs

abbrev pub with_detail : String → Fields → Fields
with_detail detail fs = if detail == "" then fs else set_default "detail" (str detail) fs

abbrev pub with_follow_on : List String → Fields → Fields
with_follow_on [] fs = fs
with_follow_on ids fs = set_field "follow_on" (arr (texts ids)) fs

-- `jobs.result` of a job that is done, but for its followers
abbrev pub result_fields : Json → Outcome → Fields
result_fields elapsed_s outcome =
    set_default "elapsed_s" elapsed_s (with_detail outcome.detail (or_empty outcome.result))

abbrev pub delay_or : ℕ → ℕ → ℕ
delay_or n other = if eqb n 0 then other else n

-- The ids that `uuid4` makes, the random draws, and `round(elapsed, 3)` as JSON.
pub record Surroundings : Type 0 where
  pub mint : ℕ → String
  pub uniform : ℕ → ℕ
  pub elapsed_s : Json

-- The block of `_record`: how many followers were queued.
unfoldable pub record_block : Surroundings → String → JobRecord → Disposition → Outcome → ℕ → Jobs ℕ
record_block s tenant job done outcome now = do
  chained ← enqueue_specs s.mint tenant now 0 outcome.follow_on
  succeed job.id (some (with_follow_on chained (result_fields s.elapsed_s outcome))) now
  pure (length chained)
record_block s tenant job retry outcome now = do
  fail job.id (text_or outcome.detail "retrying")
      (some (now + delay_or outcome.after (backoff_seconds s.uniform (job.attempts + 1)))) now
  pure 0
record_block s tenant job fatal outcome now = do
  fail job.id (text_or outcome.detail "fatal") none now
  pure 0

abbrev pub count_chained : ℕ → WorkerStats → WorkerStats
count_chained n w = record w { chained = w.chained + n }

abbrev pub recorded :
    String → Outcome → ℕ → ℕ → WorkerStats → Result StoreError ℕ × Tables JobRecord → Worker
recorded kind outcome elapsed now w (err e, t) = record { tables = t; stats = w }
recorded kind outcome elapsed now w (ok followed, t) = record {
  tables = t;
  stats = count_chained followed (record_stats kind outcome elapsed now w);
}

-- `_record`
unfoldable pub record_outcome :
    Surroundings → String → JobRecord → Outcome → ℕ → ℕ → Worker → Worker
record_outcome s tenant job outcome elapsed now w =
    recorded job.kind outcome elapsed now w.stats
      (transaction tenant (record_block s tenant job outcome.disposition outcome now) w.tables)

-- The row that `_release` saves.
abbrev pub release_row : String → JobRecord → JobRecord
release_row reason r = record r {
  state = queued;
  lease_owner = "";
  lease_until = none;
  last_error = reason;
}

abbrev pub release_held : ℕ → String → Option JobRecord → Jobs (Unit {0})
release_held now reason none = pure tt
release_held now reason (some r) = do save jobs_table now (release_row reason r); pure tt

unfoldable pub release_block : String → String → ℕ → Jobs (Unit {0})
release_block job_id reason now = do held ← get jobs_table job_id; release_held now reason held

-- `_release`
unfoldable pub release : String → JobRecord → String → ℕ → Worker → Worker
release tenant job reason now w = record w {
  tables = (transaction tenant (release_block job.id reason now) w.tables).1;
}

-- `_Heartbeat`: `lost`, and the tables that it beats on
pub record Beating : Type 0 where
  pub lost : Bool
  pub tables : Tables JobRecord

abbrev pub beaten : Beating → Result StoreError Bool × Tables JobRecord → Bool × Beating
beaten b (err e, t) = (true, record b { tables = t })
beaten b (ok held, t) = (held, record { lost = not held; tables = t })

-- `once`
unfoldable pub beat_once : WorkerConfig → String → JobRecord → ℕ → Beating → Bool × Beating
beat_once c tenant job now b =
    if b.lost
    then (false, b)
    else beaten b (transaction tenant (heartbeat job.id c.owner (now + seconds c.lease_s)) b.tables)

-- What happens while a handler runs: a beat at an instant, or a change of the tables by anybody.
pub data Event : Type 0 where
  beat : ℕ → Event
  change : (Tables JobRecord → Tables JobRecord) → Event

abbrev pub on_event : WorkerConfig → String → JobRecord → Event → Beating → Beating
on_event c tenant job (beat now) b = (beat_once c tenant job now b).1
on_event c tenant job (change f) b = record b { tables = f b.tables }

unfoldable pub run_events : WorkerConfig → String → JobRecord → List Event → Beating → Beating
run_events c tenant job [] b = b
run_events c tenant job (e ∷ es) b = run_events c tenant job es (on_event c tenant job e b)

-- One run of a handler: what happened meanwhile, what it returned or the text of what it raised,
-- how long it took, and the clock at its end.
pub record Run : Type 0 where
  pub events : List Event
  pub outcome : Result String Outcome
  pub elapsed : ℕ
  pub ended : ℕ

-- An exception is retried.
abbrev pub run_outcome : Result String Outcome → Outcome
run_outcome (ok o) = o
run_outcome (err text) = retry_outcome text 0

-- What `_run_job` does with a handler that has run.
unfoldable pub settle_job :
    WorkerConfig → Surroundings → String → JobRecord → Run → WorkerStats → Beating → Worker
settle_job c s tenant job run w b =
    let held : Worker = record { tables = b.tables; stats = w } in
    if b.lost
    then held
    else record_outcome s tenant job (run_outcome run.outcome) run.elapsed run.ended held

abbrev pub run_handler :
    WorkerConfig → Surroundings → String → JobRecord → ℕ → Option Run → Worker → Worker
run_handler c s tenant job now none w = release tenant job ("no handler for " ⧺ job.kind) now w
run_handler c s tenant job now (some run) w =
    settle_job c s tenant job run w.stats
      (run_events c tenant job run.events (record { lost = false; tables = w.tables }))

-- `_run_job`: `handlers job` is the run of the handler of the job's kind, if there is one
unfoldable pub run_job :
    WorkerConfig
    → Surroundings
    → (JobRecord → Option Run)
    → String
    → ℕ
    → JobRecord
    → Worker
    → Worker
run_job c s handlers tenant now job w = run_handler c s tenant job now (handlers job) w

abbrev pub count_reaped : WorkerStats → Result StoreError ℕ × Tables JobRecord → Worker
count_reaped w (err e, t) = record { tables = t; stats = w }
count_reaped w (ok n, t) = record { tables = t; stats = record w { reaped = w.reaped + n } }

-- The loop of `_maybe_reap` over the tenants; `reap` looks at 100 rows at most.
unfoldable pub reap_tenants : ℕ → List String → Worker → Worker
reap_tenants now [] w = w
reap_tenants now (tenant ∷ tenants) w =
    reap_tenants now tenants (count_reaped w.stats (transaction tenant (reap now 100) w.tables))

-- The loops of `poll_once`, for a worker that is not told to stop.
unfoldable pub run_claimed :
    WorkerConfig
    → Surroundings
    → (JobRecord → Option Run)
    → String
    → ℕ
    → List JobRecord
    → Worker
    → Worker
run_claimed c s handlers tenant now [] w = w
run_claimed c s handlers tenant now (job ∷ jobs) w =
    run_claimed c s handlers tenant now jobs (run_job c s handlers tenant now job w)

unfoldable pub poll_once :
    WorkerConfig → Surroundings → (JobRecord → Option Run) → ℕ → List String → Worker → Worker
poll_once c s handlers now [] w = w
poll_once c s handlers now (tenant ∷ tenants) w =
    let (jobs, w') = claim_jobs c tenant now w in
    poll_once c s handlers now tenants (run_claimed c s handlers tenant now jobs w')
