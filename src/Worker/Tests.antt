-- ===== src/Worker/Tests.antt =====
-- Runs of the workers, and their theorems at concrete inputs.
use clipper_ai.Base.{
  ◌≤◌, ◌*◌, ℕ, String, ◌≡◌, refl, true, none, some, List, [], ◌∷◌, ◌++◌, arith, ok, All, ◌↔◌, inl,
  inr, Option,
}
use clipper_ai.Base.Json.{num, end}
use clipper_ai.Base.Text.{decimal, decimal_from}
use clipper_ai.Base.Dict.{lookup, insert, values}
use clipper_ai.Store.Unit.{write_state, Tables, transaction, leave}
use clipper_ai.Store.Unit.Atomic.{fresh}
use clipper_ai.Store.Repository.{stamp, scoped, all, save, add}
use clipper_ai.Store.Jobs.{
  first_with_key, mutate, succeed, enqueue, heartbeat, JobRecord, leased, dead, JobState,
}
use clipper_ai.Worker.Types.{JobSpec, WorkerStats, Outcome, done_outcome}
use clipper_ai.Worker.Chain.{enqueue_specs, publish_spec, verify_spec, ahead}
use clipper_ai.Worker.Chain.Rerun.{chain_again}
use clipper_ai.Worker.Runtime.{
  run_events, beat_once, WorkerConfig, Worker, Surroundings, Run, Event, beat, change, run_job,
  record_outcome, record_block, backoff_raw,
}
use clipper_ai.Worker.Runtime.Recording.{record_all_or_nothing}
use clipper_ai.Worker.Runtime.Lost.{lost_lease}
use clipper_ai.Worker.Runtime.Release.{backoff_mono}
use clipper_ai.Worker.Monitor.{requeue_block, revive_rows, snapshot, healthy}
use clipper_ai.Worker.Monitor.Counts.{IsFine, healthy-snapshot}
use clipper_ai.Worker.Monitor.Requeue.{IsRevived, requeue_all}

abbrev job : String → JobState → String → Option ℕ → JobRecord
job id state owner lease_until = record {
  id = id;
  tenant_id = "t";
  created_at = 0;
  updated_at = 0;
  channel_id = none;
  kind = "render_video";
  state = state;
  priority = 100;
  payload = none;
  result = none;
  run_after = 0;
  lease_until = lease_until;
  lease_owner = owner;
  attempts = 7;
  max_attempts = 8;
  last_error = "";
  dedupe_key = some id;
  started_at = none;
  finished_at = none;
}

abbrev held : JobRecord
held = job "render" leased "w1" (some 900)

abbrev buried : JobRecord
buried = job "lost" dead "" none

abbrev tables : Tables JobRecord
tables name = ("render", held) ∷ ("lost", buried) ∷ []

abbrev stats : WorkerStats
stats = record {
  claimed = 1;
  completed = 0;
  retried = 0;
  dead = 0;
  reaped = 0;
  chained = 0;
  busy = 0;
  last_job_at = none;
  by_kind = [];
}

abbrev worker : Worker
worker = record { tables = tables; stats = stats }

abbrev config : WorkerConfig
config = record { kinds = []; lease_s = 300; batch = 1; tenants = "t" ∷ []; owner = "w1" }

abbrev surroundings : Surroundings
surroundings = record { mint = decimal; uniform = λ w. 0; elapsed_s = num 3 }

abbrev two_specs : List JobSpec
two_specs = publish_spec "u" "c" (ahead 60) ∷ verify_spec "u" "c" 1 none ∷ []

abbrev rendered : Outcome
rendered = done_outcome "rendered" two_specs end

decimal_1207 : decimal 1207 ≡ "1207"
unfolding decimal_from
decimal_1207 = refl

-- The ids of a chain queued twice are the ids of the first time.
chain_again_example :
    enqueue_specs
      (λ n. decimal (n * 7))
      "t"
      50
      0
      two_specs
      (enqueue_specs decimal "t" 5 0 two_specs (fresh "t" tables)).1
    ≡ (ok ("job_0" ∷ "job_1" ∷ []), (enqueue_specs decimal "t" 5 0 two_specs (fresh "t" tables)).1)
unfolding enqueue_specs publish_spec verify_spec decimal_from enqueue first_with_key scoped values
    add lookup write_state insert stamp
chain_again_example =
    chain_again decimal (λ n. decimal (n * 7)) "t" 5 50 0 0 two_specs ("job_0" ∷ "job_1" ∷ [])
      (fresh "t" tables) (refl, (refl, tt)) refl

-- The job to record is gone, so its followers are not queued.
record_all_or_nothing_example :
    record_outcome surroundings "t" (job "gone" leased "w1" (some 900)) rendered 3 5 worker ≡ worker
unfolding lookup record_block enqueue_specs publish_spec verify_spec decimal_from enqueue
    first_with_key scoped values add succeed mutate transaction leave write_state insert stamp
record_all_or_nothing_example =
    record_all_or_nothing surroundings "t" (job "gone" leased "w1" (some 900)) rendered 3 5 worker
      (record { keyed = (refl, refl, (refl, refl, tt)); leases = (refl, (refl, tt)) }) refl

-- The beat at 40 finds the job in the hands of another worker.
abbrev stolen : List Event
stolen = change (λ t name. ("render", record held { lease_owner = "w2" }) ∷ []) ∷ beat 40 ∷ []

abbrev run : Run
run = record {
  events = stolen ++ change (λ t name. []) ∷ [];
  outcome = ok rendered;
  elapsed = 3;
  ended = 60;
}

lost_lease_example :
    run_job config surroundings (λ j. some run) "t" 5 held worker
    ≡ record { tables = λ name. []; stats = stats }
unfolding run_events beat_once transaction leave heartbeat lookup
lost_lease_example =
    lost_lease config "t" held surroundings (λ j. some run) run 5 worker stolen
      (change (λ t name. []) ∷ []) refl refl refl

requeue_all_example : IsRevived 70 "lost" (requeue_block "" 5 70 (fresh "t" tables)).1
unfolding requeue_block all revive_rows scoped values save lookup
requeue_all_example =
    requeue_all 70 "" 5 1 (fresh "t" tables) refl (omega arith) buried (inr (inl refl)) refl

healthy-snapshot_example :
    (healthy (snapshot 800 10 (held ∷ []))) ≡ true ↔ All (IsFine 800 10) (held ∷ [])
healthy-snapshot_example = healthy-snapshot 800 10 (held ∷ [])

backoff_mono_example : backoff_raw 4 ≤ backoff_raw 5
backoff_mono_example = backoff_mono 4
