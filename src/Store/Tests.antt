-- ===== src/Store/Tests.antt =====
-- Runs of the store on a small queue, and its theorems at concrete inputs.
use clipper_ai.Base.{
  ◌≤◌, ℕ, String, ◌≡◌, refl, false, none, some, List, [], ◌∷◌, ◌==◌, arith, if◌then◌else◌, ok, err,
  All, length,
}
use clipper_ai.Base.Sort.{sort}
use clipper_ai.Base.Dict.{lookup, insert, values}
use clipper_ai.Store.Unit.{
  Tables, UnitOfWork, not_found, transaction, leave, touch_state, write_state,
}
use clipper_ai.Store.Unit.Atomic.{fresh}
use clipper_ai.Store.Repository.{rows, scoped, stamp, get, add, save}
use clipper_ai.Store.Repository.Isolation.{
  Call, add_row, save_row, delete_row, run_calls, others, tenant_isolation,
}
use clipper_ai.Store.Repository.Laws.{get-add}
use clipper_ai.Store.Jobs.{
  JobRecord, queued, jobs_table, jobs_table-IsSchema, job_before, claim, ready_rows, take_leases,
  lease_row, enqueue, first_with_key, mutate, fail, expired_rows,
}
use clipper_ai.Store.Jobs.Claim.{
  table, IsKeyedById, IsLeased, claim_exclusive, claim_sound, claim_urgent,
}
use clipper_ai.Store.Jobs.Failure.{Holds, HasFailed, fail_times, fail_times-HasFailed}
use clipper_ai.Store.Jobs.Lease.{HasReturned, reap_recovers}
use clipper_ai.Store.Jobs.Dedupe.{enqueue_again}
use clipper_ai.Store.Jobs.Queue.Calls.{
  IsQueue, QueueCall, IsAdmissible, enqueue_job, claim_jobs, reap_jobs, fail_job, IsQueue-run_calls,
  queue_transaction_atomic,
}
use clipper_ai.Store.Jobs.Queue.Calls

abbrev job : String → String → ℕ → ℕ → JobRecord
job id tenant priority run_after = record {
  id = id;
  tenant_id = tenant;
  created_at = 0;
  updated_at = 0;
  channel_id = none;
  kind = "render_video";
  state = queued;
  priority = priority;
  payload = none;
  result = none;
  run_after = run_after;
  lease_until = none;
  lease_owner = "";
  attempts = 0;
  max_attempts = 2;
  last_error = "";
  dedupe_key = some id;
  started_at = none;
  finished_at = none;
}

abbrev low : JobRecord
low = job "low" "t" 100 5

abbrev high : JobRecord
high = job "high" "t" 50 7

abbrev foreign : JobRecord
foreign = job "foreign" "s" 1 1

abbrev tables : Tables JobRecord
tables name =
    if name == "jobs" then ("low", low) ∷ ("foreign", foreign) ∷ ("high", high) ∷ [] else []

abbrev unit : UnitOfWork JobRecord
unit = fresh "t" tables

-- The more urgent job is claimed, and the other tenant's is not seen.
claim-high : (claim "w1" 9 300 [] 1 unit).0 ≡ ok (lease_row "w1" 9 300 high ∷ [])
unfolding claim ready_rows take_leases scoped values sort
claim-high = refl

keyed : IsKeyedById (table unit)
unfolding lookup
keyed = (refl, refl, (refl, refl, (refl, refl, tt)))

abbrev first : List JobRecord
first = lease_row "w1" 9 300 high ∷ []

abbrev second : List JobRecord
second = lease_row "w2" 9 300 low ∷ []

claim_low : (claim "w2" 9 300 [] 5 (claim "w1" 9 300 [] 1 unit).1).0 ≡ ok second
unfolding claim ready_rows take_leases scoped values sort write_state touch_state insert lookup
claim_low = refl

claim_exclusive_example : All (λ d. All (λ c. (c.id == d.id) ≡ false) first) second
claim_exclusive_example =
    claim_exclusive "w1" "w2" 9 9 300 300 [] [] 1 5 unit refl keyed first second claim-high
      claim_low

claim_sound_example : All (IsLeased "w1" 9 300 [] 1 unit refl keyed) first
claim_sound_example = claim_sound "w1" 9 300 [] 1 unit refl keyed first claim-high

low_left : lookup "low" (table (claim "w1" 9 300 [] 1 unit).1) ≡ some low
unfolding claim ready_rows take_leases scoped values sort write_state touch_state insert lookup
low_left = refl

low_stands : lookup "low" (table unit) ≡ some low
unfolding lookup
low_stands = refl

claim_urgent_example : (length first ≡ 1) × All (λ c. job_before low c ≡ false) first
claim_urgent_example =
    claim_urgent "w1" 9 300 [] 1 unit refl keyed low first low_stands refl refl claim-high low_left

abbrev held : JobRecord
held = lease_row "w1" 9 0 high

abbrev busy : UnitOfWork JobRecord
busy = fresh "t" (λ name. if name == "jobs" then ("high", held) ∷ ("low", low) ∷ [] else [])

busy_keyed : IsKeyedById (table busy)
unfolding lookup
busy_keyed = (refl, refl, (refl, refl, tt))

busy_room : length (expired_rows 10 busy) ≤ 1
unfolding scoped values
busy_room = omega arith

held_stands : lookup "high" (table busy) ≡ some held
unfolding lookup
held_stands = refl

low_stands_busy : lookup "low" (table busy) ≡ some low
unfolding lookup
low_stands_busy = refl

reap_recovers_example : HasReturned 10 1 busy refl busy_keyed busy_room held
reap_recovers_example = reap_recovers 10 1 busy refl busy_keyed busy_room held held_stands refl refl

low-Holds : Holds "low" low unit
low-Holds = record { stands = low_stands; own = refl; writable = refl }

-- The second failure is the last of two attempts.
fail_times-HasFailed_example :
    HasFailed "low" low 2 (fail_times "low" "disk full" ((20, 10) ∷ (40, 30) ∷ []) unit)
fail_times-HasFailed_example =
    fail_times-HasFailed "low" "disk full" (20, 10) ((40, 30) ∷ []) low unit low-Holds

abbrev again : JobRecord
again = record (job "low2" "t" 1 1) { dedupe_key = some "low" }

low_held_already : (enqueue 10 again unit).0 ≡ ok low
unfolding enqueue scoped values first_with_key
low_held_already = refl

enqueue_again_example :
    enqueue 11 again (enqueue 10 again unit).1 ≡ (ok low, (enqueue 10 again unit).1)
enqueue_again_example =
    enqueue_again 10 "low" again low unit refl refl 11 again refl low_held_already

queue : IsQueue (tables "jobs")
queue = record { keyed = keyed; leases = (refl, (refl, (refl, tt))) }

abbrev calls : List QueueCall
calls =
    claim_jobs "w1" 9 300 [] 2
    ∷ fail_job "high" "boom" (some 20) 10
    ∷ fail_job "foreign" "boom" none 10
    ∷ []

IsQueue-run_calls_example :
    let u = (Calls.run_calls calls (fresh "t" tables)).1 in
    IsQueue (rows jobs_table u)
    × (others jobs_table "t" (rows jobs_table u) ≡ others jobs_table "t" (tables "jobs"))
IsQueue-run_calls_example = IsQueue-run_calls "t" tables calls queue (tt, (tt, (tt, tt)))

calls_raise : (transaction "t" (Calls.run_calls calls) tables).0 ≡ err not_found
unfolding transaction Calls.run_calls Calls.run_call claim ready_rows take_leases scoped values sort
    write_state touch_state insert lookup fail mutate leave
calls_raise = refl

queue_transaction_atomic_example : (transaction "t" (Calls.run_calls calls) tables).1 ≡ tables
queue_transaction_atomic_example =
    queue_transaction_atomic "t" tables calls queue (tt, (tt, (tt, tt))) calls_raise

abbrev repository_calls : List (Call JobRecord)
repository_calls =
    add_row 3 (job "new" "t" 1 1) ∷ save_row 4 low ∷ delete_row "foreign" ∷ delete_row "high" ∷ []

tenant_isolation_example :
    others jobs_table "t" (rows jobs_table (run_calls jobs_table repository_calls unit))
    ≡ others jobs_table "t" (rows jobs_table unit)
tenant_isolation_example = tenant_isolation jobs_table jobs_table-IsSchema repository_calls unit

abbrev new_job : JobRecord
new_job = job "new" "t" 1 1

new_job_added :
    (add jobs_table 3 new_job unit).0 ≡ ok (record new_job { created_at = 3; updated_at = 3 })
unfolding add stamp lookup
new_job_added = refl

get-add_example :
    (get jobs_table "new" (add jobs_table 3 new_job unit).1).0
    ≡ ok (some (record new_job { created_at = 3; updated_at = 3 }))
get-add_example =
    get-add jobs_table jobs_table-IsSchema 3 new_job
      (record new_job { created_at = 3; updated_at = 3 }) unit "new" new_job_added

low_saved : (save jobs_table 3 low unit).0 ≡ ok (record low { updated_at = 3 })
unfolding save stamp lookup
low_saved = refl
