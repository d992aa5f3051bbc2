-- ===== src/Store/Jobs.antt =====
-- `JobRecord` of src/clipforge/store/records.py and `_MemoryJobs` of
-- src/clipforge/store/memory.py. Instants are microseconds. The states of a job are the values of
-- the column `jobs.state`. An in-place change of a row is a write of the changed row under its key.
pub mod Order
pub mod Rows
pub mod Claim
pub mod Lease
pub mod Failure
pub mod Dedupe
pub mod Queue
use clipper_ai.Base.{
  ℕ, ◌+◌, String, ◌≡◌, refl, Bool, true, false, not, ◌&&◌, ◌||◌, Option, none, some, List, [], ◌∷◌,
  ◌==◌, if◌then◌else◌, ltb, leb, eqb, is_some, filter, length, take, contains, min, seconds, Exec,
  pure, gets, raise, ◌>>=◌, ◌>>◌,
}
use clipper_ai.Base.Sort.{sort}
use clipper_ai.Base.Dict.{Dict, lookup, insert}
use clipper_ai.Base.Json.{Fields}
use clipper_ai.Store.Unit.{StoreError, not_found, UnitOfWork, Action, writable, write, write_state}
use clipper_ai.Store.Repository.{Schema, IsSchema, rows, scoped, visible, add}

pub data JobState : Type 0 where
  queued leased running succeeded failed dead : JobState

pub record JobRecord : Type 0 where
  pub id : String
  pub tenant_id : String
  pub created_at : ℕ
  pub updated_at : ℕ
  pub channel_id : Option String
  pub kind : String
  pub state : JobState
  pub priority : ℕ
  pub payload : Option Fields
  pub result : Option Fields
  pub run_after : ℕ
  pub lease_until : Option ℕ
  pub lease_owner : String
  pub attempts : ℕ
  pub max_attempts : ℕ
  pub last_error : String
  pub dedupe_key : Option String
  pub started_at : Option ℕ
  pub finished_at : Option ℕ

-- `TABLES["jobs"]`
abbrev pub jobs_table : Schema JobRecord
jobs_table = record {
  name = "jobs";
  key = λ r. r.id;
  tenant = λ r. r.tenant_id;
  set_created = λ n r. record r { created_at = n };
  set_updated = λ n r. record r { updated_at = n };
  copy_created = λ q r. record r { created_at = q.created_at };
}

pub jobs_table-IsSchema : IsSchema jobs_table
jobs_table-IsSchema = record {
  key-set_created = λ n r. refl;
  key-set_updated = λ n r. refl;
  key-copy_created = λ q r. refl;
  tenant-set_created = λ n r. refl;
  tenant-set_updated = λ n r. refl;
  tenant-copy_created = λ q r. refl;
}

abbrev pub Jobs : Type 0 → Type 0
Jobs A = Action JobRecord A

-- `state == "queued"`
abbrev pub is_queued : JobState → Bool
is_queued queued = true
is_queued _ = false

-- `state in ("leased", "running")`
abbrev pub is_held : JobState → Bool
is_held leased = true
is_held running = true
is_held _ = false

-- The first row that holds the key; `None` and the empty text are no keys.
abbrev pub holds_key : String → Option String → Bool
holds_key k none = false
holds_key k (some j) = j == k

unfoldable pub first_with_key : String → List JobRecord → Option JobRecord
first_with_key k [] = none
first_with_key k (r ∷ rs) = if holds_key k r.dedupe_key then some r else first_with_key k rs

abbrev pub find_duplicate : Option String → List JobRecord → Option JobRecord
find_duplicate none rs = none
find_duplicate (some k) rs = if k == "" then none else first_with_key k rs

abbrev pub or_add : ℕ → JobRecord → Option JobRecord → Jobs JobRecord
or_add now record' (some row) = pure row
or_add now record' none = add jobs_table now record'

unfoldable pub enqueue : ℕ → JobRecord → Jobs JobRecord
enqueue now r = do
  duplicate ← gets (λ u. find_duplicate r.dedupe_key (scoped jobs_table u))
  or_add now r duplicate

-- `(r.priority, r.run_after)`, as an order
abbrev pub job_before : JobRecord → JobRecord → Bool
job_before a b =
    ltb a.priority b.priority || (eqb a.priority b.priority && ltb a.run_after b.run_after)

abbrev pub is_wanted : List String → String → Bool
is_wanted [] kind = true
is_wanted (k ∷ ks) kind = contains kind (k ∷ ks)

abbrev pub is_ready : ℕ → List String → JobRecord → Bool
is_ready now kinds r = is_queued r.state && leb r.run_after now && is_wanted kinds r.kind

abbrev pub lease_row : String → ℕ → ℕ → JobRecord → JobRecord
lease_row owner now lease_s r = record r {
  state = leased;
  lease_owner = owner;
  lease_until = some (now + seconds lease_s);
  updated_at = now;
}

-- `_touch("jobs")`, then a change of the row in place
abbrev pub put_row : JobRecord → Jobs (Unit {0})
put_row r = write "jobs" (insert r.id r)

-- The loop of `claim` over the rows that it takes.
unfoldable pub take_leases : String → ℕ → ℕ → List JobRecord → Jobs (List JobRecord)
take_leases owner now lease_s [] = pure []
take_leases owner now lease_s (r ∷ rs) = do
  put_row (lease_row owner now lease_s r)
  taken ← take_leases owner now lease_s rs
  pure (lease_row owner now lease_s r ∷ taken)

unfoldable pub ready_rows : ℕ → List String → ℕ → UnitOfWork JobRecord → List JobRecord
ready_rows now kinds limit u =
    take limit (sort job_before (filter (is_ready now kinds) (scoped jobs_table u)))

unfoldable pub claim : String → ℕ → ℕ → List String → ℕ → Jobs (List JobRecord)
claim owner now lease_s kinds limit = do
  writable
  ready ← gets (ready_rows now kinds limit)
  take_leases owner now lease_s ready

abbrev pub beat_row : String → String → ℕ → Option JobRecord → Jobs Bool
beat_row job_id owner until none = pure false
beat_row job_id owner until (some r) =
    if not (r.lease_owner == owner) || not (is_held r.state)
    then pure false
    else do write "jobs" (insert job_id (record r { lease_until = some until })); pure true

unfoldable pub heartbeat : String → String → ℕ → Jobs Bool
heartbeat job_id owner until = do
  writable
  row ← gets (λ u. visible jobs_table u.tenant_id (lookup job_id (rows jobs_table u)))
  beat_row job_id owner until row

-- What follows `_mutate`: the row is changed in place and a copy returned.
abbrev pub change_row : String → (JobRecord → JobRecord) → Option JobRecord → Jobs JobRecord
change_row job_id f none = raise not_found
change_row job_id f (some r) = do write "jobs" (insert job_id (f r)); pure (f r)

unfoldable pub mutate : String → (JobRecord → JobRecord) → Jobs JobRecord
mutate job_id f = do
  writable
  row ← gets (λ u. visible jobs_table u.tenant_id (lookup job_id (rows jobs_table u)))
  change_row job_id f row

abbrev pub succeed_row : Option Fields → ℕ → JobRecord → JobRecord
succeed_row result now r = record r {
  state = succeeded;
  result = result;
  finished_at = some now;
  updated_at = now;
  lease_owner = "";
  lease_until = none;
}

unfoldable pub succeed : String → Option Fields → ℕ → Jobs JobRecord
succeed job_id result now = mutate job_id (succeed_row result now)

-- One more attempt, and the lease given up.
abbrev pub count_failure : String → ℕ → JobRecord → JobRecord
count_failure error now r = record r {
  attempts = r.attempts + 1;
  last_error = error;
  lease_owner = "";
  lease_until = none;
  updated_at = now;
}

abbrev pub bury : ℕ → JobRecord → JobRecord
bury now r = record r { state = dead; finished_at = some now }

abbrev pub settle_failure : Option ℕ → ℕ → JobRecord → JobRecord
settle_failure none now r = bury now r
settle_failure (some at) now r =
    if ltb r.attempts r.max_attempts
    then record r { state = queued; run_after = at }
    else bury now r

abbrev pub fail_row : String → Option ℕ → ℕ → JobRecord → JobRecord
fail_row error retry_at now r = settle_failure retry_at now (count_failure error now r)

unfoldable pub fail : String → String → Option ℕ → ℕ → Jobs JobRecord
fail job_id error retry_at now = mutate job_id (fail_row error retry_at now)

-- `lease_until is not None and lease_until < now`
abbrev pub has_lapsed : ℕ → Option ℕ → Bool
has_lapsed now none = false
has_lapsed now (some t) = ltb t now

abbrev pub is_expired : ℕ → JobRecord → Bool
is_expired now r = is_held r.state && has_lapsed now r.lease_until

abbrev pub requeue_row : ℕ → JobRecord → JobRecord
requeue_row now r = record r {
  state = queued;
  lease_owner = "";
  lease_until = none;
  updated_at = now;
}

-- The loop of `reap` over the rows that it returns to the queue.
unfoldable pub requeue_rows : ℕ → List JobRecord → Jobs (Unit {0})
requeue_rows now [] = pure tt
requeue_rows now (r ∷ rs) = do put_row (requeue_row now r); requeue_rows now rs

abbrev pub expired_rows : ℕ → UnitOfWork JobRecord → List JobRecord
expired_rows now u = filter (is_expired now) (scoped jobs_table u)

unfoldable pub reap : ℕ → ℕ → Jobs ℕ
reap now limit = do
  writable
  expired ← gets (expired_rows now)
  requeue_rows now (take limit expired)
  pure (min (length expired) limit)

unfoldable pub pending : ℕ → Jobs (List JobRecord)
pending limit =
    gets (λ u. take limit (sort job_before (filter (λ r. is_queued r.state) (scoped jobs_table u))))
