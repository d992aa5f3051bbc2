-- ===== src/Store/Jobs/Queue/Calls.antt =====
-- Every call of the queue keeps its invariant, so a worker's transaction is all or nothing.
use clipper_ai.Base.{
  Keeps, Keeps-pure, Keeps-bind, state-bind-pure, pure, ◌>>=◌, ◌>>◌, ℕ, String, ◌≡◌, refl, Option,
  List, [], ◌∷◌, All, err,
}
use clipper_ai.Base.Dict.{Dict, IsKeyed}
use clipper_ai.Base.Json.{Fields}
use clipper_ai.Store.Unit.{Tables, StoreError, transaction}
use clipper_ai.Store.Unit.Atomic.{IsTracked-fresh, fresh, transaction_atomic}
use clipper_ai.Store.Repository.{rows}
use clipper_ai.Store.Repository.Isolation.{others}
use clipper_ai.Store.Jobs.{
  Jobs, JobRecord, jobs_table, claim, reap, enqueue, heartbeat, succeed, fail,
}
use clipper_ai.Store.Jobs.Queue.{HasLease, IsSound}
use clipper_ai.Store.Jobs.Queue.Operations.{
  claim-IsSound, reap-IsSound, heartbeat-IsSound, enqueue-IsSound, succeed-IsSound, fail-IsSound,
}

-- One call of the job queue.
pub data QueueCall : Type 0 where
  enqueue_job : ℕ → JobRecord → QueueCall
  claim_jobs : String → ℕ → ℕ → List String → ℕ → QueueCall
  beat : String → String → ℕ → QueueCall
  succeed_job : String → Option Fields → ℕ → QueueCall
  fail_job : String → String → Option ℕ → ℕ → QueueCall
  reap_jobs : ℕ → ℕ → QueueCall

-- What a caller owes the queue: a job is enqueued with a lease only if it is held.
abbrev pub IsAdmissible : QueueCall → Type 0
IsAdmissible (enqueue_job now r) = HasLease r
IsAdmissible _ = Unit

abbrev done : {A : Type 0} → Jobs A → Jobs (Unit {0})
done m = m >>= λ a. pure tt

unfoldable pub run_call : QueueCall → Jobs (Unit {0})
run_call (enqueue_job now r) = done (enqueue now r)
run_call (claim_jobs owner now lease_s kinds limit) = done (claim owner now lease_s kinds limit)
run_call (beat id owner until) = done (heartbeat id owner until)
run_call (succeed_job id result now) = done (succeed id result now)
run_call (fail_job id error retry_at now) = done (fail id error retry_at now)
run_call (reap_jobs now limit) = done (reap now limit)

-- The body of a transaction: the first call that raises ends it.
unfoldable pub run_calls : List QueueCall → Jobs (Unit {0})
run_calls [] = pure tt
run_calls (c ∷ cs) = do run_call c; run_calls cs

module _ (t : String) (before : Tables JobRecord) where
  run_call-Keeps : (c : QueueCall) → IsAdmissible c → Keeps (IsSound t before) (run_call c)
  unfolding run_call
  run_call-Keeps (enqueue_job now r) a = record {
    at = λ u h.
        rw (state-bind-pure (enqueue now r) (λ x. tt) u) (enqueue-IsSound t before now r u a h);
  }
  run_call-Keeps (claim_jobs owner now lease_s kinds limit) a = record {
    at = λ u h.
        rw (state-bind-pure (claim owner now lease_s kinds limit) (λ x. tt) u)
          (claim-IsSound t before owner now lease_s kinds limit u h);
  }
  run_call-Keeps (beat id owner until) a = record {
    at = λ u h.
        rw (state-bind-pure (heartbeat id owner until) (λ x. tt) u)
          (heartbeat-IsSound t before id owner until u h);
  }
  run_call-Keeps (succeed_job id result now) a = record {
    at = λ u h.
        rw (state-bind-pure (succeed id result now) (λ x. tt) u)
          (succeed-IsSound t before id result now u h);
  }
  run_call-Keeps (fail_job id error retry_at now) a = record {
    at = λ u h.
        rw (state-bind-pure (fail id error retry_at now) (λ x. tt) u)
          (fail-IsSound t before id error retry_at now u h);
  }
  run_call-Keeps (reap_jobs now limit) a = record {
    at = λ u h.
        rw (state-bind-pure (reap now limit) (λ x. tt) u) (reap-IsSound t before now limit u h);
  }

  pub run_calls-Keeps :
      (cs : List QueueCall) → All IsAdmissible cs → Keeps (IsSound t before) (run_calls cs)
  unfolding run_calls
  run_calls-Keeps [] a = Keeps-pure tt
  run_calls-Keeps (c ∷ cs) a =
      Keeps-bind (run_call c) (λ x. run_calls cs) (run_call-Keeps c a.0)
        (λ x. run_calls-Keeps cs a.1)

-- What the queue's table has to be at the start.
pub record IsQueue (d : Dict JobRecord) : Type 0 where
  pub keyed : IsKeyed (λ r. r.id) d
  pub leases : All (λ (e : String × JobRecord). HasLease e.1) d

pub fresh-IsSound :
    (t : String) (before : Tables JobRecord)
    → IsQueue (before "jobs")
    → IsSound t before (fresh t before)
fresh-IsSound t before q = record {
  keyed = q.keyed;
  leases = q.leases;
  isolated = record { same_tenant = refl; same_others = refl };
  tracked = IsTracked-fresh t before;
}

module _ (t : String) (before : Tables JobRecord) (cs : List QueueCall)
    (q : IsQueue (before "jobs")) (a : All IsAdmissible cs) where
  -- Any run of queue calls, also one that a raise cuts short, keeps the rows under their ids,
  -- leaves a lease exactly on the jobs that are held, and does not touch another tenant's row.
  pub IsQueue-run_calls :
      let u = (run_calls cs (fresh t before)).1 in
      IsQueue (rows jobs_table u)
      × (others jobs_table t (rows jobs_table u) ≡ others jobs_table t (before "jobs"))
  IsQueue-run_calls =
      let h = (run_calls-Keeps t before cs a).at (fresh t before) (fresh-IsSound t before q) in
      (record { keyed = h.keyed; leases = h.leases }, h.isolated.same_others)

  -- A transaction that a queue call ends by raising leaves every table as it was before.
  pub queue_transaction_atomic :
      {e : StoreError}
      → (transaction t (run_calls cs) before).0 ≡ err e
      → (transaction t (run_calls cs) before).1 ≡ before
  queue_transaction_atomic e =
      transaction_atomic t (run_calls cs) before
        ((run_calls-Keeps t before cs a).at (fresh t before) (fresh-IsSound t before q)).tracked
        (rw e refl)
