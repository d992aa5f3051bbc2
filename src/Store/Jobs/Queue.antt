-- ===== src/Store/Jobs/Queue.antt =====
-- The invariant of the queue under all of its operations.
pub mod Operations
pub mod Calls
use clipper_ai.Base.{
  state-bind-pure, ℕ, ◌+◌, String, ◌≡◌, refl, sym, ap, ◌∙◌, Bool, true, false, not, ◌&&◌, ◌||◌,
  Option, none, some, List, [], ◌∷◌, ◌==◌, eq_iff, arith, if◌then◌else◌, All, All-of_Occurs, Occurs,
  ok, err, Bool-cases, inl, inr, Option-cases, is_some,
}
use clipper_ai.Base.Dict.{Dict, lookup, insert, values, lookup-insert, IsKeyed, insert-IsKeyed}
use clipper_ai.Store.Unit.{
  Tables, UnitOfWork, StoreError, write_state, tables-write_state, rolled_back-write_state,
}
use clipper_ai.Store.Unit.Atomic.{IsTracked, write_state-IsTracked}
use clipper_ai.Store.Repository.{rows, scoped, visible, add, stamp}
use clipper_ai.Store.Repository.Isolation.{IsOwn, IsIsolated, insert-IsIsolated}
use clipper_ai.Store.Jobs.{
  JobRecord, jobs_table, is_held, mutate, take_leases, lease_row, requeue_rows, requeue_row,
}

-- A job has a lease that runs out exactly while a worker holds it.
abbrev pub HasLease : JobRecord → Type 0
HasLease r = is_some r.lease_until ≡ is_held r.state

pub insert-All :
    (P : JobRecord → Type 0) (k : String) (r : JobRecord) (d : Dict JobRecord)
    → P r
    → All (λ (e : String × JobRecord). P e.1) d
    → All (λ (e : String × JobRecord). P e.1) (insert k r d)
unfolding insert
insert-All P k r [] p h = (p, tt)
insert-All P k r ((j, q) ∷ d) p h = ground (arith, insert-All P k r d p h.1)

-- The rows stand under their ids, every lease is sound, the rows of other tenants are those of
-- `before`, and a rollback would restore `before`.
pub record IsSound (t : String) (before : Tables JobRecord) (u : UnitOfWork JobRecord)
    : Type 0 where
  pub keyed : IsKeyed (λ r. r.id) (rows jobs_table u)
  pub leases : All (λ (e : String × JobRecord). HasLease e.1) (rows jobs_table u)
  pub isolated : IsIsolated jobs_table t (before "jobs") u
  pub tracked : IsTracked before u

module _ (t : String) (before : Tables JobRecord) where
  pub insert-IsSound :
      (k : String) (r : JobRecord) (u : UnitOfWork JobRecord)
      → r.id ≡ k
      → HasLease r
      → (r.tenant_id == t) ≡ true
      → IsOwn jobs_table t (lookup k (rows jobs_table u))
      → IsSound t before u
      → IsSound t before (write_state "jobs" (insert k r) u)
  insert-IsSound k r u e l own held h =
      let w = insert k r in
      record {
        keyed =
            rw (tables-write_state "jobs" w u)
              (insert-IsKeyed (λ r. r.id) k r (rows jobs_table u) e h.keyed);
        leases =
            rw (tables-write_state "jobs" w u)
              (insert-All HasLease k r (rows jobs_table u) l h.leases);
        isolated = insert-IsIsolated jobs_table t k r (before "jobs") u own held h.isolated;
        tracked = write_state-IsTracked before "jobs" w u h.tracked;
      }

  -- A row of the tenant may be replaced, also after another of its rows has been.
  abbrev pub MayReplace : UnitOfWork JobRecord → JobRecord → Type 0
  MayReplace u r =
      ((r.tenant_id == t) ≡ true) × IsOwn jobs_table t (lookup r.id (rows jobs_table u))

  MayReplace-insert :
      (q r : JobRecord) (u : UnitOfWork JobRecord)
      → (q.tenant_id == t) ≡ true
      → MayReplace u r
      → MayReplace (write_state "jobs" (insert q.id q) u) r
  MayReplace-insert q r u own h = (
    h.0,
    rw (tables-write_state "jobs" (insert q.id q) u)
        (rw (lookup-insert q.id r.id q (rows jobs_table u)) (pick (q.id == r.id))),
  )
    where
      pick : (b : Bool) → IsOwn jobs_table t (if b then some q else lookup r.id (rows jobs_table u))
      pick true = own
      pick false = h.1

  All-MayReplace-insert :
      (q : JobRecord) (rs : List JobRecord) (u : UnitOfWork JobRecord)
      → (q.tenant_id == t) ≡ true
      → All (MayReplace u) rs
      → All (MayReplace (write_state "jobs" (insert q.id q) u)) rs
  All-MayReplace-insert q [] u own h = tt
  All-MayReplace-insert q (r ∷ rs) u own h =
      (MayReplace-insert q r u own h.0, All-MayReplace-insert q rs u own h.1)

  pub take_leases-IsSound :
      (owner : String) (now lease_s : ℕ) (rs : List JobRecord) (u : UnitOfWork JobRecord)
      → All (MayReplace u) rs
      → IsSound t before u
      → IsSound t before (take_leases owner now lease_s rs u).1
  unfolding take_leases
  take_leases-IsSound owner now lease_s [] u m h = h
  take_leases-IsSound owner now lease_s (r ∷ rs) u m h =
      let q = lease_row owner now lease_s r in
      let u' = write_state "jobs" (insert q.id q) u in
      rw (state-bind-pure (take_leases owner now lease_s rs) (λ taken. q ∷ taken) u') (
        take_leases-IsSound owner now lease_s rs u' (All-MayReplace-insert q rs u m.0.0 m.1)
          (insert-IsSound q.id q u refl refl m.0.0 m.0.1 h))

  pub requeue_rows-IsSound :
      (now : ℕ) (rs : List JobRecord) (u : UnitOfWork JobRecord)
      → All (MayReplace u) rs
      → IsSound t before u
      → IsSound t before (requeue_rows now rs u).1
  unfolding requeue_rows
  requeue_rows-IsSound now [] u m h = h
  requeue_rows-IsSound now (r ∷ rs) u m h =
      let q = requeue_row now r in
      requeue_rows-IsSound now rs (write_state "jobs" (insert q.id q) u)
        (All-MayReplace-insert q rs u m.0.0 m.1) (insert-IsSound q.id q u refl refl m.0.0 m.0.1 h)
