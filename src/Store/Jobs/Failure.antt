-- ===== src/Store/Jobs/Failure.antt =====
-- `succeed` and `fail`: how a job leaves the hands of its worker.
use clipper_ai.Base.{
  ℕ, ◌+◌, String, ◌≡◌, refl, sym, subst, ◌∙◌, false, none, some, List, [], ◌∷◌, ◌==◌, eq_iff, arith,
  if◌then◌else◌, ltb, length, ok, err, Result,
}
use clipper_ai.Base.Dict.{lookup, insert, lookup-insert}
use clipper_ai.Store.Unit.{
  UnitOfWork, StoreError, write_state, tables-write_state, tenant_id-write_state,
  rolled_back-write_state, not_found,
}
use clipper_ai.Store.Repository.{rows}
use clipper_ai.Store.Jobs.{JobRecord, JobState, queued, dead, jobs_table, mutate, fail, fail_row}

-- The row stands under the id, belongs to the unit of work's tenant, and may be written.
pub record Holds (id : String) (r : JobRecord) (u : UnitOfWork JobRecord) : Type 0 where
  pub stands : lookup id (rows jobs_table u) ≡ some r
  pub own : r.tenant_id ≡ u.tenant_id
  pub writable : u.rolled_back ≡ false

-- A change of a row that is held is returned and stored, and no other row changes.
pub record IsChanged (id : String) (r : JobRecord) (u : UnitOfWork JobRecord)
    (p : Result StoreError JobRecord × UnitOfWork JobRecord) : Type 0 where
  pub returned : p.0 ≡ ok r
  pub looked_up :
      (k : String)
      → lookup k (rows jobs_table p.1) ≡ (if id == k then some r else lookup k (rows jobs_table u))
  pub tenant : p.1.tenant_id ≡ u.tenant_id
  pub writable : p.1.rolled_back ≡ u.rolled_back

pub mutate-IsChanged :
    (id : String) (f : JobRecord → JobRecord) (r : JobRecord) (u : UnitOfWork JobRecord)
    → Holds id r u
    → IsChanged id (f r) u (mutate id f u)
unfolding mutate
mutate-IsChanged id f r u h =
    let w = insert id (f r) in
    let e = (eq_iff r.tenant_id u.tenant_id).1 h.own in
    subst (IsChanged id (f r) u) (sym (simp (h.writable, h.stands, e))) (
      let p : Result StoreError JobRecord × UnitOfWork JobRecord =
        (ok (f r), write_state "jobs" w u) in
      let q : IsChanged id (f r) u p = record {
        returned = refl;
        looked_up =
            λ k. rw (tables-write_state "jobs" w u) (lookup-insert id k (f r) (rows jobs_table u));
        tenant = tenant_id-write_state "jobs" w u;
        writable = rolled_back-write_state "jobs" w u;
      } in
      q)

-- A job that another tenant holds, or nobody, cannot be changed.
pub mutate_missing :
    (id : String) (f : JobRecord → JobRecord) (u : UnitOfWork JobRecord)
    → u.rolled_back ≡ false
    → lookup id (rows jobs_table u) ≡ none
    → mutate id f u ≡ (err not_found, u)
unfolding mutate
mutate_missing id f u w e = simp (w, e)

pub mutate_foreign :
    (id : String) (f : JobRecord → JobRecord) (r : JobRecord) (u : UnitOfWork JobRecord)
    → u.rolled_back ≡ false
    → lookup id (rows jobs_table u) ≡ some r
    → (r.tenant_id == u.tenant_id) ≡ false
    → mutate id f u ≡ (err not_found, u)
unfolding mutate
mutate_foreign id f r u w e n = simp (w, e, n)

-- The attempts of one job, each with the instant of its retry and that of the failure.
unfoldable pub fail_times :
    String → String → List (ℕ × ℕ) → UnitOfWork JobRecord → UnitOfWork JobRecord
fail_times id error [] u = u
fail_times id error ((retry_at, now) ∷ rest) u =
    fail_times id error rest (fail id error (some retry_at) now u).1

abbrev pub outcome : ℕ → ℕ → JobState
outcome attempts max_attempts = if ltb attempts max_attempts then queued else dead

-- The row after one failure with a retry, field by field.
pub fail_row_fields :
    (error : String) (retry_at now : ℕ) (r : JobRecord)
    → let r' = fail_row error (some retry_at) now r in
      (r'.attempts ≡ r.attempts + 1)
      × (r'.max_attempts ≡ r.max_attempts)
      × (r'.state ≡ outcome (r.attempts + 1) r.max_attempts)
      × (r'.tenant_id ≡ r.tenant_id)
fail_row_fields error retry_at now r = ground arith

Holds-fail :
    (id error : String) (retry_at now : ℕ) (r : JobRecord) (u : UnitOfWork JobRecord)
    → Holds id r u
    → Holds id (fail_row error (some retry_at) now r) (fail id error (some retry_at) now u).1
unfolding fail
Holds-fail id error retry_at now r u h =
    let c = mutate-IsChanged id (fail_row error (some retry_at) now) r u h in
    record {
      stands = rw (c.looked_up id, (eq_iff id id).1 refl);
      own = (fail_row_fields error retry_at now r).3 ∙ h.own ∙ sym c.tenant;
      writable = c.writable ∙ h.writable;
    }

-- After failures that each ask for a retry: every one is counted, and the job is dead exactly when
-- its attempts have reached their maximum.
pub record HasFailed (id : String) (r : JobRecord) (n : ℕ) (u : UnitOfWork JobRecord) : Type 0 where
  pub row : JobRecord
  pub holds : Holds id row u
  pub counted : row.attempts ≡ r.attempts + n
  pub same_max : row.max_attempts ≡ r.max_attempts
  pub settled : row.state ≡ outcome (r.attempts + n) r.max_attempts

pub fail_times-HasFailed :
    (id error : String) (t : ℕ × ℕ) (ts : List (ℕ × ℕ)) (r : JobRecord) (u : UnitOfWork JobRecord)
    → Holds id r u
    → HasFailed id r (length (t ∷ ts)) (fail_times id error (t ∷ ts) u)
unfolding fail_times
fail_times-HasFailed id error (at, now) [] r u h =
    let f = fail_row_fields error at now r in
    record {
      row = fail_row error (some at) now r;
      holds = Holds-fail id error at now r u h;
      counted = f.0;
      same_max = f.1;
      settled = f.2;
    }
fail_times-HasFailed id error (at, now) (t ∷ ts) r u h =
    let f = fail_row_fields error at now r in
    let q = fail_row error (some at) now r in
    let ih =
      fail_times-HasFailed id error t ts q (fail id error (some at) now u).1
        (Holds-fail id error at now r u h) in
    record {
      row = ih.row;
      holds = ih.holds;
      counted = omega (arith, ih.counted, f.0);
      same_max = ih.same_max ∙ f.1;
      settled = ground (arith, ih.settled, f.0, f.1);
    }

-- A failure without a retry buries the job whatever attempts it has left.
pub fail_fatal :
    (id error : String) (now : ℕ) (r : JobRecord) (u : UnitOfWork JobRecord)
    → Holds id r u
    → (r' : JobRecord) × ((fail id error none now u).0 ≡ ok r')
      × (lookup id (rows jobs_table (fail id error none now u).1) ≡ some r')
      × (r'.state ≡ dead)
      × (r'.attempts ≡ r.attempts + 1)
      × (r'.finished_at ≡ some now)
unfolding fail
fail_fatal id error now r u h =
    let c = mutate-IsChanged id (fail_row error none now) r u h in
    (
      fail_row error none now r,
      c.returned,
      rw (c.looked_up id, (eq_iff id id).1 refl),
      refl,
      refl,
      refl,
    )
