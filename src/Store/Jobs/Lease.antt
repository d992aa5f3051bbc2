-- ===== src/Store/Jobs/Lease.antt =====
-- `heartbeat` and `reap`: who holds a job, and how a job comes back from a worker that died.
use clipper_ai.Base.{
  some_inj, ℕ, zero, suc, ◌≤◌, String, ◌≡◌, refl, sym, subst, ap, ◌∙◌, true, false, ◌&&◌, none,
  some, List, [], ◌==◌, eq_iff, arith, if◌then◌else◌, All, All-Occurs, Occurs, All-of_Occurs,
  Occurs-filter, filter-Occurs, take, take_all, nil_of_no_Occurs, Occurs-take, ok, inl, inr,
  Option-cases, length, min, Result,
}
use clipper_ai.Base.Dict.{lookup, insert, values, Occurs-of_lookup}
use clipper_ai.Store.Unit.{UnitOfWork, StoreError, write_state}
use clipper_ai.Store.Repository.{scoped}
use clipper_ai.Store.Jobs.{
  JobRecord, queued, jobs_table, claim, heartbeat, is_held, is_expired, expired_rows, requeue_row,
  requeue_rows, reap,
}
use clipper_ai.Store.Jobs.Rows.{
  find_id, find_id-Occurs, find_id_sound, find_id_self, found_or, changed, AreRows, lookup-put_all,
  put_all-IsKeyed, HasPut, requeue_rows-HasPut, scoped-AreRows,
}
use clipper_ai.Store.Jobs.Claim.{
  table, IsKeyedById, IsLeased, claim_lem, claim_sound, claim_writable,
}
use clipper_ai.Store.Jobs.Failure.{Holds}

-- A heartbeat extends a lease exactly if the caller holds it.
pub heartbeat_lem :
    (id owner : String) (until : ℕ) (r : JobRecord) (u : UnitOfWork JobRecord)
    → Holds id r u
    → heartbeat id owner until u ≡ (
        if (r.lease_owner == owner) && is_held r.state
        then (ok true, write_state "jobs" (insert id (record r { lease_until = some until })) u)
        else (ok false, u))
unfolding heartbeat
heartbeat_lem id owner until r u h =
    let e = (eq_iff r.tenant_id u.tenant_id).1 h.own in
    simp (h.writable, h.stands, e) (ground arith)

module _ (owner : String) (now lease_s : ℕ) (kinds : List String) (limit : ℕ)
    (u : UnitOfWork JobRecord) (open_unit : u.rolled_back ≡ false)
    (keyed : IsKeyedById (table u)) where
  abbrev claimed : UnitOfWork JobRecord
  claimed = (claim owner now lease_s kinds limit u).1

  pub IsLeased-Holds :
      (c : JobRecord)
      → IsLeased owner now lease_s kinds limit u open_unit keyed c
      → Holds c.id c claimed
  IsLeased-Holds c h = record {
    stands = h.stands;
    own =
        ap (λ (r : JobRecord). r.tenant_id) h.made
        ∙ h.own
        ∙ sym (claim_lem owner now lease_s kinds limit u open_unit).0.tenant;
    writable = claim_writable owner now lease_s kinds limit u open_unit keyed;
  }

  beat_of_leased :
      (other : String) (until : ℕ) (c : JobRecord)
      → IsLeased owner now lease_s kinds limit u open_unit keyed c
      → (heartbeat c.id other until claimed).0 ≡ ok (owner == other)
  beat_of_leased other until c h = ground (
    arith,
    heartbeat_lem c.id other until c claimed (IsLeased-Holds c h),
    ap (λ (r : JobRecord). r.lease_owner) h.made,
    ap (λ (r : JobRecord). r.state) h.made,
  )

  -- After a claim its owner's heartbeat is heard, and that of any other worker is refused.
  pub heartbeat_after_claim :
      (other : String) (until : ℕ) (cs : List JobRecord)
      → (claim owner now lease_s kinds limit u).0 ≡ ok cs
      → All (λ c. (heartbeat c.id other until claimed).0 ≡ ok (owner == other)) cs
  heartbeat_after_claim other until cs e =
      All-of_Occurs (λ c. (heartbeat c.id other until claimed).0 ≡ ok (owner == other)) cs
        (λ c m. beat_of_leased other until c (
          All-Occurs (IsLeased owner now lease_s kinds limit u open_unit keyed) c cs
            (claim_sound owner now lease_s kinds limit u open_unit keyed cs e) m))

take_none : (n : ℕ) → take {A = JobRecord} n [] ≡ []
take_none zero = refl
take_none (suc n) = refl

reap_nothing :
    (now limit : ℕ) (u : UnitOfWork JobRecord)
    → u.rolled_back ≡ false
    → expired_rows now u ≡ []
    → reap now limit u ≡ (ok 0, u)
unfolding reap requeue_rows
reap_nothing now limit u w e = simp (w, e, take_none) (ap (λ (n : ℕ). (ok n, u)) (omega arith))

module _ (now limit : ℕ) (u : UnitOfWork JobRecord) (open_unit : u.rolled_back ≡ false) where
  abbrev returned : List JobRecord
  returned = take limit (expired_rows now u)

  abbrev after : UnitOfWork JobRecord
  after = (reap now limit u).1

  reap-eq :
      reap now limit u
      ≡ (ok (min (length (expired_rows now u)) limit), (requeue_rows now returned u).1)
  unfolding reap
  reap-eq = simp (open_unit, (requeue_rows-HasPut now returned u).1)

  pub reap-HasPut : HasPut (requeue_row now) returned u after
  reap-HasPut =
      subst
        (λ (p : Result StoreError ℕ × UnitOfWork JobRecord).
          HasPut (requeue_row now) returned u p.1)
        (sym reap-eq) (requeue_rows-HasPut now returned u).0

  module _ (keyed : IsKeyedById (table u)) where
    pub reap-IsKeyed : IsKeyedById (table after)
    reap-IsKeyed =
        rw reap-HasPut.put_rows
          (put_all-IsKeyed (requeue_row now) (λ r. refl) returned (table u) keyed)

    requeued-ne-expired : (q r : JobRecord) → is_expired now r ≡ true → requeue_row now q ≡ r → ⊥
    requeued-ne-expired q r x e = ground (arith, x, ap (λ (p : JobRecord). p.state) e)

    returned-Occurs :
        (r : JobRecord)
        → Occurs r returned
        → Occurs r (scoped jobs_table u) × (is_expired now r ≡ true)
    returned-Occurs r m =
        Occurs-filter (is_expired now) r (scoped jobs_table u)
          (Occurs-take limit r (expired_rows now u) m)

    returned-AreRows : AreRows returned (table u)
    returned-AreRows =
        All-of_Occurs (λ r. lookup r.id (table u) ≡ some r) returned
          (λ r m. scoped-AreRows u keyed r (returned-Occurs r m).0)

    pub lookup-reap :
        (k : String)
        → lookup k (table after)
          ≡ found_or (changed (requeue_row now) (find_id k returned)) (lookup k (table u))
    lookup-reap k = rw reap-HasPut.put_rows (
        lookup-put_all (requeue_row now) (λ r. refl) k returned (table u) (table u)
          returned-AreRows)

    -- A job whose lease has time left, or that nobody holds, is not touched.
    pub reap_spares_live :
        (k : String) (r : JobRecord)
        → lookup k (table u) ≡ some r
        → is_expired now r ≡ false
        → lookup k (table after) ≡ some r
    reap_spares_live k r e live = elim (Option-cases (find_id k returned)) [
      | inl n ↦ lookup-reap k ∙ rw n e
      | inr (q, f) ↦ absurd (spared q f)
    ]
      where
        spared : (q : JobRecord) → find_id k returned ≡ some q → ⊥
        spared q f =
            let same = find_id_sound k returned (table u) returned-AreRows f in
            ground (arith, same.1, e, live, (returned-Occurs q (find_id-Occurs k returned f)).1)

    expired_Occurs :
        (r : JobRecord)
        → lookup r.id (table u) ≡ some r
        → r.tenant_id ≡ u.tenant_id
        → is_expired now r ≡ true
        → Occurs r (expired_rows now u)
    unfolding scoped
    expired_Occurs r e own x =
        filter-Occurs (is_expired now) r (scoped jobs_table u)
          (filter-Occurs (λ (q : JobRecord). q.tenant_id == u.tenant_id) r (values (table u))
            (Occurs-of_lookup r.id r (table u) e) ((eq_iff r.tenant_id u.tenant_id).1 own))
          x

    module _ (room : length (expired_rows now u) ≤ limit) where
      reap-requeue_row :
          (r : JobRecord)
          → lookup r.id (table u) ≡ some r
          → r.tenant_id ≡ u.tenant_id
          → is_expired now r ≡ true
          → lookup r.id (table after) ≡ some (requeue_row now r)
      reap-requeue_row r e own x =
          let m : Occurs r returned =
            rw (take_all limit (expired_rows now u) room) (expired_Occurs r e own x) in
          lookup-reap r.id ∙ rw (find_id_self r returned (table u) returned-AreRows m)

      -- The job is in the queue again, nobody holds it, and its attempts, its time and its work are
      -- what they were.
      pub record HasReturned (r : JobRecord) : Type 0 where
        pub row : JobRecord
        pub stands : lookup r.id (table after) ≡ some row
        pub waits : row.state ≡ queued
        pub unowned : row.lease_owner ≡ ""
        pub unleased : row.lease_until ≡ none
        pub same_attempts : row.attempts ≡ r.attempts
        pub same_time : row.run_after ≡ r.run_after
        pub same_kind : row.kind ≡ r.kind

      -- A reap with room for them all puts every expired job of the tenant back in the queue, held
      -- by nobody, with its attempts and its time as they were.
      pub reap_recovers :
          (r : JobRecord)
          → lookup r.id (table u) ≡ some r
          → r.tenant_id ≡ u.tenant_id
          → is_expired now r ≡ true
          → HasReturned r
      reap_recovers r e own x = record {
        row = requeue_row now r;
        stands = reap-requeue_row r e own x;
        waits = refl;
        unowned = refl;
        unleased = refl;
        same_attempts = refl;
        same_time = refl;
        same_kind = refl;
      }

      none_expired : (r : JobRecord) → Occurs r (expired_rows now after) → ⊥
      unfolding scoped
      none_expired r m =
          let (s, x) = Occurs-filter (is_expired now) r (scoped jobs_table after) m in
          let stood = scoped-AreRows after reap-IsKeyed r s in
          elim (Option-cases (find_id r.id returned)) [
            | inl n ↦
                let before : lookup r.id (table u) ≡ some r =
                  sym (lookup-reap r.id ∙ rw n) ∙ stood in
                let own : r.tenant_id ≡ u.tenant_id =
                  (eq_iff r.tenant_id after.tenant_id).0
                    (Occurs-filter (λ (q : JobRecord). q.tenant_id == after.tenant_id) r
                      (values (table after)) s).1
                  ∙ reap-HasPut.tenant in
                requeued-ne-expired r r x (some_inj (sym (reap-requeue_row r before own x) ∙ stood))
            | inr (q, f) ↦
                requeued-ne-expired q r x (some_inj (sym (lookup-reap r.id ∙ rw f) ∙ stood))
          ]

      -- A second reap at the same instant finds nothing to do.
      pub reap_idem : reap now limit after ≡ (ok 0, after)
      reap_idem =
          reap_nothing now limit after (reap-HasPut.writable ∙ open_unit)
            (nil_of_no_Occurs (expired_rows now after) none_expired)
