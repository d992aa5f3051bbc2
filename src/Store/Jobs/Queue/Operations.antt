-- ===== src/Store/Jobs/Queue/Operations.antt =====
-- Every operation of the queue keeps what `IsSound` says of its table.
use clipper_ai.Base.{
  state-bind-pure, continue, gets, pure, ◌>>=◌, ◌>>◌, min, length, ℕ, String, ◌≡◌, refl, sym, ap,
  ◌∙◌, Bool, true, false, not, ◌||◌, Option, none, some, List, ◌==◌, arith, if◌then◌else◌,
  All-of_Occurs, Occurs, Occurs-take, Occurs-filter, take, ok, err, Bool-cases, inl, inr,
  Option-cases,
}
use clipper_ai.Base.Dict.{lookup, insert, values, lookup-key}
use clipper_ai.Base.Json.{Fields}
use clipper_ai.Store.Unit.{Tables, UnitOfWork, writable, was_rolled_back, write_state}
use clipper_ai.Store.Repository.{rows, scoped, visible, add, stamp}
use clipper_ai.Store.Jobs.{
  Jobs, change_row, beat_row, JobRecord, jobs_table, is_held, mutate, claim, take_leases,
  ready_rows, reap, requeue_rows, expired_rows, is_expired, enqueue, find_duplicate, heartbeat,
  succeed, succeed_row, fail, fail_row,
}
use clipper_ai.Store.Jobs.Rows.{scoped-AreRows}
use clipper_ai.Store.Jobs.Claim.{ready_rows_facts}
use clipper_ai.Store.Jobs.Dedupe.{enqueue_held, enqueue_new}
use clipper_ai.Store.Jobs.Queue.{
  HasLease, IsSound, insert-IsSound, MayReplace, take_leases-IsSound, requeue_rows-IsSound,
}

module _ (t : String) (before : Tables JobRecord) where
  scoped-MayReplace :
      (u : UnitOfWork JobRecord) (r : JobRecord)
      → IsSound t before u
      → Occurs r (scoped jobs_table u)
      → MayReplace t before u r
  unfolding scoped
  scoped-MayReplace u r h m =
      let own : (r.tenant_id == t) ≡ true =
        ap (λ (x : String). r.tenant_id == x) (sym h.isolated.same_tenant)
        ∙ (Occurs-filter (λ (q : JobRecord). q.tenant_id == u.tenant_id) r
            (values (rows jobs_table u)) m).1 in
      (own, rw (scoped-AreRows u h.keyed r m) own)

  -- `_writable` first: the rest runs on the same state, or nothing does.
  after_writable :
      {A : Type 0} (m : Jobs A) (u : UnitOfWork JobRecord)
      → IsSound t before u
      → IsSound t before (m u).1
      → IsSound t before ((writable >> m) u).1
  after_writable {A} m u h k = go u.rolled_back
    where
      go :
          (b : Bool)
          → IsSound t before
              (continue (if b then err was_rolled_back else ok tt) (λ (_ : Unit {0}). m) u).1
      go true = h
      go false = k

  pub claim-IsSound :
      (owner : String) (now lease_s : ℕ) (kinds : List String) (limit : ℕ)
      (u : UnitOfWork JobRecord)
      → IsSound t before u
      → IsSound t before (claim owner now lease_s kinds limit u).1
  unfolding claim
  claim-IsSound owner now lease_s kinds limit u h =
      after_writable (gets (ready_rows now kinds limit) >>= take_leases owner now lease_s) u h (
        take_leases-IsSound t before owner now lease_s (ready_rows now kinds limit u) u
          (All-of_Occurs (MayReplace t before u) (ready_rows now kinds limit u)
            (λ r m. scoped-MayReplace u r h (ready_rows_facts now kinds limit u r m).0))
          h)

  pub reap-IsSound :
      (now limit : ℕ) (u : UnitOfWork JobRecord)
      → IsSound t before u
      → IsSound t before (reap now limit u).1
  unfolding reap
  reap-IsSound now limit u h =
      let expired = expired_rows now u in
      let count : ℕ = min (length expired) limit in
      after_writable
        (gets (expired_rows now) >>= λ rs.
          requeue_rows now (take limit rs) >> pure (min (length rs) limit))
        u h
        (rw (state-bind-pure (requeue_rows now (take limit expired)) (λ (_ : Unit {0}). count) u) (
          requeue_rows-IsSound t before now (take limit expired) u
            (All-of_Occurs (MayReplace t before u) (take limit expired) (λ r m.
              scoped-MayReplace u r h
                (Occurs-filter (is_expired now) r (scoped jobs_table u)
                  (Occurs-take limit r expired m)).0))
            h))

  -- A change in place of the row that the id names.
  change-IsSound :
      (id : String) (q r : JobRecord) (u : UnitOfWork JobRecord)
      → IsSound t before u
      → lookup id (rows jobs_table u) ≡ some r
      → (r.tenant_id == u.tenant_id) ≡ true
      → q.id ≡ r.id
      → q.tenant_id ≡ r.tenant_id
      → HasLease q
      → IsSound t before (write_state "jobs" (insert id q) u)
  change-IsSound id q r u h e own same_id same_tenant lease =
      let mine : (r.tenant_id == t) ≡ true = rw (← h.isolated.same_tenant) own in
      insert-IsSound t before id q u
        (same_id ∙ lookup-key (λ (x : JobRecord). x.id) id r (rows jobs_table u) h.keyed e) lease
        (rw same_tenant mine) (rw e mine) h

  change_row-IsSound :
      (id : String) (f : JobRecord → JobRecord) (u : UnitOfWork JobRecord)
      → ((r : JobRecord) → (f r).id ≡ r.id)
      → ((r : JobRecord) → (f r).tenant_id ≡ r.tenant_id)
      → ((r : JobRecord) → HasLease (f r))
      → IsSound t before u
      → (o : Option JobRecord) → lookup id (rows jobs_table u) ≡ o
      → IsSound t before (change_row id f (visible jobs_table u.tenant_id o) u).1
  change_row-IsSound id f u same_id same_tenant lease h none e = h
  change_row-IsSound id f u same_id same_tenant lease h (some r) e =
      elim (Bool-cases (r.tenant_id == u.tenant_id)) [
        | inl own ↦
            rw own (change-IsSound id (f r) r u h e own (same_id r) (same_tenant r) (lease r))
        | inr foreign ↦ rw foreign h
      ]

  mutate-IsSound :
      (id : String) (f : JobRecord → JobRecord) (u : UnitOfWork JobRecord)
      → ((r : JobRecord) → (f r).id ≡ r.id)
      → ((r : JobRecord) → (f r).tenant_id ≡ r.tenant_id)
      → ((r : JobRecord) → HasLease (f r))
      → IsSound t before u
      → IsSound t before (mutate id f u).1
  unfolding mutate
  mutate-IsSound id f u same_id same_tenant lease h =
      after_writable
        (gets (λ v. visible jobs_table v.tenant_id (lookup id (rows jobs_table v)))
          >>= change_row id f)
        u h
        (change_row-IsSound id f u same_id same_tenant lease h (lookup id (rows jobs_table u)) refl)

  beat_row-IsSound :
      (id owner : String) (until : ℕ) (u : UnitOfWork JobRecord)
      → IsSound t before u
      → (o : Option JobRecord) → lookup id (rows jobs_table u) ≡ o
      → IsSound t before (beat_row id owner until (visible jobs_table u.tenant_id o) u).1
  beat_row-IsSound id owner until u h none e = h
  beat_row-IsSound id owner until u h (some r) e = elim (Bool-cases (r.tenant_id == u.tenant_id)) [
    | inr foreign ↦ rw foreign h
    | inl own ↦ rw own (elim (Bool-cases (not (r.lease_owner == owner) || not (is_held r.state))) [
      | inl refused ↦ rw refused h
      | inr held ↦ rw held (
          change-IsSound id (record r { lease_until = some until }) r u h e own refl refl
            (ground (arith, held)))
    ])
  ]

  pub heartbeat-IsSound :
      (id owner : String) (until : ℕ) (u : UnitOfWork JobRecord)
      → IsSound t before u
      → IsSound t before (heartbeat id owner until u).1
  unfolding heartbeat
  heartbeat-IsSound id owner until u h =
      after_writable
        (gets (λ v. visible jobs_table v.tenant_id (lookup id (rows jobs_table v)))
          >>= beat_row id owner until)
        u h (beat_row-IsSound id owner until u h (lookup id (rows jobs_table u)) refl)

  new-IsSound :
      (now : ℕ) (r : JobRecord) (u : UnitOfWork JobRecord)
      → HasLease r
      → IsSound t before u
      → lookup r.id (rows jobs_table u) ≡ none
      → (r.tenant_id == u.tenant_id) ≡ true
      → IsSound t before
          (write_state "jobs" (insert r.id (record r { created_at = now; updated_at = now })) u)
  new-IsSound now r u l h e own =
      insert-IsSound t before r.id (record r { created_at = now; updated_at = now }) u refl l
        (rw (← h.isolated.same_tenant) own) (rw e tt) h

  add-IsSound :
      (now : ℕ) (r : JobRecord) (u : UnitOfWork JobRecord)
      → HasLease r
      → IsSound t before u
      → IsSound t before (add jobs_table now r u).1
  unfolding add stamp
  add-IsSound now r u l h = elim (Option-cases (lookup r.id (rows jobs_table u))) [
    | inr (q, e) ↦ ground (arith, e)
    | inl e ↦ ground (arith, e, new-IsSound now r u)
  ]

  pub enqueue-IsSound :
      (now : ℕ) (r : JobRecord) (u : UnitOfWork JobRecord)
      → HasLease r
      → IsSound t before u
      → IsSound t before (enqueue now r u).1
  enqueue-IsSound now r u l h =
      elim (Option-cases (find_duplicate r.dedupe_key (scoped jobs_table u))) [
        | inr (row, e) ↦ rw (enqueue_held now r row u e) h
        | inl e ↦ rw (enqueue_new now r u e) (add-IsSound now r u l h)
      ]

  pub succeed-IsSound :
      (id : String) (result : Option Fields) (now : ℕ) (u : UnitOfWork JobRecord)
      → IsSound t before u
      → IsSound t before (succeed id result now u).1
  unfolding succeed
  succeed-IsSound id result now u h =
      mutate-IsSound id (succeed_row result now) u (λ r. refl) (λ r. refl) (λ r. refl) h

  pub fail-IsSound :
      (id error : String) (retry_at : Option ℕ) (now : ℕ) (u : UnitOfWork JobRecord)
      → IsSound t before u
      → IsSound t before (fail id error retry_at now u).1
  unfolding fail
  fail-IsSound id error none now u h =
      mutate-IsSound id (fail_row error none now) u (λ r. refl) (λ r. refl) (λ r. refl) h
  fail-IsSound id error (some at) now u h =
      mutate-IsSound id (fail_row error (some at) now) u (λ r. ground arith) (λ r. ground arith)
        (λ r. ground arith) h
