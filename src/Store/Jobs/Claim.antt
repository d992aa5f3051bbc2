-- ===== src/Store/Jobs/Claim.antt =====
-- What `claim` hands out, and what it leaves in the table.
use clipper_ai.Base.{
  ok_inj, some_inj, ℕ, ◌+◌, seconds, String, ◌≡◌, refl, sym, subst, ap, ◌∙◌, true, false, some,
  List, map, ◌==◌, eq_iff, arith, All, All-Occurs, Occurs, All-of_Occurs, filter, Occurs-filter,
  filter-Occurs, drop, Occurs-take, ok, inl, inr, length, length-take_full, take-drop-Occurs,
  length-map, All-map-Occurs, Result,
}
use clipper_ai.Base.Sort.{sort, Occurs-sort, sort-Occurs, sort-IsSorted, take-drop-IsSorted}
use clipper_ai.Base.Dict.{Dict, lookup, values, IsKeyed, Occurs-of_lookup}
use clipper_ai.Store.Unit.{UnitOfWork, StoreError}
use clipper_ai.Store.Repository.{rows, scoped}
use clipper_ai.Store.Jobs.{
  JobRecord, jobs_table, leased, lease_row, take_leases, is_ready, job_before, ready_rows, claim,
}
use clipper_ai.Store.Jobs.Order.{job_before-IsOrder}
use clipper_ai.Store.Jobs.Rows.{
  find_id, find_id_self, found_or, changed, AreRows, lookup-put_all, put_all-IsKeyed, HasPut,
  take_leases-HasPut, scoped-AreRows,
}

abbrev pub table : UnitOfWork JobRecord → Dict JobRecord
table = rows jobs_table

abbrev pub IsKeyedById : Dict JobRecord → Type 0
IsKeyedById = IsKeyed (λ r. r.id)

module _ (now : ℕ) (kinds : List String) (limit : ℕ) (u : UnitOfWork JobRecord) where
  pub ready_rows_facts :
      (r : JobRecord)
      → Occurs r (ready_rows now kinds limit u)
      → Occurs r (scoped jobs_table u) × (is_ready now kinds r ≡ true)
  unfolding ready_rows
  ready_rows_facts r m =
      let waiting = filter (is_ready now kinds) (scoped jobs_table u) in
      Occurs-filter (is_ready now kinds) r (scoped jobs_table u)
        (Occurs-sort job_before r waiting (Occurs-take limit r (sort job_before waiting) m))

  ready_rows-AreRows : IsKeyedById (table u) → AreRows (ready_rows now kinds limit u) (table u)
  ready_rows-AreRows h =
      All-of_Occurs (λ r. lookup r.id (table u) ≡ some r) (ready_rows now kinds limit u)
        (λ r m. scoped-AreRows u h r (ready_rows_facts r m).0)

  ready_rows_tenant :
      (r : JobRecord) → Occurs r (ready_rows now kinds limit u) → r.tenant_id ≡ u.tenant_id
  unfolding scoped
  ready_rows_tenant r m =
      (eq_iff r.tenant_id u.tenant_id).0
        (Occurs-filter (λ (q : JobRecord). q.tenant_id == u.tenant_id) r (values (table u))
          (ready_rows_facts r m).0).1

leased-ne-ready :
    (owner : String) (now lease_s : ℕ) (kinds : List String) (b : JobRecord)
    → is_ready now kinds b ≡ true
    → lease_row owner now lease_s b ≡ b
    → ⊥
leased-ne-ready owner now lease_s kinds b r e = ground (arith, r, ap (λ (q : JobRecord). q.state) e)

module _ (owner : String) (now lease_s : ℕ) (kinds : List String) (limit : ℕ)
    (u : UnitOfWork JobRecord) (open_unit : u.rolled_back ≡ false) where
  abbrev taken : List JobRecord
  taken = ready_rows now kinds limit u

  abbrev after : UnitOfWork JobRecord
  after = (claim owner now lease_s kinds limit u).1

  claim-eq-take_leases :
      claim owner now lease_s kinds limit u ≡ take_leases owner now lease_s taken u
  unfolding claim
  claim-eq-take_leases = simp open_unit

  pub claim_lem :
      HasPut (lease_row owner now lease_s) taken u after
      × ((claim owner now lease_s kinds limit u).0 ≡ ok (map (lease_row owner now lease_s) taken))
  claim_lem =
      subst
        (λ (p : Result StoreError (List JobRecord) × UnitOfWork JobRecord).
          HasPut (lease_row owner now lease_s) taken u p.1
          × (p.0 ≡ ok (map (lease_row owner now lease_s) taken)))
        (sym claim-eq-take_leases) (take_leases-HasPut owner now lease_s taken u)

  module _ (keyed : IsKeyedById (table u)) where
    pub claim-IsKeyed : IsKeyedById (table after)
    claim-IsKeyed =
        rw claim_lem.0.put_rows
          (put_all-IsKeyed (lease_row owner now lease_s) (λ r. refl) taken (table u) keyed)

    -- A row that is taken is leased in the table, and no other row changes.
    pub lookup-claim :
        (k : String)
        → lookup k (table after)
          ≡ found_or (changed (lease_row owner now lease_s) (find_id k taken)) (lookup k (table u))
    lookup-claim k = rw claim_lem.0.put_rows (
        lookup-put_all (lease_row owner now lease_s) (λ r. refl) k taken (table u) (table u)
          (ready_rows-AreRows now kinds limit u keyed))

    -- A row that was handed out: ready under its id before the call, and there after it held by the
    -- caller until its lease runs out, with its attempts and its work as they were.
    pub record IsLeased (c : JobRecord) : Type 0 where
      pub was : JobRecord
      pub stood : lookup c.id (table u) ≡ some was
      pub ready : is_ready now kinds was ≡ true
      pub own : was.tenant_id ≡ u.tenant_id
      pub made : c ≡ lease_row owner now lease_s was
      pub held : c.state ≡ leased
      pub held_by : c.lease_owner ≡ owner
      pub held_until : c.lease_until ≡ some (now + seconds lease_s)
      pub same_work : (c.kind ≡ was.kind) × (c.attempts ≡ was.attempts)
      pub stands : lookup c.id (table after) ≡ some c

    find_id-taken : (r : JobRecord) → Occurs r taken → find_id r.id taken ≡ some r
    find_id-taken r m =
        find_id_self r taken (table u) (ready_rows-AreRows now kinds limit u keyed) m

    taken-IsLeased : (r : JobRecord) → Occurs r taken → IsLeased (lease_row owner now lease_s r)
    taken-IsLeased r m = record {
      was = r;
      stood = scoped-AreRows u keyed r (ready_rows_facts now kinds limit u r m).0;
      ready = (ready_rows_facts now kinds limit u r m).1;
      own = ready_rows_tenant now kinds limit u r m;
      made = refl;
      held = refl;
      held_by = refl;
      held_until = refl;
      same_work = (refl, refl);
      stands = lookup-claim r.id ∙ rw (find_id-taken r m);
    }

    -- Whatever a claim hands out was ready, is this tenant's, and stands in the table as leased by
    -- the caller until the time of the lease has passed.
    pub claim_sound :
        (cs : List JobRecord) → (claim owner now lease_s kinds limit u).0 ≡ ok cs → All IsLeased cs
    claim_sound cs e =
        rw (ok_inj (sym e ∙ claim_lem.1))
          (All-map-Occurs IsLeased (lease_row owner now lease_s) taken taken-IsLeased)

    left_behind :
        (b : JobRecord)
        → lookup b.id (table u) ≡ some b
        → b.tenant_id ≡ u.tenant_id
        → is_ready now kinds b ≡ true
        → lookup b.id (table after) ≡ some b
        → Occurs b
            (drop limit (sort job_before (filter (is_ready now kinds) (scoped jobs_table u))))
    unfolding scoped ready_rows
    left_behind b stood own ready still =
        elim (take-drop-Occurs limit b
          (sort job_before (filter (is_ready now kinds) (scoped jobs_table u)))
          (sort-Occurs job_before b (filter (is_ready now kinds) (scoped jobs_table u)) (
            filter-Occurs (is_ready now kinds) b (scoped jobs_table u)
              (filter-Occurs (λ (q : JobRecord). q.tenant_id == u.tenant_id) b (values (table u))
                (Occurs-of_lookup b.id b (table u) stood) ((eq_iff b.tenant_id u.tenant_id).1 own))
              ready))) [
                | inl m ↦ absurd (
                    leased-ne-ready owner now lease_s kinds b ready
                      (some_inj (sym (lookup-claim b.id ∙ rw (find_id-taken b m)) ∙ still)))
                | inr m ↦ m
              ]

    -- A ready row that a claim leaves behind is left because the claim is full, and it stands
    -- before none of the rows that were taken.
    pub claim_urgent :
        (b : JobRecord) (cs : List JobRecord)
        → lookup b.id (table u) ≡ some b
        → b.tenant_id ≡ u.tenant_id
        → is_ready now kinds b ≡ true
        → (claim owner now lease_s kinds limit u).0 ≡ ok cs
        → lookup b.id (table after) ≡ some b
        → (length cs ≡ limit) × All (λ c. job_before b c ≡ false) cs
    unfolding ready_rows
    claim_urgent b cs stood own ready e still =
        let waiting = filter (is_ready now kinds) (scoped jobs_table u) in
        let m = left_behind b stood own ready still in
        rw (ok_inj (sym e ∙ claim_lem.1)) (
          length-map (lease_row owner now lease_s) taken
              ∙ length-take_full limit b (sort job_before waiting) m,
          All-map-Occurs (λ c. job_before b c ≡ false) (lease_row owner now lease_s) taken
              (λ r k.
                take-drop-IsSorted job_before limit r b (sort job_before waiting)
                  (sort-IsSorted job_before job_before-IsOrder waiting) k m),
        )

    pub claim_writable : after.rolled_back ≡ false
    claim_writable = claim_lem.0.writable ∙ open_unit

-- Two claims in a row hand out no job twice, whoever makes them and whatever they ask for.
pub claim_exclusive :
    (owner owner' : String) (now now' lease_s lease_s' : ℕ) (kinds kinds' : List String)
    (limit limit' : ℕ) (u : UnitOfWork JobRecord) (open_unit : u.rolled_back ≡ false)
    (keyed : IsKeyedById (table u)) (cs ds : List JobRecord)
    → (claim owner now lease_s kinds limit u).0 ≡ ok cs
    → (claim owner' now' lease_s' kinds' limit' (claim owner now lease_s kinds limit u).1).0 ≡ ok ds
    → All (λ d. All (λ c. (c.id == d.id) ≡ false) cs) ds
claim_exclusive owner owner' now now' lease_s lease_s' kinds kinds' limit limit' u w keyed cs ds e
      f =
    All-of_Occurs (λ d. All (λ c. (c.id == d.id) ≡ false) cs) ds
      (λ d m.
        All-of_Occurs (λ c. (c.id == d.id) ≡ false) cs
          (λ c k.
            apart
              (All-Occurs (IsLeased owner now lease_s kinds limit u w keyed) c cs
                (claim_sound owner now lease_s kinds limit u w keyed cs e) k)
              (All-Occurs (IsLeased owner' now' lease_s' kinds' limit' u' w' keyed') d ds
                (claim_sound owner' now' lease_s' kinds' limit' u' w' keyed' ds f) m)))
  where
    u' : UnitOfWork JobRecord
    u' = (claim owner now lease_s kinds limit u).1

    w' : u'.rolled_back ≡ false
    w' = claim_writable owner now lease_s kinds limit u w keyed

    keyed' : IsKeyedById (table u')
    keyed' = claim-IsKeyed owner now lease_s kinds limit u w keyed

    apart :
        {c d : JobRecord}
        → IsLeased owner now lease_s kinds limit u w keyed c
        → IsLeased owner' now' lease_s' kinds' limit' u' w' keyed' d
        → (c.id == d.id) ≡ false
    apart {c} {d} a b = ground (arith, eq_iff c.id d.id, a.made, a.stands, b.stood, b.ready)
