-- ===== src/Store/Jobs/Rows.antt =====
-- Loops that write changed rows back, seen from the rows: each row of the list is changed, and no
-- other.
use clipper_ai.Base.{
  ℕ, String, ◌≡◌, refl, ap, ◌∙◌, Option, none, some, List, [], ◌∷◌, map, ◌==◌, eq_iff, arith,
  if◌then◌else◌, All, All-Occurs, Occurs, Occurs-filter, ok, Bool-cases, inl, inr, Option-cases,
}
use clipper_ai.Base.Dict.{
  Dict, lookup, insert, values, lookup-insert, IsKeyed, insert-IsKeyed, lookup_of_Occurs,
}
use clipper_ai.Store.Unit.{
  UnitOfWork, write_state, tables-write_state, tenant_id-write_state, rolled_back-write_state,
}
use clipper_ai.Store.Repository.{rows, scoped}
use clipper_ai.Store.Jobs.{JobRecord, jobs_table, lease_row, take_leases, requeue_row, requeue_rows}

-- The row of the list with this id.
unfoldable pub find_id : String → List JobRecord → Option JobRecord
find_id k [] = none
find_id k (r ∷ rs) = if r.id == k then some r else find_id k rs

abbrev pub found_or : Option JobRecord → Option JobRecord → Option JobRecord
found_or (some r) o = some r
found_or none o = o

-- Every row of the list stands in the table under its id.
abbrev pub AreRows : List JobRecord → Dict JobRecord → Type 0
AreRows rs d = All (λ r. lookup r.id d ≡ some r) rs

pub find_id_sound :
    (k : String) (rs : List JobRecord) (d : Dict JobRecord) {r : JobRecord}
    → AreRows rs d
    → find_id k rs ≡ some r
    → (r.id ≡ k) × (lookup k d ≡ some r)
unfolding find_id
find_id_sound k [] d h e = cc
find_id_sound k (q ∷ rs) d {r} h e = elim (Bool-cases (q.id == k)) [
  | inl p ↦ ground (arith, eq_iff q.id k)
  | inr p ↦ find_id_sound k rs d h.1 (ground arith)
]

pub find_id_self :
    (r : JobRecord) (rs : List JobRecord) (d : Dict JobRecord)
    → AreRows rs d
    → Occurs r rs
    → find_id r.id rs ≡ some r
unfolding find_id
find_id_self r [] d h m = absurd m
find_id_self r (q ∷ rs) d h (inl e) = ground (arith, eq_iff q.id r.id)
find_id_self r (q ∷ rs) d h (inr m) = elim (Bool-cases (q.id == r.id)) [
  | inl p ↦
      ground (arith, eq_iff q.id r.id, h.0, All-Occurs (λ r. lookup r.id d ≡ some r) r rs h.1 m)
  | inr p ↦ rw p (find_id_self r rs d h.1 m)
]

pub find_id-Occurs :
    (k : String) (rs : List JobRecord) {r : JobRecord} → find_id k rs ≡ some r → Occurs r rs
unfolding find_id
find_id-Occurs k [] e = cc
find_id-Occurs k (q ∷ rs) {r} e = elim (Bool-cases (q.id == k)) [
  | inl p ↦ inl (ground (arith, p, e))
  | inr p ↦ inr (find_id-Occurs k rs (ground (arith, p, e)))
]

module _ (f : JobRecord → JobRecord) where
  unfoldable pub put_all : List JobRecord → Dict JobRecord → Dict JobRecord
  put_all [] d = d
  put_all (r ∷ rs) d = put_all rs (insert (f r).id (f r) d)

  abbrev pub changed : Option JobRecord → Option JobRecord
  changed none = none
  changed (some r) = some (f r)

-- A change of rows that leaves their ids alone.
module _ (f : JobRecord → JobRecord) (same_id : (r : JobRecord) → (f r).id ≡ r.id) where
  pub lookup-put_all :
      (k : String) (rs : List JobRecord) (d0 d : Dict JobRecord)
      → AreRows rs d0
      → lookup k (put_all f rs d) ≡ found_or (changed f (find_id k rs)) (lookup k d)
  unfolding put_all find_id
  lookup-put_all k [] d0 d h = refl
  lookup-put_all k (r ∷ rs) d0 d h =
      lookup-put_all k rs d0 (insert (f r).id (f r) d) h.1 ∙ elim (Option-cases (find_id k rs)) [
        | inl e ↦ ground (arith, e, same_id r, lookup-insert (f r).id k (f r) d)
        | inr (q, e) ↦ ground (arith, e, eq_iff r.id k, find_id_sound k rs d0 h.1 e, h.0)
      ]

  pub put_all-IsKeyed :
      (rs : List JobRecord) (d : Dict JobRecord)
      → IsKeyed (λ r. r.id) d
      → IsKeyed (λ r. r.id) (put_all f rs d)
  unfolding put_all
  put_all-IsKeyed [] d h = h
  put_all-IsKeyed (r ∷ rs) d h =
      put_all-IsKeyed rs (insert (f r).id (f r) d)
        (insert-IsKeyed (λ r. r.id) (f r).id (f r) d refl h)

-- The unit of work after a loop that writes the changed rows back.
pub record HasPut (f : JobRecord → JobRecord) (rs : List JobRecord) (u u' : UnitOfWork JobRecord)
    : Type 0 where
  pub put_rows : rows jobs_table u' ≡ put_all f rs (rows jobs_table u)
  pub tenant : u'.tenant_id ≡ u.tenant_id
  pub writable : u'.rolled_back ≡ u.rolled_back

HasPut-cons :
    (f : JobRecord → JobRecord) (r : JobRecord) (rs : List JobRecord) (u u' : UnitOfWork JobRecord)
    → HasPut f rs (write_state "jobs" (insert (f r).id (f r)) u) u'
    → HasPut f (r ∷ rs) u u'
unfolding put_all
HasPut-cons f r rs u u' h =
    let w = insert (f r).id (f r) in
    record {
      put_rows = h.put_rows ∙ ap (put_all f rs) (tables-write_state "jobs" w u);
      tenant = h.tenant ∙ tenant_id-write_state "jobs" w u;
      writable = h.writable ∙ rolled_back-write_state "jobs" w u;
    }

pub take_leases-HasPut :
    (owner : String) (now lease_s : ℕ) (rs : List JobRecord) (u : UnitOfWork JobRecord)
    → HasPut (lease_row owner now lease_s) rs u (take_leases owner now lease_s rs u).1
      × ((take_leases owner now lease_s rs u).0 ≡ ok (map (lease_row owner now lease_s) rs))
unfolding take_leases put_all
take_leases-HasPut owner now lease_s [] u =
    (record { put_rows = refl; tenant = refl; writable = refl }, refl)
take_leases-HasPut owner now lease_s (r ∷ rs) u =
    let u1 = write_state "jobs" (insert r.id (lease_row owner now lease_s r)) u in
    let ih = take_leases-HasPut owner now lease_s rs u1 in
    (
      ground (
        arith,
        ih.1,
        HasPut-cons (lease_row owner now lease_s) r rs u (take_leases owner now lease_s rs u1).1
            ih.0,
      ),
      ground (arith, ih.1),
    )

pub requeue_rows-HasPut :
    (now : ℕ) (rs : List JobRecord) (u : UnitOfWork JobRecord)
    → HasPut (requeue_row now) rs u (requeue_rows now rs u).1 × ((requeue_rows now rs u).0 ≡ ok tt)
unfolding requeue_rows put_all
requeue_rows-HasPut now [] u = (record { put_rows = refl; tenant = refl; writable = refl }, refl)
requeue_rows-HasPut now (r ∷ rs) u =
    let u1 = write_state "jobs" (insert r.id (requeue_row now r)) u in
    let ih = requeue_rows-HasPut now rs u1 in
    (HasPut-cons (requeue_row now) r rs u (requeue_rows now rs u1).1 ih.0, ih.1)

-- The rows that a query of the table selects stand in the table.
pub scoped-AreRows :
    (u : UnitOfWork JobRecord)
    → IsKeyed (λ r. r.id) (rows jobs_table u)
    → (r : JobRecord) → Occurs r (scoped jobs_table u)
    → lookup r.id (rows jobs_table u) ≡ some r
unfolding scoped
scoped-AreRows u h r m =
    lookup_of_Occurs (λ r. r.id) r (rows jobs_table u) h
      (Occurs-filter (λ r. r.tenant_id == u.tenant_id) r (values (rows jobs_table u)) m).0
