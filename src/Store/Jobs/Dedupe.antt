-- ===== src/Store/Jobs/Dedupe.antt =====
-- `enqueue`: the same logical work is queued once.
use clipper_ai.Base.{
  ok_inj, ℕ, String, ◌≡◌, sym, ap, ◌∙◌, true, false, Option, none, some, List, [], ◌∷◌, ◌==◌,
  eq_iff, arith, filter, ok, Result, inl, inr, Option-cases,
}
use clipper_ai.Base.Dict.{Dict, lookup, insert, values}
use clipper_ai.Store.Unit.{UnitOfWork, StoreError, tables-write_state, tenant_id-write_state}
use clipper_ai.Store.Repository.{rows, scoped, add, stamp}
use clipper_ai.Store.Jobs.{
  JobRecord, jobs_table, holds_key, first_with_key, find_duplicate, enqueue,
}

-- Work that is queued already comes back as the row that holds it, and nothing is written.
pub enqueue_held :
    (now : ℕ) (r row : JobRecord) (u : UnitOfWork JobRecord)
    → find_duplicate r.dedupe_key (scoped jobs_table u) ≡ some row
    → enqueue now r u ≡ (ok row, u)
unfolding enqueue
enqueue_held now r row u e = simp e

pub enqueue_new :
    (now : ℕ) (r : JobRecord) (u : UnitOfWork JobRecord)
    → find_duplicate r.dedupe_key (scoped jobs_table u) ≡ none
    → enqueue now r u ≡ add jobs_table now r u
unfolding enqueue
enqueue_new now r u e = simp e

abbrev pub tenant_rows : String → Dict JobRecord → List JobRecord
tenant_rows t d = filter (λ (r : JobRecord). r.tenant_id == t) (values d)

-- A new row at the end of the table is the first with its key, if no row had the key before.
first-insert_new :
    (t k : String) (r : JobRecord) (d : Dict JobRecord)
    → lookup r.id d ≡ none
    → (r.tenant_id == t) ≡ true
    → holds_key k r.dedupe_key ≡ true
    → first_with_key k (tenant_rows t d) ≡ none
    → first_with_key k (tenant_rows t (insert r.id r d)) ≡ some r
unfolding lookup insert values first_with_key
first-insert_new t k r [] n e h f = ground arith
first-insert_new t k r ((j, q) ∷ d) n e h f = ground (arith, first-insert_new t k r d)

-- A successful add of a new row, seen from the table.
pub record IsAdded (now : ℕ) (r row : JobRecord) (u u' : UnitOfWork JobRecord) : Type 0 where
  pub made : row ≡ stamp jobs_table now true r
  pub absent : lookup r.id (rows jobs_table u) ≡ none
  pub own : (r.tenant_id == u.tenant_id) ≡ true
  pub stored : rows jobs_table u' ≡ insert r.id (stamp jobs_table now true r) (rows jobs_table u)
  pub tenant : u'.tenant_id ≡ u.tenant_id
  pub writable : u.rolled_back ≡ false

pub add-IsAdded :
    (now : ℕ) (r row : JobRecord) (u : UnitOfWork JobRecord)
    → (add jobs_table now r u).0 ≡ ok row
    → IsAdded now r row u (add jobs_table now r u).1
unfolding add
add-IsAdded now r row u e =
    let w = insert r.id (stamp jobs_table now true r) in
    ground (arith, e, tables-write_state "jobs" w u, tenant_id-write_state "jobs" w u)

module _ (now : ℕ) (k : String) (r row : JobRecord) (u : UnitOfWork JobRecord)
    (keyed : r.dedupe_key ≡ some k) (real : (k == "") ≡ false) where
  first-add :
      (u' : UnitOfWork JobRecord)
      → IsAdded now r row u u'
      → first_with_key k (scoped jobs_table u) ≡ none
      → first_with_key k (scoped jobs_table u') ≡ some row
  unfolding scoped stamp
  first-add u' h n =
      rw (h.tenant, h.stored, h.made)
        (first-insert_new u.tenant_id k (record r { created_at = now; updated_at = now })
          (rows jobs_table u) h.absent h.own (ground (arith, keyed, eq_iff k k)) n)

  find-eq-first : (rs : List JobRecord) → find_duplicate r.dedupe_key rs ≡ first_with_key k rs
  find-eq-first rs = rw keyed (rw real)

  pub first-enqueue :
      (enqueue now r u).0 ≡ ok row
      → first_with_key k (scoped jobs_table (enqueue now r u).1) ≡ some row
  first-enqueue e = elim (Option-cases (find_duplicate r.dedupe_key (scoped jobs_table u))) [
    | inl n ↦
        let same = enqueue_new now r u n in
        let added : (add jobs_table now r u).0 ≡ ok row =
          ap (λ (p : Result StoreError JobRecord × UnitOfWork JobRecord). p.0) (sym same) ∙ e in
        ap
          (λ (p : Result StoreError JobRecord × UnitOfWork JobRecord).
            first_with_key k (scoped jobs_table p.1))
          same
        ∙ first-add (add jobs_table now r u).1 (add-IsAdded now r row u added)
            (sym (find-eq-first (scoped jobs_table u)) ∙ n)
    | inr (q, f) ↦
        let same = enqueue_held now r q u f in
        let q-eq : q ≡ row =
          ok_inj
            (ap (λ (p : Result StoreError JobRecord × UnitOfWork JobRecord). p.0) (sym same) ∙ e) in
        ap
          (λ (p : Result StoreError JobRecord × UnitOfWork JobRecord).
            first_with_key k (scoped jobs_table p.1))
          same
        ∙ sym (find-eq-first (scoped jobs_table u))
        ∙ f
        ∙ ap some q-eq
  ]

  -- Work with the same key, queued again at any time, comes back as the first row, and the second
  -- call writes nothing.
  pub enqueue_again :
      (now' : ℕ) (r' : JobRecord)
      → r'.dedupe_key ≡ some k
      → (enqueue now r u).0 ≡ ok row
      → enqueue now' r' (enqueue now r u).1 ≡ (ok row, (enqueue now r u).1)
  enqueue_again now' r' same e = enqueue_held now' r' row (enqueue now r u).1 (
      ap (λ (o : Option String). find_duplicate o (scoped jobs_table (enqueue now r u).1))
        (same ∙ sym keyed)
      ∙ find-eq-first (scoped jobs_table (enqueue now r u).1)
      ∙ first-enqueue e)
