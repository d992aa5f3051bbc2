-- ===== src/Worker/Chain/Rerun.antt =====
-- `enqueue` of chain.py run again, as a reaped lease makes it run.
use clipper_ai.Base.{
  ok_inj, ◌⊎◌, none, subst, Keeps, Keeps-pure, Keeps-bind, bind-ok_inv, ℕ, suc, String, ◌≡◌, refl,
  sym, ap, ◌∙◌, false, some, List, [], ◌∷◌, ◌==◌, Result, ok, err, All, arith, pure, ◌>>=◌, inl,
  inr, Option-cases,
}
use clipper_ai.Base.Text.{◌⧺◌}
use clipper_ai.Store.Unit.{UnitOfWork, StoreError}
use clipper_ai.Base.Dict.{Dict, lookup, insert, values}
use clipper_ai.Store.Repository.{scoped, stamp, add, rows}
use clipper_ai.Store.Repository.Laws.{add_raised}
use clipper_ai.Store.Jobs.{
  JobRecord, jobs_table, jobs_table-IsSchema, enqueue, find_duplicate, first_with_key,
}
use clipper_ai.Store.Jobs.Dedupe.{
  enqueue_held, enqueue_new, tenant_rows, IsAdded, add-IsAdded, first-enqueue,
}
use clipper_ai.Worker.Types.{JobSpec}
use clipper_ai.Worker.Chain.{spec_row, enqueue_specs}

abbrev pub HasKey : JobSpec → Type 0
HasKey spec = (spec.dedupe_key == "") ≡ false

-- A row at the end of the table hides no earlier row with a key.
first-insert_kept :
    (t k : String) (r row : JobRecord) (d : Dict JobRecord)
    → lookup r.id d ≡ none
    → first_with_key k (tenant_rows t d) ≡ some row
    → first_with_key k (tenant_rows t (insert r.id r d)) ≡ some row
unfolding lookup insert values first_with_key
first-insert_kept t k r row [] n f = cc
first-insert_kept t k r row ((j, q) ∷ d) n f = ground (arith, first-insert_kept t k r row d)

first-add_kept :
    (k : String) (now : ℕ) (r row made : JobRecord) (u u' : UnitOfWork JobRecord)
    → IsAdded now r made u u'
    → first_with_key k (scoped jobs_table u) ≡ some row
    → first_with_key k (scoped jobs_table u') ≡ some row
unfolding scoped stamp
first-add_kept k now r row made u u' h f =
    rw (h.tenant, h.stored)
      (first-insert_kept u.tenant_id k (record r { created_at = now; updated_at = now }) row
        (rows jobs_table u) h.absent f)

Result-cases : {E A : Type 0} (r : Result E A) → ((e : E) × (r ≡ err e)) ⊎ ((a : A) × (r ≡ ok a))
Result-cases (err e) = inl (e, refl)
Result-cases (ok a) = inr (a, refl)

-- Queueing another job leaves the row of a key where it is.
pub first-enqueue_kept :
    (k : String) (now : ℕ) (r row : JobRecord) (u : UnitOfWork JobRecord)
    → first_with_key k (scoped jobs_table u) ≡ some row
    → first_with_key k (scoped jobs_table (enqueue now r u).1) ≡ some row
first-enqueue_kept k now r row u f =
    elim (Option-cases (find_duplicate r.dedupe_key (scoped jobs_table u))) [
      | inr (q, e) ↦ rw (enqueue_held now r q u e) f
      | inl e ↦ rw (enqueue_new now r u e) (elim (Result-cases (add jobs_table now r u).0) [
        | inl (x, s) ↦ rw (add_raised jobs_table jobs_table-IsSchema now r u s) f
        | inr (made, s) ↦
            first-add_kept k now r row made u (add jobs_table now r u).1
              (add-IsAdded now r made u s) f
      ])
    ]

module _ (mint : ℕ → String) (tenant : String) (now : ℕ) where
  abbrev row_of : ℕ → JobSpec → JobRecord
  row_of n spec = spec_row tenant ("job_" ⧺ mint n) now spec

  first-enqueue_specs :
      (k : String) (row : JobRecord) (n : ℕ) (specs : List JobSpec)
      → Keeps
          (λ u. first_with_key k (scoped jobs_table u) ≡ some row)
          (enqueue_specs mint tenant now n specs)
  unfolding enqueue_specs
  first-enqueue_specs k row n [] = Keeps-pure []
  first-enqueue_specs k row n (spec ∷ specs) =
      Keeps-bind (enqueue now (row_of n spec))
        (λ made. enqueue_specs mint tenant now (suc n) specs >>= λ rest. pure (made.id ∷ rest))
        (record { at = λ u f. first-enqueue_kept k now (row_of n spec) row u f })
        (λ made.
          Keeps-bind (enqueue_specs mint tenant now (suc n) specs) (λ rest. pure (made.id ∷ rest))
            (first-enqueue_specs k row (suc n) specs) (λ rest. Keeps-pure (made.id ∷ rest)))

  -- A run of a chain that has returned, as the run of its first job and that of the rest.
  record IsStep (n : ℕ) (spec : JobSpec) (specs : List JobSpec) (ids : List String)
      (u : UnitOfWork JobRecord) : Type 0 where
    made : JobRecord
    rest : List String
    first : (enqueue now (row_of n spec) u).0 ≡ ok made
    others :
        (enqueue_specs mint tenant now (suc n) specs (enqueue now (row_of n spec) u).1).0 ≡ ok rest
    all_ids : ids ≡ made.id ∷ rest
    state :
        (enqueue_specs mint tenant now n (spec ∷ specs) u).1
        ≡ (enqueue_specs mint tenant now (suc n) specs (enqueue now (row_of n spec) u).1).1

  step :
      (n : ℕ) (spec : JobSpec) (specs : List JobSpec) (ids : List String) (u : UnitOfWork JobRecord)
      → (enqueue_specs mint tenant now n (spec ∷ specs) u).0 ≡ ok ids
      → IsStep n spec specs ids u
  unfolding enqueue_specs
  step n spec specs ids u e =
      let u1 = (enqueue now (row_of n spec) u).1 in
      let (made, e1, q1) =
        bind-ok_inv (enqueue now (row_of n spec))
          (λ row. enqueue_specs mint tenant now (suc n) specs >>= λ rest. pure (row.id ∷ rest)) u
          ids e in
      let (rest, e2, q2) =
        bind-ok_inv (enqueue_specs mint tenant now (suc n) specs) (λ rest. pure (made.id ∷ rest)) u1
          ids
          (ap (λ (p : Result StoreError (List String) × UnitOfWork JobRecord). p.0) (sym q1) ∙ e) in
      let whole = q1 ∙ q2 in
      record {
        made = made;
        rest = rest;
        first = e1;
        others = e2;
        all_ids = ok_inj (
            sym e ∙ ap (λ (p : Result StoreError (List String) × UnitOfWork JobRecord). p.0) whole);
        state = ap (λ (p : Result StoreError (List String) × UnitOfWork JobRecord). p.1) whole;
      }

module _ (mint mint' : ℕ → String) (tenant : String) (now now' : ℕ) where
  -- A job whose key holds a row comes back as that row, and nothing is written.
  requeue :
      (n' : ℕ) (spec : JobSpec) (row : JobRecord) (u : UnitOfWork JobRecord)
      → HasKey spec
      → first_with_key spec.dedupe_key (scoped jobs_table u) ≡ some row
      → enqueue now' (row_of mint' tenant now' n' spec) u ≡ (ok row, u)
  requeue n' spec row u k f =
      enqueue_held now' (row_of mint' tenant now' n' spec) row u (rw k (rw k f))

  requeue_cons :
      (n' : ℕ) (spec : JobSpec) (specs : List JobSpec) (row : JobRecord) (rest : List String)
      (v : UnitOfWork JobRecord)
      → enqueue now' (row_of mint' tenant now' n' spec) v ≡ (ok row, v)
      → enqueue_specs mint' tenant now' (suc n') specs v ≡ (ok rest, v)
      → enqueue_specs mint' tenant now' n' (spec ∷ specs) v ≡ (ok (row.id ∷ rest), v)
  unfolding enqueue_specs
  requeue_cons n' spec specs row rest v a b = rw a (rw b refl)

  -- If the followers of a job have been queued, and each names a key, then queueing them again, at
  -- any time and with any new ids, returns the ids of the first time and writes nothing.
  pub chain_again :
      (n n' : ℕ) (specs : List JobSpec) (ids : List String) (u : UnitOfWork JobRecord)
      → All HasKey specs
      → (enqueue_specs mint tenant now n specs u).0 ≡ ok ids
      → enqueue_specs mint' tenant now' n' specs (enqueue_specs mint tenant now n specs u).1
        ≡ (ok ids, (enqueue_specs mint tenant now n specs u).1)
  unfolding enqueue_specs
  chain_again n n' [] ids u k e = ap (λ (i : List String). (ok i, u)) (ok_inj e)
  chain_again n n' (spec ∷ specs) ids u k e =
      let s = step mint tenant now n spec specs ids u e in
      let r = row_of mint tenant now n spec in
      let u1 = (enqueue now r u).1 in
      let last = (enqueue_specs mint tenant now (suc n) specs u1).1 in
      let held : first_with_key spec.dedupe_key (scoped jobs_table last) ≡ some s.made =
        (first-enqueue_specs mint tenant now spec.dedupe_key s.made (suc n) specs).at u1
          (first-enqueue now spec.dedupe_key r s.made u (rw k.0 refl) k.0 s.first) in
      let again = requeue n' spec s.made last k.0 held in
      let tail = chain_again (suc n) (suc n') specs s.rest u1 k.1 s.others in
      let all_again = requeue_cons n' spec specs s.made s.rest last again tail in
      subst
        (λ (v : UnitOfWork JobRecord).
          enqueue_specs mint' tenant now' n' (spec ∷ specs) v ≡ (ok ids, v))
        (sym s.state)
        (subst
          (λ (i : List String).
            enqueue_specs mint' tenant now' n' (spec ∷ specs) last ≡ (ok i, last))
          (sym s.all_ids) all_again)
