-- ===== src/Worker/Monitor/Requeue.antt =====
-- `requeue_dead`: what becomes of the dead jobs.
use clipper_ai.Base.{
  ℕ, ◌+◌, ◌<◌, String, ◌≡◌, refl, sym, ◌∙◌, true, false, some, none, List, [], ◌∷◌, ◌==◌, eq_iff,
  arith, ok, Occurs, inl, inr, bind-ok_inv, Bool-cases, ok_inj, ◌>>=◌, leb, ◌⊎◌, Option, is_some,
  not, subst, leb→le,
}
use clipper_ai.Base.Dict.{lookup}
use clipper_ai.Store.Unit.{UnitOfWork}
use clipper_ai.Store.Repository.{rows, save, stamp, get, keep_created, all, scoped}
use clipper_ai.Store.Repository.Laws.{get-save, save_stored}
use clipper_ai.Store.Jobs.{JobRecord, jobs_table, jobs_table-IsSchema, queued}
use clipper_ai.Worker.Monitor.{revive_row, revive_rows, is_revived, requeue_block}

-- The tenant's row under an id is queued, due now, and has its attempts back.
pub record IsRevived (now : ℕ) (id : String) (u : UnitOfWork JobRecord) : Type 0 where
  pub row : JobRecord
  pub stands : (get jobs_table id u).0 ≡ ok (some row)
  pub waits : row.state ≡ queued
  pub rested : row.attempts ≡ 0
  pub due : row.run_after ≡ now

module _ (now : ℕ) where
  abbrev SameWork : JobRecord → JobRecord → Type 0
  SameWork stored r =
      (stored.state ≡ r.state) × (stored.attempts ≡ r.attempts) × (stored.run_after ≡ r.run_after)

  SameWork-kept :
      (r : JobRecord) (held : Option JobRecord)
      → SameWork (keep_created jobs_table held (stamp jobs_table now (not (is_some held)) r)) r
  unfolding stamp
  SameWork-kept r none = (refl, refl, refl)
  SameWork-kept r (some q) = (refl, refl, refl)

  SameWork-save :
      (r stored : JobRecord) (u : UnitOfWork JobRecord)
      → (save jobs_table now r u).0 ≡ ok stored
      → SameWork stored r
  SameWork-save r stored u e =
      subst (λ q. SameWork q r) (sym (save_stored jobs_table jobs_table-IsSchema now r stored u e))
        (SameWork-kept r (lookup r.id (rows jobs_table u)))

  -- Saving a revived row revives its id, and leaves the other revived ids alone.
  save-IsRevived :
      (r stored : JobRecord) (id : String) (u : UnitOfWork JobRecord)
      → (save jobs_table now (revive_row now r) u).0 ≡ ok stored
      → ((r.id == id) ≡ false → IsRevived now id u)
      → IsRevived now id (save jobs_table now (revive_row now r) u).1
  save-IsRevived r stored id u e h =
      let g = get-save jobs_table jobs_table-IsSchema now (revive_row now r) stored u id e in
      let (a, b, c) = SameWork-save (revive_row now r) stored u e in
      elim (Bool-cases (r.id == id)) [
        | inl same ↦ record {
          row = stored;
          stands = g ∙ (rw same refl);
          waits = a;
          rested = b;
          due = c;
        }
        | inr other ↦
            let old = h other in
            record {
              row = old.row;
              stands = g ∙ (rw other old.stands);
              waits = old.waits;
              rested = old.rested;
              due = old.due;
            }
      ]

  module _ (kind : String) (limit : ℕ) where
    -- A dead job of the kind, under this id.
    abbrev pub Named : String → List JobRecord → Type 0
    Named id rs = (r : JobRecord) × Occurs r rs × (is_revived kind r ≡ true) × (r.id ≡ id)

    -- What one turn of the loop does.
    revive_stop :
        (moved : ℕ) (r : JobRecord) (rs : List JobRecord) (u : UnitOfWork JobRecord)
        → leb limit moved ≡ true
        → revive_rows kind limit now moved (r ∷ rs) u ≡ (ok moved, u)
    unfolding revive_rows
    revive_stop moved r rs u e = rw e refl

    revive_skip :
        (moved : ℕ) (r : JobRecord) (rs : List JobRecord) (u : UnitOfWork JobRecord)
        → leb limit moved ≡ false
        → is_revived kind r ≡ false
        → revive_rows kind limit now moved (r ∷ rs) u ≡ revive_rows kind limit now moved rs u
    unfolding revive_rows
    revive_skip moved r rs u e f = rw (e, f) refl

    revive_move :
        (moved : ℕ) (r : JobRecord) (rs : List JobRecord) (u : UnitOfWork JobRecord)
        → leb limit moved ≡ false
        → is_revived kind r ≡ true
        → revive_rows kind limit now moved (r ∷ rs) u
          ≡ (save jobs_table now (revive_row now r)
                >>= (λ stored. revive_rows kind limit now (moved + 1) rs))
              u
    unfolding revive_rows
    revive_move moved r rs u e f = rw (e, f) refl

    revive_end :
        (moved : ℕ) (u : UnitOfWork JobRecord) (id : String)
        → IsRevived now id u
        → IsRevived now id (revive_rows kind limit now moved [] u).1
    unfolding revive_rows
    revive_end moved u id old = old

    at_limit :
        (moved n : ℕ) (r : JobRecord) (rs : List JobRecord) (u : UnitOfWork JobRecord)
        → leb limit moved ≡ true
        → (revive_rows kind limit now moved (r ∷ rs) u).0 ≡ ok n
        → n < limit
        → ⊥
    at_limit moved n r rs u full e l =
        let same : moved ≡ n = ok_inj (rw (revive_stop moved r rs u full) at e) in
        omega (arith, same, leb→le limit moved full, l)

    skipped :
        {u : UnitOfWork JobRecord} {id : String} (r : JobRecord) (rs : List JobRecord)
        → is_revived kind r ≡ false
        → IsRevived now id u ⊎ Named id (r ∷ rs)
        → IsRevived now id u ⊎ Named id rs
    skipped r rs f (inl old) = inl old
    skipped r rs f (inr (x, inl same, p, named)) = cc
    skipped r rs f (inr (x, inr m, p, named)) = inr (x, m, p, named)

    not_self : {id : String} {x r : JobRecord} → x ≡ r → x.id ≡ id → (r.id == id) ≡ false → ⊥
    not_self {id} {x} {r} same named f = ground (arith, eq_iff r.id id)

    -- A revived id stays revived, and the loop's rows are revived if it does not stop at its limit.
    revive_rows-IsRevived :
        (moved n : ℕ) (rs : List JobRecord) (u : UnitOfWork JobRecord)
        → (revive_rows kind limit now moved rs u).0 ≡ ok n
        → n < limit
        → (id : String) → IsRevived now id u ⊎ Named id rs
        → IsRevived now id (revive_rows kind limit now moved rs u).1
    revive_rows-IsRevived moved n [] u e l id (inl old) = revive_end moved u id old
    revive_rows-IsRevived moved n [] u e l id (inr (x, m, _, _)) = absurd m
    revive_rows-IsRevived moved n (r ∷ rs) u e l id h = elim (Bool-cases (leb limit moved)) [
      | inl full ↦ absurd (at_limit moved n r rs u full e l)
      | inr room ↦ elim (Bool-cases (is_revived kind r)) [
        | inr skip ↦ rw (revive_skip moved r rs u room skip) (
            revive_rows-IsRevived moved n rs u (rw (revive_skip moved r rs u room skip) at e) l id
              (skipped r rs skip h))
        | inl move ↦
            let (stored, s, q) =
              bind-ok_inv (save jobs_table now (revive_row now r))
                (λ stored. revive_rows kind limit now (moved + 1) rs) u n
                (rw (revive_move moved r rs u room move) at e) in
            rw (revive_move moved r rs u room move) (
              rw q (
                revive_rows-IsRevived (moved + 1) n rs (save jobs_table now (revive_row now r) u).1
                  (rw q at (rw (revive_move moved r rs u room move) at e)) l id
                  (elim h [
                    | inl old ↦ inl (save-IsRevived r stored id u s (λ _. old))
                    | inr (x, inl same, p, named) ↦
                        inl (save-IsRevived r stored id u s (λ f. absurd (not_self same named f)))
                    | inr (x, inr m, p, named) ↦ inr (x, m, p, named)
                  ])))
      ]
    ]

    -- If a requeueing of dead jobs returns and has moved fewer than its limit, then every job of the
    -- tenant that was dead and of the kind asked for is queued, due now and has its attempts back.
    pub requeue_all :
        (n : ℕ) (u : UnitOfWork JobRecord)
        → (requeue_block kind limit now u).0 ≡ ok n
        → n < limit
        → (r : JobRecord) → Occurs r (scoped jobs_table u)
        → is_revived kind r ≡ true
        → IsRevived now r.id (requeue_block kind limit now u).1
    unfolding requeue_block all
    requeue_all n u e l r m d =
        revive_rows-IsRevived 0 n (scoped jobs_table u) u e l r.id (inr (r, m, d, refl))
