-- ===== src/Worker/Runtime/Recording.antt =====
-- `_record`: the outcome of a job and the jobs that follow it are written together or not at all.
use clipper_ai.Base.{
  Keeps, Keeps-pure, Keeps-bind, pure, ◌>>=◌, raised, ℕ, suc, String, ◌≡◌, refl, true, some, none,
  List, [], ◌∷◌, Result, ok, err, length,
}
use clipper_ai.Base.Text.{◌⧺◌}
use clipper_ai.Base.Text.{text_or}
use clipper_ai.Store.Unit.{Tables, StoreError, transaction}
use clipper_ai.Store.Unit.Atomic.{fresh, transaction_atomic}
use clipper_ai.Store.Jobs.{JobRecord, enqueue, succeed, fail}
use clipper_ai.Store.Jobs.Queue.{IsSound}
use clipper_ai.Store.Jobs.Queue.Calls.{IsQueue, fresh-IsSound}
use clipper_ai.Store.Jobs.Queue.Operations.{enqueue-IsSound, succeed-IsSound, fail-IsSound}
use clipper_ai.Worker.Types.{JobSpec, Disposition, done, retry, fatal, Outcome}
use clipper_ai.Worker.Chain.{spec_row, enqueue_specs}
use clipper_ai.Worker.Runtime.{
  Worker, Surroundings, record_block, record_outcome, recorded, with_follow_on, result_fields,
}

module _ (t : String) (before : Tables JobRecord) where
  enqueue_specs-Keeps :
      (mint : ℕ → String) (now n : ℕ) (specs : List JobSpec)
      → Keeps (IsSound t before) (enqueue_specs mint t now n specs)
  unfolding enqueue_specs
  enqueue_specs-Keeps mint now n [] = Keeps-pure []
  enqueue_specs-Keeps mint now n (spec ∷ specs) =
      let r = spec_row t ("job_" ⧺ mint n) now spec in
      Keeps-bind (enqueue now r)
        (λ row. enqueue_specs mint t now (suc n) specs >>= λ rest. pure (row.id ∷ rest))
        (record { at = λ u h. enqueue-IsSound t before now r u refl h })
        (λ row.
          Keeps-bind (enqueue_specs mint t now (suc n) specs) (λ rest. pure (row.id ∷ rest))
            (enqueue_specs-Keeps mint now (suc n) specs) (λ rest. Keeps-pure (row.id ∷ rest)))

  pub record_block-Keeps :
      (s : Surroundings) (job : JobRecord) (d : Disposition) (o : Outcome) (now : ℕ)
      → Keeps (IsSound t before) (record_block s t job d o now)
  unfolding record_block
  record_block-Keeps s job done o now =
      Keeps-bind (enqueue_specs s.mint t now 0 o.follow_on) _
        (enqueue_specs-Keeps s.mint now 0 o.follow_on)
        (λ chained.
          Keeps-bind
            (succeed job.id (some (with_follow_on chained (result_fields s.elapsed_s o))) now)
            (λ x. pure (length chained))
            (record {
              at =
                  succeed-IsSound t before job.id
                    (some (with_follow_on chained (result_fields s.elapsed_s o))) now;
            })
            (λ x. Keeps-pure (length chained)))
  record_block-Keeps s job retry o now =
      Keeps-bind (fail job.id _ _ now) (λ x. pure 0)
        (record { at = fail-IsSound t before job.id (text_or o.detail "retrying") _ now })
        (λ x. Keeps-pure 0)
  record_block-Keeps s job fatal o now =
      Keeps-bind (fail job.id _ none now) (λ x. pure 0)
        (record { at = fail-IsSound t before job.id (text_or o.detail "fatal") none now })
        (λ x. Keeps-pure 0)

-- If writing the outcome raises, the tables and the counters are what they were before: no job that
-- was to follow stays queued, and nothing is counted.
pub record_all_or_nothing :
    (s : Surroundings) (t : String) (job : JobRecord) (o : Outcome) (elapsed now : ℕ) (w : Worker)
    → IsQueue (w.tables "jobs")
    → raised (transaction t (record_block s t job o.disposition o now) w.tables).0 ≡ true
    → record_outcome s t job o elapsed now w ≡ w
unfolding record_outcome
record_all_or_nothing s t job o elapsed now w q e =
    let body = record_block s t job o.disposition o now in
    let same : (transaction t body w.tables).1 ≡ w.tables =
      transaction_atomic t body w.tables
        ((record_block-Keeps t w.tables s job o.disposition o now).at (fresh t w.tables)
          (fresh-IsSound t w.tables q)).tracked
        (rw e refl) in
    go (transaction t body w.tables) e same
  where
    go :
        (p : Result StoreError ℕ × Tables JobRecord)
        → raised p.0 ≡ true
        → p.1 ≡ w.tables
        → recorded job.kind o elapsed now w.stats p ≡ w
    go (ok n, t') e f = cc
    go (err x, t') e f = rw f refl
