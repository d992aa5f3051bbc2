-- ===== src/Worker/Runtime/Lost.antt =====
-- A lease that is lost while the handler runs.
use clipper_ai.Base.{
  ℕ, String, ◌≡◌, refl, ap, ◌∙◌, Bool, true, false, Option, some, List, [], ◌∷◌, ◌++◌, arith,
}
use clipper_ai.Store.Unit.{Tables}
use clipper_ai.Store.Jobs.{JobRecord}
use clipper_ai.Worker.Runtime.{
  WorkerConfig, Surroundings, Worker, Beating, Event, beat, change, Run, beat_once, on_event,
  run_events, settle_job, run_job,
}

-- What the events other than this worker's beats do to the tables.
abbrev pub changes : List Event → Tables JobRecord → Tables JobRecord
changes [] t = t
changes (beat now ∷ es) t = changes es t
changes (change f ∷ es) t = changes es (f t)

module _ (c : WorkerConfig) (tenant : String) (job : JobRecord) where
  run_events-append :
      (es fs : List Event) (b : Beating)
      → run_events c tenant job (es ++ fs) b
        ≡ run_events c tenant job fs (run_events c tenant job es b)
  unfolding run_events
  run_events-append [] fs b = refl
  run_events-append (e ∷ es) fs b = run_events-append es fs (on_event c tenant job e b)

  beat_once_lost :
      (now : ℕ) (b : Beating) → b.lost ≡ true → beat_once c tenant job now b ≡ (false, b)
  unfolding beat_once
  beat_once_lost now b l = ground arith

  -- Once lost a lease stays lost, and no beat reaches the tables any more.
  run_events-lost :
      (es : List Event) (b : Beating)
      → b.lost ≡ true
      → run_events c tenant job es b ≡ record { lost = true; tables = changes es b.tables }
  unfolding run_events beat_once
  run_events-lost [] b l = cc
  run_events-lost (beat now ∷ es) b l =
      ap (λ (p : Bool × Beating). run_events c tenant job es p.1) (beat_once_lost now b l)
      ∙ run_events-lost es b l
  run_events-lost (change f ∷ es) b l = run_events-lost es (record b { tables = f b.tables }) l

  -- If the lease is found lost at some point of the handler's run, then whatever the handler goes
  -- on to return or raise, this worker writes nothing more to the tables and counts nothing.
  pub lost_lease :
      (s : Surroundings) (handlers : JobRecord → Option Run) (run : Run) (now : ℕ) (w : Worker)
      (front back : List Event)
      → handlers job ≡ some run
      → run.events ≡ front ++ back
      → (run_events c tenant job front (record { lost = false; tables = w.tables })).lost ≡ true
      → run_job c s handlers tenant now job w ≡ record {
        tables =
            changes back
              (run_events c tenant job front (record { lost = false; tables = w.tables })).tables;
        stats = w.stats;
      }
  unfolding run_job settle_job
  lost_lease s handlers run now w front back h e l =
      rw (h, e, run_events-append front back (record { lost = false; tables = w.tables }))
        (rw
          (run_events-lost back
            (run_events c tenant job front (record { lost = false; tables = w.tables })) l)
          refl)
