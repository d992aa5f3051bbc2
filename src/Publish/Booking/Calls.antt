-- ===== src/Publish/Booking/Calls.antt =====
-- Sequences of calls of the planning, in any order and whatever each of them comes to.
use clipper_ai.Base.{
  ℕ, ◌+◌, seconds, String, Bool, List, [], ◌∷◌, filter, raise, Keeps, Keeps-bind, Keeps-if,
  Keeps-raise,
}
use clipper_ai.Publish.Types.{PostSpec}
use clipper_ai.Publish.Calendar.{posts}
use clipper_ai.Publish.Calendar.Index.{AreSorted}
use clipper_ai.Publish.Booking.{
  Clerk, Desk, schedule, cancel, cancel_series, reschedule, in_series, unknown_series,
}
use clipper_ai.Publish.Booking.Batch.{
  schedule_bulk, schedule_series, is_kept, extend_known, extend_series, latest,
}
use clipper_ai.Publish.Booking.Order.{
  IsInOrder, Keeps-schedule, Keeps-cancel, Keeps-cancel_series, Keeps-reschedule, Keeps-open_series,
  Keeps-place_clips, Keeps-place_slots,
}

-- A call, with its time where it reads the clock.
pub data Call : Type 0 where
  to_schedule : String → PostSpec → ℕ → String → Bool → ℕ → Call
  to_schedule_bulk : String → List PostSpec → String → List ℕ → ℕ → Call
  to_schedule_series : String → PostSpec → String → List ℕ → ℕ → Call
  to_extend_series : String → String → PostSpec → ℕ → ℕ → Call
  to_cancel : String → Call
  to_cancel_series : String → Call
  to_reschedule : String → ℕ → Call

module _ (clerk : Clerk) (fires : ℕ → ℕ → List ℕ) where
  Keeps-schedule_bulk :
      (account_id : String) (specs : List PostSpec) (named : String) (slots : List ℕ) (now : ℕ)
      → Keeps IsInOrder (schedule_bulk clerk account_id specs named slots now)
  unfolding schedule_bulk
  Keeps-schedule_bulk account_id specs named slots now =
      Keeps-bind _ _ (Keeps-open_series clerk named)
        (λ id. Keeps-place_clips clerk account_id id now specs slots)

  Keeps-schedule_series :
      (account_id : String) (spec : PostSpec) (named : String) (slots : List ℕ) (now : ℕ)
      → Keeps IsInOrder (schedule_series clerk account_id spec named slots now)
  unfolding schedule_series
  Keeps-schedule_series account_id spec named slots now =
      Keeps-bind _ _ (Keeps-open_series clerk named)
        (λ id. Keeps-place_slots clerk account_id id now spec slots)

  Keeps-extend_known :
      (id account_id : String) (spec : PostSpec) (until now : ℕ)
      → Keeps IsInOrder (extend_known clerk fires id account_id spec until now)
  Keeps-extend_known id account_id spec until now = record {
    at = λ d h.
        let existing = filter (in_series id) (posts d.calendar) in
        (Keeps-place_slots clerk account_id id now spec
            (fires (latest now existing + seconds 1) until)).at
          d h;
  }

  Keeps-extend_series :
      (id account_id : String) (spec : PostSpec) (until now : ℕ)
      → Keeps IsInOrder (extend_series clerk fires id account_id spec until now)
  unfolding extend_series
  Keeps-extend_series id account_id spec until now = record {
    at = λ d h.
        (Keeps-if (is_kept id d.series) (extend_known clerk fires id account_id spec until now)
            (raise unknown_series) (λ e. Keeps-extend_known id account_id spec until now)
            (λ e. Keeps-raise unknown_series)).at
          d h;
  }

  unfoldable pub run_call : Call → Desk → Desk
  run_call (to_schedule a spec t series force now) d =
      (schedule clerk a spec t series force now d).1
  run_call (to_schedule_bulk a specs named slots now) d =
      (schedule_bulk clerk a specs named slots now d).1
  run_call (to_schedule_series a spec named slots now) d =
      (schedule_series clerk a spec named slots now d).1
  run_call (to_extend_series id a spec until now) d =
      (extend_series clerk fires id a spec until now d).1
  run_call (to_cancel id) d = (cancel id d).1
  run_call (to_cancel_series id) d = (cancel_series id d).1
  run_call (to_reschedule id t) d = (reschedule id t d).1

  unfoldable pub run_calls : List Call → Desk → Desk
  run_calls [] d = d
  run_calls (c ∷ cs) d = run_calls cs (run_call c d)

  IsInOrder-run_call : (c : Call) (d : Desk) → IsInOrder d → IsInOrder (run_call c d)
  unfolding run_call
  IsInOrder-run_call (to_schedule a spec t series force now) d h =
      (Keeps-schedule clerk a series now spec t force).at d h
  IsInOrder-run_call (to_schedule_bulk a specs named slots now) d h =
      (Keeps-schedule_bulk a specs named slots now).at d h
  IsInOrder-run_call (to_schedule_series a spec named slots now) d h =
      (Keeps-schedule_series a spec named slots now).at d h
  IsInOrder-run_call (to_extend_series id a spec until now) d h =
      (Keeps-extend_series id a spec until now).at d h
  IsInOrder-run_call (to_cancel id) d h = (Keeps-cancel id).at d h
  IsInOrder-run_call (to_cancel_series id) d h = (Keeps-cancel_series id).at d h
  IsInOrder-run_call (to_reschedule id t) d h = (Keeps-reschedule id t).at d h

  -- Whatever is scheduled, extended, cancelled and rescheduled, returning or raising, the index of
  -- every account stays in the order of time.
  pub AreSorted-run_calls :
      (cs : List Call) (d : Desk)
      → AreSorted d.calendar.by_account
      → AreSorted (run_calls cs d).calendar.by_account
  unfolding run_calls
  AreSorted-run_calls [] d h = h
  AreSorted-run_calls (c ∷ cs) d h =
      AreSorted-run_calls cs (run_call c d) (IsInOrder-run_call c d h)
