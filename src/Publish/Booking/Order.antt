-- ===== src/Publish/Booking/Order.antt =====
-- Every call of the planning keeps the index of every account in the order of time.
use clipper_ai.Base.{
  ℕ, ◌≤◌, ◌≡◌, subst, sym, inl, inr, arith, String, Bool, false, All, Option, none, some, List, [],
  ◌∷◌, map, Result, ok, err, modify, Keeps, Keeps-bind, Keeps-gets, Keeps-if, Keeps-pure,
  Keeps-raise,
}
use clipper_ai.Base.Dict.{Dict, map_values}
use clipper_ai.Publish.Types.{PostSpec, ScheduledPost}
use clipper_ai.Publish.Calendar.Index.{IsSortedIndex, AreSorted, add-AreSorted}
use clipper_ai.Publish.Booking.{
  Clerk, Desk, Booking, BookingError, refused, unknown_account, unknown_series, unknown_post,
  is_over, cancel_if, cancel_posts, cancel, cancel_found, cancel_series, reschedule,
  reschedule_found, replan, planned_again, schedule,
}
use clipper_ai.Publish.Booking.Batch.{
  Fitted, Tried, attempt, trying, fit_tried, fit, place_clips, place_slots, open_series,
}
use clipper_ai.Publish.Booking.Settled.{schedule_settles}

module _ (p : ScheduledPost → Bool) where
  cancel_if_time : (q : ScheduledPost) → (cancel_if p q).run_at ≡ q.run_at
  cancel_if_time q = ground arith

  cancel_if_from :
      (t : ℕ) (index : List ScheduledPost)
      → All (λ q. t ≤ q.run_at) index
      → All (λ q. t ≤ q.run_at) (map (cancel_if p) index)
  cancel_if_from t [] h = tt
  cancel_if_from t (q ∷ index) h =
      (omega (arith, cancel_if_time q, h.0), cancel_if_from t index h.1)

  IsSortedIndex-cancel_if :
      (index : List ScheduledPost) → IsSortedIndex index → IsSortedIndex (map (cancel_if p) index)
  IsSortedIndex-cancel_if [] h = tt
  IsSortedIndex-cancel_if (q ∷ index) h = (
    subst (λ t. All (λ r. t ≤ r.run_at) (map (cancel_if p) index)) (sym (cancel_if_time q))
        (cancel_if_from q.run_at index h.0),
    IsSortedIndex-cancel_if index h.1,
  )

  AreSorted-cancel_if :
      (indices : Dict (List ScheduledPost))
      → AreSorted indices
      → AreSorted (map_values (map (cancel_if p)) indices)
  unfolding map_values
  AreSorted-cancel_if [] h = tt
  AreSorted-cancel_if ((account, index) ∷ indices) h =
      (IsSortedIndex-cancel_if index h.0, AreSorted-cancel_if indices h.1)

-- The index of every account is in the order of time.
abbrev pub IsInOrder : Desk → Type 0
IsInOrder d = AreSorted d.calendar.by_account

Keeps-cancel_posts :
    (p : ScheduledPost → Bool)
    → Keeps {E = BookingError} IsInOrder
        (modify (λ (d : Desk). record d { calendar = cancel_posts p d.calendar }))
Keeps-cancel_posts p = record { at = λ d h. AreSorted-cancel_if p d.calendar.by_account h }

Keeps-replan :
    (post : ScheduledPost) (run_at : ℕ)
    → Keeps {E = BookingError} IsInOrder (modify (replan post run_at))
Keeps-replan post run_at = record {
  at = λ d h. add-AreSorted d.calendar (planned_again post run_at) h;
}

pub Keeps-cancel : (id : String) → Keeps IsInOrder (cancel id)
unfolding cancel
Keeps-cancel id = Keeps-bind _ _ (Keeps-gets _) found
  where
    found : (o : Option ScheduledPost) → Keeps IsInOrder (cancel_found id o)
    found none = Keeps-pure false
    found (some post) = search (Keeps-if, Keeps-bind, Keeps-pure, Keeps-cancel_posts)

pub Keeps-cancel_series : (id : String) → Keeps IsInOrder (cancel_series id)
unfolding cancel_series
Keeps-cancel_series id = search (Keeps-bind, Keeps-gets, Keeps-cancel_posts)

pub Keeps-reschedule : (id : String) (run_at : ℕ) → Keeps IsInOrder (reschedule id run_at)
unfolding reschedule
Keeps-reschedule id run_at = Keeps-bind _ _ (Keeps-gets _) found
  where
    found : (o : Option ScheduledPost) → Keeps IsInOrder (reschedule_found run_at o)
    found none = Keeps-raise _
    found (some post) = search (Keeps-if, Keeps-bind, Keeps-pure, Keeps-raise, Keeps-replan)

Keeps-attempt : (m : Booking ScheduledPost) → Keeps IsInOrder m → Keeps IsInOrder (attempt m)
Keeps-attempt m k = record { at = λ d h. go (m d) (k.at d h) }
  where
    go : (r : Result BookingError ScheduledPost × Desk) → IsInOrder r.1 → IsInOrder (trying r).1
    go (ok post, d) h = h
    go (err (refused ps), d) h = h
    go (err unknown_account, d) h = h
    go (err unknown_series, d) h = h
    go (err unknown_post, d) h = h
    go (err is_over, d) h = h

pub Keeps-open_series : (clerk : Clerk) (named : String) → Keeps IsInOrder (open_series clerk named)
Keeps-open_series clerk named = record { at = λ d h. h }

module _ (clerk : Clerk) (account_id series_id : String) (now : ℕ) where
  pub Keeps-schedule :
      (spec : PostSpec) (run_at : ℕ) (force : Bool)
      → Keeps IsInOrder (schedule clerk account_id spec run_at series_id force now)
  Keeps-schedule spec run_at force = record {
    at = λ d h. elim (schedule_settles clerk account_id series_id now spec run_at force d) [
      | inl (post, b) ↦ subst (λ r. IsInOrder r.1) (sym b.outcome) (add-AreSorted d.calendar post h)
      | inr (e, f) ↦ subst (λ r. IsInOrder r.1) (sym f) h
    ];
  }

  Keeps-fit_tried :
      (spec : PostSpec) (slots : List ℕ) (later : Booking Fitted)
      → Keeps IsInOrder later
      → (t : Tried) → Keeps IsInOrder (fit_tried spec slots later t)
  Keeps-fit_tried spec slots later k (ok post) = Keeps-pure _
  Keeps-fit_tried spec slots later k (err ps) = search (Keeps-if, Keeps-pure)

  Keeps-fit :
      (spec : PostSpec) (slots : List ℕ)
      → Keeps IsInOrder (fit clerk account_id series_id now spec slots)
  unfolding fit
  Keeps-fit spec [] = Keeps-pure _
  Keeps-fit spec (slot ∷ slots) =
      Keeps-bind _ _ (Keeps-attempt _ (Keeps-schedule spec slot false)) (
        Keeps-fit_tried spec slots (fit clerk account_id series_id now spec slots)
          (Keeps-fit spec slots))

  pub Keeps-place_clips :
      (specs : List PostSpec) (slots : List ℕ)
      → Keeps IsInOrder (place_clips clerk account_id series_id now specs slots)
  unfolding place_clips
  Keeps-place_clips [] slots = Keeps-pure _
  Keeps-place_clips (spec ∷ specs) slots =
      Keeps-bind _ _ (Keeps-fit spec slots)
        (λ f. Keeps-bind _ _ (Keeps-place_clips specs f.1) (λ r. Keeps-pure _))

  pub Keeps-place_slots :
      (spec : PostSpec) (slots : List ℕ)
      → Keeps IsInOrder (place_slots clerk account_id series_id now spec slots)
  unfolding place_slots
  Keeps-place_slots spec [] = Keeps-pure _
  Keeps-place_slots spec (slot ∷ slots) =
      Keeps-bind _ _ (Keeps-attempt _ (Keeps-schedule spec slot false))
        (λ t. Keeps-bind _ _ (Keeps-place_slots spec slots) (λ r. Keeps-pure _))
