-- ===== src/Publish/Booking/Batch.antt =====
-- `schedule_bulk`, `schedule_series` and `extend_series` of src/clipforge/publish/engine.py over
-- the instants at which the rule fires.
use clipper_ai.Base.{
  ℕ, ◌+◌, max, seconds, String, Bool, true, false, List, [], ◌∷◌, ◌==◌, if◌then◌else◌, any, filter,
  Result, ok, err, pure, raise, gets, modify, ◌>>=◌, ◌>>◌,
}
use clipper_ai.Base.Text.{◌⧺◌, text_or}
use clipper_ai.Publish.Types.{PostSpec, ScheduledPost}
use clipper_ai.Publish.Calendar.{posts}
use clipper_ai.Publish.Booking.{
  Clerk, Desk, Booking, BookingProblem, in_the_past, too_close_to, BookingError, refused,
  unknown_account, unknown_series, unknown_post, is_over, schedule, in_series,
}

-- Why a clip or a slot was not planned.
pub data Rejection : Type 0 where
  clip_refused : String → List BookingProblem → Rejection
  slot_refused : ℕ → List BookingProblem → Rejection
  no_free_slot : String → Rejection

-- The two lists that are returned.
pub record Placement : Type 0 where
  pub placed : List ScheduledPost
  pub rejected : List Rejection

abbrev pub nothing_placed : Placement
nothing_placed = record { placed = []; rejected = [] }

abbrev pub with_post : ScheduledPost → Placement → Placement
with_post post r = record r { placed = post ∷ r.placed }

abbrev pub with_rejection : Rejection → Placement → Placement
with_rejection why r = record r { rejected = why ∷ r.rejected }

-- `"within" in p or "in the past" in p`; no text of the other problems has these words
abbrev pub is_of_slot : BookingProblem → Bool
is_of_slot in_the_past = true
is_of_slot (too_close_to _ _) = true
is_of_slot _ = false

abbrev pub Tried : Type 0
Tried = Result (List BookingProblem) ScheduledPost

-- `try`: a `ScheduleError` comes back as its problems, another error goes on.
abbrev pub trying : Result BookingError ScheduledPost × Desk → Result BookingError Tried × Desk
trying (ok post, d) = (ok (ok post), d)
trying (err (refused ps), d) = (ok (err ps), d)
trying (err unknown_account, d) = (err unknown_account, d)
trying (err unknown_series, d) = (err unknown_series, d)
trying (err unknown_post, d) = (err unknown_post, d)
trying (err is_over, d) = (err is_over, d)

abbrev pub attempt : Booking ScheduledPost → Booking Tried
attempt m d = trying (m d)

abbrev pub Fitted : Type 0
Fitted = Result Rejection ScheduledPost × List ℕ

-- What a clip that was tried on a slot comes to; `later` tries the other slots.
abbrev pub fit_tried : PostSpec → List ℕ → Booking Fitted → Tried → Booking Fitted
fit_tried spec slots later (ok post) = pure (ok post, slots)
fit_tried spec slots later (err ps) =
    if any is_of_slot ps then later else pure (err (clip_refused spec.asset.asset_id ps), slots)

abbrev pub noted : Result Rejection ScheduledPost → Placement → Placement
noted (ok post) r = with_post post r
noted (err why) r = with_rejection why r

abbrev pub noted_slot : ℕ → Tried → Placement → Placement
noted_slot slot (ok post) r = with_post post r
noted_slot slot (err ps) r = with_rejection (slot_refused slot ps) r

module _ (clerk : Clerk) (account_id series_id : String) (now : ℕ) where
  -- What the `while` loop makes of one clip, and the slots that are left.
  unfoldable pub fit : PostSpec → List ℕ → Booking Fitted
  fit spec [] = pure (err (no_free_slot spec.asset.asset_id), [])
  fit spec (slot ∷ slots) =
      let later = fit spec slots in
      do
        tried ← attempt (schedule clerk account_id spec slot series_id false now)
        fit_tried spec slots later tried

  -- The loop of `schedule_bulk` over the clips.
  unfoldable pub place_clips : List PostSpec → List ℕ → Booking Placement
  place_clips [] slots = pure nothing_placed
  place_clips (spec ∷ specs) slots = do
    fitted ← fit spec slots
    rest ← place_clips specs fitted.1
    pure (noted fitted.0 rest)

  -- The loop of `schedule_series` and of `extend_series` over the slots.
  unfoldable pub place_slots : PostSpec → List ℕ → Booking Placement
  place_slots spec [] = pure nothing_placed
  place_slots spec (slot ∷ slots) = do
    tried ← attempt (schedule clerk account_id spec slot series_id false now)
    rest ← place_slots spec slots
    pure (noted_slot slot tried rest)

-- `rule.series_id or f"series_{…}"`, and that the rule is kept under it
abbrev pub open_series : Clerk → String → Booking String
open_series clerk named = do
  fresh ← gets (λ (d : Desk). text_or named ("series_" ⧺ clerk.mint d.drawn))
  modify (λ (d : Desk). record d { series = fresh ∷ d.series; drawn = d.drawn + 1 })
  pure fresh

-- `schedule_bulk`, with the instants of the rule up to its horizon
unfoldable pub schedule_bulk :
    Clerk → String → List PostSpec → String → List ℕ → ℕ → Booking Placement
schedule_bulk clerk account_id specs named slots now = do
  series_id ← open_series clerk named
  place_clips clerk account_id series_id now specs slots

-- `schedule_series`, with the instants of the rule up to its horizon
unfoldable pub schedule_series : Clerk → String → PostSpec → String → List ℕ → ℕ → Booking Placement
schedule_series clerk account_id spec named slots now = do
  series_id ← open_series clerk named
  place_slots clerk account_id series_id now spec slots

abbrev pub is_kept : String → List String → Bool
is_kept id names = any (λ name. name == id) names

-- `max((p.run_at for p in existing), default=utcnow())`
abbrev pub latest : ℕ → List ScheduledPost → ℕ
latest now [] = now
latest now (p ∷ []) = p.run_at
latest now (p ∷ q ∷ ps) = max p.run_at (latest now (q ∷ ps))

abbrev pub extend_known :
    Clerk → (ℕ → ℕ → List ℕ) → String → String → PostSpec → ℕ → ℕ → Booking Placement
extend_known clerk fires series_id account_id spec until now = do
  existing ← gets (λ (d : Desk). filter (in_series series_id) (posts d.calendar))
  place_slots clerk account_id series_id now spec (fires (latest now existing + seconds 1) until)

-- `extend_series`; `fires` gives the instants of the rule between two instants
unfoldable pub extend_series :
    Clerk → (ℕ → ℕ → List ℕ) → String → String → PostSpec → ℕ → ℕ → Booking Placement
extend_series clerk fires series_id account_id spec until now = do
  known ← gets (λ (d : Desk). is_kept series_id d.series)
  if known
      then extend_known clerk fires series_id account_id spec until now
      else raise unknown_series
