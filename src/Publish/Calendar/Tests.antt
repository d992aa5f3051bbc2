-- ===== src/Publish/Calendar/Tests.antt =====
-- Runs of the calendar, and its theorems at concrete inputs.
use clipper_ai.Base.{
  ◌≤◌, ◌<◌, ◌+◌, ◌*◌, ◌/◌, ℕ, String, ◌≡◌, refl, false, none, List, [], ◌∷◌, arith, All, seconds,
  max, length, leb,
}
use clipper_ai.Base.Sort.{sort}
use clipper_ai.Base.Dict.{values}
use clipper_ai.Publish.Types.{PostState, youtube, scheduled, published, public, ScheduledPost}
use clipper_ai.Publish.Limits.{limits_for}
use clipper_ai.Publish.Calendar.{
  Calendar, nearest_in, neighbours, min_spacing, is_due, claim_due, days_required, slots_per_day,
  next_free_slot, search_slots, search_slot, is_full, too_close, posts,
}
use clipper_ai.Publish.Calendar.Index.{Edit, add_post, remove_post, move_post}
use clipper_ai.Publish.Calendar.Slots.{IsOpenSlot, next_free_slot-IsFound, days_required_exact}
use clipper_ai.Publish.Calendar.Conflicts.{
  conflicts, occupancy, concat_map, put_in, group_from, spacing_from, spacing_conflict, accounts_of,
  last_platform,
}
use clipper_ai.Publish.Calendar.Due.{claim_due_leases}

abbrev post : String → PostState → ℕ → ScheduledPost
post id state run_at = record {
  post_id = id;
  account_id = "a";
  platform = youtube;
  spec = record {
    asset = record {
      asset_id = id;
      path = "clip.mp4";
      public_url = "";
      size_bytes = 10;
      duration = seconds 20;
      width = 1080;
      height = 1920;
      fps = 60;
      checksum = "";
    };
    title = "t";
    caption = "";
    hashtags = [];
    per_platform_caption = [];
    visibility = public;
    category_id = "22";
    made_for_kids = false;
  };
  run_at = run_at;
  state = state;
  attempts = [];
  remote_post_id = "";
  idempotency_key = id;
  series_id = "";
  lease_until = none;
  next_attempt_at = none;
  last_error = "";
}

abbrev planned : ScheduledPost
planned = post "p" scheduled (seconds 1000)

abbrev out : ScheduledPost
out = post "q" published (seconds 2000)

abbrev calendar : Calendar
calendar = record { held = ("p", planned) ∷ []; by_account = ("a", planned ∷ []) ∷ [] }

-- A published neighbour hides the planned post behind it, which is within the spacing.
hidden : nearest_in (planned ∷ out ∷ []) (seconds 2500) min_spacing ≡ none
unfolding nearest_in neighbours
hidden = refl

abbrev edits : List Edit
edits = add_post out ∷ move_post "p" (seconds 3000) ∷ remove_post "q" ∷ []

abbrev day : ℕ → ℕ
day t = t / seconds 86400

next_free_slot-IsFound_example :
    IsOpenSlot day "a" youtube min_spacing calendar (seconds 6400)
    × (seconds 1000 ≤ seconds 6400)
    × (seconds 6400 ≤ seconds 1000 + seconds (400 * 86400))
unfolding next_free_slot search_slots search_slot is_full too_close posts sort values
next_free_slot-IsFound_example =
    next_free_slot-IsFound day (λ t. t + seconds 86400) "a" youtube (seconds 1000) [] min_spacing
      400 calendar (seconds 6400) (λ m. omega arith) refl

days_required_exact_example :
    let rate = (limits_for youtube).rate in
    let per_day = slots_per_day rate.quota_scope rate.posts_per_day (max 1 9) in
    let days = days_required youtube 50 9 in (50 ≤ days * per_day) × (days * per_day < 50 + per_day)
days_required_exact_example = days_required_exact youtube 50 9

claim_due_leases_example :
    (length (claim_due (seconds 1500) 600 10 calendar) ≤ max 1 10)
    × All
        (λ q. (moment : ℕ) → is_due moment q ≡ leb (seconds 1500 + seconds 600) moment)
        (claim_due (seconds 1500) 600 10 calendar)
claim_due_leases_example = claim_due_leases (seconds 1500) 600 10 calendar

abbrev crowded : Calendar
crowded = record { held = ("p", planned) ∷ ("q", out) ∷ []; by_account = [] }

too_many_posts : conflicts day (λ a b. false) none none crowded ≡ spacing_conflict planned out ∷ []
unfolding conflicts concat_map put_in group_from spacing_from accounts_of posts values sort
too_many_posts = refl

crowded_day :
    occupancy day 0 1 crowded
    ≡ record { day = 0; account_id = "a"; platform = youtube; count = 2; cap = 6 } ∷ []
unfolding occupancy put_in group_from last_platform posts values sort
crowded_day = refl
