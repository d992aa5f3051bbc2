-- ===== src/Publish/Booking/Tests.antt =====
-- Runs of the planning, and its theorems at concrete inputs.
use clipper_ai.Base.{
  ℕ, zero, suc, ◌<◌, seconds, ◌≡◌, refl, ◌⊎◌, String, true, false, none, List, [], ◌∷◌, All, ok,
  err,
}
use clipper_ai.Base.Sort.{sort}
use clipper_ai.Base.Dict.{lookup, insert, values, map_values, erase}
use clipper_ai.Publish.Types.{Account, PostSpec, youtube, public, ScheduledPost}
use clipper_ai.Publish.Limits.{validate, caption_for}
use clipper_ai.Publish.Calendar.{insort, remove, add, move, neighbours, nearest_in, index_of, posts}
use clipper_ai.Publish.Calendar.Nearest.{IsFar}
use clipper_ai.Publish.Booking.{
  Clerk, Desk, BookingError, new_post, refused, too_close_to, book, problems_of, schedule,
  cancel_series, reschedule,
}
use clipper_ai.Publish.Booking.Batch.{Placement, no_free_slot, fit, place_clips, schedule_bulk}
use clipper_ai.Publish.Booking.Settled.{IsBooked, schedule_settles}
use clipper_ai.Publish.Booking.Filling.{IsDealt, IsPart, times, schedule_bulk-IsLaidOut}
use clipper_ai.Publish.Booking.Calls.{
  Call, to_schedule, to_reschedule, to_cancel_series, run_call, run_calls, AreSorted-run_calls,
}
use clipper_ai.Publish.Calendar.Index.{AreSorted}
use clipper_ai.Publish.Booking.Checks.{IsCovered, schedule-IsSound}

abbrev account : Account
account = record {
  account_id = "a";
  platform = youtube;
  org_id = "o";
  handle = "h";
  external_id = "e";
  timezone = "UTC";
  direct_post_approved = true;
  business_account = true;
  enabled = true;
}

abbrev spec : PostSpec
spec = record {
  asset = record {
    asset_id = "clip";
    path = "clip.mp4";
    public_url = "";
    size_bytes = 10;
    duration = seconds 20;
    width = 1080;
    height = 1920;
    fps = 60;
    checksum = "";
  };
  title = "t";
  caption = "";
  hashtags = [];
  per_platform_caption = [];
  visibility = public;
  category_id = "22";
  made_for_kids = false;
}

abbrev ids : ℕ → String
ids zero = "p"
ids (suc zero) = "q"
ids (suc (suc _)) = "r"

abbrev clerk : Clerk
clerk = record {
  config = record { enforce_spacing = true; spacing_s = 5400; enforce_token_horizon = true };
  strip = λ s. s;
  mint = λ n. ids n;
  key = λ a b t. "k";
}

abbrev desk : Desk
desk = record {
  accounts = ("a", account) ∷ [];
  tokens = ("a", none) ∷ [];
  calendar = record { held = []; by_account = [] };
  series = [];
  drawn = 0;
}

abbrev first : ScheduledPost
first = new_post clerk "a" account spec (seconds 1000) "" "p"

abbrev busy : Desk
busy = book first desk

abbrev second : ScheduledPost
second = new_post clerk "a" account spec (seconds 9000) "" "q"

schedule_settles_example :
    ((post : ScheduledPost) × IsBooked clerk "a" "" 5 spec (seconds 2000) false busy post)
    ⊎ ((e : BookingError) × (schedule clerk "a" spec (seconds 2000) "" false 5 busy
          ≡ (err e, busy)))
schedule_settles_example = schedule_settles clerk "a" "" 5 spec (seconds 2000) false busy

second_is_refused :
    schedule clerk "a" spec (seconds 2000) "" false 5 busy
    ≡ (err (refused (too_close_to "post_p" (seconds 1000) ∷ [])), busy)
unfolding schedule lookup problems_of validate caption_for nearest_in neighbours insort remove add
    insert
second_is_refused = refl

schedule-IsSound_example :
    (5 < seconds 9000)
    × IsCovered (lookup "a" busy.tokens) (seconds 9000)
    × All (IsFar (seconds 9000) (seconds 5400)) (index_of "a" busy.calendar)
unfolding schedule lookup problems_of validate caption_for nearest_in neighbours insort remove add
    insert
schedule-IsSound_example =
    schedule-IsSound clerk "a" "" 5 spec (seconds 9000) busy second ((tt, tt), tt) (refl, tt) refl
      refl refl

abbrev laid_out : Placement
laid_out = record {
  placed = new_post clerk "a" account spec (seconds 9000) "s" "r" ∷ [];
  rejected = no_free_slot "clip" ∷ [];
}

schedule_bulk-IsLaidOut_example :
    IsDealt "a" (spec ∷ spec ∷ []) laid_out.placed laid_out.rejected
    × IsPart (times laid_out.placed) (seconds 2000 ∷ seconds 9000 ∷ [])
unfolding schedule_bulk place_clips fit schedule lookup problems_of validate caption_for nearest_in
    neighbours insort remove add insert
schedule_bulk-IsLaidOut_example =
    schedule_bulk-IsLaidOut clerk "a" (spec ∷ spec ∷ []) "s" (seconds 2000 ∷ seconds 9000 ∷ []) 5
      busy laid_out refl

abbrev calls : List Call
calls =
    to_schedule "a" spec (seconds 9000) "s" false 5
    ∷ to_reschedule "post_p" (seconds 20000)
    ∷ to_cancel_series "s"
    ∷ []

AreSorted-run_calls_example : AreSorted (run_calls clerk (λ t u. []) calls busy).calendar.by_account
unfolding insort insert remove add lookup
AreSorted-run_calls_example = AreSorted-run_calls clerk (λ t u. []) calls busy ((tt, tt), tt)

series_is_over : (cancel_series "s" (run_calls clerk (λ t u. []) calls busy)).0 ≡ ok 0
unfolding run_calls run_call cancel_series reschedule posts values map_values schedule lookup
    problems_of validate caption_for nearest_in neighbours insort remove add insert move sort erase
series_is_over = refl
