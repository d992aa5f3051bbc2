-- ===== src/Publish/Booking.antt =====
-- Planning in src/clipforge/publish/engine.py: one post, a batch and a series on the calendar,
-- cancelling and moving, with `covers` and `horizon_warning` of oauth.py. The instants at which a
-- rule fires are an argument (Recurrence.occurrences), as are fresh ids and the idempotency key.
pub mod Batch
pub mod Settled
pub mod Filling
pub mod Checks
pub mod Order
pub mod Calls
mod Tests
use clipper_ai.Base.{
  ℕ, zero, suc, ◌+◌, ◌-◌, ◌*◌, max, seconds, String, Bool, true, false, not, ◌&&◌, ◌||◌, Option,
  none, some, is_some, List, [], ◌∷◌, ◌++◌, ◌==◌, if◌then◌else◌, ltb, leb, any, filter, map, length,
  Result, ok, err, Exec, pure, raise, gets, modify, raise_if, ◌>>=◌, ◌>>◌,
}
use clipper_ai.Base.Dict.{Dict, lookup, insert, values, map_values}
use clipper_ai.Base.Text.{◌⧺◌, text_or}
use clipper_ai.Publish.Types.{
  Account, PostSpec, PostState, scheduled, cancelled, ScheduledPost, is_terminal,
}
use clipper_ai.Publish.Limits.{Problem, when, validate}
use clipper_ai.Publish.Calendar.{Calendar, add, move, nearest, posts}

-- `PublishConfig`, as far as planning reads it.
pub record PublishConfig : Type 0 where
  pub enforce_spacing : Bool
  pub spacing_s : ℕ
  pub enforce_token_horizon : Bool

-- What is passed in: the settings, `str.strip`, fresh ids and the key of a post.
pub record Clerk : Type 0 where
  pub config : PublishConfig
  pub strip : String → String
  pub mint : ℕ → String
  pub key : String → String → ℕ → String

-- `PublishingSystem`, with the `refresh_valid_until` of every token set and with the names of the
-- series whose rules it keeps. Ids are numbered as they are drawn.
pub record Desk : Type 0 where
  pub accounts : Dict Account
  pub tokens : Dict (Option ℕ)
  pub calendar : Calendar
  pub series : List String
  pub drawn : ℕ

pub data BookingProblem : Type 0 where
  media_problem : Problem → BookingProblem
  in_the_past no_credentials past_horizon : BookingProblem
  too_close_to : String → ℕ → BookingProblem

pub data BookingError : Type 0 where
  unknown_account unknown_series unknown_post is_over : BookingError
  refused : List BookingProblem → BookingError

abbrev pub Booking : Type 0 → Type 0
Booking A = Exec BookingError Desk A

abbrev pub horizon_warning_days : ℕ
horizon_warning_days = 14

-- `TokenSet.covers`
abbrev pub covers : Option ℕ → ℕ → Bool
covers none moment = true
covers (some until) moment = leb moment until

-- Whether `TokenSet.horizon_warning` has a text
abbrev pub warns : Option ℕ → ℕ → Bool
warns none moment = false
warns (some until) moment =
    ltb until moment || leb until (moment + seconds (horizon_warning_days * 86400))

abbrev pub horizon_problems : ℕ → Option (Option ℕ) → List BookingProblem
horizon_problems run_at none = no_credentials ∷ []
horizon_problems run_at (some until) =
    if warns until run_at && not (covers until run_at) then past_horizon ∷ [] else []

abbrev pub spacing_problems : Option ScheduledPost → List BookingProblem
spacing_problems none = []
spacing_problems (some clash) = too_close_to clash.post_id clash.run_at ∷ []

-- What `schedule` finds against a post.
unfoldable pub problems_of :
    Clerk → Desk → String → Account → PostSpec → ℕ → Bool → ℕ → List BookingProblem
problems_of clerk desk account_id account spec run_at force now =
    map media_problem (validate clerk.strip spec account)
    ++ ((if leb run_at now && not force then in_the_past ∷ [] else [])
        ++ ((if clerk.config.enforce_token_horizon
              then horizon_problems run_at (lookup account_id desk.tokens)
              else [])
            ++ (if clerk.config.enforce_spacing && not force
                then spacing_problems
                    (nearest account_id run_at (seconds clerk.config.spacing_s) desk.calendar)
                else [])))

abbrev pub new_post : Clerk → String → Account → PostSpec → ℕ → String → String → ScheduledPost
new_post clerk account_id account spec run_at series_id hex = record {
  post_id = "post_" ⧺ hex;
  account_id = account_id;
  platform = account.platform;
  spec = spec;
  run_at = run_at;
  state = scheduled;
  attempts = [];
  remote_post_id = "";
  idempotency_key = clerk.key account_id spec.asset.asset_id run_at;
  series_id = series_id;
  lease_until = none;
  next_attempt_at = none;
  last_error = "";
}

abbrev pub book : ScheduledPost → Desk → Desk
book post desk = record desk { calendar = add post desk.calendar; drawn = desk.drawn + 1 }

abbrev pub schedule_checked :
    Clerk → String → Account → PostSpec → ℕ → String → List BookingProblem → Booking ScheduledPost
schedule_checked clerk account_id account spec run_at series_id (p ∷ ps) = raise (refused (p ∷ ps))
schedule_checked clerk account_id account spec run_at series_id [] = do
  post ←
      gets
        (λ (d : Desk). new_post clerk account_id account spec run_at series_id (clerk.mint d.drawn))
  modify (book post)
  pure post

abbrev pub schedule_for :
    Clerk → String → Option Account → PostSpec → ℕ → String → Bool → ℕ → Booking ScheduledPost
schedule_for clerk account_id none spec run_at series_id force now = raise unknown_account
schedule_for clerk account_id (some account) spec run_at series_id force now = do
  problems ← gets (λ (d : Desk). problems_of clerk d account_id account spec run_at force now)
  schedule_checked clerk account_id account spec run_at series_id problems

-- `schedule`
unfoldable pub schedule : Clerk → String → PostSpec → ℕ → String → Bool → ℕ → Booking ScheduledPost
schedule clerk account_id spec run_at series_id force now = do
  account ← gets (λ (d : Desk). lookup account_id d.accounts)
  schedule_for clerk account_id account spec run_at series_id force now

-- `cancel` of the posts that a test picks, in the calendar and in its index.
abbrev pub cancel_if : (ScheduledPost → Bool) → ScheduledPost → ScheduledPost
cancel_if p post =
    if p post && not (is_terminal post) then record post { state = cancelled } else post

abbrev pub cancel_posts : (ScheduledPost → Bool) → Calendar → Calendar
cancel_posts p c = record {
  held = map_values (cancel_if p) c.held;
  by_account = map_values (map (cancel_if p)) c.by_account;
}

abbrev pub has_id : String → ScheduledPost → Bool
has_id id post = post.post_id == id

abbrev pub in_series : String → ScheduledPost → Bool
in_series id post = post.series_id == id

abbrev pub cancel_found : String → Option ScheduledPost → Booking Bool
cancel_found id none = pure false
cancel_found id (some post) = if is_terminal post then pure false else do
  modify (λ (d : Desk). record d { calendar = cancel_posts (has_id id) d.calendar })
  pure true

-- `cancel`
unfoldable pub cancel : String → Booking Bool
cancel id = do found ← gets (λ (d : Desk). lookup id d.calendar.held); cancel_found id found

-- `cancel_series`
unfoldable pub cancel_series : String → Booking ℕ
cancel_series id = do
  count ← gets (λ (d : Desk).
      length (filter (λ post. in_series id post && not (is_terminal post)) (posts d.calendar)))
  modify (λ (d : Desk). record d { calendar = cancel_posts (in_series id) d.calendar })
  pure count

abbrev pub planned_again : ScheduledPost → ℕ → ScheduledPost
planned_again post run_at = record post {
  run_at = run_at;
  next_attempt_at = none;
  state = scheduled;
}

abbrev pub replan : ScheduledPost → ℕ → Desk → Desk
replan post run_at d = record d { calendar = add (planned_again post run_at) d.calendar }

abbrev pub reschedule_found : ℕ → Option ScheduledPost → Booking ScheduledPost
reschedule_found run_at none = raise unknown_post
reschedule_found run_at (some post) =
    if is_terminal post
    then raise is_over
    else do modify (replan post run_at); pure (planned_again post run_at)

-- `reschedule`; `move` takes the post out and adds it again, and the object that was added is then
-- changed in place, in a part that does not order the index
unfoldable pub reschedule : String → ℕ → Booking ScheduledPost
reschedule id run_at = do
  found ← gets (λ (d : Desk). lookup id d.calendar.held)
  reschedule_found run_at found
