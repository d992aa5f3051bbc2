-- ===== src/Publish/Calendar.antt =====
-- `ContentCalendar` of src/clipforge/publish/calendar.py, and `claim` of engine.py. Durations are
-- microseconds. The cache of the sorted posts is not kept: `posts` sorts. What
-- `bisect` finds is written for a list that is sorted. The local day of an instant and the same local
-- time on the next day are arguments. `claim_due` gives the posts with their leases; that the caller's
-- objects are those of the calendar is not modelled.
pub mod Index
pub mod Nearest
pub mod Slots
pub mod Due
pub mod Conflicts
mod Tests
use clipper_ai.Base.{
  ℕ, zero, suc, ◌+◌, ◌-◌, ◌*◌, ◌/◌, max, seconds, String, Bool, true, false, not, ◌&&◌, ◌||◌,
  Option, none, some, List, [], ◌∷◌, ◌==◌, if◌then◌else◌, ltb, leb, eqb, filter, any, length, map,
  take,
}
use clipper_ai.Base.Sort.{sort}
use clipper_ai.Base.Dict.{Dict, lookup, insert, erase, values}
use clipper_ai.Publish.Types.{
  Platform, PostState, scheduled, claimed, uploading, processing, published, awaiting_creator,
  retrying, ScheduledPost, is_terminal,
}
use clipper_ai.Publish.Limits.{limits_for, QuotaScope, per_account, per_project}

-- `MIN_SPACING_S`
abbrev pub min_spacing : ℕ
min_spacing = seconds (90 * 60)

-- `COUNTED_STATES`
abbrev pub is_counted : PostState → Bool
is_counted scheduled = true
is_counted claimed = true
is_counted uploading = true
is_counted processing = true
is_counted retrying = true
is_counted published = true
is_counted awaiting_creator = true
is_counted _ = false

pub record Calendar : Type 0 where
  pub held : Dict ScheduledPost
  pub by_account : Dict (List ScheduledPost)

-- `insort`: behind the posts of the same instant
unfoldable pub insort : ScheduledPost → List ScheduledPost → List ScheduledPost
insort p [] = p ∷ []
insort p (q ∷ index) =
    let rest = insort p index in if leb q.run_at p.run_at then q ∷ rest else p ∷ q ∷ index

-- The loop of `remove` over the index.
unfoldable pub pop_post : String → List ScheduledPost → List ScheduledPost
pop_post id [] = []
pop_post id (q ∷ index) =
    let rest = pop_post id index in if q.post_id == id then index else q ∷ rest

abbrev pub or_no_posts : Option (List ScheduledPost) → List ScheduledPost
or_no_posts none = []
or_no_posts (some index) = index

abbrev pub index_of : String → Calendar → List ScheduledPost
index_of account c = or_no_posts (lookup account c.by_account)

abbrev pub drop_from :
    String
    → String
    → Option (List ScheduledPost)
    → Dict (List ScheduledPost)
    → Dict (List ScheduledPost)
drop_from account id none indices = indices
drop_from account id (some index) indices = insert account (pop_post id index) indices

abbrev pub remove_held : String → Option ScheduledPost → Calendar → Calendar
remove_held id none c = c
remove_held id (some p) c = record {
  held = erase id c.held;
  by_account = drop_from p.account_id id (lookup p.account_id c.by_account) c.by_account;
}

-- `remove`
unfoldable pub remove : String → Calendar → Calendar
remove id c = remove_held id (lookup id c.held) c

abbrev pub put : ScheduledPost → Calendar → Calendar
put p c = record {
  held = insert p.post_id p c.held;
  by_account = insert p.account_id (insort p (index_of p.account_id c)) c.by_account;
}

-- `add`; a `remove` of an id that is not there changes nothing
unfoldable pub add : ScheduledPost → Calendar → Calendar
add p c = put p (remove p.post_id c)

abbrev pub move_held : ℕ → Option ScheduledPost → Calendar → Option Calendar
move_held run_at none c = none
move_held run_at (some p) c = some (add (record p { run_at = run_at }) (remove p.post_id c))

-- `move`; `none` is the `KeyError`
unfoldable pub move : String → ℕ → Calendar → Option Calendar
move id run_at c = move_held run_at (lookup id c.held) c

-- `posts`
unfoldable pub posts : Calendar → List ScheduledPost
posts c = sort (λ p q. ltb p.run_at q.run_at) (values c.held)

-- The posts on both sides of the place that `bisect_left` finds.
unfoldable pub neighbours :
    ℕ → Option ScheduledPost → List ScheduledPost → Option ScheduledPost × Option ScheduledPost
neighbours moment before [] = (before, none)
neighbours moment before (q ∷ index) =
    let rest = neighbours moment (some q) index in
    if ltb q.run_at moment then rest else (before, some q)

abbrev pub distance : ℕ → ℕ → ℕ
distance a b = (a - b) + (b - a)

-- One turn of the loop of `nearest`.
abbrev pub candidate : ℕ → ℕ → Option ScheduledPost → Option ScheduledPost
candidate moment within none = none
candidate moment within (some q) =
    if is_terminal q then none else if ltb (distance q.run_at moment) within then some q else none

abbrev pub first_of : Option ScheduledPost → Option ScheduledPost → Option ScheduledPost
first_of none b = b
first_of (some q) b = some q

unfoldable pub nearest_in : List ScheduledPost → ℕ → ℕ → Option ScheduledPost
nearest_in index moment within =
    let (before, behind) = neighbours moment none index in
    first_of (candidate moment within before) (candidate moment within behind)

-- `nearest`
abbrev pub nearest : String → ℕ → ℕ → Calendar → Option ScheduledPost
nearest account moment within c = nearest_in (index_of account c) moment within

abbrev pub has_come : Option ℕ → ℕ → Bool
has_come none now = false
has_come (some t) now = leb t now

abbrev pub next_time : ScheduledPost → ℕ
next_time p = elim p.next_attempt_at [ none ↦ p.run_at | some t ↦ t ]

abbrev pub is_due_in : PostState → ℕ → ScheduledPost → Bool
is_due_in claimed now p = has_come p.lease_until now
is_due_in scheduled now p = leb (next_time p) now
is_due_in retrying now p = leb (next_time p) now
is_due_in _ now p = false

abbrev pub is_due : ℕ → ScheduledPost → Bool
is_due now p = is_due_in p.state now p

-- `due`
unfoldable pub due : ℕ → Calendar → List ScheduledPost
due now c = filter (is_due now) (posts c)

-- `post.lease_until and post.lease_until > now`
abbrev pub is_leased : Option ℕ → ℕ → Bool
is_leased none now = false
is_leased (some t) now = ltb now t

abbrev pub lease_post : ℕ → ℕ → ScheduledPost → ScheduledPost
lease_post now lease_s p = record p { lease_until = some (now + seconds lease_s); state = claimed }

-- `claim` of the engine: the posts that it leases, out of those that are due; a limit of zero still
-- takes one
abbrev pub claim_posts : ℕ → ℕ → ℕ → List ScheduledPost → List ScheduledPost
claim_posts now lease_s limit ready =
    map (lease_post now lease_s)
      (take (max 1 limit) (filter (λ p. not (is_leased p.lease_until now)) ready))

unfoldable pub claim_due : ℕ → ℕ → ℕ → Calendar → List ScheduledPost
claim_due now lease_s limit c = claim_posts now lease_s limit (due now c)

-- What `next_free_slot` keeps fixed: the local day, the same time a day later, the posts of the
-- account that count, the cap of a day, and the spacing.
pub record Search : Type 0 where
  pub local_day : ℕ → ℕ
  pub next_day : ℕ → ℕ
  pub existing : List ScheduledPost
  pub cap : ℕ
  pub spacing : ℕ

unfoldable pub is_full : Search → ℕ → Bool
is_full s cursor =
    leb s.cap (length (filter (λ p. eqb (s.local_day p.run_at) (s.local_day cursor)) s.existing))

unfoldable pub too_close : Search → ℕ → Bool
too_close s cursor = any (λ p. ltb (distance p.run_at cursor) s.spacing) s.existing

-- The loop over the cursor, for a number of turns.
unfoldable pub search_slot : ℕ → Search → ℕ → ℕ → Option ℕ
search_slot zero s limit cursor = none
search_slot (suc turns) s limit cursor =
    let another_day = search_slot turns s limit (s.next_day cursor) in
    let later = search_slot turns s limit (cursor + s.spacing) in
    if ltb limit cursor
    then none
    else if is_full s cursor
    then another_day
    else if too_close s cursor
    then later
    else some cursor

abbrev pub first_slot : Option ℕ → Option ℕ → Option ℕ
first_slot none b = b
first_slot (some t) b = some t

-- The loop over the candidates; every turn moves the cursor on, so the distance to the limit
-- bounds their number.
unfoldable pub search_slots : Search → ℕ → List ℕ → Option ℕ
search_slots s limit [] = none
search_slots s limit (cursor ∷ cursors) =
    first_slot (search_slot (suc (suc limit - cursor)) s limit cursor)
      (search_slots s limit cursors)

abbrev pub account_search : (ℕ → ℕ) → (ℕ → ℕ) → String → Platform → ℕ → Calendar → Search
account_search local_day next_day account platform spacing c = record {
  local_day = local_day;
  next_day = next_day;
  existing =
      sort (λ p q. ltb p.run_at q.run_at)
        (filter (λ p. p.account_id == account && is_counted p.state) (posts c));
  cap = (limits_for platform).rate.posts_per_day;
  spacing = spacing;
}

abbrev pub or_earliest : ℕ → List ℕ → List ℕ
or_earliest earliest [] = earliest ∷ []
or_earliest earliest (t ∷ ts) = t ∷ ts

-- `next_free_slot`
unfoldable pub next_free_slot :
    (ℕ → ℕ) → (ℕ → ℕ) → String → Platform → ℕ → List ℕ → ℕ → ℕ → Calendar → Option ℕ
next_free_slot local_day next_day account platform earliest preferred spacing horizon_days c =
    search_slots (account_search local_day next_day account platform spacing c)
      (earliest + seconds (horizon_days * 86400))
      (or_earliest earliest (filter (λ t. leb earliest t) preferred))

abbrev pub slots_per_day : QuotaScope → ℕ → ℕ → ℕ
slots_per_day per_project cap accounts = cap
slots_per_day per_account cap accounts = cap * accounts

-- `days_required` of `capacity_forecast`
unfoldable pub days_required : Platform → ℕ → ℕ → ℕ
days_required platform count accounts =
    let rate = (limits_for platform).rate in
    let per_day = slots_per_day rate.quota_scope rate.posts_per_day (max 1 accounts) in
    if eqb per_day 0 then 0 else (count + (per_day - 1)) / per_day
