-- ===== src/Publish/Calendar/Conflicts.antt =====
-- `between`, `occupancy` and `conflicts` of src/clipforge/publish/calendar.py. The local day of an
-- instant and the order of `str` are arguments; the sentences for people are left out.
pub mod Spacing
use clipper_ai.Base.{
  ℕ, ◌≤◌, ◌<◌, ◌+◌, ◌-◌, String, Bool, true, false, not, ◌&&◌, ◌||◌, ◌≡◌, refl, inl, inr, arith,
  Option, none, some, List, [], ◌∷◌, ◌++◌, ◌==◌, if◌then◌else◌, ltb, leb, eqb, filter, map, length,
  any, All, Bool-cases,
}
use clipper_ai.Base.Sort.{sort}
use clipper_ai.Publish.Types.{Platform, youtube, PostState, published, ScheduledPost, is_terminal}
use clipper_ai.Publish.Limits.{limits_for, is_youtube}
use clipper_ai.Publish.Calendar.{Calendar, min_spacing, is_counted, posts}

pub data ConflictKind : Type 0 where
  spacing daily_cap project_quota : ConflictKind

-- Without the `detail`; `owners` are the accounts that `account_id` joins with commas.
pub record Conflict : Type 0 where
  pub kind : ConflictKind
  pub at : ℕ
  pub owners : List String
  pub platform : Platform
  pub post_ids : List String

-- `DaySlot`
pub record DaySlot : Type 0 where
  pub day : ℕ
  pub account_id : String
  pub platform : Platform
  pub count : ℕ
  pub cap : ℕ

abbrev pub full : DaySlot → Bool
full s = leb s.cap s.count

abbrev pub remaining : DaySlot → ℕ
remaining s = s.cap - s.count

-- `between`; an empty account and no platform match every post
unfoldable pub between :
    (Platform → Platform → Bool) → ℕ → ℕ → String → Option Platform → Calendar → List ScheduledPost
between same start until account platform c =
    filter
      (λ p.
        leb start p.run_at
        && leb p.run_at until
        && (account == "" || p.account_id == account)
        && on_platform p platform)
      (posts c)
  where
    on_platform : ScheduledPost → Option Platform → Bool
    on_platform p none = true
    on_platform p (some q) = same p.platform q

-- A `defaultdict(list)` that posts are put into one by one, in the order of its first keys.
module _ {K : Type 0} (same : K → K → Bool) (key : ScheduledPost → K) where
  unfoldable pub put_in :
      ScheduledPost → List (K × List ScheduledPost) → List (K × List ScheduledPost)
  put_in p [] = (key p, p ∷ []) ∷ []
  put_in p ((k, ps) ∷ groups) =
      let rest = put_in p groups in
      if same k (key p) then (k, ps ++ p ∷ []) ∷ groups else (k, ps) ∷ rest

  unfoldable pub group_from :
      List ScheduledPost → List (K × List ScheduledPost) → List (K × List ScheduledPost)
  group_from [] groups = groups
  group_from (p ∷ ps) groups = group_from ps (put_in p groups)

abbrev pub group_by :
    {K : Type 0}
    → (K → K → Bool)
    → (ScheduledPost → K)
    → List ScheduledPost
    → List (K × List ScheduledPost)
group_by same key ps = group_from same key ps []

abbrev pub same_slot : ℕ × String → ℕ × String → Bool
same_slot (d, a) (e, b) = eqb d e && a == b

abbrev pub ids : List ScheduledPost → List String
ids ps = map (λ (p : ScheduledPost). p.post_id) ps

abbrev pub spacing_conflict : ScheduledPost → ScheduledPost → Conflict
spacing_conflict first second = record {
  kind = spacing;
  at = second.run_at;
  owners = second.account_id ∷ [];
  platform = second.platform;
  post_ids = first.post_id ∷ second.post_id ∷ [];
}

-- The posts of one account, in the order of time, two neighbours at a time.
unfoldable pub spacing_from : ScheduledPost → List ScheduledPost → List Conflict
spacing_from first [] = []
spacing_from first (second ∷ group) =
    let rest = spacing_from second group in
    if ltb (second.run_at - first.run_at) min_spacing
    then spacing_conflict first second ∷ rest
    else rest

abbrev pub spacing_in : List ScheduledPost → List Conflict
spacing_in [] = []
spacing_in (p ∷ group) = spacing_from p group

abbrev pub cap_of : Platform → ℕ
cap_of platform = (limits_for platform).rate.posts_per_day

-- A day of one account, or of the project, with more posts than are accepted.
abbrev pub over_cap :
    ConflictKind → (List ScheduledPost → List String) → List ScheduledPost → List Conflict
over_cap kind owners [] = []
over_cap kind owners (p ∷ ps) =
    if ltb (cap_of p.platform) (length (p ∷ ps))
    then record {
      kind = kind;
      at = p.run_at;
      owners = owners (p ∷ ps);
      platform = p.platform;
      post_ids = ids (p ∷ ps);
    }
      ∷ []
    else []

abbrev pub has_name : String → List String → Bool
has_name a names = any (λ b. b == a) names

-- The accounts of a group, each once.
unfoldable pub accounts_of : List ScheduledPost → List String
accounts_of [] = []
accounts_of (p ∷ ps) =
    let rest = accounts_of ps in if has_name p.account_id rest then rest else p.account_id ∷ rest

unfoldable pub concat_map : {A : Type 0} → (A → List Conflict) → List A → List Conflict
concat_map f [] = []
concat_map f (x ∷ xs) = f x ++ concat_map f xs

abbrev pub is_from : Option ℕ → ℕ → Bool
is_from none day = true
is_from (some start) day = leb start day

abbrev pub is_until : Option ℕ → ℕ → Bool
is_until none day = true
is_until (some end) day = leb day end

abbrev pub is_published : PostState → Bool
is_published published = true
is_published _ = false

-- The order of the kinds' names
abbrev pub rank : ConflictKind → ℕ
rank daily_cap = 0
rank project_quota = 1
rank spacing = 2

abbrev pub sooner : Conflict → Conflict → Bool
sooner a b = ltb a.at b.at || (eqb a.at b.at && ltb (rank a.kind) (rank b.kind))

-- The platform of the account's last post; `other` if it has none.
unfoldable pub last_platform : String → Platform → List ScheduledPost → Platform
last_platform account other [] = other
last_platform account other (p ∷ ps) =
    last_platform account (if p.account_id == account then p.platform else other) ps

module _ (day_of : ℕ → ℕ) where
  abbrev pub slot_of : ScheduledPost → ℕ × String
  slot_of p = (day_of p.run_at, p.account_id)

  abbrev pub day_slot : List ScheduledPost → (ℕ × String) × List ScheduledPost → DaySlot
  day_slot counted ((day, account), ps) =
      let platform = last_platform account youtube counted in
      record {
        day = day;
        account_id = account;
        platform = platform;
        count = length ps;
        cap = cap_of platform;
      }

  -- `occupancy`; a slot is made for an account of a counted post
  unfoldable pub occupancy : ℕ → ℕ → Calendar → List DaySlot
  occupancy start end c =
      let counted =
        filter (λ p. is_counted p.state && leb start (day_of p.run_at) && leb (day_of p.run_at) end)
          (posts c) in
      map (day_slot counted) (group_by same_slot slot_of counted)

module _ (day_of : ℕ → ℕ) (before : String → String → Bool) where
  abbrev pub slot_before :
      (ℕ × String) × List ScheduledPost → (ℕ × String) × List ScheduledPost → Bool
  slot_before ((d, a), _) ((e, b), _) = ltb d e || (eqb d e && before a b)

  abbrev pub day_before : ℕ × List ScheduledPost → ℕ × List ScheduledPost → Bool
  day_before (d, _) (e, _) = ltb d e

  -- The posts that `conflicts` reads.
  abbrev pub in_question : Option ℕ → Option ℕ → Calendar → List ScheduledPost
  in_question start end c =
      filter
        (λ p.
          (not (is_terminal p) || is_published p.state)
          && is_from start (day_of p.run_at)
          && is_until end (day_of p.run_at))
        (posts c)

  abbrev pub spacing_conflicts : List ScheduledPost → List Conflict
  spacing_conflicts ps =
      concat_map
        (λ (g : String × List ScheduledPost).
          spacing_in (sort (λ (p q : ScheduledPost). ltb p.run_at q.run_at) g.1))
        (group_by (λ a b. a == b) (λ p. p.account_id) ps)

  abbrev pub daily_conflicts : List ScheduledPost → List Conflict
  daily_conflicts ps =
      concat_map
        (λ (g : (ℕ × String) × List ScheduledPost). over_cap daily_cap (λ qs. g.0.1 ∷ []) g.1)
        (sort slot_before (group_by same_slot (slot_of day_of) ps))

  abbrev pub project_conflicts : List ScheduledPost → List Conflict
  project_conflicts ps =
      concat_map
        (λ (g : ℕ × List ScheduledPost).
          over_cap project_quota (λ qs. sort before (accounts_of qs)) g.1)
        (sort day_before
          (group_by eqb (λ p. day_of p.run_at) (filter (λ p. is_youtube p.platform) ps)))

  -- `conflicts`
  unfoldable pub conflicts : Option ℕ → Option ℕ → Calendar → List Conflict
  conflicts start end c =
      let ps = in_question start end c in
      sort sooner (spacing_conflicts ps ++ daily_conflicts ps ++ project_conflicts ps)
