-- ===== src/Publish/Calendar/Slots.antt =====
-- What `next_free_slot` and `capacity_forecast` find.
use clipper_ai.Base.{
  any, ltb, length, true, Bool, Occurs, filter-Occurs, ◌&&◌, ◌==◌, ℕ, zero, suc, ◌+◌, ◌-◌, ◌*◌, ◌/◌,
  ◌≤◌, ◌<◌, ◌≡◌, refl, false, some, List, [], ◌∷◌, arith, inl, inr, leb, eqb, max, if◌then◌else◌,
  All, filter, String, Option-cases, some_inj, seconds,
}
use native.Mathlib.Nat.{div-mul-le_self, lt-div-mul-add}
use clipper_ai.Publish.Limits.{limits_for}
use clipper_ai.Base.Sort.{sort, place, sort-Occurs}
use clipper_ai.Publish.Types.{ScheduledPost, Platform, tiktok, youtube, instagram}
use clipper_ai.Publish.Calendar.{
  is_counted, posts, distance, Search, is_full, too_close, search_slot, search_slots, days_required,
  next_free_slot, account_search, or_earliest, Calendar, slots_per_day,
}

module _ (s : Search) where
  -- A day with room, and no post of the account within the spacing.
  pub record IsFree (cursor : ℕ) : Type 0 where
    pub room : is_full s cursor ≡ false
    pub apart : too_close s cursor ≡ false

  -- The next day is later.
  abbrev pub IsForward : Type 0
  IsForward = (t : ℕ) → t < s.next_day t

  abbrev pub IsFound : ℕ → ℕ → ℕ → Type 0
  IsFound limit cursor t = IsFree t × (cursor ≤ t) × (t ≤ limit)

  search_slot-IsFound :
      IsForward
      → (turns limit cursor t : ℕ) → search_slot turns s limit cursor ≡ some t
      → IsFound limit cursor t
  unfolding search_slot
  search_slot-IsFound f zero limit cursor t e = cc
  search_slot-IsFound f (suc turns) limit cursor t e = ground (
    arith,
    f cursor,
    search_slot-IsFound f turns limit (s.next_day cursor) t,
    search_slot-IsFound f turns limit (cursor + s.spacing) t,
  )

  -- With a spacing, one turn for every microsecond up to the limit is enough: more turns find
  -- nothing else.
  pub search_slot_more :
      IsForward
      → 0 < s.spacing
      → (turns limit cursor : ℕ) → limit < cursor + turns
      → search_slot (suc turns) s limit cursor ≡ search_slot turns s limit cursor
  unfolding search_slot
  search_slot_more f p zero limit cursor h = ground (arith, h)
  search_slot_more f p (suc turns) limit cursor h =
      let day = search_slot_more f p turns limit (s.next_day cursor) (omega (arith, h, f cursor)) in
      let gap = search_slot_more f p turns limit (cursor + s.spacing) (omega (arith, h, p)) in
      rw (day, gap) refl

  search_slots-IsFound :
      IsForward
      → (limit earliest t : ℕ) (cursors : List ℕ) → All (λ c. earliest ≤ c) cursors
      → search_slots s limit cursors ≡ some t
      → IsFound limit earliest t
  unfolding search_slots
  search_slots-IsFound f limit earliest t [] a e = cc
  search_slots-IsFound f limit earliest t (c ∷ cs) a e =
      elim (Option-cases (search_slot (suc (suc limit - c)) s limit c)) [
        | inl n ↦ search_slots-IsFound f limit earliest t cs a.1 (rw n at e)
        | inr (q, n) ↦
            let same : q ≡ t = some_inj (rw n at e) in
            let found = search_slot-IsFound f (suc (suc limit - c)) limit c t (rw same at n) in
            (found.0, omega (arith, found.1, a.0), found.2)
      ]

earliest-filter :
    (earliest : ℕ) (ts : List ℕ) → All (λ c. earliest ≤ c) (filter (λ t. leb earliest t) ts)
earliest-filter earliest [] = tt
earliest-filter earliest (t ∷ ts) = ground (arith, earliest-filter earliest ts)

earliest-or_earliest :
    (earliest : ℕ) (ts : List ℕ)
    → All (λ c. earliest ≤ c) ts
    → All (λ c. earliest ≤ c) (or_earliest earliest ts)
earliest-or_earliest earliest [] h = (omega arith, tt)
earliest-or_earliest earliest (t ∷ ts) h = h

-- Of what a sort gives, as many pass a test as before it.
length-filter-place :
    (lt : ScheduledPost → ScheduledPost → Bool) (q : ScheduledPost → Bool) (x : ScheduledPost)
    (ys : List ScheduledPost)
    → length (filter q (place lt x ys)) ≡ length (filter q (x ∷ ys))
length-filter-place lt q x [] = refl
length-filter-place lt q x (y ∷ ys) = ground (arith, length-filter-place lt q x ys)

length-filter-sort :
    (lt : ScheduledPost → ScheduledPost → Bool) (q : ScheduledPost → Bool) (xs : List ScheduledPost)
    → length (filter q (sort lt xs)) ≡ length (filter q xs)
unfolding sort
length-filter-sort lt q [] = refl
length-filter-sort lt q (x ∷ xs) =
    ground (arith, length-filter-place lt q x (sort lt xs), length-filter-sort lt q xs)

not_near :
    (spacing t : ℕ) (ps : List ScheduledPost) (p : ScheduledPost)
    → any (λ (q : ScheduledPost). ltb (distance q.run_at t) spacing) ps ≡ false
    → Occurs p ps
    → spacing ≤ distance p.run_at t
not_near spacing t [] p e m = absurd m
not_near spacing t (q ∷ ps) p e (inl same) = ground (arith, e, same)
not_near spacing t (q ∷ ps) p e (inr m) = ground (arith, e, not_near spacing t ps p, m)

module _ (local_day : ℕ → ℕ) (account : String) (platform : Platform) (spacing : ℕ)
    (c : Calendar) where
  -- The post is one of the account's, and is in a state that counts.
  abbrev pub counts_for : ScheduledPost → Bool
  counts_for p = p.account_id == account && is_counted p.state

  -- The account's posts that count on the local day of the instant are fewer than the platform
  -- takes a day, and none of its posts that count is nearer to the instant than the spacing.
  pub record IsOpenSlot (t : ℕ) : Type 0 where
    pub room :
        length (filter (λ p. eqb (local_day p.run_at) (local_day t)) (filter counts_for (posts c)))
        < (limits_for platform).rate.posts_per_day
    pub apart :
        (p : ScheduledPost)
        → Occurs p (posts c)
        → (p.account_id == account) ≡ true
        → is_counted p.state ≡ true
        → spacing ≤ distance p.run_at t

  IsFree-IsOpenSlot :
      (next_day : ℕ → ℕ) (t : ℕ)
      → IsFree (account_search local_day next_day account platform spacing c) t
      → IsOpenSlot t
  unfolding is_full too_close
  IsFree-IsOpenSlot next_day t h =
      let earlier = λ (p q : ScheduledPost). ltb p.run_at q.run_at in
      let own = filter counts_for (posts c) in
      record {
        room = ground (
          arith,
          h.room,
          length-filter-sort earlier (λ (p : ScheduledPost). eqb (local_day p.run_at) (local_day t))
              own,
        );
        apart = λ p m a k. not_near spacing t (sort earlier own) p h.apart (
            sort-Occurs earlier p own
              (filter-Occurs counts_for p (posts c) m (ground (arith, a, k))));
      }

-- A slot that is found is not before the earliest moment nor past the horizon, its local day has
-- fewer of the account's posts that count than the platform takes, and no post of the account that
-- counts is within the spacing.
pub next_free_slot-IsFound :
    (local_day next_day : ℕ → ℕ) (account : String) (platform : Platform) (earliest : ℕ)
    (preferred : List ℕ) (spacing horizon_days : ℕ) (c : Calendar) (t : ℕ)
    → ((m : ℕ) → m < next_day m)
    → next_free_slot local_day next_day account platform earliest preferred spacing horizon_days c
      ≡ some t
    → IsOpenSlot local_day account platform spacing c t
      × (earliest ≤ t)
      × (t ≤ earliest + seconds (horizon_days * 86400))
unfolding next_free_slot
next_free_slot-IsFound local_day next_day account platform earliest preferred spacing horizon_days c
      t f e =
    let found =
      search_slots-IsFound (account_search local_day next_day account platform spacing c) f _
        earliest t _ (earliest-or_earliest earliest _ (earliest-filter earliest preferred)) e in
    (IsFree-IsOpenSlot local_day account platform spacing c next_day t found.0, found.1, found.2)

ceiling :
    (count per_day : ℕ)
    → 0 < per_day
    → let days = (count + (per_day - 1)) / per_day in
      (count ≤ days * per_day) × (days * per_day < count + per_day)
ceiling count per_day pos =
    let n = count + (per_day - 1) in
    omega (arith, pos, div-mul-le_self n per_day, lt-div-mul-add {a = n} pos)

ceiling_if :
    (count per_day : ℕ)
    → 0 < per_day
    → let days = if eqb per_day 0 then 0 else (count + (per_day - 1)) / per_day in
      (count ≤ days * per_day) × (days * per_day < count + per_day)
ceiling_if count per_day pos =
    let positive : eqb per_day 0 ≡ false = ground (arith, pos) in
    rw positive (ceiling count per_day pos)

-- The days that a batch needs are enough for it at the platform's rate, and one day less is not:
-- they leave less than one day's posts unused.
pub days_required_exact :
    (platform : Platform) (count accounts : ℕ)
    → let rate = (limits_for platform).rate in
      let per_day = slots_per_day rate.quota_scope rate.posts_per_day (max 1 accounts) in
      let days = days_required platform count accounts in
      (count ≤ days * per_day) × (days * per_day < count + per_day)
unfolding days_required
days_required_exact youtube count accounts = ceiling_if count 6 (omega arith)
days_required_exact tiktok count accounts = ceiling_if count (6 * max 1 accounts) (omega arith)
days_required_exact instagram count accounts = ceiling_if count (25 * max 1 accounts) (omega arith)
