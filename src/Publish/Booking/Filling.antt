-- ===== src/Publish/Booking/Filling.antt =====
-- What `schedule_bulk` makes of a batch of clips, in the order of the clips and of the slots.
use clipper_ai.Base.{
  ℕ, ◌≡◌, refl, subst, ◌⊎◌, inl, inr, String, false, List, [], ◌∷◌, any, map, Result, ok, err,
  ok_inj, err_ne_ok, pure, Ensures, Ensures-bind, Ensures-if, Ensures-pure, Ensures-then,
}
use clipper_ai.Publish.Types.{PostSpec, ScheduledPost}
use clipper_ai.Publish.Booking.{
  Clerk, Desk, Booking, BookingError, unknown_series, unknown_post, is_over, schedule, refused,
  unknown_account,
}
use clipper_ai.Publish.Booking.Settled.{schedule-IsBooked}
use clipper_ai.Publish.Booking.Batch.{
  no_free_slot, slot_refused, Rejection, Placement, open_series, schedule_bulk, Tried, Fitted,
  attempt, trying, fit_tried, fit, noted, place_clips, is_of_slot, clip_refused,
}

-- `xs` is what is left of `ys` when some of it is left out.
abbrev pub IsPart : List ℕ → List ℕ → Type 0
IsPart [] ys = Unit
IsPart (x ∷ xs) [] = ⊥
IsPart (x ∷ xs) (y ∷ ys) = ((x ≡ y) × IsPart xs ys) ⊎ IsPart (x ∷ xs) ys

pub IsPart-more : (xs ys : List ℕ) (y : ℕ) → IsPart xs ys → IsPart xs (y ∷ ys)
IsPart-more [] ys y h = tt
IsPart-more (x ∷ xs) ys y h = inr h

abbrev at_slot : Result Rejection ScheduledPost → List ℕ → List ℕ
at_slot (ok post) xs = post.run_at ∷ xs
at_slot (err why) xs = xs

-- The rejection names the clip.
abbrev pub IsOfClip : PostSpec → Rejection → Type 0
IsOfClip spec (clip_refused id ps) = id ≡ spec.asset.asset_id
IsOfClip spec (no_free_slot id) = id ≡ spec.asset.asset_id
IsOfClip spec (slot_refused slot ps) = ⊥

-- What a clip comes to is its own: a post of the account with it, or a rejection that names it.
abbrev IsOutcome : String → PostSpec → Result Rejection ScheduledPost → Type 0
IsOutcome account_id spec (ok post) = (post.spec ≡ spec) × (post.account_id ≡ account_id)
IsOutcome account_id spec (err why) = IsOfClip spec why

-- What a clip takes of the slots, and what it comes to.
record Takes (account_id : String) (spec : PostSpec) (slots : List ℕ) (f : Fitted) (d : Desk)
    : Type 0 where
  outcome : IsOutcome account_id spec f.0
  part : (xs : List ℕ) → IsPart xs f.1 → IsPart (at_slot f.0 xs) slots

module _ (account_id : String) (spec : PostSpec) where
  Takes-later :
      (slot : ℕ) (slots : List ℕ) (later : Booking Fitted)
      → Ensures (Takes account_id spec slots) later
      → Ensures (Takes account_id spec (slot ∷ slots)) later
  Takes-later slot slots later l = record {
    result = λ u f h. record {
      outcome = (l.result u f h).outcome;
      part = λ xs p. IsPart-more (at_slot f.0 xs) slots slot ((l.result u f h).part xs p);
    };
  }

abbrev pub times : List ScheduledPost → List ℕ
times ps = map (λ (p : ScheduledPost). p.run_at) ps

-- The posts and the rejections are those of the clips, one of the two for each clip, in the order
-- of the clips.
abbrev pub IsDealt : String → List PostSpec → List ScheduledPost → List Rejection → Type 0
IsDealt account_id [] posts whys = (posts ≡ []) × (whys ≡ [])
IsDealt account_id (spec ∷ specs) posts whys =
    ((post : ScheduledPost) × (rest : List ScheduledPost) × (posts ≡ post ∷ rest)
      × IsOutcome account_id spec (ok post)
      × IsDealt account_id specs rest whys)
    ⊎ ((why : Rejection) × (rest : List Rejection) × (whys ≡ why ∷ rest)
        × IsOutcome account_id spec (err why)
        × IsDealt account_id specs posts rest)

-- Every clip is placed or rejected, and the posts stand at instants of the rule, in their order.
pub record IsLaidOut (account_id : String) (specs : List PostSpec) (slots : List ℕ) (r : Placement)
    (d : Desk) : Type 0 where
  pub dealt : IsDealt account_id specs r.placed r.rejected
  pub in_order : IsPart (times r.placed) slots

IsLaidOut-noted :
    (account_id : String) (spec : PostSpec) (specs : List PostSpec) (slots : List ℕ) (f : Fitted)
    (d e e' : Desk) (r : Placement)
    → Takes account_id spec slots f d
    → IsLaidOut account_id specs f.1 r e
    → IsLaidOut account_id (spec ∷ specs) slots (noted f.0 r) e'
IsLaidOut-noted account_id spec specs slots (ok post, left) d e e' r t l = record {
  dealt = inl (post, r.placed, refl, t.outcome, l.dealt);
  in_order = t.part (times r.placed) l.in_order;
}
IsLaidOut-noted account_id spec specs slots (err why, left) d e e' r t l = record {
  dealt = inr (why, r.rejected, refl, t.outcome, l.dealt);
  in_order = t.part (times r.placed) l.in_order;
}

module _ (clerk : Clerk) (account_id series_id : String) (now : ℕ) where
  IsAt : PostSpec → ℕ → Tried → Desk → Type 0
  IsAt spec slot (ok post) d = (post.run_at ≡ slot) × IsOutcome account_id spec (ok post)
  IsAt spec slot (err ps) d = Unit

  attempt-IsAt :
      (spec : PostSpec) (slot : ℕ)
      → Ensures (IsAt spec slot) (attempt (schedule clerk account_id spec slot series_id false now))
  unfolding IsAt
  attempt-IsAt spec slot = record {
    result = λ d t h.
        go d t (schedule clerk account_id spec slot series_id false now d)
          (λ post e.
            let b = schedule-IsBooked clerk account_id series_id now spec slot false d post e in
            (b.at_time, (b.of_spec, b.owner)))
          h;
  }
    where
      go :
          (d : Desk) (t : Tried) (r : Result BookingError ScheduledPost × Desk)
          → ((post : ScheduledPost)
              → r.0 ≡ ok post
              → (post.run_at ≡ slot) × IsOutcome account_id spec (ok post))
          → (trying r).0 ≡ ok t
          → IsAt spec slot t (trying r).1
      go d t (ok post, u) k h = subst (λ x. IsAt spec slot x u) (ok_inj h) (k post refl)
      go d t (err (refused ps), u) k h = subst (λ x. IsAt spec slot x u) (ok_inj h) tt
      go d t (err unknown_account, u) k h = absurd (err_ne_ok h)
      go d t (err unknown_series, u) k h = absurd (err_ne_ok h)
      go d t (err unknown_post, u) k h = absurd (err_ne_ok h)
      go d t (err is_over, u) k h = absurd (err_ne_ok h)

  Takes-fit_tried :
      (spec : PostSpec) (slot : ℕ) (slots : List ℕ) (later : Booking Fitted)
      → Ensures (Takes account_id spec slots) later
      → (t : Tried) (d : Desk) → IsAt spec slot t d
      → Ensures (Takes account_id spec (slot ∷ slots)) (fit_tried spec slots later t)
  unfolding IsAt
  Takes-fit_tried spec slot slots later l (ok post) d at =
      Ensures-pure _ (λ u. record { outcome = at.1; part = λ xs h. inl (at.0, h) })
  Takes-fit_tried spec slot slots later l (err ps) d at =
      let why : Fitted = (err (clip_refused spec.asset.asset_id ps), slots) in
      Ensures-if (any is_of_slot ps) later (pure why)
        (λ e. Takes-later account_id spec slot slots later l)
        (λ e.
          Ensures-pure why
            (λ u. record { outcome = refl; part = λ xs h. IsPart-more xs slots slot h }))

  Takes-fit :
      (spec : PostSpec) (slots : List ℕ)
      → Ensures (Takes account_id spec slots) (fit clerk account_id series_id now spec slots)
  unfolding fit
  Takes-fit spec [] = Ensures-pure _ (λ u. record { outcome = refl; part = λ xs h. h })
  Takes-fit spec (slot ∷ slots) =
      let later = fit clerk account_id series_id now spec slots in
      Ensures-then _ _ (attempt-IsAt spec slot) (λ t u at f h.
        (Takes-fit_tried spec slot slots later (Takes-fit spec slots) t u at).result u f h)

  pub IsLaidOut-place_clips :
      (specs : List PostSpec) (slots : List ℕ)
      → Ensures
          (IsLaidOut account_id specs slots)
          (place_clips clerk account_id series_id now specs slots)
  unfolding place_clips
  IsLaidOut-place_clips [] slots =
      Ensures-pure _ (λ u. record { dealt = (refl, refl); in_order = tt })
  IsLaidOut-place_clips (spec ∷ specs) slots = Ensures-then _ _ (Takes-fit spec slots) (λ f u t b h.
      (Ensures-then {R = IsLaidOut account_id specs f.1}
          {Q = IsLaidOut account_id (spec ∷ specs) slots} _ _ (IsLaidOut-place_clips specs f.1)
          (λ r v l c k.
            (Ensures-pure {Q = IsLaidOut account_id (spec ∷ specs) slots} (noted f.0 r)
                (λ w. IsLaidOut-noted account_id spec specs slots f u v w r t l)).result
              v c k)).result
        u b h)

-- A batch whose planning returns deals with each clip once and in order: the clip has a post of the
-- account with it, or a rejection that names it; and the posts stand at instants of the rule, in
-- the order of the rule.
pub schedule_bulk-IsLaidOut :
    (clerk : Clerk) (account_id : String) (specs : List PostSpec) (named : String)
    → (slots : List ℕ) (now : ℕ) (d : Desk) (r : Placement)
    → (schedule_bulk clerk account_id specs named slots now d).0 ≡ ok r
    → IsDealt account_id specs r.placed r.rejected × IsPart (times r.placed) slots
unfolding schedule_bulk
schedule_bulk-IsLaidOut clerk account_id specs named slots now d r h =
    let l : IsLaidOut account_id specs slots r _ =
      (Ensures-bind {Q = IsLaidOut account_id specs slots} (open_series clerk named) _
          (λ id. IsLaidOut-place_clips clerk account_id id now specs slots)).result
        d r h in
    (l.dealt, l.in_order)
