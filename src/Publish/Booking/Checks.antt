-- ===== src/Publish/Booking/Checks.antt =====
-- What a post that was booked had to pass: its time, the account's other posts and the account's
-- credentials.
use mathlib.Core.List.{append-eq-nil_iff}
use clipper_ai.Base.{
  ℕ, ◌<◌, seconds, ◌≡◌, refl, sym, subst, arith, String, true, false, ◌&&◌, Option, none, some, [],
  ◌∷◌, if◌then◌else◌, leb, map, All, ok,
}
use clipper_ai.Base.Dict.{lookup}
use clipper_ai.Publish.Types.{Account, PostSpec, ScheduledPost, is_terminal}
use clipper_ai.Publish.Limits.{validate}
use clipper_ai.Publish.Calendar.{index_of, nearest}
use clipper_ai.Publish.Calendar.Index.{AreSorted, index_of-IsSortedIndex}
use clipper_ai.Publish.Calendar.Nearest.{IsFar, nearest_complete}
use clipper_ai.Publish.Booking.{
  Clerk, Desk, media_problem, in_the_past, covers, horizon_problems, spacing_problems, problems_of,
  schedule,
}
use clipper_ai.Publish.Booking.Settled.{schedule-IsBooked}

-- Credentials are kept, and they cover the moment.
pub record IsCovered (kept : Option (Option ℕ)) (moment : ℕ) : Type 0 where
  pub until : Option ℕ
  pub is_kept : kept ≡ some until
  pub covering : covers until moment ≡ true

covers-horizon :
    (until : Option ℕ) (moment : ℕ)
    → horizon_problems moment (some until) ≡ []
    → covers until moment ≡ true
covers-horizon none moment e = refl
covers-horizon (some until) moment e = ground (arith, e)

IsCovered-horizon :
    (kept : Option (Option ℕ)) (moment : ℕ)
    → horizon_problems moment kept ≡ []
    → IsCovered kept moment
IsCovered-horizon none moment e = cc
IsCovered-horizon (some until) moment e = record {
  until = until;
  is_kept = refl;
  covering = covers-horizon until moment e;
}

none-spacing : (o : Option ScheduledPost) → spacing_problems o ≡ [] → o ≡ none
none-spacing none e = refl
none-spacing (some q) e = cc

module _ (clerk : Clerk) (account_id series_id : String) (now : ℕ) where
  -- The parts of an empty list of problems.
  record IsClean (spec : PostSpec) (run_at : ℕ) (d : Desk) (a : Account) : Type 0 where
    later : now < run_at
    valid : map media_problem (validate clerk.strip spec a) ≡ []
    horizon :
        (if clerk.config.enforce_token_horizon
          then horizon_problems run_at (lookup account_id d.tokens)
          else [])
        ≡ []
    spacing :
        (if clerk.config.enforce_spacing && true
          then spacing_problems
              (nearest account_id run_at (seconds clerk.config.spacing_s) d.calendar)
          else [])
        ≡ []

  later_than :
      (run_at : ℕ) → (if leb run_at now && true then in_the_past ∷ [] else []) ≡ [] → now < run_at
  later_than run_at e = ground (arith, e)

  problems_of-IsClean :
      (spec : PostSpec) (run_at : ℕ) (d : Desk) (a : Account)
      → problems_of clerk d account_id a spec run_at false now ≡ []
      → IsClean spec run_at d a
  unfolding problems_of
  problems_of-IsClean spec run_at d a e =
      let (v, e1) = append-eq-nil_iff.0 e in
      let (l, e2) = append-eq-nil_iff.0 e1 in
      let (h, s) = append-eq-nil_iff.0 e2 in
      record { later = later_than run_at l; valid = v; horizon = h; spacing = s }

  -- A post booked with both checks on and without force lies in the future, within the reach of
  -- the account's credentials, and apart from every post of its account, if the account's index is
  -- in order and has only posts with work left.
  pub schedule-IsSound :
      (spec : PostSpec) (run_at : ℕ) (d : Desk) (post : ScheduledPost)
      → AreSorted d.calendar.by_account
      → All (λ q. is_terminal q ≡ false) (index_of account_id d.calendar)
      → clerk.config.enforce_spacing ≡ true
      → clerk.config.enforce_token_horizon ≡ true
      → (schedule clerk account_id spec run_at series_id false now d).0 ≡ ok post
      → (now < post.run_at)
        × IsCovered (lookup account_id d.tokens) post.run_at
        × All (IsFar post.run_at (seconds clerk.config.spacing_s)) (index_of account_id d.calendar)
  schedule-IsSound spec run_at d post sorted active apart ahead h =
      let b = schedule-IsBooked clerk account_id series_id now spec run_at false d post h in
      let c = problems_of-IsClean spec run_at d b.account b.is_clean in
      let free : nearest account_id run_at (seconds clerk.config.spacing_s) d.calendar ≡ none =
        none-spacing _ (rw apart at c.spacing) in
      subst
        (λ t.
          (now < t)
          × IsCovered (lookup account_id d.tokens) t
          × All (IsFar t (seconds clerk.config.spacing_s)) (index_of account_id d.calendar))
        (sym b.at_time)
        (
          c.later,
          IsCovered-horizon _ run_at (rw ahead at c.horizon),
          nearest_complete run_at _ (index_of account_id d.calendar)
              (index_of-IsSortedIndex d.calendar account_id sorted) active free,
        )
