-- ===== src/Publish/Booking/Settled.antt =====
-- What `schedule` does to the calendar: one post of the account, or nothing.
use clipper_ai.Base.{
  eq_refl, ℕ, ◌≡◌, refl, sym, ap, ◌∙◌, subst, ◌⊎◌, inl, inr, arith, String, Bool, none, some, List,
  [], ◌∷◌, Option-cases, ok, err, ok_inj, err_ne_ok,
}
use clipper_ai.Base.Dict.{lookup-insert, lookup}
use clipper_ai.Publish.Calendar.{add, remove}
use clipper_ai.Publish.Types.{scheduled, Account, PostSpec, ScheduledPost}
use clipper_ai.Publish.Booking.{
  Clerk, Desk, BookingError, BookingProblem, problems_of, schedule, schedule_checked, book,
  new_post, refused, unknown_account,
}

-- A post that is booked is on the calendar under its id.
lookup-book :
    (post : ScheduledPost) (d : Desk) → lookup post.post_id (book post d).calendar.held ≡ some post
unfolding add
lookup-book post d = ground (
  arith,
  eq_refl post.post_id,
  lookup-insert post.post_id post.post_id post (remove post.post_id d.calendar).held,
)

module _ (clerk : Clerk) (account_id series_id : String) (now : ℕ) where
  -- The account is known, nothing speaks against the post, and what is returned is a new post of
  -- this account, of what was asked for at the time asked for, that waits on the calendar under its
  -- id; only the calendar and the count of ids have changed.
  pub record IsBooked (spec : PostSpec) (run_at : ℕ) (force : Bool) (d : Desk)
      (post : ScheduledPost) : Type 0 where
    pub account : Account
    pub is_known : lookup account_id d.accounts ≡ some account
    pub is_clean : problems_of clerk d account_id account spec run_at force now ≡ []
    pub owner : post.account_id ≡ account_id
    pub of_spec : post.spec ≡ spec
    pub at_time : post.run_at ≡ run_at
    pub of_series : post.series_id ≡ series_id
    pub waits : post.state ≡ scheduled
    pub untried : post.attempts ≡ []
    pub stands : lookup post.post_id (book post d).calendar.held ≡ some post
    pub outcome :
        schedule clerk account_id spec run_at series_id force now d ≡ (ok post, book post d)

  module _ (spec : PostSpec) (run_at : ℕ) (force : Bool) (d : Desk) where
    schedule-none :
        lookup account_id d.accounts ≡ none
        → schedule clerk account_id spec run_at series_id force now d ≡ (err unknown_account, d)
    unfolding schedule
    schedule-none e = rw e refl

    schedule-some :
        (a : Account) (ps : List BookingProblem)
        → lookup account_id d.accounts ≡ some a
        → problems_of clerk d account_id a spec run_at force now ≡ ps
        → schedule clerk account_id spec run_at series_id force now d
          ≡ schedule_checked clerk account_id a spec run_at series_id ps d
    unfolding schedule
    schedule-some a ps e f = rw e (rw f refl)

    abbrev Settles : Type 0
    Settles =
        ((post : ScheduledPost) × IsBooked spec run_at force d post)
        ⊎ ((e : BookingError) × (schedule clerk account_id spec run_at series_id force now d
              ≡ (err e, d)))

    -- Either one post of the account is booked as it was asked for, or an error is raised and
    -- nothing has changed.
    pub schedule_settles :
        ((post : ScheduledPost) × IsBooked spec run_at force d post)
        ⊎ ((e : BookingError) × (schedule clerk account_id spec run_at series_id force now d
              ≡ (err e, d)))
    schedule_settles = elim (Option-cases (lookup account_id d.accounts)) [
      | inl e ↦ inr (unknown_account, schedule-none e)
      | inr (a, e) ↦ with_account a e (problems_of clerk d account_id a spec run_at force now) refl
    ]
      where
        with_account :
            (a : Account)
            → lookup account_id d.accounts ≡ some a
            → (ps : List BookingProblem)
            → problems_of clerk d account_id a spec run_at force now ≡ ps
            → Settles
        with_account a e [] f = inl (
          new_post clerk account_id a spec run_at series_id (clerk.mint d.drawn),
          record {
            account = a;
            is_known = e;
            is_clean = f;
            owner = refl;
            of_spec = refl;
            at_time = refl;
            of_series = refl;
            waits = refl;
            untried = refl;
            stands =
                lookup-book (new_post clerk account_id a spec run_at series_id (clerk.mint d.drawn))
                  d;
            outcome = schedule-some a [] e f;
          },
        )
        with_account a e (p ∷ ps) f = inr (refused (p ∷ ps), schedule-some a (p ∷ ps) e f)

  -- What a booking that returned has settled.
  pub schedule-IsBooked :
      (spec : PostSpec) (run_at : ℕ) (force : Bool) (d : Desk) (post : ScheduledPost)
      → (schedule clerk account_id spec run_at series_id force now d).0 ≡ ok post
      → IsBooked spec run_at force d post
  schedule-IsBooked spec run_at force d post h = elim (schedule_settles spec run_at force d) [
    | inl (q, b) ↦
        subst (IsBooked spec run_at force d) (ok_inj (sym (ap (λ x. x.0) b.outcome) ∙ h)) b
    | inr (e, f) ↦ absurd (err_ne_ok (sym (ap (λ x. x.0) f) ∙ h))
  ]
