-- ===== src/Publish/Calendar/Due.antt =====
-- Which posts are due, and what a claim makes of them.
use clipper_ai.Base.{
  ℕ, ◌+◌, ◌≤◌, ◌≡◌, refl, not, arith, leb, seconds, All, All-map, All-of_Occurs, take, filter, max,
  length, length-map, length-take,
}
use clipper_ai.Publish.Types.{ScheduledPost}
use clipper_ai.Publish.Calendar.{Calendar, is_due, due, claim_due, lease_post, is_leased}

-- A claim takes at most its limit, or one post if its limit is zero; and a post that it
-- takes is due again at an instant exactly if the lease has run out by then.
pub claim_due_leases :
    (now lease_s limit : ℕ) (c : Calendar)
    → (length (claim_due now lease_s limit c) ≤ max 1 limit)
      × All
          (λ q. (moment : ℕ) → is_due moment q ≡ leb (now + seconds lease_s) moment)
          (claim_due now lease_s limit c)
unfolding claim_due
claim_due_leases now lease_s limit c =
    let ready = filter (λ (p : ScheduledPost). not (is_leased p.lease_until now)) (due now c) in
    (
      omega (
        arith,
        length-map (lease_post now lease_s) (take (max 1 limit) ready),
        length-take (max 1 limit) ready,
      ),
      All-map _ (lease_post now lease_s) (take (max 1 limit) ready)
          (All-of_Occurs _ (take (max 1 limit) ready) (λ p m moment. refl)),
    )
