-- ===== src/Publish/Engine/Failures.antt =====
-- What `_escalate` and `_handle_failure` leave behind.
use clipper_ai.Base.{
  ok, ℕ, suc, ◌+◌, ◌≤◌, ◌<◌, String, ◌≡◌, refl, Bool, true, false, Option, none, some, List, [],
  ◌∷◌, arith, length, Bool-cases, inl, inr, ap, subst,
}
use clipper_ai.Publish.Types.{
  PostState, published, awaiting_creator, retrying, failed, needs_attention, Attempt, ScheduledPost,
  attempt_count, Response,
}
use clipper_ai.Publish.Retry.{
  Wait, ahead, behind, unfit, Disposition, retry, reschedule, reconcile, reauth, fail, Decision,
  Outside, exhausted,
}
use clipper_ai.Publish.Retry.Laws.{IsAhead, IsHttp, IsAhead-classify}
use clipper_ai.Publish.Engine.{
  PublishResult, come_back_after, set_state, Pass, change_last, escalate, handle_failure,
  settle_failure, stop_post, give_up, retry_post, decision, note_decision,
}

pub length-change_last :
    (f : Attempt → Attempt) (l : List Attempt) → length (change_last f l) ≡ length l
unfolding change_last
length-change_last f [] = refl
length-change_last f (a ∷ []) = refl
length-change_last f (a ∷ b ∷ rest) = ap suc (length-change_last f (b ∷ rest))

-- Where a pass may leave a post.
abbrev pub is_settled : PostState → Bool
is_settled published = true
is_settled awaiting_creator = true
is_settled retrying = true
is_settled failed = true
is_settled needs_attention = true
is_settled _ = false

-- A post that is to come back has attempts left, and its time is set.
abbrev pub MayReturn : ℕ → PostState → ScheduledPost → Type 0
MayReturn now retrying p =
    (attempt_count p < 8) × ((t : ℕ) × (p.next_attempt_at ≡ some t) × (now ≤ t))
MayReturn now _ p = Unit

-- The end of a pass with `n` attempts on record.
pub record IsSettled (now n : ℕ) (r : Pass) : Type 0 where
  pub told : PublishResult
  pub returned : r.0 ≡ ok told
  pub same_state : told.state ≡ r.1.state
  pub settled : is_settled r.1.state ≡ true
  pub free : r.1.lease_until ≡ none
  pub counted : attempt_count r.1 ≡ n
  pub reported : told.attempts ≡ n
  pub returns : MayReturn now r.1.state r.1

pub escalate-IsSettled :
    (reason : String) (now : ℕ) (p : ScheduledPost)
    → IsSettled now (attempt_count p) (escalate reason now p)
unfolding escalate
escalate-IsSettled reason now p = record {
  told = _;
  returned = refl;
  same_state = refl;
  settled = refl;
  free = refl;
  counted = length-change_last _ p.attempts;
  reported = length-change_last _ p.attempts;
  returns = tt;
}

module _ (now requests : ℕ) (d : Decision) (p : ScheduledPost) (free : p.lease_until ≡ none) where
  stop_post-IsSettled :
      (s : PostState)
      → is_settled s ≡ true
      → MayReturn now s (stop_post s requests d p).1
      → IsSettled now (attempt_count p) (stop_post s requests d p)
  stop_post-IsSettled s h m = record {
    told = _;
    returned = refl;
    same_state = refl;
    settled = h;
    free = free;
    counted = length-change_last _ p.attempts;
    reported = length-change_last _ p.attempts;
    returns = m;
  }

  give_up-IsSettled : IsSettled now (attempt_count p) (give_up requests d p)
  give_up-IsSettled = record {
    told = _;
    returned = refl;
    same_state = refl;
    settled = refl;
    free = free;
    counted = length-change_last _ p.attempts;
    reported = length-change_last _ p.attempts;
    returns = tt;
  }

  come_back_after-IsSettled :
      (w : Wait)
      → IsAhead w
      → exhausted (attempt_count p) ≡ false
      → IsSettled now (attempt_count p) (come_back_after w now requests d (set_state retrying p))
  come_back_after-IsSettled (behind n) l h = absurd l
  come_back_after-IsSettled unfit l h = absurd l
  come_back_after-IsSettled (ahead n) l h = record {
    told = _;
    returned = refl;
    same_state = refl;
    settled = refl;
    free = free;
    counted = length-change_last _ p.attempts;
    reported = length-change_last _ p.attempts;
    returns = (
      ground (arith, length-change_last (λ a. record a { state = retrying }) p.attempts),
      (now + n, refl, omega arith),
    );
  }

  retry_post-IsSettled :
      IsAhead d.delay → IsSettled now (attempt_count p) (retry_post now requests d p)
  retry_post-IsSettled forward = elim (Bool-cases (exhausted (attempt_count p))) [
    | inl e ↦ rw e give_up-IsSettled
    | inr e ↦ rw e (come_back_after-IsSettled d.delay forward e)
  ]

  settle_failure-IsSettled :
      IsAhead d.delay
      → (k : Disposition) → IsSettled now (attempt_count p) (settle_failure k now requests d p)
  settle_failure-IsSettled forward reauth = stop_post-IsSettled needs_attention refl tt
  settle_failure-IsSettled forward fail = stop_post-IsSettled failed refl tt
  settle_failure-IsSettled forward retry = retry_post-IsSettled forward
  settle_failure-IsSettled forward reschedule = retry_post-IsSettled forward
  settle_failure-IsSettled forward reconcile = retry_post-IsSettled forward

pub handle_failure-IsSettled :
    (o : Outside) (http : IsHttp o) (response : Option Response) (now requests : ℕ)
    (in_flight timed_out : Bool) (p : ScheduledPost)
    → IsSettled now (attempt_count p) (handle_failure o response now requests in_flight timed_out p)
unfolding handle_failure
handle_failure-IsSettled o http response now requests in_flight timed_out p =
    let d = decision o response now in_flight timed_out p in
    subst
      (λ (n : ℕ).
        IsSettled now n (settle_failure d.disposition now requests d (note_decision now d p)))
      (length-change_last _ p.attempts)
      (settle_failure-IsSettled now requests d (note_decision now d p) refl
        (IsAhead-classify o _ http response) d.disposition)
