-- ===== src/Publish/Settling.antt =====
-- How a pass of src/clipforge/publish/engine.py ends badly: `_escalate`, `_handle_failure` and
-- `release`. `attempt` is the last of the post's attempts, so a change of it is a change of the last
-- element.
use clipper_ai.Base.{
  ℕ, ◌+◌, ◌-◌, Result, ok, err, String, Bool, false, Option, none, some, List, [], ◌∷◌, ◌++◌,
  if◌then◌else◌,
}
use clipper_ai.Base.Text.{decimal, ◌⧺◌}
use clipper_ai.Publish.Types.{
  PostState, uploading, retrying, failed, needs_attention, Attempt, ScheduledPost, attempt_count,
  Response,
}
use clipper_ai.Publish.Retry.{
  Wait, ahead, behind, unfit, Disposition, retry, reschedule, reconcile, reauth, fail, Decision,
  Outside, classify, exhausted,
}

pub record PublishResult : Type 0 where
  pub post_id : String
  pub state : PostState
  pub remote_post_id : String
  pub attempts : ℕ
  pub requests : ℕ
  pub disposition : String
  pub error : String
  pub draft : Bool

-- What a pass raises: `KeyError(f"unknown account {account_id!r}")`, and the error of `timedelta` or
-- of a date on a delay that it does not take.
pub data EngineError : Type 0 where
  unknown_account unfit_delay : EngineError

abbrev pub Pass : Type 0
Pass = Result EngineError PublishResult × ScheduledPost

-- `post.attempts[-1]`, changed in place
unfoldable pub change_last : (Attempt → Attempt) → List Attempt → List Attempt
change_last f [] = []
change_last f (a ∷ []) = f a ∷ []
change_last f (a ∷ b ∷ rest) = a ∷ change_last f (b ∷ rest)

abbrev pub change_attempt : (Attempt → Attempt) → ScheduledPost → ScheduledPost
change_attempt f p = record p { attempts = change_last f p.attempts }

-- `release`
abbrev pub release_post : ScheduledPost → ScheduledPost
release_post p = record p { lease_until = none }

-- `Attempt(number=post.attempt_count + 1, started_at=now)`, appended
abbrev pub start_attempt : ℕ → ScheduledPost → ScheduledPost
start_attempt now p = record p {
  attempts =
      p.attempts
      ++ record {
        number = attempt_count p + 1;
        started_at = now;
        finished_at = none;
        state = uploading;
        error_code = "";
        error_message = "";
        disposition = "";
        remote_ref = "";
      }
        ∷ [];
}

abbrev pub result_of :
    ScheduledPost → PostState → String → ℕ → String → String → Bool → PublishResult
result_of p state remote_post_id requests disposition message draft = record {
  post_id = p.post_id;
  state = state;
  remote_post_id = remote_post_id;
  attempts = attempt_count p;
  requests = requests;
  disposition = disposition;
  error = message;
  draft = draft;
}

-- `_escalate`
unfoldable pub escalate : String → ℕ → ScheduledPost → Pass
escalate reason now p =
    let q : ScheduledPost = record (release_post p) {
      state = needs_attention;
      last_error = reason;
      attempts =
          change_last
            (λ a. record a {
              finished_at = some now;
              state = needs_attention;
              error_message = reason;
            })
            p.attempts;
    } in
    (ok (result_of q needs_attention "" 0 "escalated" reason false), q)

-- `Disposition.value`
abbrev pub disposition_text : Disposition → String
disposition_text retry = "retry"
disposition_text reschedule = "reschedule"
disposition_text reconcile = "reconcile"
disposition_text reauth = "reauth"
disposition_text fail = "fail"

abbrev pub note_decision : ℕ → Decision → ScheduledPost → ScheduledPost
note_decision now d p = record (release_post p) {
  last_error = d.reason;
  attempts =
      change_last
        (λ a. record a {
          finished_at = some now;
          error_code = d.error_code;
          error_message = d.reason;
          disposition = disposition_text d.disposition;
        })
        p.attempts;
}

abbrev pub set_state : PostState → ScheduledPost → ScheduledPost
set_state s p = record p {
  state = s;
  attempts = change_last (λ a. record a { state = s }) p.attempts;
}

abbrev pub stop_post : PostState → ℕ → Decision → ScheduledPost → Pass
stop_post s requests d p =
    let q = set_state s p in
    (ok (result_of q s "" requests (disposition_text d.disposition) d.reason false), q)

abbrev pub give_up_reason : ScheduledPost → Decision → String
give_up_reason p d = "gave up after " ⧺ decimal (attempt_count p) ⧺ " attempts: " ⧺ d.reason

abbrev pub give_up : ℕ → Decision → ScheduledPost → Pass
give_up requests d p =
    let q : ScheduledPost = record (set_state failed p) { last_error = give_up_reason p d } in
    (ok (result_of q failed "" requests "exhausted" q.last_error false), q)

abbrev pub come_back_at : ℕ → ℕ → Decision → ScheduledPost → Pass
come_back_at moment requests d p =
    let q : ScheduledPost = record p { next_attempt_at = some moment } in
    (ok (result_of q retrying "" requests (disposition_text d.disposition) d.reason false), q)

-- `now + timedelta(seconds=…)`; an unfit delay raises when the states have been set
abbrev pub come_back_after : Wait → ℕ → ℕ → Decision → ScheduledPost → Pass
come_back_after (ahead n) now requests d p = come_back_at (now + n) requests d p
come_back_after (behind n) now requests d p = come_back_at (now - n) requests d p
come_back_after unfit now requests d p = (err unfit_delay, p)

abbrev pub come_back : ℕ → ℕ → Decision → ScheduledPost → Pass
come_back now requests d p = come_back_after d.delay now requests d (set_state retrying p)

-- The end of `_handle_failure`: give up after the last attempt, or come back later.
abbrev pub retry_post : ℕ → ℕ → Decision → ScheduledPost → Pass
retry_post now requests d p =
    if exhausted (attempt_count p) then give_up requests d p else come_back now requests d p

abbrev pub settle_failure : Disposition → ℕ → ℕ → Decision → ScheduledPost → Pass
settle_failure reauth now requests d p = stop_post needs_attention requests d p
settle_failure fail now requests d p = stop_post failed requests d p
settle_failure _ now requests d p = retry_post now requests d p

-- The call of `classify` in `_handle_failure`
abbrev pub decision : Outside → Option Response → ℕ → Bool → Bool → ScheduledPost → Decision
decision o response now in_flight timed_out p =
    classify o
      (record {
        attempt = attempt_count p;
        platform = p.platform;
        now = now;
        key = p.idempotency_key;
        timed_out = timed_out;
        already_in_flight = in_flight;
      })
      response

-- `_handle_failure`
unfoldable pub handle_failure :
    Outside → Option Response → ℕ → ℕ → Bool → Bool → ScheduledPost → Pass
handle_failure o response now requests in_flight timed_out p =
    let d = decision o response now in_flight timed_out p in
    settle_failure d.disposition now requests d (note_decision now d p)
