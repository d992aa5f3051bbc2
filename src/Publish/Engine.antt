-- ===== src/Publish/Engine.antt =====
-- `_run_post` of src/clipforge/publish/engine.py: one
-- pass of a post through its platform's state machine. The ways it ends badly are
-- in Publish/Settling. The adapter and the credentials are interfaces,
-- and the network is the parameter `send`: what comes back for the n-th request of the pass.
pub mod Outcomes
pub mod Failures
pub use clipper_ai.Publish.Settling.{
  EngineError, unknown_account, unfit_delay, come_back_at, come_back_after, PublishResult, Pass,
  change_attempt, release_post, start_attempt, result_of, disposition_text, note_decision,
  set_state, stop_post, give_up_reason, give_up, come_back, retry_post, settle_failure, decision,
}
unfoldable pub use clipper_ai.Publish.Settling.{change_last, escalate, handle_failure}
use clipper_ai.Base.{
  ℕ, zero, suc, ◌+◌, String, Bool, true, false, not, ◌&&◌, ◌||◌, Option, none, some, List, [], ◌∷◌,
  ◌++◌, ◌==◌, if◌then◌else◌, eqb, length, Result, ok, err, Exec,
}
use clipper_ai.Base.Dict.{Dict, lookup}
use clipper_ai.Base.Json.{
  Json, null, bool, num, str, arr, obj, nil, cons, Fields, end, field, get_field,
}
use clipper_ai.Base.Text.{decimal, ◌⧺◌}
use clipper_ai.Publish.Types.{
  PostState, uploading, processing, published, awaiting_creator, retrying, failed, needs_attention,
  Account, Attempt, PostSpec, ScheduledPost, attempt_count, Response, is_ok,
}
use clipper_ai.Publish.Retry.{
  Disposition, retry, reschedule, reconcile, reauth, fail, Decision, Outside, Failure, classify,
  exhausted,
}

pub data Action : Type 0 where
  request wait done error : Action

-- One move of a platform's state machine; the requests are the type `Request`.
pub record Step (Request : Type 0) : Type 0 where
  pub action : Action
  pub outgoing : Option Request
  pub remote_post_id : String
  pub error_code : String
  pub error_message : String
  pub context : Fields

-- What `adapter_for` gives; `poll_request` is there or not.
pub record Adapter (Request : Type 0) : Type 0 where
  pub begin : PostSpec → Account → ℕ → String → Step Request
  pub poll_request : Option (Fields → Request)
  pub advance : Fields → Response → Step Request

-- What `transport.send` does: it answers, raises `TimeoutError`, or raises `TransportError`.
pub data Reply : Type 0 where
  answer : Response → Reply
  timeout : Reply
  transport_error : String → Reply

-- What the engine asks of an account's tokens.
pub record Credentials : Type 0 where
  pub can_refresh : ℕ → Bool
  pub is_expired : ℕ → Bool
  pub needs_refresh : ℕ → Bool

-- What the refresher does: it renews, raises `ReauthRequired`, or raises `RefreshFailed`.
pub data Renewal : Type 0 where
  renewed : Renewal
  reauth_required : String → Renewal
  refresh_failed : Renewal

-- `bool(value)`
abbrev pub is_truthy : Option Json → Bool
is_truthy none = false
is_truthy (some null) = false
is_truthy (some (bool b)) = b
is_truthy (some (num n)) = not (eqb n 0)
is_truthy (some (str t)) = not (t == "")
is_truthy (some (arr nil)) = false
is_truthy (some (arr (cons _ _))) = true
is_truthy (some (obj end)) = false
is_truthy (some (obj (field _ _ _))) = true

-- The variables of the loop.
pub record Flight (Request : Type 0) : Type 0 where
  pub step : Step Request
  pub post : ScheduledPost
  pub requests : ℕ
  pub in_flight : Bool

-- The last line of `error`, as the platform's own shape
abbrev pub error_response : String → String → Response
error_response code message = record {
  status = 400;
  headers = [];
  body = field "error" (obj (field "code" (str code) (field "message" (str message) end))) end;
}

module _ {Request : Type 0} (o : Outside) (show : Json → String) (now max_requests : ℕ)
    (adapter : Adapter Request) (send : ℕ → Request → Reply) where
  -- The branch of `Action.DONE`
  abbrev pub finish_as : Bool → Flight Request → Pass
  finish_as drafted fl =
      let final = if drafted then awaiting_creator else published in
      let q : ScheduledPost = record (release_post fl.post) {
        state = final;
        remote_post_id = fl.step.remote_post_id;
        last_error =
            if drafted
            then "delivered to the creator's inbox as a draft — the post is not live until a human "
              ⧺ "finishes it in the app"
            else fl.post.last_error;
        attempts =
            change_last
              (λ a. record a {
                state = final;
                finished_at = some now;
                remote_ref = fl.step.remote_post_id;
              })
              fl.post.attempts;
      } in
      (ok (result_of q final fl.step.remote_post_id fl.requests "" "" drafted), q)

  abbrev pub finish : Flight Request → Pass
  finish fl = finish_as (is_truthy (get_field "draft" fl.step.context)) fl

  -- `context.get(a) or context.get(b) or context.get(c) or attempt.remote_ref`, as a text
  unfoldable pub remote_ref_from : List String → Fields → String → String
  remote_ref_from [] context old = old
  remote_ref_from (name ∷ names) context old = elim (get_field name context) [
    | none ↦ remote_ref_from names context old
    | some v ↦
        let rest = remote_ref_from names context old in if is_truthy (some v) then show v else rest
  ]

  abbrev pub note_reference : Fields → ScheduledPost → ScheduledPost
  note_reference context p =
      change_attempt
        (λ a. record a {
          remote_ref =
              remote_ref_from ("publish_id" ∷ "container_id" ∷ "session_uri" ∷ []) context
                a.remote_ref;
        })
        p

  -- A response: go on with `rest`, or fail.
  abbrev pub on_reply : (Flight Request → Pass) → Flight Request → Reply → Pass
  on_reply rest fl timeout = handle_failure o none now fl.requests fl.in_flight true fl.post
  on_reply rest fl (transport_error text) =
      handle_failure o none now fl.requests fl.in_flight false
        (record fl.post { last_error = text })
  on_reply rest fl (answer r) =
      if not (is_ok r) && not (eqb r.status 308)
      then handle_failure o (some r) now (fl.requests + 1) fl.in_flight false fl.post
      else rest (record {
        step = adapter.advance fl.step.context r;
        post = fl.post;
        requests = fl.requests + 1;
        in_flight = true;
      })

  abbrev pub send_request : (Flight Request → Pass) → Flight Request → Request → Pass
  send_request rest fl req =
      on_reply rest (record fl { post = note_reference fl.step.context fl.post })
        (send fl.requests req)

  abbrev pub on_wait : (Flight Request → Pass) → Flight Request → Option (Fields → Request) → Pass
  on_wait rest fl none = escalate "adapter cannot poll" now fl.post
  on_wait rest fl (some poll) =
      send_request rest
        (record fl { post = record fl.post { state = processing }; in_flight = true })
        (poll fl.step.context)

  abbrev pub on_request : (Flight Request → Pass) → Flight Request → Option Request → Pass
  on_request rest fl none = escalate "adapter produced no request" now fl.post
  on_request rest fl (some req) = send_request rest fl req

  -- One turn of the loop.
  abbrev pub on_action : (Flight Request → Pass) → Flight Request → Action → Pass
  on_action rest fl done = finish fl
  on_action rest fl error =
      handle_failure o (some (error_response fl.step.error_code fl.step.error_message)) now
        fl.requests fl.in_flight false fl.post
  on_action rest fl wait = on_wait rest fl adapter.poll_request
  on_action rest fl request = on_request rest fl fl.step.outgoing

  -- The loop, with the number of requests that are left.
  unfoldable pub run_steps : ℕ → Flight Request → Pass
  run_steps zero fl =
      escalate ("exceeded " ⧺ decimal max_requests ⧺ " requests without completing") now fl.post
  run_steps (suc left) fl = on_action (run_steps left) fl fl.step.action

  -- The pass, from the first call of the adapter on.
  abbrev pub begin_post : Account → ScheduledPost → Pass
  begin_post account p =
      let q : ScheduledPost = record (start_attempt now p) { state = uploading } in
      run_steps max_requests (record {
        step = adapter.begin q.spec account q.run_at q.idempotency_key;
        post = q;
        requests = 0;
        in_flight = false;
      })

  abbrev pub on_renewal : Account → Renewal → ScheduledPost → Pass
  on_renewal account renewed p = begin_post account p
  on_renewal account (reauth_required reason) p = escalate reason now p
  on_renewal account refresh_failed p =
      handle_failure o none now 0 false false (start_attempt now p)

  abbrev pub renew : Account → Credentials → Option (String → Renewal) → ScheduledPost → Pass
  renew account c none p = begin_post account p
  renew account c (some refresher) p =
      if c.needs_refresh now
      then on_renewal account (refresher p.account_id) p
      else begin_post account p

  abbrev pub check_credentials :
      Account → Option Credentials → Option (String → Renewal) → ScheduledPost → Pass
  check_credentials account none refresher p = escalate "no credentials stored" now p
  check_credentials account (some c) refresher p =
      if not (c.can_refresh now) && c.is_expired now
      then escalate "credentials expired and cannot be refreshed — the account must be reconnected"
          now p
      else renew account c refresher p

  abbrev pub on_account :
      Option Account → Option Credentials → Option (String → Renewal) → ScheduledPost → Pass
  on_account none tokens refresher p = (err unknown_account, p)
  on_account (some account) tokens refresher p = check_credentials account tokens refresher p

  -- `_run_post`
  unfoldable pub run_post :
      Dict Account
      → (String → Option Credentials)
      → Option (String → Renewal)
      → ScheduledPost
      → Pass
  run_post accounts tokens refresher p =
      on_account (lookup p.account_id accounts) (tokens p.account_id) refresher p
