-- ===== src/Publish/Retry.antt =====
-- src/clipforge/publish/retry.py. Durations are microseconds. The digest of a key, the time to the
-- next midnight in Los Angeles and Python's `float` of a text are arguments (Outside).
pub mod Laws
pub use clipper_ai.Publish.Codes.{
  permanent_codes, auth_codes, quota_codes, text_but, text_of, first_reason, or_else, text_or_empty,
  envelope_code, envelope_message,
}
unfoldable pub use clipper_ai.Publish.Codes.{
  is_permanent, is_auth, is_quota, first_text, extract_code, extract_message,
}
use clipper_ai.Base.{
  ℕ, ◌+◌, ◌-◌, ◌*◌, ◌/◌, ◌^◌, min, max, seconds, String, Bool, true, false, not, ◌&&◌, ◌||◌, Option,
  none, some, List, [], ◌∷◌, ◌==◌, if◌then◌else◌, leb, ltb, eqb, contains,
}
use clipper_ai.Base.Dict.{Dict, lookup}
use clipper_ai.Base.Text.{decimal, ◌⧺◌, text_or}
use clipper_ai.Publish.Types.{Platform, youtube, tiktok, instagram, Response}

pub data Disposition : Type 0 where
  retry reschedule reconcile reauth fail : Disposition

-- A duration that is added to an instant, as Python's `float` of a text gives it: not before it,
-- before it, or one that `timedelta` or the date does not take, such as `inf` and `nan`.
pub data Wait : Type 0 where
  ahead behind : ℕ → Wait
  unfit : Wait

pub record Decision : Type 0 where
  pub disposition : Disposition
  -- `delay_s`
  pub delay : Wait
  pub reason : String
  pub error_code : String
  pub unsafe_to_repeat : Bool

-- `retryable`
abbrev pub retryable : Disposition → Bool
retryable retry = true
retryable reschedule = true
retryable _ = false

abbrev pub max_attempts : ℕ
max_attempts = 8

abbrev pub base_backoff : ℕ
base_backoff = seconds 20

abbrev pub max_backoff : ℕ
max_backoff = seconds (30 * 60)

pub record Outside : Type 0 where
  -- `blake2b(f"{key}|{attempt}", digest_size=4)` as a number
  pub digest : String → ℕ → ℕ
  pub pacific_midnight : ℕ → ℕ
  -- `float(value)`, if the text is a number, in microseconds
  pub float_of : String → Option Wait

-- The nominal delay of `backoff_delay`
unfoldable pub backoff_nominal : ℕ → ℕ
backoff_nominal attempt = min (base_backoff * 2 ^ (attempt - 1)) max_backoff

-- `backoff_delay`: `raw * (1 + 0.25 * (2 * unit - 1))` where `unit` is the digest over `2 ^ 32`
unfoldable pub backoff_delay : Outside → ℕ → String → ℕ
backoff_delay o attempt key =
    let raw = backoff_nominal attempt in
    if key == "" then raw else (raw - raw / 4) + raw * o.digest key attempt / 2 ^ 33

-- `_quota_reset_delay`
unfoldable pub quota_reset_delay : Outside → ℕ → Platform → ℕ
quota_reset_delay o now youtube = max (seconds 60) (o.pacific_midnight now)
quota_reset_delay o now _ = seconds 3600

abbrev pub header_delay : Outside → Option String → Option Wait
header_delay o none = none
header_delay o (some t) = if t == "" then none else o.float_of t

abbrev pub or_delay : Option Wait → Option Wait → Option Wait
or_delay none b = b
or_delay (some n) b = some n

-- `_retry_after`
unfoldable pub retry_after : Outside → Response → Option Wait
retry_after o r =
    or_delay (header_delay o (lookup "Retry-After" r.headers))
      (header_delay o (lookup "retry-after" r.headers))

-- `a or b` on texts
abbrev pub retry_decision : ℕ → String → String → Decision
retry_decision delay reason error_code = record {
  disposition = retry;
  delay = ahead delay;
  reason = reason;
  error_code = error_code;
  unsafe_to_repeat = false;
}

abbrev pub reconcile_decision : ℕ → String → String → Decision
reconcile_decision delay reason error_code = record {
  disposition = reconcile;
  delay = ahead delay;
  reason = reason;
  error_code = error_code;
  unsafe_to_repeat = true;
}

abbrev pub fail_decision : String → String → Decision
fail_decision reason error_code = record {
  disposition = fail;
  delay = ahead 0;
  reason = reason;
  error_code = error_code;
  unsafe_to_repeat = false;
}

-- What `classify` knows of a failed attempt besides the response.
pub record Failure : Type 0 where
  pub attempt : ℕ
  pub platform : Platform
  pub now : ℕ
  pub key : String
  pub timed_out : Bool
  pub already_in_flight : Bool

abbrev pub rate_delay : Outside → Failure → String → Option Wait → Wait
rate_delay o f code (some delay) = delay
rate_delay o f code none = ahead (
    if is_quota code then quota_reset_delay o f.now f.platform else backoff_delay o f.attempt f.key)

abbrev pub http_code : ℕ → String
http_code status = "http_" ⧺ decimal status

-- The server errors, and what is left over.
abbrev pub classify_server : Outside → Failure → ℕ → String → Decision
classify_server o f status code =
    if leb 500 status || eqb status 408 || eqb status 425
    then if f.already_in_flight && leb 500 status
      then reconcile_decision (seconds 30)
          ("platform returned "
            ⧺ decimal status
            ⧺ " after being asked to create the post — the outcome is unknown, so reconcile")
          (text_or code (http_code status))
      else retry_decision (backoff_delay o f.attempt f.key)
          ("platform error " ⧺ decimal status ⧺ " — transient") (text_or code (http_code status))
    else retry_decision (backoff_delay o f.attempt f.key)
        ("unclassified response " ⧺ decimal status) (text_or code (http_code status))

-- `400 <= status < 500 and status not in (408, 409, 425, 429)`
abbrev pub is_rejection : ℕ → Bool
is_rejection status =
    leb 400 status
    && ltb status 500
    && not (eqb status 408 || eqb status 409 || eqb status 425 || eqb status 429)

-- The rest of `classify`, for a response that is about neither credentials nor a budget.
unfoldable pub classify_status : Outside → Failure → ℕ → String → String → Decision
classify_status o f status code message =
    if is_permanent code
    then fail_decision (code ⧺ ": " ⧺ text_or message "permanently rejected") code
    else if eqb status 403
    then fail_decision ("forbidden (" ⧺ text_or code "no code" ⧺ "): " ⧺ message)
        (text_or code "forbidden")
    else if is_rejection status
    then fail_decision
        ("rejected with " ⧺ decimal status ⧺ " (" ⧺ text_or code "no code" ⧺ "): " ⧺ message)
        (text_or code (http_code status))
    else if eqb status 409
    then reconcile_decision (seconds 15) "conflict — the platform may already hold this post"
        (text_or code "conflict")
    else classify_server o f status code

unfoldable pub classify_response : Outside → Failure → Response → Decision
classify_response o f r =
    let code = extract_code r in
    if is_auth code || eqb r.status 401
    then record {
      disposition = reauth;
      delay = ahead 0;
      reason =
          "credentials rejected ("
          ⧺ text_or code (decimal r.status)
          ⧺ ") — the account must be reconnected; retrying cannot fix this";
      error_code = text_or code "unauthorized";
      unsafe_to_repeat = false;
    }
    else if is_quota code || eqb r.status 429
    then record {
      disposition = reschedule;
      delay = rate_delay o f code (retry_after o r);
      reason =
          "rate limited or out of quota ("
          ⧺ text_or code (decimal r.status)
          ⧺ ") — moved to the next window rather than retried, because backing off inside an "
          ⧺ "exhausted budget accomplishes nothing";
      error_code = text_or code "rate_limited";
      unsafe_to_repeat = false;
    }
    else classify_status o f r.status code (extract_message r)

abbrev pub classify_reply : Outside → Failure → Option Response → Decision
classify_reply o f none =
    retry_decision (backoff_delay o f.attempt f.key) "no response — network or DNS failure"
      "no_response"
classify_reply o f (some r) = classify_response o f r

unfoldable pub classify : Outside → Failure → Option Response → Decision
classify o f response =
    if f.timed_out
    then if f.already_in_flight
      then reconcile_decision (seconds 30)
          ("request timed out after the platform may have accepted the post — check what exists "
            ⧺ "before sending anything else")
          "timeout_in_flight"
      else retry_decision (backoff_delay o f.attempt f.key)
          "request timed out before the platform was told anything" "timeout"
    else classify_reply o f response

-- `exhausted`
abbrev pub exhausted : ℕ → Bool
exhausted attempt = leb max_attempts attempt
