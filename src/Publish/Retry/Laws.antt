-- ===== src/Publish/Retry/Laws.antt =====
-- What the decisions of `classify` promise.
use clipper_ai.Base.{
  ℕ, ◌-◌, ◌^◌, ◌≤◌, ◌<◌, ◌≡◌, ◌≢◌, String, Bool, true, false, Option, none, some, arith, seconds,
  inl, inr, ◌⊎◌, ◌||◌, eqb, sym, subst, Bool-cases, ◌==◌,
}
use native.Mathlib.Nat.{one-le-pow, mul-le-mul_left}
use clipper_ai.Base.Dict.{lookup}
use clipper_ai.Publish.Types.{Response}
use clipper_ai.Publish.Retry.{
  is_auth, is_quota, is_permanent, Decision, Wait, ahead, behind, unfit, Disposition, retry,
  reconcile, Failure, Outside, classify, classify_response, classify_status, header_delay, or_delay,
  retry_after, rate_delay, extract_code, extract_message, backoff_delay, backoff_nominal,
}

abbrev pub is_reconcile : Disposition → Bool
is_reconcile reconcile = true
is_reconcile _ = false

-- The wait is at least a quarter of a minute and at most thirty-seven and a half minutes.
abbrev pub IsPaced : Wait → Type 0
IsPaced (ahead n) = (seconds 15 ≤ n) × (n ≤ seconds 2250)
IsPaced (behind n) = ⊥
IsPaced unfit = ⊥

module _ (o : Outside) (f : Failure) where
  IsMarked-status :
      (status : ℕ) (code message : String)
      → let d = classify_status o f status code message in
        d.unsafe_to_repeat ≡ is_reconcile d.disposition
  unfolding classify_status
  IsMarked-status status code message = ground arith

  IsMarked-response :
      (r : Response)
      → let d = classify_response o f r in d.unsafe_to_repeat ≡ is_reconcile d.disposition
  unfolding classify_response
  IsMarked-response r =
      ground (arith, IsMarked-status r.status (extract_code r) (extract_message r))

  -- A decision forbids to send the post again unchecked exactly if it is to reconcile.
  pub unsafe_iff_reconcile :
      (response : Option Response)
      → let d = classify o f response in d.unsafe_to_repeat ≡ is_reconcile d.disposition
  unfolding classify
  unsafe_iff_reconcile none = ground arith
  unsafe_iff_reconcile (some r) = ground (arith, IsMarked-response r)

  -- The attempt asked the platform to create the post, and nobody knows whether it did.
  abbrev pub IsAmbiguous : Option Response → Type 0
  IsAmbiguous none = f.timed_out ≡ true
  IsAmbiguous (some r) = (f.timed_out ≡ true) ⊎ (500 ≤ r.status)

  -- The code says that the credentials, a budget or the post itself is at fault.
  abbrev pub names_cause : String → Bool
  names_cause code = is_auth code || is_quota code || is_permanent code

  -- The decision is to reconcile, and marked as unsafe to repeat; or a code that names a cause was
  -- given, and it is not to retry.
  abbrev pub IsGuarded : String → Decision → Type 0
  IsGuarded code d =
      ((d.disposition ≡ reconcile) × (d.unsafe_to_repeat ≡ true))
      ⊎ ((names_cause code ≡ true) × (d.disposition ≢ retry))

  abbrev pub code_of : Option Response → String
  code_of none = ""
  code_of (some r) = extract_code r

  server-Settles :
      (status : ℕ) (code message : String)
      → f.already_in_flight ≡ true
      → 500 ≤ status
      → IsGuarded code (classify_status o f status code message)
  unfolding classify_status
  server-Settles status code message h l = elim (Bool-cases (is_permanent code)) [
    | inl e ↦ inr (ground (arith, e), rw e (λ same. ground (arith, same)))
    | inr e ↦ inl (ground (arith, h, l, e))
  ]

  response-Settles :
      (r : Response)
      → f.already_in_flight ≡ true
      → 500 ≤ r.status
      → IsGuarded (extract_code r) (classify_response o f r)
  unfolding classify_response
  response-Settles r h l =
      let code = extract_code r in
      let other : eqb r.status 401 ≡ false = ground (arith, l) in
      let another : eqb r.status 429 ≡ false = ground (arith, l) in
      let settled = server-Settles r.status code (extract_message r) h l in
      elim (Bool-cases (is_auth code)) [
        | inl e ↦ inr (ground (arith, e), rw e (λ same. ground (arith, same)))
        | inr e ↦ elim (Bool-cases (is_quota code)) [
          | inl q ↦ inr (ground (arith, q), rw e (rw other (rw q (λ same. ground (arith, same)))))
          | inr q ↦ rw e (rw other (rw q (rw another (rw q at rw e at settled))))
        ]
      ]

  classify-answered :
      (r : Response) → f.timed_out ≡ false → classify o f (some r) ≡ classify_response o f r
  unfolding classify
  classify-answered r t = simp t

  -- Once the platform has been told to create the post, an attempt that timed out or got a server
  -- error is to be reconciled and is marked as unsafe to repeat, unless the response's code names
  -- the credentials, a budget or the post as the cause; it is not to be retried even then.
  pub no_blind_retry :
      (response : Option Response)
      → f.already_in_flight ≡ true
      → IsAmbiguous response
      → IsGuarded (code_of response) (classify o f response)
  unfolding classify
  no_blind_retry none h t = inl (ground arith)
  no_blind_retry (some r) h (inl t) = inl (ground arith)
  no_blind_retry (some r) h (inr l) = elim (Bool-cases f.timed_out) [
    | inl t ↦ inl (ground (arith, t, h))
    | inr t ↦
        subst (IsGuarded (extract_code r)) (sym (classify-answered r t)) (response-Settles r h l)
  ]

  -- A digest has four bytes.
  abbrev pub IsDigest : Type 0
  IsDigest = (key : String) (attempt : ℕ) → o.digest key attempt < 2 ^ 32

  nominal_bounds :
      (attempt : ℕ)
      → (seconds 20 ≤ backoff_nominal attempt) × (backoff_nominal attempt ≤ seconds 1800)
  unfolding backoff_nominal
  nominal_bounds attempt = omega (arith, one-le-pow (attempt - 1) 2 (omega arith))

  delay_bounds :
      IsDigest
      → (attempt : ℕ) (key : String)
      → (seconds 15 ≤ backoff_delay o attempt key) × (backoff_delay o attempt key ≤ seconds 2250)
  unfolding backoff_delay
  delay_bounds d attempt key =
      let raw = backoff_nominal attempt in
      let small : o.digest key attempt ≤ 2 ^ 32 = omega (arith, d key attempt) in
      let product = mul-le-mul_left raw small in ground (arith, nominal_bounds attempt, product)

  status-IsPaced :
      IsDigest
      → (status : ℕ) (code message : String)
      → (classify_status o f status code message).disposition ≡ retry
      → IsPaced (classify_status o f status code message).delay
  unfolding classify_status
  status-IsPaced d status code message e = ground (arith, delay_bounds d f.attempt f.key)

  response-IsPaced :
      IsDigest
      → (r : Response) → (classify_response o f r).disposition ≡ retry
      → IsPaced (classify_response o f r).delay
  unfolding classify_response
  response-IsPaced d r e =
      ground (arith, status-IsPaced d r.status (extract_code r) (extract_message r))

  -- Every retry waits at least a quarter of a minute and at most thirty-seven and a half minutes,
  -- whatever the digest of the post's key is.
  pub retry-IsPaced :
      IsDigest
      → (response : Option Response) → (classify o f response).disposition ≡ retry
      → IsPaced (classify o f response).delay
  unfolding classify
  retry-IsPaced d none e = ground (arith, delay_bounds d f.attempt f.key)
  retry-IsPaced d (some r) e = ground (arith, delay_bounds d f.attempt f.key, response-IsPaced d r)

-- The wait goes forward.
abbrev pub IsAhead : Wait → Type 0
IsAhead (ahead n) = Unit
IsAhead (behind n) = ⊥
IsAhead unfit = ⊥

abbrev pub IsAheadOption : Option Wait → Type 0
IsAheadOption none = Unit
IsAheadOption (some w) = IsAhead w

module _ (o : Outside) where
  -- HTTP's `Retry-After` is a number of seconds that is not negative, or a date, which `float`
  -- does not read.
  abbrev pub IsHttp : Type 0
  IsHttp = (text : String) → IsAheadOption (o.float_of text)

  IsAhead-header_delay : IsHttp → (t : Option String) → IsAheadOption (header_delay o t)
  IsAhead-header_delay h none = tt
  IsAhead-header_delay h (some t) = elim (Bool-cases (t == "")) [
    | inl e ↦ rw e tt
    | inr e ↦ rw e (h t)
  ]

  IsAhead-or_delay :
      (a b : Option Wait) → IsAheadOption a → IsAheadOption b → IsAheadOption (or_delay a b)
  IsAhead-or_delay none b h k = k
  IsAhead-or_delay (some w) b h k = h

  IsAhead-retry_after : IsHttp → (r : Response) → IsAheadOption (retry_after o r)
  unfolding retry_after
  IsAhead-retry_after h r =
      IsAhead-or_delay _ _ (IsAhead-header_delay h (lookup "Retry-After" r.headers))
        (IsAhead-header_delay h (lookup "retry-after" r.headers))

  module _ (f : Failure) where
    IsAhead-rate_delay :
        (code : String) (w : Option Wait) → IsAheadOption w → IsAhead (rate_delay o f code w)
    IsAhead-rate_delay code none h = tt
    IsAhead-rate_delay code (some w) h = h

    IsAhead-status :
        (status : ℕ) (code message : String)
        → IsAhead (classify_status o f status code message).delay
    unfolding classify_status
    IsAhead-status status code message = ground arith

    IsAhead-response : IsHttp → (r : Response) → IsAhead (classify_response o f r).delay
    unfolding classify_response
    IsAhead-response h r = ground (
      arith,
      IsAhead-rate_delay (extract_code r) (retry_after o r) (IsAhead-retry_after h r),
      IsAhead-status r.status (extract_code r) (extract_message r),
    )

    -- Every wait that is decided goes forward.
    pub IsAhead-classify :
        IsHttp → (response : Option Response) → IsAhead (classify o f response).delay
    unfolding classify
    IsAhead-classify h none = ground arith
    IsAhead-classify h (some r) = ground (arith, IsAhead-response h r)
