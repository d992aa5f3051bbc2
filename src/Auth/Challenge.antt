-- ===== src/Auth/Challenge.antt =====
-- The second step of a login: `_issue_challenge`, `_spend_second_factor` and `complete_mfa` of
-- src/clipforge/auth/mfa.py.
use clipper_ai.Base.{
  ℕ, ◌+◌, String, Bool, true, false, not, ◌&&◌, Option, none, some, List, [], ◌∷◌, ◌++◌, ◌==◌,
  if◌then◌else◌, ltb, any, seconds, pure, is_some, ◌>>=◌, ◌>>◌,
}
use clipper_ai.Base.Dict.{lookup}
use clipper_ai.Base.Text.{◌⧺◌, decimal, text_take, text_or}
use clipper_ai.Auth.Types.{
  invalid_code, invalid_challenge, Identity, verified, can_log_in, Membership, MfaFactor, MfaKind,
  totp, webauthn, recovery, is_totp, RecoveryCode, spent, VerificationToken, mfa_challenge, usable,
  same_kind, TokenPair, mfa_challenged, mfa_failed, mfa_recovery_used, mfa_succeeded,
  login_succeeded,
}
use clipper_ai.Auth.Totp.{verify_totp}
use clipper_ai.Auth.Passwords.{same_token}
use clipper_ai.Auth.Store.{
  AuthStore, find, memberships, save_factor, recovery_codes_for, save_recovery_code,
  invalidate_tokens, save_token, token_by_hash,
}
use clipper_ai.Auth.Core.{
  AuthService, Auth, read, update, draw, require, event, audit, limit, recovery_code_used_email,
}
use clipper_ai.Auth.Sessions.{choose_membership, answer, start_session}
use clipper_ai.Auth.Mfa.{
  challenge_ttl_s, active_factors, recovery_codes_remaining, send_safely, MfaChallenge,
}

pub record LoginResult : Type 0 where
  pub tokens : Option TokenPair
  pub identity : Identity
  pub joined : List Membership
  pub unverified : Bool
  pub mfa : Option MfaChallenge

abbrev pub is_webauthn : MfaKind → Bool
is_webauthn webauthn = true
is_webauthn _ = false

abbrev pub is_recovery : MfaKind → Bool
is_recovery recovery = true
is_recovery _ = false

abbrev pub only_if : Bool → MfaKind → List MfaKind
only_if true k = k ∷ []
only_if false k = []

-- `sorted({f.kind.value for f in …})`
abbrev pub kinds_of : List MfaFactor → List MfaKind
kinds_of fs =
    only_if (any (λ (f : MfaFactor). is_recovery f.kind) fs) recovery
    ++ (only_if (any (λ (f : MfaFactor). is_totp f.kind) fs) totp
        ++ only_if (any (λ (f : MfaFactor). is_webauthn f.kind) fs) webauthn)

-- A token that was issued for the challenge and may still be spent.
abbrev pub usable_challenge : ℕ → Option VerificationToken → Option VerificationToken
usable_challenge now none = none
usable_challenge now (some t) =
    if same_kind t.kind mfa_challenge && usable now t then some t else none

abbrev pub able_identity : Option Identity → Option Identity
able_identity none = none
able_identity (some i) = if can_log_in i.status then some i else none

abbrev pub detail_of : Bool → String
detail_of true = "recovery code"
detail_of false = "totp"

abbrev pub used_factor : ℕ → ℕ → MfaFactor → MfaFactor
used_factor counter now f = record f { last_counter = some counter; last_used_at = some now }

module _ (service : AuthService) where
  -- `_issue_challenge`
  unfoldable pub issue_challenge : Identity → ℕ → String → Auth MfaChallenge
  issue_challenge identity now ip = do
    raw ← draw service.opaque
    update (invalidate_tokens identity.identity_id mfa_challenge now)
    hex ← draw service.hex
    update (
        save_token (record {
          token_id = "tok_" ⧺ hex;
          identity_id = identity.identity_id;
          kind = mfa_challenge;
          token_hash = service.hashing.sha256 raw;
          expires_at = now + seconds challenge_ttl_s;
          created_at = now;
          used_at = none;
          requested_ip = ip;
        }))
    audit (record (event mfa_challenged now) {
      identity_id = identity.identity_id;
      email = identity.email;
      ip = ip;
    })
    factors ← read (active_factors identity.identity_id)
    left ← read (recovery_codes_remaining identity.identity_id)
    pure (record {
      challenge_token = raw;
      identity_id = identity.identity_id;
      expires_at = now + seconds challenge_ttl_s;
      kinds = kinds_of factors;
      recovery_available = ltb 0 left;
    })

  -- The counter that a code has on a factor, if it may be spent there.
  abbrev pub factor_counter : String → ℕ → MfaFactor → Option ℕ
  factor_counter code now f =
      if is_totp f.kind
      then verify_totp service.mac service.normalise_code service.config.totp_config f.secret code
          now f.last_counter
      else none

  -- The first factor of the loop that takes the code, with the counter.
  abbrev pub accepting : String → ℕ → List MfaFactor → Option (MfaFactor × ℕ)
  accepting code now [] = none
  accepting code now (f ∷ fs) =
      first_accepting f (factor_counter code now f) (accepting code now fs)
    where
      first_accepting : MfaFactor → Option ℕ → Option (MfaFactor × ℕ) → Option (MfaFactor × ℕ)
      first_accepting f none later = later
      first_accepting f (some counter) later = some (f, counter)

  abbrev pub is_presented : String → RecoveryCode → Bool
  is_presented presented c =
      not (spent c) && same_token service.unicode service.hashing presented c.code_hash

  -- The end of `_spend_second_factor`, for the recovery code that was found.
  unfoldable pub spend_recovery : Identity → ℕ → String → Option RecoveryCode → Auth (Option Bool)
  spend_recovery identity now ip none = pure none
  spend_recovery identity now ip (some c) = do
    update (save_recovery_code (record c { used_at = some now; used_ip = ip }))
    left ← read (recovery_codes_remaining identity.identity_id)
    audit (record (event mfa_recovery_used now) {
      identity_id = identity.identity_id;
      email = identity.email;
      ip = ip;
      detail = decimal left ⧺ " recovery codes left";
    })
    send_safely service now recovery_code_used_email (some identity)
    pure (some true)

  unfoldable pub spend_found :
      Identity → String → ℕ → String → Option (MfaFactor × ℕ) → Auth (Option Bool)
  spend_found identity code now ip (some (f, counter)) = do
    update (save_factor (used_factor counter now f))
    pure (some false)
  spend_found identity code now ip none =
      let presented = service.normalise_recovery_code code in
      if presented == "" then pure none else do
        held ← read (recovery_codes_for identity.identity_id)
        spend_recovery identity now ip (find (is_presented presented) held)

  -- `_spend_second_factor`: whether it was a recovery code, if anything matched
  unfoldable pub spend_second_factor : Identity → String → ℕ → String → Auth (Option Bool)
  spend_second_factor identity code now ip = do
    factors ← read (active_factors identity.identity_id)
    spend_found identity code now ip (accepting code now factors)

  -- The end of `complete_mfa`, once a factor has been spent.
  unfoldable pub open_session :
      VerificationToken → Identity → Bool → String → ℕ → String → String → String → Auth LoginResult
  open_session token identity used_recovery tenant_id now ip user_agent device_id = do
    update (save_token (record token { used_at = some now }))
    joined ← read (memberships identity.identity_id)
    chosen ← answer (choose_membership joined tenant_id)
    tokens ← start_session service identity chosen now ip user_agent device_id true
    audit (record (event mfa_succeeded now) {
      identity_id = identity.identity_id;
      email = identity.email;
      ip = ip;
      tenant_id = tokens.tenant_id;
      session_id = tokens.session_id;
      detail = detail_of used_recovery;
    })
    audit (record (event login_succeeded now) {
      identity_id = identity.identity_id;
      email = identity.email;
      ip = ip;
      user_agent = user_agent;
      tenant_id = tokens.tenant_id;
      session_id = tokens.session_id;
    })
    pure (record {
      tokens = some tokens;
      identity = identity;
      joined = joined;
      unverified = not (verified identity);
      mfa = none;
    })

  -- `complete_mfa`
  unfoldable pub complete_mfa :
      String → String → String → ℕ → String → String → String → Auth LoginResult
  complete_mfa challenge_token code tenant_id now ip user_agent device_id = do
    limit service "mfa_verify" (text_or ip (text_take 16 challenge_token)) now ip ""
    found ← read (token_by_hash (service.hashing.sha256 challenge_token))
    token ← require invalid_challenge (usable_challenge now found)
    owner ← read (λ (s : AuthStore). lookup token.identity_id s.identities)
    identity ← require invalid_challenge (able_identity owner)
    used ← spend_second_factor identity code now ip
    if is_some used
        then pure tt
        else audit (record (event mfa_failed now) {
          identity_id = identity.identity_id;
          email = identity.email;
          ip = ip;
          succeeded = false;
          detail = "second factor did not match";
        })
    used_recovery ← require invalid_code used
    open_session token identity used_recovery tenant_id now ip user_agent device_id
