-- ===== src/Auth/Accounts.antt =====
-- Addresses in src/clipforge/auth/service.py: signing up and verification.
pub mod Spending
use clipper_ai.Base.{
  ℕ, ◌+◌, ◌/◌, String, Bool, true, false, not, ◌&&◌, ◌||◌, Option, none, some, List, [], ◌∷◌, ◌==◌,
  if◌then◌else◌, ltb, eqb, length, any, seconds, Result, ok, err, pure, raise, is_some, ◌>>=◌, ◌>>◌,
}
use clipper_ai.Base.Dict.{lookup}
use clipper_ai.Base.Text.{◌⧺◌, decimal, text_or}
use clipper_ai.Auth.Types.{
  AuthError, invalid_email, invalid_link, invalid_credentials, not_found, password_unchanged,
  weak_password, Identity, IdentityStatus, pending, active, locked, is_pending, is_deleted,
  verified, TokenKind, email_verification, password_reset, same_kind, VerificationToken, usable,
  Session, EventKind, signup_started, signup_duplicate, email_verified, verification_resent,
  login_failed, password_reset_requested, password_reset_completed, password_changed,
}
use clipper_ai.Auth.Passwords.{Unicode, check_policy, verify_password, hash_password, has_point}
use clipper_ai.Auth.Store.{
  AuthStore, create_identity, identity_by_email, save_identity, sessions_for, invalidate_tokens,
  save_token, token_by_hash,
}
use clipper_ai.Auth.Core.{
  AuthService, Auth, World, read, update, draw, require, refuse, event, audit, send, limit,
  clear_limit, normalise_email, verification_email, reset_email, unexpected_signup_email,
  password_changed_email,
}
use clipper_ai.Auth.Revoking.{log_out_everywhere, revoke_some}
use clipper_ai.Auth.Login.{store_identity}

pub record SignUpResult : Type 0 where
  pub message : String
  pub created : Bool
  pub identity_id : String

-- How often a code point occurs.
abbrev pub occurrences : ℕ → List ℕ → ℕ
occurrences c [] = 0
occurrences c (d ∷ ds) = let n = occurrences c ds in if eqb c d then n + 1 else n

-- The parts of an address around its first `@`, the code point 64.
abbrev pub after_at : List ℕ → List ℕ
after_at [] = []
after_at (c ∷ cs) = let rest = after_at cs in if eqb c 64 then cs else rest

abbrev pub starts_at : ℕ → List ℕ → Bool
starts_at c [] = false
starts_at c (d ∷ ds) = eqb c d

abbrev pub ends_at : ℕ → List ℕ → Bool
ends_at c [] = false
ends_at c (d ∷ []) = eqb c d
ends_at c (d ∷ e ∷ ds) = ends_at c (e ∷ ds)

-- `_require_email_shape`: whether an address passes. With one `@` that is not the first character,
-- the local part is not empty.
unfoldable pub has_email_shape : List ℕ → Bool
has_email_shape address =
    eqb (occurrences 64 address) 1
    && (not (starts_at 64 address)
        && (not (ends_at 64 address)
            && (has_point 46 (after_at address)
                && (not (ends_at 46 (after_at address)) && not (ltb 320 (length address))))))

abbrev pub usable_token : TokenKind → ℕ → Option VerificationToken → Option VerificationToken
usable_token kind now none = none
usable_token kind now (some t) = if same_kind t.kind kind && usable now t then some t else none

abbrev pub spent_at : ℕ → VerificationToken → VerificationToken
spent_at now t = record t { used_at = some now }

-- What a verified address makes of an identity.
abbrev pub confirmed : ℕ → Identity → Identity
confirmed now i = record i {
  email_verified_at = some now;
  status = if is_pending i.status then active else i.status;
}

module _ (service : AuthService) where
  -- A token of a kind for an identity, with its earlier ones invalidated.
  unfoldable pub issue_token : TokenKind → ℕ → String → ℕ → String → Auth String
  issue_token kind ttl_s id now ip = do
    update (invalidate_tokens id kind now)
    raw ← draw service.opaque
    hex ← draw service.hex
    update (
        save_token (record {
          token_id = "tok_" ⧺ hex;
          identity_id = id;
          kind = kind;
          token_hash = service.hashing.sha256 raw;
          expires_at = now + seconds ttl_s;
          created_at = now;
          used_at = none;
          requested_ip = ip;
        }))
    pure raw

  -- `_issue_verification`
  unfoldable pub issue_verification : Identity → ℕ → String → Auth String
  issue_verification identity now ip = do
    raw ←
        issue_token email_verification service.config.verification_ttl_s identity.identity_id now ip
    send service now (
        verification_email identity.email (service.config.verification_url ⧺ "?token=" ⧺ raw)
          (service.config.verification_ttl_s / 3600))
    pure raw

  -- `_spend_token`
  unfoldable pub spend_token : String → TokenKind → ℕ → Auth VerificationToken
  spend_token token kind now = do
    if token == "" then raise invalid_link else pure tt
    found ← read (token_by_hash (service.hashing.sha256 token))
    held ← require invalid_link (usable_token kind now found)
    update (save_token (spent_at now held))
    pure (spent_at now held)

  abbrev pub new_identity : String → String → String → ℕ → Identity
  new_identity address hash hex now = record {
    identity_id = "idn_" ⧺ hex;
    email = address;
    password_hash = hash;
    password_algo = service.config.password_algorithm;
    status = pending;
    email_verified_at = none;
    failed_attempts = 0;
    locked_until = none;
    last_login_at = none;
    delete_after = none;
    created_at = now;
    updated_at = now;
  }

  abbrev pub created_in :
      World → Option (Identity × AuthStore) → Result AuthError (Option Identity) × World
  created_in w none = (ok none, w)
  created_in w (some (named, s)) = (ok (some named), record w { store = s })

  -- `create_identity`, with no answer where the address is taken
  unfoldable pub register_new : Identity → Auth (Option Identity)
  register_new identity w =
      created_in w (create_identity (normalise_email service.unicode) identity w.store)

  unfoldable pub welcome_new : String → ℕ → String → String → Option Identity → Auth SignUpResult
  welcome_new address now ip user_agent none = do
    audit (record (event signup_duplicate now) {
      email = address;
      ip = ip;
      user_agent = user_agent;
      succeeded = false;
      detail = "signup attempted for an existing address";
    })
    send service now (unexpected_signup_email address)
    pure (record { message = service.config.signup_message; created = false; identity_id = "" })
  welcome_new address now ip user_agent (some i) = do
    audit (record (event signup_started now) {
      identity_id = i.identity_id;
      email = address;
      ip = ip;
      user_agent = user_agent;
    })
    issue_verification i now ip
    pure (record {
      message = service.config.signup_message;
      created = true;
      identity_id = i.identity_id;
    })

  -- `sign_up`
  unfoldable pub sign_up : String → String → ℕ → String → String → Auth SignUpResult
  sign_up email password now ip user_agent = do
    let address = normalise_email service.unicode email
    if has_email_shape (service.unicode.code_points address) then pure tt else raise invalid_email
    limit service "signup" (text_or ip address) now ip address
    refuse weak_password (check_policy service.unicode service.policy password address)
    hex ← draw service.hex
    hash ← draw (λ salt. hash_password service.unicode service.hashing salt password)
    created ← register_new (new_identity address hash hex now)
    welcome_new address now ip user_agent created

  abbrev pub resend_to : ℕ → String → String → Option Identity → Auth (Unit {0})
  resend_to now ip address none = pure tt
  resend_to now ip address (some i) = if verified i then pure tt else do
    audit (record (event verification_resent now) {
      identity_id = i.identity_id;
      email = address;
      ip = ip;
    })
    issue_verification i now ip
    pure tt

  -- `resend_verification`
  unfoldable pub resend_verification : String → ℕ → String → Auth (Unit {0})
  resend_verification email now ip = do
    let address = normalise_email service.unicode email
    limit service "verify_resend" (text_or ip address) now ip address
    found ← read (identity_by_email (normalise_email service.unicode) address)
    resend_to now ip address found

  -- `verify_email`
  unfoldable pub verify_email : String → ℕ → String → Auth Identity
  verify_email token now ip = do
    limit service "verify" (text_or ip "anonymous") now ip ""
    held ← spend_token token email_verification now
    found ← read (λ (s : AuthStore). lookup held.identity_id s.identities)
    identity ← require invalid_link found
    after ← if verified identity then pure identity else store_identity now (confirmed now identity)
    audit (record (event email_verified now) {
      identity_id = after.identity_id;
      email = after.email;
      ip = ip;
    })
    pure after
