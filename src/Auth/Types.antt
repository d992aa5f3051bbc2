-- ===== src/Auth/Types.antt =====
-- src/clipforge/auth/types.py and the settings of config.py. Instants are microseconds, and a
-- length of time whose name ends in `_s` is in seconds.
use clipper_ai.Base.{ℕ, String, Bool, true, false, not, ◌&&◌, Option, none, some, ltb, is_some}
use clipper_ai.Base.Dict.{Dict}
use clipper_ai.Auth.Totp.{TotpConfig}
use clipper_ai.Auth.Passwords.{WeakPassword}

pub data IdentityStatus : Type 0 where
  pending active locked pending_deletion deleted : IdentityStatus

abbrev pub can_log_in : IdentityStatus → Bool
can_log_in pending = true
can_log_in active = true
can_log_in _ = false

abbrev pub is_pending : IdentityStatus → Bool
is_pending pending = true
is_pending _ = false

abbrev pub is_pending_deletion : IdentityStatus → Bool
is_pending_deletion pending_deletion = true
is_pending_deletion _ = false

abbrev pub is_deleted : IdentityStatus → Bool
is_deleted deleted = true
is_deleted _ = false

pub data TokenKind : Type 0 where
  email_verification password_reset mfa_challenge : TokenKind

abbrev pub same_kind : TokenKind → TokenKind → Bool
same_kind email_verification email_verification = true
same_kind password_reset password_reset = true
same_kind mfa_challenge mfa_challenge = true
same_kind _ _ = false

pub data MfaKind : Type 0 where
  totp webauthn recovery : MfaKind

abbrev pub is_totp : MfaKind → Bool
is_totp totp = true
is_totp _ = false

pub data EventKind : Type 0 where
  signup_started signup_duplicate email_verified verification_resent : EventKind
  login_succeeded login_failed login_blocked account_locked account_unlocked : EventKind
  token_refreshed token_reuse_detected session_revoked all_sessions_revoked : EventKind
  password_reset_requested password_reset_completed password_changed : EventKind
  deletion_requested deletion_cancelled deletion_completed rate_limited : EventKind
  mfa_enrolment_started mfa_enabled mfa_disabled mfa_challenged mfa_succeeded : EventKind
  mfa_failed mfa_recovery_used device_first_seen device_revoked : EventKind

-- `AuthError` by its code, `RateLimited` with its delay in seconds, and `InvalidToken` with its
-- detail for the log. The sentences for people are fixed by the code.
pub data AuthError : Type 0 where
  invalid_email invalid_credentials account_is_locked email_not_verified : AuthError
  no_such_membership tenant_required not_found invalid_link password_unchanged : AuthError
  already_confirmed invalid_code invalid_challenge mfa_not_enabled : AuthError
  weak_password : WeakPassword → AuthError
  too_many_attempts : ℕ → AuthError
  invalid_token : String → AuthError

pub record Identity : Type 0 where
  pub identity_id : String
  pub email : String
  pub password_hash : String
  pub password_algo : String
  pub status : IdentityStatus
  pub email_verified_at : Option ℕ
  pub failed_attempts : ℕ
  pub locked_until : Option ℕ
  pub last_login_at : Option ℕ
  pub delete_after : Option ℕ
  pub created_at : ℕ
  pub updated_at : ℕ

abbrev pub verified : Identity → Bool
verified i = is_some i.email_verified_at

-- `t is not None and now < t`
abbrev pub is_before : ℕ → Option ℕ → Bool
is_before now none = false
is_before now (some t) = ltb now t

-- `t is not None and now >= t`
abbrev pub is_past : ℕ → Option ℕ → Bool
is_past now none = false
is_past now (some t) = not (ltb now t)

-- `Identity.locked`
abbrev pub is_locked : ℕ → Identity → Bool
is_locked now i = is_before now i.locked_until

pub record Membership : Type 0 where
  pub user_id : String
  pub tenant_id : String
  pub identity_id : String
  pub role : String
  pub is_active : Bool
  pub tenant_name : String

pub record Session : Type 0 where
  pub session_id : String
  pub identity_id : String
  pub token_hash : String
  pub previous_hash : String
  pub tenant_id : String
  pub device_id : String
  pub user_agent : String
  pub ip : String
  pub mfa_satisfied : Bool
  pub issued_at : ℕ
  pub expires_at : Option ℕ
  pub absolute_expires_at : Option ℕ
  pub revoked_at : Option ℕ
  pub revoked_reason : String
  pub rotations : ℕ

-- `Session.active`
abbrev pub is_live : ℕ → Session → Bool
is_live now s =
    not (is_some s.revoked_at)
    && (not (is_past now s.expires_at) && not (is_past now s.absolute_expires_at))

pub record VerificationToken : Type 0 where
  pub token_id : String
  pub identity_id : String
  pub kind : TokenKind
  pub token_hash : String
  pub expires_at : ℕ
  pub created_at : ℕ
  pub used_at : Option ℕ
  pub requested_ip : String

abbrev pub usable : ℕ → VerificationToken → Bool
usable now t = not (is_some t.used_at) && ltb now t.expires_at

pub record MfaFactor : Type 0 where
  pub factor_id : String
  pub identity_id : String
  pub kind : MfaKind
  pub label : String
  pub secret : String
  pub created_at : ℕ
  pub confirmed_at : Option ℕ
  pub last_used_at : Option ℕ
  pub last_counter : Option ℕ

-- `MfaFactor.active`
abbrev pub is_confirmed : MfaFactor → Bool
is_confirmed f = is_some f.confirmed_at

pub record RecoveryCode : Type 0 where
  pub code_id : String
  pub identity_id : String
  pub code_hash : String
  pub created_at : ℕ
  pub used_at : Option ℕ
  pub used_ip : String

abbrev pub spent : RecoveryCode → Bool
spent c = is_some c.used_at

pub record Device : Type 0 where
  pub device_id : String
  pub identity_id : String
  pub label : String
  pub user_agent : String
  pub last_ip : String
  pub first_seen_at : ℕ
  pub last_seen_at : ℕ
  pub revoked_at : Option ℕ

pub record TokenPair : Type 0 where
  pub access_token : String
  pub refresh_token : String
  pub expires_in_s : ℕ
  pub session_id : String
  pub tenant_id : String

-- Without its own id and the metadata, which nothing writes.
pub record AuthEvent : Type 0 where
  pub kind : EventKind
  pub at : ℕ
  pub identity_id : String
  pub email : String
  pub tenant_id : String
  pub session_id : String
  pub ip : String
  pub user_agent : String
  pub succeeded : Bool
  pub detail : String

-- The fields of `AuthConfig` that the flows read, but for the signing keys.
pub record AuthConfig : Type 0 where
  pub access_ttl_s : ℕ
  pub refresh_ttl_s : ℕ
  pub session_max_s : ℕ
  pub verification_ttl_s : ℕ
  pub reset_ttl_s : ℕ
  pub deletion_grace_s : ℕ
  pub max_failed_attempts : ℕ
  pub lockout_s : ℕ
  pub mfa_issuer : String
  pub totp_config : TotpConfig
  pub require_verified_email : Bool
  pub password_algorithm : String
  pub rate_limits : Dict (ℕ × ℕ)
  pub verification_url : String
  pub reset_url : String
  pub signup_message : String
