-- ===== src/Auth/Core.antt =====
-- The state and the helpers of src/clipforge/auth/service.py: the store, the draws from the system's
-- random numbers, and the messages that were handed to the mail sender. The clock is read once
-- for an operation.
pub mod Limits
use clipper_ai.Base.{
  ℕ, ◌+◌, ◌/◌, String, Bool, true, false, Option, none, some, List, [], ◌∷◌, ◌++◌, ◌==◌,
  if◌then◌else◌, ltb, Result, ok, err, Exec, pure, raise, gets, modify, ◌>>=◌, ◌>>◌, seconds,
}
use clipper_ai.Base.Dict.{Dict, lookup}
use clipper_ai.Base.Text.{◌⧺◌, decimal}
use clipper_ai.Auth.Types.{
  AuthError, too_many_attempts, AuthConfig, AuthEvent, EventKind, rate_limited, Identity,
  Membership,
}
use clipper_ai.Auth.Passwords.{PasswordPolicy, Unicode, Hashing}
use clipper_ai.Auth.Totp.{Mac}
use clipper_ai.Auth.Tokens.{AccessTokenIssuer}
use clipper_ai.Auth.Store.{AuthStore, hit_rate_limit, reset_rate_limit, record_event}

-- The builders of email.py by what they are given.
pub data Mail : Type 0 where
  verification_email reset_email : String → String → ℕ → Mail
  unexpected_signup_email password_changed_email : String → Mail
  mfa_enabled_email mfa_disabled_email recovery_code_used_email : String → Mail
  deletion_requested_email : String → ℕ → Mail
  new_device_email : String → String → ℕ → Mail

abbrev pub mail_kind : Mail → String
mail_kind (verification_email _ _ _) = "email_verification"
mail_kind (reset_email _ _ _) = "password_reset"
mail_kind (unexpected_signup_email _) = "signup_duplicate"
mail_kind (password_changed_email _) = "password_changed"
mail_kind (mfa_enabled_email _) = "mfa_enabled"
mail_kind (mfa_disabled_email _) = "mfa_disabled"
mail_kind (recovery_code_used_email _) = "recovery_code_used"
mail_kind (deletion_requested_email _ _) = "deletion_requested"
mail_kind (new_device_email _ _ _) = "new_device"

-- `AuthService`: its settings, and what the standard library and the installed packages do for
-- it. A draw has a number. `delivers` says whether the sender takes a message without an
-- exception. The provisioner adds memberships, and says whether it did so without one.
pub record AuthService : Type 0 where
  pub config : AuthConfig
  pub policy : PasswordPolicy
  pub unicode : Unicode
  pub hashing : Hashing
  pub mac : Mac
  pub issuer : AccessTokenIssuer
  -- `uuid4().hex[:16]`, `token_urlsafe(32)`, `generate_secret()` and `token_bytes(5)`
  pub hex : ℕ → String
  pub opaque : ℕ → String
  pub totp_secret : ℕ → String
  pub recovery_bytes : ℕ → ℕ
  pub delivers : Mail → Bool
  pub provisioner : Option (Identity → Dict (List Membership) → Bool × Dict (List Membership))
  -- `normalise_code`, `normalise_recovery_code` and `quote`
  pub normalise_code : String → String
  pub normalise_recovery_code : String → String
  pub quote : String → String

pub record World : Type 0 where
  pub store : AuthStore
  pub drawn : ℕ
  pub outbox : List Mail

abbrev pub Auth : Type 0 → Type 0
Auth A = Exec AuthError World A

abbrev pub read : {A : Type 0} → (AuthStore → A) → Auth A
read f = gets (λ (w : World). f w.store)

abbrev pub change_store : (AuthStore → AuthStore) → World → World
change_store f w = record w { store = f w.store }

abbrev pub update : (AuthStore → AuthStore) → Auth (Unit {0})
update f = modify (change_store f)

abbrev pub with_store : {A : Type 0} → World → A × AuthStore → Result AuthError A × World
with_store w (a, s) = (ok a, record w { store = s })

-- A method that changes the store and answers.
abbrev pub update_with : {A : Type 0} → (AuthStore → A × AuthStore) → Auth A
update_with f w = with_store w (f w.store)

abbrev pub draw : {A : Type 0} → (ℕ → A) → Auth A
draw f w = (ok (f w.drawn), record w { drawn = w.drawn + 1 })

-- `x is None` raises
abbrev pub require : {A : Type 0} → AuthError → Option A → Auth A
require e none = raise e
require e (some a) = pure a

-- `x is not None` raises
abbrev pub refuse : {A : Type 0} → (A → AuthError) → Option A → Auth (Unit {0})
refuse e none = pure tt
refuse e (some a) = raise (e a)

-- An event with the fields that are not named left as the class has them.
abbrev pub event : EventKind → ℕ → AuthEvent
event kind now = record {
  kind = kind;
  at = now;
  identity_id = "";
  email = "";
  tenant_id = "";
  session_id = "";
  ip = "";
  user_agent = "";
  succeeded = true;
  detail = "";
}

-- `_audit`
abbrev pub audit : AuthEvent → Auth (Unit {0})
audit e = update (record_event e)

abbrev pub post_mail : Mail → World → World
post_mail m w = record w { outbox = w.outbox ++ (m ∷ []) }

-- `normalise_email`
unfoldable pub normalise_email : Unicode → String → String
normalise_email u raw = u.lower (u.strip raw)

-- `_bucket`
abbrev pub bucket : String → String → String
bucket action key = action ⧺ ":" ⧺ key

module _ (service : AuthService) where
  -- `_send`
  unfoldable pub send : ℕ → Mail → Auth (Unit {0})
  send now m = do
    modify (post_mail m)
    if service.delivers m
        then pure tt
        else audit (record (event rate_limited now) {
          succeeded = false;
          detail = "email delivery failed for " ⧺ mail_kind m;
        })

  -- `_limit` by the rule of the action
  abbrev pub limit_by : Option (ℕ × ℕ) → String → String → ℕ → String → String → Auth (Unit {0})
  limit_by none action key now ip email = pure tt
  limit_by (some (most, window_s)) action key now ip email = do
    count ← update_with (hit_rate_limit (bucket action key) action window_s now)
    if ltb most count
        then (audit (record (event rate_limited now) {
          email = email;
          ip = ip;
          succeeded = false;
          detail =
              action
              ⧺ " limit "
              ⧺ decimal most
              ⧺ "/"
              ⧺ decimal window_s
              ⧺ "s exceeded ("
              ⧺ decimal count
              ⧺ " attempts)";
        })
            >> raise (too_many_attempts window_s))
        else pure tt

  -- `_limit`
  unfoldable pub limit : String → String → ℕ → String → String → Auth (Unit {0})
  limit action key now ip email =
      limit_by (lookup action service.config.rate_limits) action key now ip email

-- `_clear_limit`
abbrev pub clear_limit : String → String → Auth (Unit {0})
clear_limit action key = update (reset_rate_limit (bucket action key) action)
