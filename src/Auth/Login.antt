-- ===== src/Auth/Login.antt =====
-- `log_in` of src/clipforge/auth/service.py.
pub mod Owner
pub mod Refusals
pub mod SecondFactor
use clipper_ai.Base.{
  ℕ, ◌+◌, String, Bool, true, false, not, ◌&&◌, ◌||◌, Option, none, some, List, [], ◌∷◌, ◌++◌, ◌==◌,
  if◌then◌else◌, leb, any, seconds, Result, ok, err, pure, raise, ◌>>=◌, ◌>>◌,
}
use clipper_ai.Base.Dict.{Dict, lookup}
use clipper_ai.Base.Text.{◌⧺◌, decimal, text_or}
use clipper_ai.Auth.Types.{
  TokenPair, AuthError, invalid_credentials, account_is_locked, email_not_verified, Identity,
  IdentityStatus, active, pending, is_pending, is_pending_deletion, is_deleted, verified, is_locked,
  Membership, login_failed, login_blocked, account_locked, deletion_cancelled, login_succeeded,
}
use clipper_ai.Auth.Passwords.{verify_password, needs_rehash, hash_password}
use clipper_ai.Auth.Store.{AuthStore, identity_by_email, save_identity, memberships}
use clipper_ai.Auth.Core.{
  AuthService, Auth, read, update, update_with, draw, event, audit, limit, clear_limit,
  normalise_email,
}
use clipper_ai.Auth.Sessions.{choose_membership, answer, start_session}
use clipper_ai.Auth.Mfa.{mfa_required}
use clipper_ai.Auth.Challenge.{LoginResult, issue_challenge}

-- `self.store.save_identity(identity)` with its answer
unfoldable pub store_identity : ℕ → Identity → Auth Identity
store_identity now identity = do
  update (save_identity now identity)
  pure (record identity { updated_at = now })

-- The status that a cancelled deletion goes back to.
abbrev pub restored_status : Identity → IdentityStatus
restored_status i = if verified i then active else pending

abbrev pub without_deletion : Identity → Identity
without_deletion i = record i { status = restored_status i; delete_after = none }

-- What a right password makes of an identity, but for its hash.
abbrev pub welcomed : ℕ → Identity → Identity
welcomed now i = record (if is_pending_deletion i.status then without_deletion i else i) {
  failed_attempts = 0;
  locked_until = none;
  last_login_at = some now;
}

abbrev pub any_live : List Membership → Bool
any_live ms = any (λ (m : Membership). m.is_active) ms

-- `_register_failure` on the identity.
abbrev pub failed_once : ℕ → ℕ → ℕ → Identity → Identity
failed_once most lockout_s now i =
    if leb most (i.failed_attempts + 1)
    then record i { failed_attempts = 0; locked_until = some (now + seconds lockout_s) }
    else record i { failed_attempts = i.failed_attempts + 1 }

module _ (service : AuthService) where
  abbrev pub failure_detail : Bool → String
  failure_detail false = "wrong password"
  failure_detail true =
      "locked for "
      ⧺ decimal service.config.lockout_s
      ⧺ "s after "
      ⧺ decimal service.config.max_failed_attempts
      ⧺ " failures"

  -- `_register_failure`
  unfoldable pub register_failure : Identity → ℕ → String → String → Auth (Unit {0})
  register_failure identity now ip user_agent =
      let locks = leb service.config.max_failed_attempts (identity.failed_attempts + 1) in
      do
        if locks
            then audit (record (event account_locked now) {
              identity_id = identity.identity_id;
              email = identity.email;
              ip = ip;
              succeeded = false;
              detail = failure_detail true;
            })
            else pure tt
        update (
            save_identity now (
              failed_once service.config.max_failed_attempts service.config.lockout_s now identity))
        audit (record (event login_failed now) {
          identity_id = identity.identity_id;
          email = identity.email;
          ip = ip;
          user_agent = user_agent;
          succeeded = false;
          detail = failure_detail locks;
        })

  abbrev pub provisioned :
      (Identity → Dict (List Membership) → Bool × Dict (List Membership))
      → Identity
      → AuthStore
      → Bool × AuthStore
  provisioned p identity s =
      let (done, members) = p identity s.members in (done, record s { members = members })

  abbrev pub provision_by :
      Option (Identity → Dict (List Membership) → Bool × Dict (List Membership))
      → Identity
      → List Membership
      → Auth (List Membership)
  provision_by none identity held = pure held
  provision_by (some p) identity held = do
    done ← update_with (provisioned p identity)
    if done then read (memberships identity.identity_id) else pure held

  -- The memberships after the provisioner's one chance.
  abbrev pub provision : Identity → List Membership → Auth (List Membership)
  provision identity held = provision_by service.provisioner identity held

  -- A hash of an older scheme is replaced.
  unfoldable pub upgrade_hash : String → Identity → Auth Identity
  upgrade_hash password identity =
      if needs_rehash service.unicode service.hashing identity.password_hash
      then (do
        hash ← draw (λ salt. hash_password service.unicode service.hashing salt password)
        pure (record identity {
          password_hash = hash;
          password_algo = service.config.password_algorithm;
        }))
      else pure identity

  abbrev pub entered :
      Identity → String → List Membership → ℕ → String → String → TokenPair → Auth LoginResult
  entered identity address joined now ip user_agent tokens = do
    audit (record (event login_succeeded now) {
      identity_id = identity.identity_id;
      email = address;
      ip = ip;
      user_agent = user_agent;
      tenant_id = tokens.tenant_id;
      session_id = tokens.session_id;
    })
    pure (record {
      tokens = some tokens;
      identity = identity;
      joined = joined;
      unverified = not (verified identity);
      mfa = none;
    })

  -- The end of `log_in`, when no second factor is owed.
  unfoldable pub enter :
      Identity → String → String → ℕ → String → String → String → Auth LoginResult
  enter identity address tenant_id now ip user_agent device_id = do
    held ← read (memberships identity.identity_id)
    joined ← if tenant_id == "" && not (any_live held) then provision identity held else pure held
    chosen ← answer (choose_membership joined tenant_id)
    tokens ← start_session service identity chosen now ip user_agent device_id false
    entered identity address joined now ip user_agent tokens

  unfoldable pub challenge : Identity → ℕ → String → Auth LoginResult
  challenge identity now ip = do
    owed ← issue_challenge service identity now ip
    joined ← read (memberships identity.identity_id)
    pure (record {
      tokens = none;
      identity = identity;
      joined = joined;
      unverified = not (verified identity);
      mfa = some owed;
    })

  -- Where a second factor is owed, a challenge is given in place of a session.
  unfoldable pub second_step :
      Identity → String → String → ℕ → String → String → String → Auth LoginResult
  second_step identity address tenant_id now ip user_agent device_id = do
    owed ← read (mfa_required identity.identity_id)
    if owed
        then challenge identity now ip
        else enter identity address tenant_id now ip user_agent device_id

  -- A deletion that was asked for is cancelled by signing in.
  abbrev pub note_cancelled : Identity → String → ℕ → String → Auth (Unit {0})
  note_cancelled found address now ip =
      if is_pending_deletion found.status
      then audit (record (event deletion_cancelled now) {
        identity_id = found.identity_id;
        email = address;
        ip = ip;
        detail = "cancelled by signing in";
      })
      else pure tt

  -- `log_in` after the password and the address have been accepted.
  unfoldable pub welcome :
      Identity → String → String → String → ℕ → String → String → String → Auth LoginResult
  welcome found address password tenant_id now ip user_agent device_id = do
    note_cancelled found address now ip
    upgraded ← upgrade_hash password found
    identity ← store_identity now (welcomed now upgraded)
    clear_limit "login_email" address
    second_step identity address tenant_id now ip user_agent device_id

  abbrev pub refuse_login : Identity → String → ℕ → String → Auth (Unit {0})
  refuse_login identity detail now ip = audit (record (event login_blocked now) {
    identity_id = identity.identity_id;
    email = identity.email;
    ip = ip;
    succeeded = false;
    detail = detail;
  })

  unfoldable pub log_in_as :
      String → String → String → ℕ → String → String → String → Option Identity → Auth LoginResult
  log_in_as address password tenant_id now ip user_agent device_id none =
      audit (record (event login_failed now) {
        email = address;
        ip = ip;
        user_agent = user_agent;
        succeeded = false;
        detail = "no identity for this address";
      })
      >> raise invalid_credentials
  log_in_as address password tenant_id now ip user_agent device_id (some i) =
      if is_locked now i
      then refuse_login (record i { email = address }) "account temporarily locked" now ip
        >> raise account_is_locked
      else if is_deleted i.status
      then audit (record (event login_failed now) {
        identity_id = i.identity_id;
        email = address;
        ip = ip;
        succeeded = false;
        detail = "identity is deleted";
      })
        >> raise invalid_credentials
      else if not (verify_password service.unicode service.hashing password i.password_hash)
      then register_failure i now ip user_agent >> raise invalid_credentials
      else if is_pending i.status && service.config.require_verified_email
      then refuse_login (record i { email = address }) "email not verified" now ip
        >> raise email_not_verified
      else welcome i address password tenant_id now ip user_agent device_id

  -- `log_in`
  unfoldable pub log_in : String → String → String → ℕ → String → String → String → Auth LoginResult
  log_in email password tenant_id now ip user_agent device_id = do
    let address = normalise_email service.unicode email
    limit service "login_ip" (text_or ip "anonymous") now ip address
    limit service "login_email" address now ip address
    found ← read (identity_by_email (normalise_email service.unicode) address)
    log_in_as address password tenant_id now ip user_agent device_id found
