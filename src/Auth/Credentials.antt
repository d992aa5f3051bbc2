-- ===== src/Auth/Credentials.antt =====
-- Passwords in src/clipforge/auth/service.py: reset, check and change.
use clipper_ai.Base.{
  ℕ, ◌/◌, String, Bool, true, false, not, ◌&&◌, Option, none, some, List, ◌==◌, if◌then◌else◌, pure,
  raise, is_some, ◌>>=◌, ◌>>◌,
}
use clipper_ai.Base.Dict.{lookup}
use clipper_ai.Base.Text.{◌⧺◌, decimal, text_or}
use clipper_ai.Auth.Types.{
  invalid_link, invalid_credentials, not_found, password_unchanged, weak_password, Identity,
  IdentityStatus, pending, active, locked, is_deleted, verified, password_reset, Session, EventKind,
  login_failed, password_reset_requested, password_reset_completed, password_changed,
}
use clipper_ai.Auth.Passwords.{check_policy, verify_password, hash_password}
use clipper_ai.Auth.Store.{AuthStore, identity_by_email, sessions_for}
use clipper_ai.Auth.Core.{
  AuthService, Auth, read, draw, require, refuse, event, audit, send, limit, clear_limit,
  normalise_email, reset_email, password_changed_email,
}
use clipper_ai.Auth.Revoking.{log_out_everywhere, revoke_some}
use clipper_ai.Auth.Login.{store_identity}
use clipper_ai.Auth.Accounts.{issue_token, spend_token}

abbrev pub is_reopened : IdentityStatus → Bool
is_reopened pending = true
is_reopened locked = true
is_reopened _ = false

-- `if identity is None or identity.status is DELETED`
abbrev pub not_deleted : Option Identity → Option Identity
not_deleted none = none
not_deleted (some i) = if is_deleted i.status then none else some i

module _ (service : AuthService) where
  abbrev pub request_reset_of : String → ℕ → String → Option Identity → Auth (Unit {0})
  request_reset_of address now ip none = audit (record (event password_reset_requested now) {
    email = address;
    ip = ip;
    succeeded = false;
    detail = "no identity for this address";
  })
  request_reset_of address now ip (some i) = do
    raw ← issue_token service password_reset service.config.reset_ttl_s i.identity_id now ip
    audit (record (event password_reset_requested now) {
      identity_id = i.identity_id;
      email = address;
      ip = ip;
    })
    send service now (
        reset_email address (service.config.reset_url ⧺ "?token=" ⧺ raw)
          (service.config.reset_ttl_s / 60))

  -- `request_password_reset`
  unfoldable pub request_password_reset : String → ℕ → String → Auth (Unit {0})
  request_password_reset email now ip = do
    let address = normalise_email service.unicode email
    limit service "reset_request" (text_or ip address) now ip address
    found ← read (identity_by_email (normalise_email service.unicode) address)
    request_reset_of address now ip (not_deleted found)

  -- What a reset makes of an identity.
  abbrev pub reset_identity : ℕ → String → Identity → Identity
  reset_identity now hash i = record i {
    password_hash = hash;
    password_algo = service.config.password_algorithm;
    failed_attempts = 0;
    locked_until = none;
    email_verified_at = if verified i then i.email_verified_at else some now;
    status = if is_reopened i.status then active else i.status;
  }

  -- The end of `reset_password`, with the new password accepted.
  unfoldable pub finish_reset : Identity → String → ℕ → String → Auth Identity
  finish_reset found hash now ip = do
    identity ← store_identity now (reset_identity now hash found)
    log_out_everywhere identity.identity_id now ip "password reset"
    clear_limit "login_email" identity.email
    audit (record (event password_reset_completed now) {
      identity_id = identity.identity_id;
      email = identity.email;
      ip = ip;
    })
    send service now (password_changed_email identity.email)
    pure identity

  -- `reset_password`
  unfoldable pub reset_password : String → String → ℕ → String → Auth Identity
  reset_password token new_password now ip = do
    limit service "reset" (text_or ip "anonymous") now ip ""
    held ← spend_token service token password_reset now
    found ← read (λ (s : AuthStore). lookup held.identity_id s.identities)
    identity ← require invalid_link (not_deleted found)
    refuse weak_password (check_policy service.unicode service.policy new_password identity.email)
    hash ← draw (λ salt. hash_password service.unicode service.hashing salt new_password)
    finish_reset identity hash now ip

  abbrev pub matches : String → Identity → Bool
  matches password i = verify_password service.unicode service.hashing password i.password_hash

  abbrev pub deny_password : EventKind → String → Identity → ℕ → String → Auth (Unit {0})
  deny_password kind detail i now ip =
      audit (record (event kind now) {
        identity_id = i.identity_id;
        email = i.email;
        ip = ip;
        succeeded = false;
        detail = detail;
      })
      >> raise invalid_credentials

  -- `check_password`
  unfoldable pub check_password : String → String → ℕ → String → Auth Identity
  check_password id password now ip = do
    limit service "change_password" id now ip ""
    found ← read (λ (s : AuthStore). lookup id s.identities)
    identity ← require not_found found
    if matches password identity
        then pure tt
        else deny_password login_failed "password re-check failed" identity now ip
    pure identity

  abbrev pub is_other_open : String → Session → Bool
  is_other_open keep s = not (s.session_id == keep) && not (is_some s.revoked_at)

  -- What `change_password` tells at its end.
  unfoldable pub tell_changed : String → Identity → ℕ → String → ℕ → Auth Identity
  tell_changed id identity now ip count = do
    audit (record (event password_changed now) {
      identity_id = id;
      email = identity.email;
      ip = ip;
      detail = decimal count ⧺ " other sessions revoked";
    })
    send service now (password_changed_email identity.email)
    pure identity

  -- The end of `change_password`, with the sessions that were read: all but the one at hand end.
  unfoldable pub end_others : String → Identity → String → ℕ → String → List Session → Auth Identity
  end_others id identity keep_current_session now ip held = do
    count ← revoke_some (is_other_open keep_current_session) now "password changed" held
    tell_changed id identity now ip count

  -- `change_password`
  unfoldable pub change_password : String → String → String → String → ℕ → String → Auth Identity
  change_password id current_password new_password keep_current_session now ip = do
    limit service "change_password" id now ip ""
    found ← read (λ (s : AuthStore). lookup id s.identities)
    old ← require not_found found
    if matches current_password old
        then pure tt
        else deny_password password_changed "current password did not match" old now ip
    refuse weak_password (check_policy service.unicode service.policy new_password old.email)
    if matches new_password old then raise password_unchanged else pure tt
    hash ← draw (λ salt. hash_password service.unicode service.hashing salt new_password)
    identity ←
        store_identity now
          (record old { password_hash = hash; password_algo = service.config.password_algorithm })
    held ← read (sessions_for id)
    end_others id identity keep_current_session now ip held
