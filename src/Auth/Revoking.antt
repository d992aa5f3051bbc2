-- ===== src/Auth/Revoking.antt =====
-- Ending sessions in src/clipforge/auth/service.py: signing out, one device, and live checks.
pub mod Ended
use clipper_ai.Base.{
  ℕ, ◌+◌, String, Bool, true, false, not, ◌&&◌, ◌||◌, Option, none, some, List, [], ◌∷◌, ◌==◌,
  if◌then◌else◌, Result, ok, err, pure, raise, is_some, ◌>>=◌, ◌>>◌,
}
use clipper_ai.Base.Dict.{lookup}
use clipper_ai.Base.Text.{◌⧺◌, decimal}
use clipper_ai.Auth.Types.{
  AuthError, not_found, invalid_token, Session, is_live, Device, session_revoked,
  all_sessions_revoked, device_revoked,
}
use clipper_ai.Auth.Tokens.{Principal, verify_token}
use clipper_ai.Auth.Store.{
  AuthStore, session_by_token_hash, save_session, sessions_for, revoke_sessions, revoked,
  set_device_revoked,
}
use clipper_ai.Auth.Core.{AuthService, Auth, read, update, update_with, require, event, audit}

-- `log_out_everywhere`
unfoldable pub log_out_everywhere : String → ℕ → String → String → Auth ℕ
log_out_everywhere id now ip reason = do
  count ← update_with (revoke_sessions id now reason)
  audit (record (event all_sessions_revoked now) {
    identity_id = id;
    ip = ip;
    detail = decimal count ⧺ " sessions revoked: " ⧺ reason;
  })
  pure count

-- The loops that end some of the sessions that were read: how many.
unfoldable pub revoke_some : (Session → Bool) → ℕ → String → List Session → Auth ℕ
revoke_some p now reason [] = pure 0
revoke_some p now reason (s ∷ ss) =
    if p s
    then (do
      update (save_session (revoked now reason s))
      n ← revoke_some p now reason ss
      pure (n + 1))
    else revoke_some p now reason ss

abbrev pub is_on_device : String → ℕ → Session → Bool
is_on_device device_id now s = s.device_id == device_id && is_live now s

abbrev pub owned_device : String → Option Device → Option Device
owned_device id none = none
owned_device id (some d) = if d.identity_id == id then some d else none

-- The loop of `revoke_device` over the sessions that were read, and its event.
unfoldable pub end_on_device : String → String → String → ℕ → String → List Session → Auth ℕ
end_on_device id device_id label now ip held = do
  count ← revoke_some (is_on_device device_id now) now "device signed out" held
  audit (record (event device_revoked now) {
    identity_id = id;
    ip = ip;
    detail = label ⧺ ": " ⧺ decimal count ⧺ " session(s)";
  })
  pure count

-- `revoke_device`
unfoldable pub revoke_device : String → String → ℕ → String → Auth ℕ
revoke_device id device_id now ip = do
  found ← read (λ (s : AuthStore). lookup device_id s.devices)
  device ← require not_found (owned_device id found)
  update (set_device_revoked device_id (some now))
  held ← read (sessions_for id)
  end_on_device id device_id device.label now ip held

module _ (service : AuthService) where
  abbrev pub log_out_of : ℕ → String → Option Session → Auth Bool
  log_out_of now ip none = pure false
  log_out_of now ip (some session) = if is_some session.revoked_at then pure false else do
    update (save_session (revoked now "signed out" session))
    audit (record (event session_revoked now) {
      identity_id = session.identity_id;
      session_id = session.session_id;
      ip = ip;
      detail = "signed out";
    })
    pure true

  -- `log_out`
  unfoldable pub log_out : String → ℕ → String → Auth Bool
  log_out refresh_token now ip = do
    found ← read (session_by_token_hash (service.hashing.sha256 refresh_token))
    log_out_of now ip found

  -- `authenticate`
  abbrev pub authenticate : String → Auth Principal
  authenticate token = require (invalid_token "token") (verify_token service.issuer token)

  -- `authenticate_live`
  unfoldable pub authenticate_live : String → ℕ → Auth Principal
  authenticate_live token now = do
    principal ← authenticate token
    found ← read (λ (s : AuthStore). lookup principal.session_id s.sessions)
    session ← require (invalid_token "session revoked") found
    if is_live now session then pure principal else raise (invalid_token "session revoked")
