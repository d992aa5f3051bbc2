-- ===== src/Auth/Sessions.antt =====
-- The sessions and devices of src/clipforge/auth/service.py, with `device_label` of mfa.py.
pub mod Rotation
use clipper_ai.Base.{
  ℕ, zero, suc, ◌+◌, ◌-◌, ◌/◌, min, String, Bool, true, false, not, ◌&&◌, ◌||◌, Option, none, some,
  List, [], ◌∷◌, ◌==◌, if◌then◌else◌, eqb, length, filter, seconds, Result, ok, err, pure, raise,
  is_some, ◌>>=◌, ◌>>◌,
}
use clipper_ai.Base.Dict.{lookup}
use clipper_ai.Base.Text.{◌⧺◌, decimal, text_take, text_or}
use clipper_ai.Auth.Types.{
  AuthError, no_such_membership, tenant_required, not_found, invalid_token, Identity, can_log_in,
  Membership, Session, is_live, Device, TokenPair, token_refreshed, token_reuse_detected,
  session_revoked, all_sessions_revoked, device_first_seen, device_revoked,
}
use clipper_ai.Auth.Passwords.{Unicode, is_within}
use clipper_ai.Auth.Tokens.{Grant, Principal, issue, verify_token}
use clipper_ai.Auth.Store.{
  AuthStore, find, memberships, session_by_token_hash, save_session, sessions_for, revoke_sessions,
  revoked, upsert_device, set_device_revoked,
}
use clipper_ai.Auth.Core.{
  AuthService, Auth, read, update, update_with, draw, require, event, audit, send, limit,
  new_device_email,
}

abbrev pub live_memberships : List Membership → List Membership
live_memberships = filter (λ (m : Membership). m.is_active)

abbrev pub named_membership : Option Membership → Result AuthError (Option Membership)
named_membership none = err no_such_membership
named_membership (some m) = ok (some m)

abbrev pub only_membership : List Membership → Result AuthError (Option Membership)
only_membership [] = ok none
only_membership (m ∷ []) = ok (some m)
only_membership (m ∷ n ∷ ms) = err tenant_required

-- `_choose_membership`
unfoldable pub choose_membership : List Membership → String → Result AuthError (Option Membership)
choose_membership held tenant_id =
    let live = live_memberships held in
    if tenant_id == ""
    then only_membership live
    else named_membership (find (λ (m : Membership). m.tenant_id == tenant_id) live)

abbrev pub answer : {A : Type 0} → Result AuthError A → Auth A
answer (ok a) = pure a
answer (err e) = raise e

-- `_membership_in`
abbrev pub membership_in : String → String → AuthStore → Option Membership
membership_in id tenant_id s =
    find (λ (m : Membership). m.tenant_id == tenant_id && m.is_active) (memberships id s)

abbrev pub tenant_of : Option Membership → String
tenant_of none = ""
tenant_of (some m) = m.tenant_id

abbrev pub user_of : Option Membership → String
user_of none = ""
user_of (some m) = m.user_id

abbrev pub role_of : Option Membership → String
role_of none = ""
role_of (some m) = m.role

abbrev pub browsers : List (String × String)
browsers =
    ("Edg/", "Edge")
    ∷ ("OPR/", "Opera")
    ∷ ("Chrome/", "Chrome")
    ∷ ("Firefox/", "Firefox")
    ∷ ("Safari/", "Safari")
    ∷ ("curl/", "curl")
    ∷ ("python-requests", "Python")
    ∷ ("Postman", "Postman")
    ∷ []

abbrev pub systems : List (String × String)
systems =
    ("iPhone", "iPhone")
    ∷ ("iPad", "iPad")
    ∷ ("Android", "Android")
    ∷ ("Mac OS X", "macOS")
    ∷ ("Macintosh", "macOS")
    ∷ ("Windows", "Windows")
    ∷ ("CrOS", "ChromeOS")
    ∷ ("Linux", "Linux")
    ∷ []

module _ (u : Unicode) where
  abbrev pub first_named : String → List (String × String) → String
  first_named agent [] = ""
  first_named agent ((token, name) ∷ rest) =
      let later = first_named agent rest in
      if is_within (u.code_points token) (u.code_points agent) then name else later

  -- `device_label`
  unfoldable pub device_label : String → String
  device_label user_agent =
      let agent = u.strip user_agent in
      let browser = first_named agent browsers in
      let system = first_named agent systems in
      if agent == ""
      then "Unknown device"
      else if browser == ""
      then (if system == "" then text_take 40 agent else system)
      else if system == ""
      then browser
      else browser ⧺ " on " ⧺ system

abbrev pub first_seen : Option Device → ℕ → ℕ
first_seen none now = now
first_seen (some known) now = known.first_seen_at

abbrev pub revocation : Option Device → Option ℕ
revocation none = none
revocation (some known) = known.revoked_at

-- `min(…, session.absolute_expires_at or …)`
abbrev pub ceiling : Option ℕ → ℕ → ℕ
ceiling none other = other
ceiling (some t) other = t

-- `self.store.session(…) or session`
abbrev pub kept : Session → Option Session → Session
kept found none = found
kept found (some s) = s

module _ (service : AuthService) where
  abbrev pub seen_device : Identity → String → ℕ → String → String → Option Device → Device
  seen_device identity device_id now ip user_agent known = record {
    device_id = device_id;
    identity_id = identity.identity_id;
    label = device_label service.unicode user_agent;
    user_agent = text_take 400 user_agent;
    last_ip = ip;
    first_seen_at = first_seen known now;
    last_seen_at = now;
    revoked_at = revocation known;
  }

  -- `_record_device`
  unfoldable pub record_device : Identity → String → ℕ → String → String → Auth (Unit {0})
  record_device identity device_id now ip user_agent = do
    known ← read (λ (s : AuthStore). lookup device_id s.devices)
    update (upsert_device (seen_device identity device_id now ip user_agent known))
    if is_some known
        then pure tt
        else (audit (record (event device_first_seen now) {
          identity_id = identity.identity_id;
          email = identity.email;
          ip = ip;
          user_agent = user_agent;
          detail = device_label service.unicode user_agent;
        })
            >> send service now
                (new_device_email identity.email (device_label service.unicode user_agent) now))

  abbrev pub new_session :
      Identity → Option Membership → ℕ → String → String → String → Bool → String → String → Session
  new_session identity membership now ip user_agent device_id mfa_satisfied refresh hex = record {
    session_id = "ses_" ⧺ hex;
    identity_id = identity.identity_id;
    token_hash = service.hashing.sha256 refresh;
    previous_hash = "";
    tenant_id = tenant_of membership;
    device_id = device_id;
    user_agent = text_take 400 user_agent;
    ip = ip;
    mfa_satisfied = mfa_satisfied;
    issued_at = now;
    expires_at = some (now + seconds service.config.refresh_ttl_s);
    absolute_expires_at = some (now + seconds service.config.session_max_s);
    revoked_at = none;
    revoked_reason = "";
    rotations = 0;
  }

  -- The end of `_start_session` and of `refresh`: an access token beside the refresh token.
  unfoldable pub token_pair : Identity → Option Membership → Session → String → ℕ → Auth TokenPair
  token_pair identity membership session refresh now = do
    jti ← draw service.hex
    let issued =
        issue service.issuer jti
          (record {
            identity_id = identity.identity_id;
            email = identity.email;
            tenant_id = session.tenant_id;
            user_id = user_of membership;
            role = role_of membership;
            session_id = session.session_id;
          })
          now
    pure (record {
      access_token = issued.0;
      refresh_token = refresh;
      expires_in_s = (issued.1 - now) / 1000000;
      session_id = session.session_id;
      tenant_id = session.tenant_id;
    })

  -- `_start_session`
  unfoldable pub start_session :
      Identity → Option Membership → ℕ → String → String → String → Bool → Auth TokenPair
  start_session identity membership now ip user_agent device_id mfa_satisfied = do
    if device_id == "" then pure tt else record_device identity device_id now ip user_agent
    refresh ← draw service.opaque
    hex ← draw service.hex
    let session =
        new_session identity membership now ip user_agent device_id mfa_satisfied refresh hex
    update (save_session session)
    token_pair identity membership session refresh now

  -- The session after a rotation to the token `rotated`.
  abbrev pub rotate : ℕ → String → Session → Session
  rotate now rotated s = record s {
    previous_hash = s.token_hash;
    token_hash = service.hashing.sha256 rotated;
    rotations = s.rotations + 1;
    expires_at = some (
        min (now + seconds service.config.refresh_ttl_s)
          (ceiling s.absolute_expires_at (now + seconds service.config.session_max_s)));
  }

  -- The end of `refresh`: the rotation is saved, and the new pair is handed out.
  unfoldable pub hand_out : Identity → Session → String → ℕ → String → Auth TokenPair
  hand_out identity session rotated now ip = do
    update (save_session (rotate now rotated session))
    membership ← read (membership_in identity.identity_id session.tenant_id)
    pair ← token_pair identity membership (rotate now rotated session) rotated now
    audit (record (event token_refreshed now) {
      identity_id = identity.identity_id;
      email = identity.email;
      ip = ip;
      session_id = session.session_id;
      tenant_id = session.tenant_id;
    })
    pure pair

  -- `refresh` from the check of the session on, in which the hash `presented` is no longer read
  unfoldable pub rotate_session : Session → ℕ → String → String → Auth TokenPair
  rotate_session session now ip user_agent =
      if not (is_live now session)
      then raise (invalid_token "session is revoked or expired")
      else do
        found ← read (λ (s : AuthStore). lookup session.identity_id s.identities)
        identity ← require (invalid_token "identity cannot sign in") found
        if can_log_in identity.status
            then pure tt
            else raise (invalid_token "identity cannot sign in")
        rotated ← draw service.opaque
        hand_out identity session rotated now ip

  -- The branch of `refresh` for a token that has been rotated away from.
  unfoldable pub detect_reuse : Session → ℕ → String → String → Auth TokenPair
  detect_reuse session now ip user_agent = do
    update_with (revoke_sessions session.identity_id now "refresh token reuse detected")
    audit (record (event token_reuse_detected now) {
      identity_id = session.identity_id;
      ip = ip;
      user_agent = user_agent;
      session_id = session.session_id;
      succeeded = false;
      detail =
          "a rotated refresh token was presented again; every session for this identity was revoked";
    })
    raise (invalid_token "refresh token reuse")

  -- The part of `refresh` under the session's lock, after the row has been read again.
  unfoldable pub refresh_row : String → ℕ → String → String → Session → Auth TokenPair
  refresh_row presented now ip user_agent session =
      if presented == session.previous_hash && not (session.previous_hash == "")
      then detect_reuse session now ip user_agent
      else rotate_session session now ip user_agent

  -- The part of `refresh` from the row that was found.
  unfoldable pub refresh_found : String → ℕ → String → String → Session → Auth TokenPair
  refresh_found presented now ip user_agent found = do
    again ← read (λ (s : AuthStore). lookup found.session_id s.sessions)
    refresh_row presented now ip user_agent (kept found again)

  abbrev pub refresh_by : String → ℕ → String → String → Option Session → Auth TokenPair
  refresh_by presented now ip user_agent none =
      audit (record (event token_refreshed now) {
        ip = ip;
        succeeded = false;
        detail = "refresh token not recognised";
      })
      >> raise (invalid_token "no session for this refresh token")
  refresh_by presented now ip user_agent (some found) =
      refresh_found presented now ip user_agent found

  -- `refresh`
  unfoldable pub refresh : String → ℕ → String → String → Auth TokenPair
  refresh refresh_token now ip user_agent = do
    limit service "refresh" (text_or ip "anonymous") now ip ""
    let presented = service.hashing.sha256 refresh_token
    found ← read (session_by_token_hash presented)
    refresh_by presented now ip user_agent found
