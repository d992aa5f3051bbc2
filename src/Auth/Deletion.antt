-- ===== src/Auth/Deletion.antt =====
-- Deletion and memberships in src/clipforge/auth/service.py.
use clipper_ai.Base.{
  ℕ, ◌+◌, String, true, none, some, List, [], ◌∷◌, if◌then◌else◌, seconds, pure, ◌>>=◌, ◌>>◌,
}
use clipper_ai.Base.Dict.{lookup}
use clipper_ai.Base.Text.{◌⧺◌, decimal, characters}
use clipper_ai.Auth.Types.{
  not_found, Identity, pending_deletion, deleted, is_pending_deletion, Membership,
  deletion_requested, deletion_cancelled, deletion_completed,
}
use clipper_ai.Auth.Store.{
  AuthStore, save_identity, identities_due_for_deletion, revoke_sessions, remove_memberships,
  put_membership,
}
use clipper_ai.Auth.Core.{
  AuthService, Auth, read, update, update_with, require, event, audit, send,
  deletion_requested_email,
}
use clipper_ai.Auth.Revoking.{log_out_everywhere}
use clipper_ai.Auth.Login.{store_identity, without_deletion}

-- What a purge leaves of an identity.
abbrev pub purged : Identity → Identity
purged i = record i {
  email = "deleted+" ⧺ i.identity_id ⧺ "@invalid";
  password_hash = "";
  password_algo = "";
  status = deleted;
  email_verified_at = none;
  delete_after = none;
  last_login_at = none;
}

-- One turn of the loop of `purge_due`.
unfoldable pub purge_one : ℕ → Identity → Auth (Unit {0})
purge_one now i = do
  update (save_identity now (purged i))
  update_with (revoke_sessions i.identity_id now "account deleted")
  update (remove_memberships i.identity_id)
  audit (record (event deletion_completed now) {
    identity_id = i.identity_id;
    detail = "identity purged (" ⧺ decimal (characters i.email) ⧺ " char address)";
  })

-- The loop of `purge_due`.
unfoldable pub purge_all : ℕ → List Identity → Auth (List String)
purge_all now [] = pure []
purge_all now (i ∷ is) = do purge_one now i; rest ← purge_all now is; pure (i.identity_id ∷ rest)

-- `purge_due`
unfoldable pub purge_due : ℕ → Auth (List String)
purge_due now = do due ← read (identities_due_for_deletion now); purge_all now due

-- `cancel_deletion`
unfoldable pub cancel_deletion : String → ℕ → String → Auth Identity
cancel_deletion id now ip = do
  found ← read (λ (s : AuthStore). lookup id s.identities)
  identity ← require not_found found
  if is_pending_deletion identity.status
      then (do
        after ← store_identity now (without_deletion identity)
        audit (record (event deletion_cancelled now) {
          identity_id = id;
          email = after.email;
          ip = ip;
        })
        pure after)
      else pure identity

-- `add_membership`
unfoldable pub add_membership : String → String → String → String → String → Auth Membership
add_membership id tenant_id user_id role tenant_name = do
  found ← read (λ (s : AuthStore). lookup id s.identities)
  identity ← require not_found found
  let m : Membership = record {
    user_id = user_id;
    tenant_id = tenant_id;
    identity_id = id;
    role = role;
    is_active = true;
    tenant_name = tenant_name;
  }
  update (put_membership m)
  pure m

-- `request_deletion`; `day` is how an instant is printed
unfoldable pub request_deletion : AuthService → (ℕ → String) → String → ℕ → String → Auth Identity
request_deletion service day id now ip = do
  found ← read (λ (s : AuthStore). lookup id s.identities)
  old ← require not_found found
  let due = now + seconds service.config.deletion_grace_s
  identity ← store_identity now (record old { status = pending_deletion; delete_after = some due })
  log_out_everywhere id now ip "deletion requested"
  audit (record (event deletion_requested now) {
    identity_id = id;
    email = identity.email;
    ip = ip;
    detail = "purge due " ⧺ day due;
  })
  send service now (deletion_requested_email identity.email due)
  pure identity
