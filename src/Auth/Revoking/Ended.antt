-- ===== src/Auth/Revoking/Ended.antt =====
-- What ends every session of an identity: a reset of the password, and a refresh token that comes
-- back after it was rotated away from.
use clipper_ai.Base.{
  ℕ, ◌≡◌, refl, sym, ap, ◌∙◌, subst, inl, inr, arith, String, true, not, ◌&&◌, some, [], ◌∷◌, ◌==◌,
  eq_iff, Bool-cases, is_some, All, Result, ok, err, pure, ok_inj, bind_ok, Ensures, Ensures-bind,
  ◌>>◌,
}
use clipper_ai.Base.Dict.{Dict, lookup, values, map_values, IsKeyed, lookup_of_Occurs}
use clipper_ai.Base.Text.{text_or}
use clipper_ai.Auth.Types.{AuthError, invalid_token, Identity, Session}
use clipper_ai.Auth.Store.{
  Occurs-find, holds_hash, session_by_token_hash, revoke_held, revoke_sessions, save_identity,
}
use clipper_ai.Auth.Core.{AuthService, World, Mail, send, limit}
use clipper_ai.Auth.Sessions.{refresh, refresh_found, refresh_row, detect_reuse}
use clipper_ai.Auth.Revoking.{log_out_everywhere}
use clipper_ai.Auth.Login.{store_identity}
use clipper_ai.Auth.History.{session_key}
use clipper_ai.Auth.Credentials.{finish_reset, reset_password}

-- Every session of the identity has been revoked.
abbrev pub IsEnded : String → World → Type 0
IsEnded id w =
    All (λ (s : Session). s.identity_id ≡ id → is_some s.revoked_at ≡ true)
      (values w.store.sessions)

ended_values :
    (id : String) (now : ℕ) (reason : String) (d : Dict Session)
    → All
        (λ (s : Session). s.identity_id ≡ id → is_some s.revoked_at ≡ true)
        (values (map_values (revoke_held id now reason) d))
unfolding values map_values
ended_values id now reason [] = tt
ended_values id now reason ((k, s) ∷ d) =
    ((λ e. ground (arith, e, eq_iff s.identity_id id)), ended_values id now reason d)

module _ (service : AuthService) where
  send_quiet :
      (now : ℕ) (m : Mail) (w : World)
      → ((send service now m w).0 ≡ ok tt)
        × ((send service now m w).1.store.sessions ≡ w.store.sessions)
  unfolding send
  send_quiet now m w = elim (Bool-cases (service.delivers m)) [
    | inl b ↦ ground (arith, b)
    | inr b ↦ ground (arith, b)
  ]

  after_send :
      (now : ℕ) (m : Mail) (x after : Identity) (w : World)
      → IsEnded x.identity_id w
      → ((send service now m >> pure x) w).0 ≡ ok after
      → IsEnded after.identity_id ((send service now m >> pure x) w).1
  after_send now m x after w h e =
      let (sent, same) = send_quiet now m w in
      let q = bind_ok (send service now m) (λ _. pure x) w tt sent in
      let x≡ : x ≡ after =
        ok_inj (sym (ap (λ (r : Result AuthError Identity × World). r.0) q) ∙ e) in
      subst (λ (r : Result AuthError Identity × World). IsEnded after.identity_id r.1) (sym q)
        (subst
          (λ (ss : Dict Session).
            All (λ (s : Session). s.identity_id ≡ after.identity_id → is_some s.revoked_at ≡ true)
              (values ss))
          (sym same) (subst (λ (y : Identity). IsEnded y.identity_id w) x≡ h))

  finish_reset-IsEnded :
      (i : Identity) (hash : String) (now : ℕ) (ip : String)
      → Ensures
          (λ (after : Identity). IsEnded after.identity_id)
          (finish_reset service i hash now ip)
  unfolding finish_reset store_identity log_out_everywhere revoke_sessions save_identity
  finish_reset-IsEnded i hash now ip = record {
    result = λ w after e.
        after_send now _ _ after _
          (ended_values i.identity_id now "password reset" w.store.sessions) e;
  }

  reset_password-Ensures :
      (token password : String) (now : ℕ) (ip : String)
      → Ensures
          (λ (after : Identity). IsEnded after.identity_id)
          (reset_password service token password now ip)
  unfolding reset_password
  reset_password-Ensures token password now ip =
      search (Ensures-bind, finish_reset-IsEnded) depth 16

  -- A reset that succeeds leaves the identity no session that is not revoked.
  pub reset_password-IsEnded :
      (token password : String) (now : ℕ) (ip : String) (w : World) (i : Identity)
      → (reset_password service token password now ip w).0 ≡ ok i
      → IsEnded i.identity_id (reset_password service token password now ip w).1
  reset_password-IsEnded token password now ip =
      (reset_password-Ensures token password now ip).result

  detect_reuse-IsEnded :
      (s : Session) (now : ℕ) (ip agent : String) (w : World)
      → ((detect_reuse service s now ip agent w).0 ≡ err (invalid_token "refresh token reuse"))
        × IsEnded s.identity_id (detect_reuse service s now ip agent w).1
  unfolding detect_reuse revoke_sessions
  detect_reuse-IsEnded s now ip agent w =
      (refl, ended_values s.identity_id now "refresh token reuse detected" w.store.sessions)

  -- What `refresh` does, once its attempt was counted, with the session that the token finds.
  refresh_found-row :
      (presented : String) (now : ℕ) (ip agent : String) (s : Session) (w : World)
      → lookup s.session_id w.store.sessions ≡ some s
      → refresh_found service presented now ip agent s w
        ≡ refresh_row service presented now ip agent s w
  unfolding refresh_found
  refresh_found-row presented now ip agent s w e = rw e refl

  pub refresh-found :
      (token : String) (now : ℕ) (ip agent : String) (w w' : World) (s : Session)
      → limit service "refresh" (text_or ip "anonymous") now ip "" w ≡ (ok tt, w')
      → IsKeyed session_key w'.store.sessions
      → session_by_token_hash (service.hashing.sha256 token) w'.store ≡ some s
      → refresh service token now ip agent w
        ≡ refresh_row service (service.hashing.sha256 token) now ip agent s w'
  unfolding refresh
  refresh-found token now ip agent w w' s l keyed e = rw l (
      rw e (
        refresh_found-row (service.hashing.sha256 token) now ip agent s w' (
          lookup_of_Occurs session_key s w'.store.sessions keyed (
            (Occurs-find (holds_hash (service.hashing.sha256 token)) s (values w'.store.sessions)
              e).0))))

  -- The refresh token that a session has rotated away from last, if the rate limit lets it through
  -- and the sessions are kept under their own ids, is refused and ends every session of the
  -- identity.
  pub refresh-reuse :
      (token : String) (now : ℕ) (ip agent : String) (w w' : World) (s : Session)
      → limit service "refresh" (text_or ip "anonymous") now ip "" w ≡ (ok tt, w')
      → IsKeyed session_key w'.store.sessions
      → session_by_token_hash (service.hashing.sha256 token) w'.store ≡ some s
      → (service.hashing.sha256 token == s.previous_hash) ≡ true
      → ((refresh service token now ip agent w).0 ≡ err (invalid_token "refresh token reuse"))
        × IsEnded s.identity_id (refresh service token now ip agent w).1
  unfolding refresh_row
  refresh-reuse token now ip agent w w' s l keyed e same =
      let presented = service.hashing.sha256 token in
      let held = (Occurs-find (holds_hash presented) s (values w'.store.sessions) e).1 in
      let spent : (presented == s.previous_hash && not (s.previous_hash == "")) ≡ true =
        ground (arith, held, same, eq_iff presented s.previous_hash) in
      rw (refresh-found token now ip agent w w' s l keyed e)
        (rw spent (detect_reuse-IsEnded s now ip agent w'))
