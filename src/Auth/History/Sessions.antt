-- ===== src/Auth/History/Sessions.antt =====
-- Starting, refreshing and ending sessions keeps every session in its history.
use clipper_ai.Base.{
  ℕ, ◌+◌, is_some, ◌≡◌, refl, sym, ap, inl, inr, arith, eq_refl, String, Bool, true, false, not,
  Option, none, some, List, [], ◌∷◌, ◌==◌, if◌then◌else◌, Bool-cases, Option-cases, some_inj,
  Occurs, Occurs-filter, All, All-of_Occurs, Result, ok, err, pure, raise, ◌>>=◌, ◌>>◌, Keeps,
  Keeps-bind, Keeps-if, Keeps-raise, Keeps-pure,
}
use clipper_ai.Base.Text.{◌⧺◌, text_or}
use clipper_ai.Base.Dict.{lookup, values, Occurs-of_lookup}
use clipper_ai.Auth.Types.{Identity, Session, Membership, is_live}
use clipper_ai.Auth.Store.{
  Occurs-find, AuthStore, find, session_by_token_hash, sessions_for, revoked, save_session,
}
use clipper_ai.Auth.Core.{AuthService, World, update}
use clipper_ai.Auth.Sessions.{
  record_device, token_pair, new_session, start_session, rotate_session, hand_out, detect_reuse,
  refresh_row, refresh_found, refresh_by, refresh, kept, rotate,
}
use clipper_ai.Auth.Revoking.{
  log_out_everywhere, revoke_some, end_on_device, revoke_device, log_out, log_out_of,
  authenticate_live, is_on_device,
}
use clipper_ai.Auth.History.{
  Evolves, next, rotation, revocation, IsFollowed, IsCopy, IsCopy-of_Occurs, Keeps-update,
  Keeps-update_with, Keeps-read, Keeps-draw, Keeps-require, Keeps-refuse, Keeps-with_read,
  Keeps-with_hex, Keeps-save, Keeps-revoke_sessions,
}
use clipper_ai.Auth.History.Steps.{Keeps-audit, Keeps-send, Keeps-limit}

pub ruleset followed_rules = (
  Keeps-bind, Keeps-if, Keeps-raise, Keeps-pure, Keeps-update, Keeps-read, Keeps-draw,
  Keeps-require, Keeps-refuse, Keeps-revoke_sessions, Keeps-audit, Keeps-send, Keeps-limit,
)

module _ (service : AuthService) (sid : String) (start : Session) where
  Keeps-record_device :
      (i : Identity) (device_id : String) (now : ℕ) (ip agent : String)
      → Keeps (IsFollowed service sid start) (record_device service i device_id now ip agent)
  unfolding record_device
  Keeps-record_device i device_id now ip agent = search followed_rules

  Keeps-token_pair :
      (i : Identity) (m : Option Membership) (s : Session) (token : String) (now : ℕ)
      → Keeps (IsFollowed service sid start) (token_pair service i m s token now)
  unfolding token_pair
  Keeps-token_pair i m s token now = search followed_rules

  pub Keeps-start_session :
      (i : Identity) (m : Option Membership) (now : ℕ) (ip agent device_id : String) (mfa : Bool)
      → Keeps (IsFollowed service sid start) (start_session service i m now ip agent device_id mfa)
  unfolding start_session
  Keeps-start_session i m now ip agent device_id mfa =
      let save = λ (token hex : String) (new : (("ses_" ⧺ hex) == sid) ≡ false).
        Keeps-save service sid start (new_session service i m now ip agent device_id mfa token hex)
          (λ e. absurd (ground (arith, e, new, eq_refl sid))) in
      search (Keeps-with_hex, save, followed_rules, Keeps-record_device, Keeps-token_pair)

  -- A session that was read of the store is rotated.
  Keeps-rotate_session :
      (s : Session) (now : ℕ) (ip agent : String)
      → IsCopy service sid start s
      → Keeps (IsFollowed service sid start) (rotate_session service s now ip agent)
  unfolding rotate_session hand_out
  Keeps-rotate_session s now ip agent copy =
      let save = λ (token : String) (live : not (is_live now s) ≡ false).
        Keeps-save service sid start (rotate service now token s)
          (λ e. next (copy e) (rotation now token (ground (arith, live)) refl)) in
      search (save, followed_rules, Keeps-token_pair) depth 16

  Keeps-detect_reuse :
      (s : Session) (now : ℕ) (ip agent : String)
      → Keeps (IsFollowed service sid start) (detect_reuse service s now ip agent)
  unfolding detect_reuse
  Keeps-detect_reuse s now ip agent = search followed_rules

  -- What `find` or a look-up gives is a copy.
  IsCopy-find :
      (p : Session → Bool) (w : World) (s : Session)
      → IsFollowed service sid start w
      → find p (values w.store.sessions) ≡ some s
      → IsCopy service sid start s
  IsCopy-find p w s h e =
      IsCopy-of_Occurs service sid start w h s ((Occurs-find p s (values w.store.sessions) e).0)

  IsCopy-lookup :
      (id : String) (w : World) (s : Session)
      → IsFollowed service sid start w
      → lookup id w.store.sessions ≡ some s
      → IsCopy service sid start s
  IsCopy-lookup id w s h e =
      IsCopy-of_Occurs service sid start w h s (Occurs-of_lookup id s w.store.sessions e)

  -- Under the lock the row is read again.
  Keeps-refresh_row :
      (presented : String) (now : ℕ) (ip agent : String) (s : Session)
      → IsCopy service sid start s
      → Keeps (IsFollowed service sid start) (refresh_row service presented now ip agent s)
  unfolding refresh_row
  Keeps-refresh_row presented now ip agent s copy =
      let rotate_copy = Keeps-rotate_session s now ip agent copy in
      search (rotate_copy, Keeps-detect_reuse, Keeps-if)

  Keeps-refresh_found :
      (presented : String) (now : ℕ) (ip agent : String) (found : Session)
      → IsCopy service sid start found
      → Keeps (IsFollowed service sid start) (refresh_found service presented now ip agent found)
  unfolding refresh_found
  Keeps-refresh_found presented now ip agent found copy =
      Keeps-with_read service sid start (λ (s : AuthStore). lookup found.session_id s.sessions)
        (λ again. refresh_row service presented now ip agent (kept found again))
        λ w h.
          Keeps-refresh_row presented now ip agent _
            (elim (Option-cases (lookup found.session_id w.store.sessions)) [
              | inl e ↦ rw e copy
              | inr (s, e) ↦ rw e (IsCopy-lookup found.session_id w s h e)
            ])

  pub Keeps-refresh :
      (token : String) (now : ℕ) (ip agent : String)
      → Keeps (IsFollowed service sid start) (refresh service token now ip agent)
  unfolding refresh
  Keeps-refresh token now ip agent =
      let found =
        Keeps-with_read service sid start (session_by_token_hash (service.hashing.sha256 token))
          (refresh_by service (service.hashing.sha256 token) now ip agent)
          λ w h. by_found w h _ refl in
      Keeps-bind _ _ (Keeps-limit service sid start "refresh" (text_or ip "anonymous") now ip "")
        (λ _. found)
    where
      by_found :
          (w : World)
          → IsFollowed service sid start w
          → (o : Option Session) → session_by_token_hash (service.hashing.sha256 token) w.store ≡ o
          → Keeps
              (IsFollowed service sid start)
              (refresh_by service (service.hashing.sha256 token) now ip agent o)
      by_found w h none e = search followed_rules
      by_found w h (some s) e = Keeps-refresh_found _ now ip agent s (IsCopy-find _ w s h e)

  pub Keeps-log_out_everywhere :
      (id : String) (now : ℕ) (ip reason : String)
      → Keeps (IsFollowed service sid start) (log_out_everywhere id now ip reason)
  unfolding log_out_everywhere
  Keeps-log_out_everywhere id now ip reason = search followed_rules

  -- A copy that is still open is revoked.
  Keeps-revoke :
      (now : ℕ) (reason : String) (s : Session)
      → IsCopy service sid start s
      → s.revoked_at ≡ none
      → Keeps (IsFollowed service sid start) (update (save_session (revoked now reason s)))
  Keeps-revoke now reason s copy open_ =
      Keeps-save service sid start _ (λ e. next (copy e) (revocation now reason open_ refl))

  pub Keeps-log_out :
      (token : String) (now : ℕ) (ip : String)
      → Keeps (IsFollowed service sid start) (log_out service token now ip)
  unfolding log_out
  Keeps-log_out token now ip =
      Keeps-with_read service sid start (session_by_token_hash (service.hashing.sha256 token))
        (log_out_of service now ip) λ w h. by_found w h _ refl
    where
      by_found :
          (w : World)
          → IsFollowed service sid start w
          → (o : Option Session) → session_by_token_hash (service.hashing.sha256 token) w.store ≡ o
          → Keeps (IsFollowed service sid start) (log_out_of service now ip o)
      by_found w h none e = Keeps-pure false
      by_found w h (some s) e =
          let end = λ (b : is_some s.revoked_at ≡ false).
            Keeps-revoke now "signed out" s (IsCopy-find _ w s h e)
              (ground (arith, b, Option-cases s.revoked_at)) in
          search (end, followed_rules) depth 16

  -- The loop over sessions that were read, of which those that are ended are open.
  pub Keeps-revoke_some :
      (p : Session → Bool) (now : ℕ) (reason : String) (ss : List Session)
      → ((s : Session) → p s ≡ true → s.revoked_at ≡ none)
      → All (IsCopy service sid start) ss
      → Keeps (IsFollowed service sid start) (revoke_some p now reason ss)
  unfolding revoke_some
  Keeps-revoke_some p now reason [] opens copies = Keeps-pure 0
  Keeps-revoke_some p now reason (s ∷ ss) opens copies =
      let rest = Keeps-revoke_some p now reason ss opens copies.1 in
      Keeps-if _ _ _
        (λ b.
          Keeps-bind _ _ (Keeps-revoke now reason s copies.0 (opens s b))
            (λ _. Keeps-bind _ _ rest (λ n. Keeps-pure (n + 1))))
        (λ _. rest)

  pub copies_for :
      (id : String) (w : World)
      → IsFollowed service sid start w
      → All (IsCopy service sid start) (sessions_for id w.store)
  copies_for id w h = All-of_Occurs (IsCopy service sid start) _ λ s m.
      IsCopy-of_Occurs service sid start w h s ((Occurs-filter _ s (values w.store.sessions) m).0)

  Keeps-end_on_device :
      (id device_id label : String) (now : ℕ) (ip : String) (held : List Session)
      → All (IsCopy service sid start) held
      → Keeps (IsFollowed service sid start) (end_on_device id device_id label now ip held)
  unfolding end_on_device
  Keeps-end_on_device id device_id label now ip held copies =
      let loop =
        Keeps-revoke_some (is_on_device device_id now) now "device signed out" held
          (λ s b. ground (arith, b, Option-cases s.revoked_at)) copies in
      Keeps-bind _ _ loop
        (λ count. Keeps-bind _ _ (Keeps-audit service sid start _) (λ _. Keeps-pure count))

  pub Keeps-revoke_device :
      (id device_id : String) (now : ℕ) (ip : String)
      → Keeps (IsFollowed service sid start) (revoke_device id device_id now ip)
  unfolding revoke_device
  Keeps-revoke_device id device_id now ip =
      let loop = λ (label : String).
        Keeps-with_read service sid start (sessions_for id)
          (end_on_device id device_id label now ip)
          λ w h. Keeps-end_on_device id device_id label now ip _ (copies_for id w h) in
      search (loop, followed_rules)

  pub Keeps-authenticate_live :
      (token : String) (now : ℕ)
      → Keeps (IsFollowed service sid start) (authenticate_live service token now)
  unfolding authenticate_live
  Keeps-authenticate_live token now = search followed_rules
