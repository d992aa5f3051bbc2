-- ===== src/Auth/Sessions/Rotation.antt =====
-- What a refresh that succeeds was given, and what it leaves.
use clipper_ai.Base.{
  ℕ, ◌+◌, ◌≡◌, refl, sym, subst, arith, String, true, false, not, some, ◌==◌, eq_iff, eq_refl,
  ok_inj, Result, ok, Ensures, Ensures-bind, Ensures-if, Ensures-raise,
}
use clipper_ai.Base.Dict.{lookup, values, IsKeyed, lookup-insert}
use clipper_ai.Base.Text.{text_or}
use clipper_ai.Auth.Types.{AuthError, Identity, Session, TokenPair, is_live}
use clipper_ai.Auth.Store.{Occurs-find, holds_hash, session_by_token_hash}
use clipper_ai.Auth.Core.{AuthService, World, limit}
use clipper_ai.Auth.Sessions.{
  refresh, refresh_row, rotate_session, hand_out, token_pair, detect_reuse, rotate,
}
use clipper_ai.Auth.History.{session_key}
use clipper_ai.Auth.Revoking.Ended.{refresh-found}

module _ (service : AuthService) (now : ℕ) where
  -- The session `s` is live, and is saved with the hash of the pair's refresh token for its token,
  -- the one it had before for the previous token, and one rotation more.
  pub record IsRotated (s : Session) (pair : TokenPair) (w : World) : Type 0 where
    pub live : is_live now s ≡ true
    pub of_session : pair.session_id ≡ s.session_id
    pub after : Session
    pub saved : lookup s.session_id w.store.sessions ≡ some after
    pub token : after.token_hash ≡ service.hashing.sha256 pair.refresh_token
    pub previous : after.previous_hash ≡ s.token_hash
    pub counted : after.rotations ≡ s.rotations + 1

  Ensures-hand_out :
      (i : Identity) (s : Session) (token ip : String)
      → is_live now s ≡ true
      → Ensures (IsRotated s) (hand_out service i s token now ip)
  unfolding hand_out token_pair
  Ensures-hand_out i s token ip live = record {
    result = λ w pair e.
        subst (λ (p : TokenPair). IsRotated s p (hand_out service i s token now ip w).1) (ok_inj e)
          (record {
            live = live;
            of_session = refl;
            after = rotate service now token s;
            token = refl;
            previous = refl;
            counted = refl;
            saved = ground (
              arith,
              eq_refl s.session_id,
              lookup-insert s.session_id s.session_id (rotate service now token s) w.store.sessions,
            );
          });
  }

  Ensures-rotate_session :
      (s : Session) (ip agent : String)
      → Ensures (IsRotated s) (rotate_session service s now ip agent)
  unfolding rotate_session
  Ensures-rotate_session s ip agent =
      let hand = λ (i : Identity) (token : String) (live : not (is_live now s) ≡ false).
        Ensures-hand_out i s token ip (ground (arith, live)) in
      search (hand, Ensures-bind, Ensures-if, Ensures-raise) depth 16

  -- A replay returns nothing.
  Ensures-detect_reuse :
      {Q : TokenPair → World → Type 0} (s : Session) (ip agent : String)
      → Ensures Q (detect_reuse service s now ip agent)
  unfolding detect_reuse
  Ensures-detect_reuse s ip agent = search (Ensures-bind, Ensures-raise)

  Ensures-refresh_row :
      (presented ip agent : String) (s : Session)
      → holds_hash presented s ≡ true
      → Ensures
          (λ (pair : TokenPair) (w : World).
            ((presented == s.token_hash) ≡ true) × IsRotated s pair w)
          (refresh_row service presented now ip agent s)
  unfolding refresh_row
  Ensures-refresh_row presented ip agent s held =
      Ensures-if _ _ _ (λ _. Ensures-detect_reuse s ip agent)
        λ fresh. record {
          result = λ w pair e. (
            ground (arith, fresh, held, eq_iff presented s.previous_hash),
            (Ensures-rotate_session s ip agent).result w pair e,
          );
        }

  -- A refresh that succeeds was given the present token of a live session, and saves it with the
  -- hash of the token that it hands out, the one before kept beside it, and one rotation more, if
  -- the rate limit lets it through and the sessions are kept under their own ids.
  pub refresh-IsRotated :
      (token ip agent : String) (w w' : World) (s : Session) (pair : TokenPair)
      → limit service "refresh" (text_or ip "anonymous") now ip "" w ≡ (ok tt, w')
      → IsKeyed session_key w'.store.sessions
      → session_by_token_hash (service.hashing.sha256 token) w'.store ≡ some s
      → (refresh service token now ip agent w).0 ≡ ok pair
      → ((service.hashing.sha256 token == s.token_hash) ≡ true)
        × IsRotated s pair (refresh service token now ip agent w).1
  unfolding refresh_row
  refresh-IsRotated token ip agent w w' s pair l keyed e answered =
      let presented = service.hashing.sha256 token in
      let row = refresh-found service token now ip agent w w' s l keyed e in
      let held = (Occurs-find (holds_hash presented) s (values w'.store.sessions) e).1 in
      subst
        (λ (r : Result AuthError TokenPair × World).
          ((presented == s.token_hash) ≡ true) × IsRotated s pair r.1)
        (sym row)
        ((Ensures-refresh_row presented ip agent s held).result w' pair
          (subst (λ (r : Result AuthError TokenPair × World). r.0 ≡ ok pair) row answered))
