-- ===== src/Auth/Login/Owner.antt =====
-- Whose session and whose tokens a login hands out.
use clipper_ai.Base.{
  ℕ, ◌≡◌, refl, ◌∙◌, subst, arith, String, Bool, if◌then◌else◌, ◌&&◌, false, not, Option, none,
  some, List, ok, ◌==◌, eq_refl, ok_inj, pure, ◌>>◌, Ensures, Ensures-bind, Ensures-if,
  Ensures-then, Ensures-pure,
}
use clipper_ai.Base.Dict.{lookup, lookup-insert}
use clipper_ai.Auth.Types.{verified, AuthError, Identity, Membership, Session, TokenPair}
use clipper_ai.Auth.Store.{save_session, save_identity, memberships}
use clipper_ai.Auth.Core.{AuthService, World, update, read, draw, clear_limit}
use clipper_ai.Auth.Tokens.{Grant, issue}
use clipper_ai.Auth.Sessions.{
  user_of, role_of, answer, choose_membership, record_device, start_session, new_session,
  token_pair,
}
use clipper_ai.Auth.Challenge.{LoginResult, issue_challenge}
use clipper_ai.Auth.Login.{
  note_cancelled, any_live, provision, entered, enter, challenge, second_step, welcome,
  upgrade_hash, store_identity, welcomed,
}

module _ (service : AuthService) where
  -- The pair is that of a session which stands in the store, belongs to the identity, and has the
  -- hash of the pair's refresh token; its access token is issued for the identity and the session.
  pub record IsPairOf (id : String) (pair : TokenPair) (w : World) : Type 0 where
    pub session : Session
    pub stands : lookup pair.session_id w.store.sessions ≡ some session
    pub owner : session.identity_id ≡ id
    pub grant : Grant
    pub jti : String
    pub at : ℕ
    pub access : pair.access_token ≡ (issue service.issuer jti grant at).0
    pub granted : (grant.identity_id ≡ id) × (grant.session_id ≡ pair.session_id)
    pub token : session.token_hash ≡ service.hashing.sha256 pair.refresh_token

  abbrev pub IsTokensOf : String → Option TokenPair → World → Type 0
  IsTokensOf id none w = Unit
  IsTokensOf id (some pair) w = IsPairOf id pair w

  -- What a login returned is of the identity.
  pub record IsOf (id : String) (r : LoginResult) (w : World) : Type 0 where
    pub named : r.identity.identity_id ≡ id
    pub tokens : IsTokensOf id r.tokens w

  IsPairOf-same :
      (id : String) (pair : TokenPair) (u v : World)
      → v.store.sessions ≡ u.store.sessions
      → IsPairOf id pair u
      → IsPairOf id pair v
  IsPairOf-same id pair u v same p = record {
    session = p.session;
    stands = rw same p.stands;
    owner = p.owner;
    grant = p.grant;
    jti = p.jti;
    at = p.at;
    access = p.access;
    granted = p.granted;
    token = p.token;
  }

  IsPairOf-saved :
      (i : Identity) (m : Option Membership) (now : ℕ) (ip agent device : String) (mfa : Bool)
      (refresh hex : String)
      → let s = new_session service i m now ip agent device mfa refresh hex in
        Ensures
          (IsPairOf i.identity_id)
          (update (save_session s) >> token_pair service i m s refresh now)
  unfolding token_pair
  IsPairOf-saved i m now ip agent device mfa refresh hex =
      let s = new_session service i m now ip agent device mfa refresh hex in
      record {
        result = λ w pair e.
            subst
              (λ (p : TokenPair).
                IsPairOf i.identity_id p
                  ((update (save_session s) >> token_pair service i m s refresh now) w).1)
              (ok_inj e)
              (record {
                session = s;
                stands = ground (
                  arith,
                  eq_refl s.session_id,
                  lookup-insert s.session_id s.session_id s w.store.sessions,
                );
                owner = refl;
                grant = record {
                  identity_id = i.identity_id;
                  email = i.email;
                  tenant_id = s.tenant_id;
                  user_id = user_of m;
                  role = role_of m;
                  session_id = s.session_id;
                };
                jti = service.hex w.drawn;
                at = now;
                access = refl;
                granted = (refl, refl);
                token = refl;
              });
      }

  IsPairOf-start_session :
      (i : Identity) (m : Option Membership) (now : ℕ) (ip agent device : String) (mfa : Bool)
      → Ensures (IsPairOf i.identity_id) (start_session service i m now ip agent device mfa)
  unfolding start_session
  IsPairOf-start_session i m now ip agent device mfa =
      Ensures-bind (if device == "" then pure tt else record_device service i device now ip agent) _
        (λ _. Ensures-bind (draw service.opaque) _ (λ refresh.
          Ensures-bind (draw service.hex) _
            (λ hex. IsPairOf-saved i m now ip agent device mfa refresh hex)))

  IsOf-entered :
      (i : Identity) (address : String) (joined : List Membership) (now : ℕ) (ip agent : String)
      (pair : TokenPair) (u : World)
      → IsPairOf i.identity_id pair u
      → (r : LoginResult) → (entered service i address joined now ip agent pair u).0 ≡ ok r
      → IsOf i.identity_id r (entered service i address joined now ip agent pair u).1
  IsOf-entered i address joined now ip agent pair u p r e =
      let v = (entered service i address joined now ip agent pair u).1 in
      subst (λ (x : LoginResult). IsOf i.identity_id x v) (ok_inj e)
        (record { named = refl; tokens = IsPairOf-same i.identity_id pair u v refl p })

  IsOf-enter :
      (i : Identity) (address tenant : String) (now : ℕ) (ip agent device : String)
      → Ensures (IsOf i.identity_id) (enter service i address tenant now ip agent device)
  unfolding enter
  IsOf-enter i address tenant now ip agent device =
      Ensures-bind (read (memberships i.identity_id)) _ (λ held.
        Ensures-bind
          (if tenant == "" && not (any_live held) then provision service i held else pure held) _
          (λ joined. Ensures-bind (answer (choose_membership joined tenant)) _ (λ chosen.
            Ensures-then _ (entered service i address joined now ip agent)
              (IsPairOf-start_session i chosen now ip agent device false)
              (IsOf-entered i address joined now ip agent))))

  IsOf-challenge :
      (i : Identity) (now : ℕ) (ip : String)
      → Ensures (IsOf i.identity_id) (challenge service i now ip)
  unfolding challenge
  IsOf-challenge i now ip = Ensures-bind (issue_challenge service i now ip) _ (λ owed.
      Ensures-bind (read (memberships i.identity_id)) _ (λ joined.
        Ensures-pure
          (record {
            tokens = none;
            identity = i;
            joined = joined;
            unverified = not (verified i);
            mfa = some owed;
          })
          (λ u. record { named = refl; tokens = tt })))

  IsOf-second_step :
      (i : Identity) (address tenant : String) (now : ℕ) (ip agent device : String)
      → Ensures (IsOf i.identity_id) (second_step service i address tenant now ip agent device)
  unfolding second_step
  IsOf-second_step i address tenant now ip agent device =
      search (Ensures-bind, Ensures-if, IsOf-challenge, IsOf-enter)

  HasId : String → Identity → World → Type 0
  HasId id i w = i.identity_id ≡ id

  HasId-upgrade_hash :
      (password : String) (i : Identity)
      → Ensures (HasId i.identity_id) (upgrade_hash service password i)
  unfolding upgrade_hash HasId
  HasId-upgrade_hash password i =
      let same = λ (hash : String).
        Ensures-pure {E = AuthError} {Q = HasId i.identity_id}
          (record i { password_hash = hash; password_algo = service.config.password_algorithm })
          (λ u. refl) in
      let kept = Ensures-pure {E = AuthError} {Q = HasId i.identity_id} i (λ u. refl) in
      search (Ensures-if, Ensures-bind, same, kept)

  HasId-welcomed : (now : ℕ) (i : Identity) → (welcomed now i).identity_id ≡ i.identity_id
  HasId-welcomed now i = ground arith

  HasId-store_identity :
      (now : ℕ) (i : Identity) → Ensures (HasId i.identity_id) (store_identity now i)
  unfolding store_identity HasId
  HasId-store_identity now i =
      Ensures-bind (update (save_identity now i)) _
        (λ _. Ensures-pure (record i { updated_at = now }) (λ u. refl))

  -- A login that goes on from the identity `i` hands out what belongs to it.
  pub IsOf-welcome :
      (i : Identity) (address password tenant : String) (now : ℕ) (ip agent device : String)
      → Ensures (IsOf i.identity_id) (welcome service i address password tenant now ip agent device)
  unfolding welcome HasId
  IsOf-welcome i address password tenant now ip agent device =
      Ensures-bind (note_cancelled service i address now ip) _ (λ _.
        Ensures-then _ _ (HasId-upgrade_hash password i) (λ up u same r e.
          (Ensures-then {Q = IsOf i.identity_id} _ _ (HasId-store_identity now (welcomed now up))
              (λ j v same' r' e'.
                subst
                  (λ (x : String).
                    IsOf x r'
                      ((clear_limit "login_email" address
                          >> second_step service j address tenant now ip agent device)
                        v).1)
                  (same' ∙ HasId-welcomed now up ∙ same)
                  ((Ensures-bind {Q = IsOf j.identity_id} (clear_limit "login_email" address) _
                      (λ _. IsOf-second_step j address tenant now ip agent device)).result
                    v r' e'))).result
            u r e))
