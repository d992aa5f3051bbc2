-- ===== src/Auth/Login/Refusals.antt =====
-- Who is signed in, and what the others are told.
use clipper_ai.Base.{
  ℕ, ◌+◌, leb, ◌≡◌, refl, sym, subst, ◌⊎◌, inl, inr, String, Bool, true, false, ◌&&◌, Option, none,
  some, Bool-cases, Result, ok, err, raise, ◌>>◌,
}
use clipper_ai.Base.Text.{text_or}
use clipper_ai.Auth.Types.{
  AuthError, invalid_credentials, Identity, is_locked, is_deleted, is_pending,
}
use clipper_ai.Auth.Passwords.{verify_password}
use clipper_ai.Auth.Store.{identity_by_email, save_identity}
use clipper_ai.Auth.Core.{AuthService, World, limit, normalise_email}
use clipper_ai.Auth.Challenge.{LoginResult}
use clipper_ai.Auth.Login.{log_in, log_in_as, register_failure}

module _ (service : AuthService) where
  abbrev pub has_password : String → Identity → Bool
  has_password password i = verify_password service.unicode service.hashing password i.password_hash

  -- An identity that may sign in with a password.
  pub record IsAuthentic (password : String) (now : ℕ) (i : Identity) : Type 0 where
    pub knows : has_password password i ≡ true
    pub unlocked : is_locked now i ≡ false
    pub not_deleted : is_deleted i.status ≡ false
    pub confirmed : (is_pending i.status && service.config.require_verified_email) ≡ false

  -- An address without an account, and an account that is not locked but is deleted or has another
  -- password.
  abbrev pub IsUnknown : String → ℕ → Option Identity → Type 0
  IsUnknown password now none = Unit
  IsUnknown password now (some i) =
      (is_locked now i ≡ false) × ((is_deleted i.status ≡ true) ⊎ (has_password password i ≡ false))

  module _ (email password tenant : String) (now : ℕ) (ip agent device : String)
      (w w1 w2 : World) where
    log_in-as :
        limit service "login_ip"
            (text_or ip "anonymous")
            now
            ip
            (normalise_email service.unicode email)
            w
          ≡ (ok tt, w1)
        → limit service "login_email"
            (normalise_email service.unicode email)
            now
            ip
            (normalise_email service.unicode email)
            w1
          ≡ (ok tt, w2)
        → log_in service email password tenant now ip agent device w
          ≡ log_in_as service
              (normalise_email service.unicode email)
              password
              tenant
              now
              ip
              agent
              device
              (identity_by_email
                (normalise_email service.unicode)
                (normalise_email service.unicode email)
                w2.store)
              w2
    unfolding log_in
    log_in-as l1 l2 = rw l1 (rw l2 refl)

  failure_refused :
      (i : Identity) (now : ℕ) (ip agent : String) (w : World)
      → (((register_failure service i now ip agent >> raise {A = LoginResult} invalid_credentials)
            w).0
          ≡ err invalid_credentials)
        × (((register_failure service i now ip agent >> raise {A = LoginResult} invalid_credentials)
              w).1.store.sessions
            ≡ w.store.sessions)
  unfolding register_failure save_identity
  failure_refused i now ip agent w =
      elim (Bool-cases (leb service.config.max_failed_attempts (i.failed_attempts + 1))) [
        | inl b ↦ rw b (refl, refl)
        | inr b ↦ rw b (refl, refl)
      ]

  refused_as :
      (address password tenant : String) (now : ℕ) (ip agent device : String) (o : Option Identity)
      (w : World)
      → IsUnknown password now o
      → ((log_in_as service address password tenant now ip agent device o w).0
          ≡ err invalid_credentials)
        × ((log_in_as service address password tenant now ip agent device o w).1.store.sessions
            ≡ w.store.sessions)
  unfolding log_in_as
  refused_as address password tenant now ip agent device none w u = (refl, refl)
  refused_as address password tenant now ip agent device (some i) w (l, inl d) =
      rw l (rw d (refl, refl))
  refused_as address password tenant now ip agent device (some i) w (l, inr p) =
      elim (Bool-cases (is_deleted i.status)) [
        | inl d ↦ rw l (rw d (refl, refl))
        | inr d ↦ rw l (rw d (rw p (failure_refused i now ip agent w)))
      ]

  module _ (email password tenant : String) (now : ℕ) (ip agent device : String) (w w1 w2 : World)
      (l1 : limit service "login_ip"
          (text_or ip "anonymous")
          now
          ip
          (normalise_email service.unicode email)
          w
        ≡ (ok tt, w1))
      (l2 : limit service "login_email"
          (normalise_email service.unicode email)
          now
          ip
          (normalise_email service.unicode email)
          w1
        ≡ (ok tt, w2)) where
    -- Once both rate limits let it through, an address without an account, and an account that is not
    -- locked but is deleted or has another password, are refused by the same error, and start no
    -- session.
    pub log_in-refused :
        IsUnknown password now (
          identity_by_email
            (normalise_email service.unicode)
            (normalise_email service.unicode email)
            w2.store)
        → ((log_in service email password tenant now ip agent device w).0 ≡ err invalid_credentials)
          × ((log_in service email password tenant now ip agent device w).1.store.sessions
              ≡ w2.store.sessions)
    log_in-refused u =
        subst
          (λ (x : Result AuthError LoginResult × World).
            (x.0 ≡ err invalid_credentials) × (x.1.store.sessions ≡ w2.store.sessions))
          (sym (log_in-as email password tenant now ip agent device w w1 w2 l1 l2))
          (refused_as (normalise_email service.unicode email) password tenant now ip agent device _
            w2 u)
