-- ===== src/Auth/Login/SecondFactor.antt =====
-- A password alone does not sign in where a second factor is owed.
use clipper_ai.Base.{
  ℕ, ◌≡◌, refl, sym, ap, ◌∙◌, subst, String, ◌==◌, filter, Bool, true, false, not, Option, none,
  some, is_some, List, if◌then◌else◌, ok_inj, Result, ok, err, modify, Keeps, Keeps-bind, Keeps-if,
  Keeps-pure, Keeps-raise, Ensures, Ensures-bind, Ensures-if, Ensures-raise, Ensures-pure,
}
use clipper_ai.Base.Dict.{Dict, values}
use clipper_ai.Auth.Types.{AuthError, AuthEvent, Identity, Membership, MfaFactor, is_confirmed}
use clipper_ai.Auth.Store.{AuthStore}
use clipper_ai.Auth.Core.{
  AuthService, World, Mail, read, update, update_with, draw, audit, post_mail, send,
}
use clipper_ai.Auth.Sessions.{answer, record_device, start_session, token_pair}
use clipper_ai.Auth.Mfa.{mfa_required, is_empty}
use clipper_ai.Auth.Challenge.{LoginResult, issue_challenge}
use clipper_ai.Auth.Login.{provision_by, enter, challenge, second_step, welcome, log_in_as, log_in}

module _ (rows : Dict MfaFactor) where
  -- The table of the factors is `rows`.
  abbrev HasFactors : World → Type 0
  HasFactors w = w.store.factors ≡ rows

  factors_update :
      (f : AuthStore → AuthStore)
      → ((s : AuthStore) → (f s).factors ≡ s.factors)
      → Keeps HasFactors (update f)
  factors_update f e = record { at = λ w h. e w.store ∙ h }

  factors_update_with :
      {A : Type 0} (f : AuthStore → A × AuthStore)
      → ((s : AuthStore) → (f s).1.factors ≡ s.factors)
      → Keeps HasFactors (update_with f)
  factors_update_with f e = record { at = λ w h. e w.store ∙ h }

  factors_read : {A : Type 0} (f : AuthStore → A) → Keeps HasFactors (read f)
  factors_read f = record { at = λ w h. h }

  factors_draw : {A : Type 0} (f : ℕ → A) → Keeps HasFactors (draw f)
  factors_draw f = record { at = λ w h. h }

  factors_answer : {A : Type 0} (r : Result AuthError A) → Keeps HasFactors (answer r)
  factors_answer (ok a) = record { at = λ w h. h }
  factors_answer (err e) = record { at = λ w h. h }

  factors_audit : (e : AuthEvent) → Keeps HasFactors (audit e)
  factors_audit e = search factors_update

  factors_post : (m : Mail) → Keeps {E = AuthError} HasFactors (modify (post_mail m))
  factors_post m = record { at = λ w h. h }

  ruleset factor_rules = (
    Keeps-bind, Keeps-if, Keeps-pure, Keeps-raise, factors_update, factors_read, factors_draw,
    factors_answer, factors_audit, factors_post,
  )

  module _ (service : AuthService) where
    factors_send : (now : ℕ) (m : Mail) → Keeps HasFactors (send service now m)
    unfolding send
    factors_send now m = search factor_rules

    factors_start_session :
        (i : Identity) (m : Option Membership) (now : ℕ) (ip agent device : String) (mfa : Bool)
        → Keeps HasFactors (start_session service i m now ip agent device mfa)
    unfolding start_session record_device token_pair
    factors_start_session i m now ip agent device mfa = search (factors_send, factor_rules) depth 20

    factors_provision :
        (o : Option (Identity → Dict (List Membership) → Bool × Dict (List Membership)))
        (i : Identity) (held : List Membership)
        → Keeps HasFactors (provision_by service o i held)
    factors_provision none i held = search factor_rules
    factors_provision (some p) i held = search (factors_update_with, factor_rules)

    factors_enter :
        (i : Identity) (address tenant : String) (now : ℕ) (ip agent device : String)
        → Keeps HasFactors (enter service i address tenant now ip agent device)
    unfolding enter
    factors_enter i address tenant now ip agent device =
        search (factors_start_session, factors_provision, factor_rules) depth 20

module _ (service : AuthService) where
  -- Tokens are given only where no factor is owed, and a challenge is given otherwise.
  abbrev pub IsPassed : LoginResult → World → Type 0
  IsPassed r w =
      (is_some r.mfa ≡ not (is_some r.tokens))
      × (mfa_required r.identity.identity_id w.store ≡ is_some r.mfa)

  -- `mfa_required` on the table alone.
  abbrev owes : String → Dict MfaFactor → Bool
  owes id rows = not (
      is_empty
        (filter is_confirmed (filter (λ (f : MfaFactor). f.identity_id == id) (values rows))))

  Ensures-challenge :
      (i : Identity) (now : ℕ) (ip : String) (w : World) (r : LoginResult)
      → mfa_required i.identity_id w.store ≡ true
      → (challenge service i now ip w).0 ≡ ok r
      → IsPassed r (challenge service i now ip w).1
  unfolding challenge issue_challenge
  Ensures-challenge i now ip w r owed e =
      subst (λ (x : LoginResult). IsPassed x (challenge service i now ip w).1) (ok_inj e)
        (refl, owed)

  Ensures-enter :
      (i : Identity) (address tenant : String) (now : ℕ) (ip agent device : String)
      → Ensures
          (λ (r : LoginResult) (w : World).
            (r.identity ≡ i) × (is_some r.tokens ≡ true) × (is_some r.mfa ≡ false))
          (enter service i address tenant now ip agent device)
  unfolding enter
  Ensures-enter i address tenant now ip agent device = search (Ensures-bind, Ensures-pure) depth 12

  Ensures-second_step :
      (i : Identity) (address tenant : String) (now : ℕ) (ip agent device : String)
      → Ensures IsPassed (second_step service i address tenant now ip agent device)
  unfolding second_step
  Ensures-second_step i address tenant now ip agent device = record {
    result = λ w r. step w r (mfa_required i.identity_id w.store) refl;
  }
    where
      step :
          (w : World) (r : LoginResult) (owed : Bool)
          → mfa_required i.identity_id w.store ≡ owed
          → ((if owed
                then challenge service i now ip
                else enter service i address tenant now ip agent device)
              w).0
            ≡ ok r
          → IsPassed r
              ((if owed
                  then challenge service i now ip
                  else enter service i address tenant now ip agent device)
                w).1
      step w r true b e = Ensures-challenge i now ip w r b e
      step w r false b e =
          let (same, given, open_) =
            (Ensures-enter i address tenant now ip agent device).result w r e in
          let rows =
            (factors_enter w.store.factors service i address tenant now ip agent device).at w
              refl in
          let after = (enter service i address tenant now ip agent device w).1 in
          (
            open_ ∙ sym (ap not given),
            ap (λ (j : Identity). mfa_required j.identity_id after.store) same
                ∙ (ap (owes i.identity_id) rows ∙ (b ∙ sym open_)),
          )

  Ensures-welcome :
      (i : Identity) (address password tenant : String) (now : ℕ) (ip agent device : String)
      → Ensures IsPassed (welcome service i address password tenant now ip agent device)
  unfolding welcome
  Ensures-welcome i address password tenant now ip agent device =
      search (Ensures-bind, Ensures-second_step) depth 12

  Ensures-log_in_as :
      (address password tenant : String) (now : ℕ) (ip agent device : String) (o : Option Identity)
      → Ensures IsPassed (log_in_as service address password tenant now ip agent device o)
  unfolding log_in_as
  Ensures-log_in_as address password tenant now ip agent device none =
      search (Ensures-bind, Ensures-raise)
  Ensures-log_in_as address password tenant now ip agent device (some i) =
      search (Ensures-if, Ensures-welcome, Ensures-bind, Ensures-raise) depth 12

  Ensures-log_in :
      (email password tenant : String) (now : ℕ) (ip agent device : String)
      → Ensures IsPassed (log_in service email password tenant now ip agent device)
  unfolding log_in
  Ensures-log_in email password tenant now ip agent device =
      search (Ensures-bind, Ensures-log_in_as)

  -- A login that returns gives tokens exactly if the identity has no confirmed factor, and a
  -- challenge exactly if it has one.
  pub log_in-IsPassed :
      (email password tenant : String) (now : ℕ) (ip agent device : String) (w : World)
      (r : LoginResult)
      → (log_in service email password tenant now ip agent device w).0 ≡ ok r
      → IsPassed r (log_in service email password tenant now ip agent device w).1
  log_in-IsPassed email password tenant now ip agent device =
      (Ensures-log_in email password tenant now ip agent device).result
