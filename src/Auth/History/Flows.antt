-- ===== src/Auth/History/Flows.antt =====
-- The other flows keep every session in its history: second factors, login, accounts, passwords
-- and deletion.
use clipper_ai.Base.{
  ℕ, zero, suc, ◌≡◌, refl, String, Bool, Option, none, some, List, [], ◌∷◌, Result, ok, err, Keeps,
  Keeps-bind, Keeps-pure,
}
use clipper_ai.Base.Dict.{Dict}
use clipper_ai.Auth.Types.{
  AuthError, Identity, Session, Membership, VerificationToken, RecoveryCode, MfaFactor,
}
use clipper_ai.Auth.Store.{AuthStore, save_identity}
use clipper_ai.Auth.Core.{AuthService, update, Mail}
use clipper_ai.Auth.Sessions.{answer}
use clipper_ai.Auth.Mfa.{
  begin_enrolment, make_code, make_codes, issue_recovery_codes, confirm_enrolment, disable_mfa,
  regenerate_recovery_codes, send_safely, delete_factors,
}
use clipper_ai.Auth.Challenge.{
  issue_challenge, spend_recovery, spend_found, spend_second_factor, open_session, complete_mfa,
}
use clipper_ai.Auth.Login.{
  store_identity, register_failure, provision_by, upgrade_hash, enter, challenge, second_step,
  welcome, log_in_as, log_in,
}
use clipper_ai.Auth.History.{IsFollowed, Keeps-update, Keeps-update_with}
use clipper_ai.Auth.History.Sessions.{followed_rules, Keeps-start_session}

module _ (service : AuthService) (sid : String) (start : Session) where
  Keeps-answer :
      {A : Type 0} (r : Result AuthError A) → Keeps (IsFollowed service sid start) (answer r)
  Keeps-answer (ok a) = search followed_rules
  Keeps-answer (err e) = search followed_rules

  Keeps-send_safely :
      (now : ℕ) (builder : String → Mail) (o : Option Identity)
      → Keeps (IsFollowed service sid start) (send_safely service now builder o)
  Keeps-send_safely now builder none = search followed_rules
  Keeps-send_safely now builder (some i) = search followed_rules

  delete_factors-sessions :
      (fs : List MfaFactor) (s : AuthStore) → (delete_factors fs s).sessions ≡ s.sessions
  delete_factors-sessions [] s = refl
  delete_factors-sessions (f ∷ fs) s = delete_factors-sessions fs _

  Keeps-delete_factors :
      (fs : List MfaFactor) → Keeps (IsFollowed service sid start) (update (delete_factors fs))
  Keeps-delete_factors fs = Keeps-update service sid start _ (delete_factors-sessions fs)

  pub Keeps-begin_enrolment :
      (id label : String) (now : ℕ) (ip : String)
      → Keeps (IsFollowed service sid start) (begin_enrolment service id label now ip)
  unfolding begin_enrolment
  Keeps-begin_enrolment id label now ip = search (Keeps-delete_factors, followed_rules) depth 16

  Keeps-make_code :
      (id : String) (now : ℕ) → Keeps (IsFollowed service sid start) (make_code service id now)
  unfolding make_code
  Keeps-make_code id now = search followed_rules

  Keeps-make_codes :
      (n : ℕ) (id : String) (now : ℕ)
      → Keeps (IsFollowed service sid start) (make_codes service n id now)
  unfolding make_codes
  Keeps-make_codes zero id now = search followed_rules
  Keeps-make_codes (suc n) id now =
      Keeps-bind _ _ (Keeps-make_code id now)
        λ made. Keeps-bind _ _ (Keeps-make_codes n id now) λ rest. Keeps-pure (made ∷ rest)

  Keeps-issue_recovery_codes :
      (id : String) (now : ℕ)
      → Keeps (IsFollowed service sid start) (issue_recovery_codes service id now)
  unfolding issue_recovery_codes
  Keeps-issue_recovery_codes id now = search (Keeps-make_codes, followed_rules)

  pub Keeps-confirm_enrolment :
      (id factor_id code : String) (now : ℕ) (ip : String)
      → Keeps (IsFollowed service sid start) (confirm_enrolment service id factor_id code now ip)
  unfolding confirm_enrolment
  Keeps-confirm_enrolment id factor_id code now ip =
      search (Keeps-issue_recovery_codes, Keeps-send_safely, followed_rules) depth 20

  pub Keeps-disable_mfa :
      (id : String) (now : ℕ) (ip : String)
      → Keeps (IsFollowed service sid start) (disable_mfa service id now ip)
  unfolding disable_mfa
  Keeps-disable_mfa id now ip =
      search (Keeps-delete_factors, Keeps-send_safely, followed_rules) depth 16

  pub Keeps-regenerate :
      (id : String) (now : ℕ) (ip : String)
      → Keeps (IsFollowed service sid start) (regenerate_recovery_codes service id now ip)
  unfolding regenerate_recovery_codes
  Keeps-regenerate id now ip = search (Keeps-issue_recovery_codes, followed_rules)

  Keeps-issue_challenge :
      (i : Identity) (now : ℕ) (ip : String)
      → Keeps (IsFollowed service sid start) (issue_challenge service i now ip)
  unfolding issue_challenge
  Keeps-issue_challenge i now ip = search followed_rules depth 20

  Keeps-spend_recovery :
      (i : Identity) (now : ℕ) (ip : String) (o : Option RecoveryCode)
      → Keeps (IsFollowed service sid start) (spend_recovery service i now ip o)
  unfolding spend_recovery
  Keeps-spend_recovery i now ip none = search followed_rules
  Keeps-spend_recovery i now ip (some c) = search (Keeps-send_safely, followed_rules) depth 16

  Keeps-spend_found :
      (i : Identity) (code : String) (now : ℕ) (ip : String) (o : Option (MfaFactor × ℕ))
      → Keeps (IsFollowed service sid start) (spend_found service i code now ip o)
  unfolding spend_found
  Keeps-spend_found i code now ip none = search (Keeps-spend_recovery, followed_rules)
  Keeps-spend_found i code now ip (some (f, n)) = search followed_rules

  Keeps-spend_second_factor :
      (i : Identity) (code : String) (now : ℕ) (ip : String)
      → Keeps (IsFollowed service sid start) (spend_second_factor service i code now ip)
  unfolding spend_second_factor
  Keeps-spend_second_factor i code now ip = search (Keeps-spend_found, followed_rules)

  Keeps-open_session :
      (t : VerificationToken) (i : Identity) (b : Bool) (tenant : String) (now : ℕ)
      (ip agent device : String)
      → Keeps (IsFollowed service sid start) (open_session service t i b tenant now ip agent device)
  unfolding open_session
  Keeps-open_session t i b tenant now ip agent device =
      search (Keeps-start_session, Keeps-answer, followed_rules) depth 20

  pub Keeps-complete_mfa :
      (token code tenant : String) (now : ℕ) (ip agent device : String)
      → Keeps
          (IsFollowed service sid start)
          (complete_mfa service token code tenant now ip agent device)
  unfolding complete_mfa
  Keeps-complete_mfa token code tenant now ip agent device =
      search (Keeps-open_session, Keeps-spend_second_factor, followed_rules) depth 20

  pub Keeps-store_identity :
      (now : ℕ) (i : Identity) → Keeps (IsFollowed service sid start) (store_identity now i)
  unfolding store_identity save_identity
  Keeps-store_identity now i = search followed_rules

  Keeps-register_failure :
      (i : Identity) (now : ℕ) (ip agent : String)
      → Keeps (IsFollowed service sid start) (register_failure service i now ip agent)
  unfolding register_failure save_identity
  Keeps-register_failure i now ip agent = search followed_rules

  Keeps-provision_by :
      (o : Option (Identity → Dict (List Membership) → Bool × Dict (List Membership)))
      (i : Identity) (held : List Membership)
      → Keeps (IsFollowed service sid start) (provision_by service o i held)
  Keeps-provision_by none i held = search followed_rules
  Keeps-provision_by (some p) i held = search (Keeps-update_with, followed_rules)

  Keeps-upgrade_hash :
      (password : String) (i : Identity)
      → Keeps (IsFollowed service sid start) (upgrade_hash service password i)
  unfolding upgrade_hash
  Keeps-upgrade_hash password i = search followed_rules

  Keeps-enter :
      (i : Identity) (address tenant : String) (now : ℕ) (ip agent device : String)
      → Keeps (IsFollowed service sid start) (enter service i address tenant now ip agent device)
  unfolding enter
  Keeps-enter i address tenant now ip agent device =
      search (Keeps-start_session, Keeps-answer, Keeps-provision_by, followed_rules) depth 20

  Keeps-challenge :
      (i : Identity) (now : ℕ) (ip : String)
      → Keeps (IsFollowed service sid start) (challenge service i now ip)
  unfolding challenge
  Keeps-challenge i now ip = search (Keeps-issue_challenge, followed_rules)

  Keeps-welcome :
      (i : Identity) (address password tenant : String) (now : ℕ) (ip agent device : String)
      → Keeps
          (IsFollowed service sid start)
          (welcome service i address password tenant now ip agent device)
  unfolding welcome second_step
  Keeps-welcome i address password tenant now ip agent device =
      search
        (Keeps-enter, Keeps-challenge, Keeps-store_identity, Keeps-upgrade_hash, followed_rules)
        depth 20

  Keeps-log_in_as :
      (address password tenant : String) (now : ℕ) (ip agent device : String) (o : Option Identity)
      → Keeps
          (IsFollowed service sid start)
          (log_in_as service address password tenant now ip agent device o)
  unfolding log_in_as
  Keeps-log_in_as address password tenant now ip agent device none = search followed_rules
  Keeps-log_in_as address password tenant now ip agent device (some i) =
      search (Keeps-welcome, Keeps-register_failure, followed_rules) depth 16

  pub Keeps-log_in :
      (email password tenant : String) (now : ℕ) (ip agent device : String)
      → Keeps
          (IsFollowed service sid start)
          (log_in service email password tenant now ip agent device)
  unfolding log_in
  Keeps-log_in email password tenant now ip agent device = search (Keeps-log_in_as, followed_rules)
