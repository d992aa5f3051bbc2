-- ===== src/Auth/History/Accounts.antt =====
-- Accounts, passwords and deletion keep every session in its history.
use clipper_ai.Base.{
  ℕ, arith, String, Option, none, some, List, [], ◌∷◌, is_some, All, inl, inr, Bool-cases,
  Option-cases, Keeps, Keeps-bind, Keeps-pure,
}
use clipper_ai.Base.Dict.{lookup}
use clipper_ai.Auth.Types.{Identity, Session, TokenKind}
use clipper_ai.Auth.Store.{create_identity, save_identity, put_membership, sessions_for}
use clipper_ai.Auth.Core.{AuthService, normalise_email}
use clipper_ai.Auth.Accounts.{
  issue_token, issue_verification, spend_token, register_new, welcome_new, sign_up, resend_to,
  resend_verification, verify_email,
}
use clipper_ai.Auth.Credentials.{
  request_reset_of, request_password_reset, finish_reset, reset_password, check_password,
  tell_changed, end_others, change_password, is_other_open,
}
use clipper_ai.Auth.Deletion.{
  purge_one, purge_all, purge_due, cancel_deletion, add_membership, request_deletion,
}
use clipper_ai.Auth.History.{IsFollowed, IsCopy, quiet, Keeps-with_read}
use clipper_ai.Auth.History.Sessions.{
  followed_rules, Keeps-log_out_everywhere, Keeps-revoke_some, copies_for,
}
use clipper_ai.Auth.History.Flows.{Keeps-store_identity}

module _ (service : AuthService) (sid : String) (start : Session) where
  Keeps-issue_token :
      (kind : TokenKind) (ttl_s : ℕ) (id : String) (now : ℕ) (ip : String)
      → Keeps (IsFollowed service sid start) (issue_token service kind ttl_s id now ip)
  unfolding issue_token
  Keeps-issue_token kind ttl_s id now ip = search followed_rules depth 16

  Keeps-issue_verification :
      (i : Identity) (now : ℕ) (ip : String)
      → Keeps (IsFollowed service sid start) (issue_verification service i now ip)
  unfolding issue_verification
  Keeps-issue_verification i now ip = search (Keeps-issue_token, followed_rules)

  Keeps-spend_token :
      (token : String) (kind : TokenKind) (now : ℕ)
      → Keeps (IsFollowed service sid start) (spend_token service token kind now)
  unfolding spend_token
  Keeps-spend_token token kind now = search followed_rules depth 16

  Keeps-register_new :
      (i : Identity) → Keeps (IsFollowed service sid start) (register_new service i)
  unfolding register_new create_identity
  Keeps-register_new i = record {
    at = λ w h.
        elim (Bool-cases
          (is_some (lookup (normalise_email service.unicode i.email) w.store.by_email))) [
            | inl b ↦ quiet service sid start w _ (ground (arith, b)) (ground (arith, b)) h
            | inr b ↦ quiet service sid start w _ (ground (arith, b)) (ground (arith, b)) h
          ];
  }

  Keeps-welcome_new :
      (address : String) (now : ℕ) (ip agent : String) (o : Option Identity)
      → Keeps (IsFollowed service sid start) (welcome_new service address now ip agent o)
  unfolding welcome_new
  Keeps-welcome_new address now ip agent none = search followed_rules
  Keeps-welcome_new address now ip agent (some i) =
      search (Keeps-issue_verification, followed_rules)

  pub Keeps-sign_up :
      (email password : String) (now : ℕ) (ip agent : String)
      → Keeps (IsFollowed service sid start) (sign_up service email password now ip agent)
  unfolding sign_up
  Keeps-sign_up email password now ip agent =
      search (Keeps-register_new, Keeps-welcome_new, followed_rules) depth 20

  Keeps-resend_to :
      (now : ℕ) (ip address : String) (o : Option Identity)
      → Keeps (IsFollowed service sid start) (resend_to service now ip address o)
  Keeps-resend_to now ip address none = search followed_rules
  Keeps-resend_to now ip address (some i) = search (Keeps-issue_verification, followed_rules)

  pub Keeps-resend_verification :
      (email : String) (now : ℕ) (ip : String)
      → Keeps (IsFollowed service sid start) (resend_verification service email now ip)
  unfolding resend_verification
  Keeps-resend_verification email now ip = search (Keeps-resend_to, followed_rules)

  pub Keeps-verify_email :
      (token : String) (now : ℕ) (ip : String)
      → Keeps (IsFollowed service sid start) (verify_email service token now ip)
  unfolding verify_email
  Keeps-verify_email token now ip =
      search (Keeps-spend_token, Keeps-store_identity, followed_rules) depth 20

  Keeps-request_reset_of :
      (address : String) (now : ℕ) (ip : String) (o : Option Identity)
      → Keeps (IsFollowed service sid start) (request_reset_of service address now ip o)
  Keeps-request_reset_of address now ip none = search followed_rules
  Keeps-request_reset_of address now ip (some i) = search (Keeps-issue_token, followed_rules)

  pub Keeps-request_password_reset :
      (email : String) (now : ℕ) (ip : String)
      → Keeps (IsFollowed service sid start) (request_password_reset service email now ip)
  unfolding request_password_reset
  Keeps-request_password_reset email now ip = search (Keeps-request_reset_of, followed_rules)

  Keeps-finish_reset :
      (i : Identity) (hash : String) (now : ℕ) (ip : String)
      → Keeps (IsFollowed service sid start) (finish_reset service i hash now ip)
  unfolding finish_reset
  Keeps-finish_reset i hash now ip =
      search (Keeps-store_identity, Keeps-log_out_everywhere, followed_rules) depth 20

  pub Keeps-reset_password :
      (token password : String) (now : ℕ) (ip : String)
      → Keeps (IsFollowed service sid start) (reset_password service token password now ip)
  unfolding reset_password
  Keeps-reset_password token password now ip =
      search (Keeps-spend_token, Keeps-finish_reset, followed_rules) depth 20

  pub Keeps-check_password :
      (id password : String) (now : ℕ) (ip : String)
      → Keeps (IsFollowed service sid start) (check_password service id password now ip)
  unfolding check_password
  Keeps-check_password id password now ip = search followed_rules depth 16

  Keeps-tell_changed :
      (id : String) (i : Identity) (now : ℕ) (ip : String) (count : ℕ)
      → Keeps (IsFollowed service sid start) (tell_changed service id i now ip count)
  unfolding tell_changed
  Keeps-tell_changed id i now ip count = search followed_rules

  Keeps-end_others :
      (id : String) (i : Identity) (keep : String) (now : ℕ) (ip : String) (held : List Session)
      → All (IsCopy service sid start) held
      → Keeps (IsFollowed service sid start) (end_others service id i keep now ip held)
  unfolding end_others
  Keeps-end_others id i keep now ip held copies =
      let loop =
        Keeps-revoke_some service sid start (is_other_open service keep) now "password changed" held
          (λ s b. ground (arith, b, Option-cases s.revoked_at)) copies in
      Keeps-bind _ _ loop (Keeps-tell_changed id i now ip)

  pub Keeps-change_password :
      (id current password keep : String) (now : ℕ) (ip : String)
      → Keeps
          (IsFollowed service sid start)
          (change_password service id current password keep now ip)
  unfolding change_password
  Keeps-change_password id current password keep now ip =
      let loop = λ (i : Identity).
        Keeps-with_read service sid start (sessions_for id) (end_others service id i keep now ip)
          λ w h. Keeps-end_others id i keep now ip _ (copies_for service sid start id w h) in
      search (loop, Keeps-store_identity, followed_rules) depth 24

  Keeps-purge_one :
      (now : ℕ) (i : Identity) → Keeps (IsFollowed service sid start) (purge_one now i)
  unfolding purge_one save_identity
  Keeps-purge_one now i = search followed_rules

  Keeps-purge_all :
      (now : ℕ) (is : List Identity) → Keeps (IsFollowed service sid start) (purge_all now is)
  unfolding purge_all
  Keeps-purge_all now [] = Keeps-pure []
  Keeps-purge_all now (i ∷ is) =
      Keeps-bind _ _ (Keeps-purge_one now i)
        λ _. Keeps-bind _ _ (Keeps-purge_all now is) λ rest. Keeps-pure (i.identity_id ∷ rest)

  pub Keeps-purge_due : (now : ℕ) → Keeps (IsFollowed service sid start) (purge_due now)
  unfolding purge_due
  Keeps-purge_due now = search (Keeps-purge_all, followed_rules)

  pub Keeps-cancel_deletion :
      (id : String) (now : ℕ) (ip : String)
      → Keeps (IsFollowed service sid start) (cancel_deletion id now ip)
  unfolding cancel_deletion
  Keeps-cancel_deletion id now ip = search (Keeps-store_identity, followed_rules) depth 16

  pub Keeps-add_membership :
      (id tenant user role name : String)
      → Keeps (IsFollowed service sid start) (add_membership id tenant user role name)
  unfolding add_membership put_membership
  Keeps-add_membership id tenant user role name = search followed_rules depth 16

  pub Keeps-request_deletion :
      (day : ℕ → String) (id : String) (now : ℕ) (ip : String)
      → Keeps (IsFollowed service sid start) (request_deletion service day id now ip)
  unfolding request_deletion
  Keeps-request_deletion day id now ip =
      search (Keeps-store_identity, Keeps-log_out_everywhere, followed_rules) depth 24
