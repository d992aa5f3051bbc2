-- ===== src/Auth/History/Calls.antt =====
-- Histories of calls: what becomes of one session over all of them.
use clipper_ai.Base.{
  ◌⊎◌, inl, inr, ℕ, ◌≤◌, ◌≡◌, refl, sym, ap, ◌∙◌, subst, min, arith, String, true, false, Option,
  none, some, some_inj, List, [], ◌∷◌, ◌==◌, is_some,
}
use clipper_ai.Base.Dict.{lookup, IsKeyed}
use clipper_ai.Base.Text.{◌⧺◌}
use clipper_ai.Auth.Types.{Session}
use clipper_ai.Auth.Core.{AuthService, World}
use clipper_ai.Auth.Sessions.{refresh, ceiling}
use clipper_ai.Auth.Revoking.{log_out_everywhere, revoke_device, log_out, authenticate_live}
use clipper_ai.Auth.Mfa.{begin_enrolment, confirm_enrolment, disable_mfa, regenerate_recovery_codes}
use clipper_ai.Auth.Challenge.{complete_mfa}
use clipper_ai.Auth.Login.{log_in}
use clipper_ai.Auth.Accounts.{sign_up, resend_verification, verify_email}
use clipper_ai.Auth.Credentials.{
  request_password_reset, reset_password, check_password, change_password,
}
use clipper_ai.Auth.Deletion.{purge_due, cancel_deletion, add_membership, request_deletion}
use clipper_ai.Auth.History.{session_key, rotation, revocation, Evolves, here, next, IsFollowed}
use clipper_ai.Auth.History.Sessions.{
  Keeps-refresh, Keeps-log_out_everywhere, Keeps-revoke_device, Keeps-log_out,
  Keeps-authenticate_live,
}
use clipper_ai.Auth.History.Flows.{
  Keeps-begin_enrolment, Keeps-confirm_enrolment, Keeps-disable_mfa, Keeps-regenerate,
  Keeps-complete_mfa, Keeps-log_in,
}
use clipper_ai.Auth.History.Accounts.{
  Keeps-sign_up, Keeps-resend_verification, Keeps-verify_email, Keeps-request_password_reset,
  Keeps-reset_password, Keeps-check_password, Keeps-change_password, Keeps-purge_due,
  Keeps-cancel_deletion, Keeps-add_membership, Keeps-request_deletion,
}

-- The public methods of `AuthService` that may change the store, with their arguments.
pub data Call : Type 0 where
  signs_up : (email password : String) (now : ℕ) (ip user_agent : String) → Call
  resends : (email : String) (now : ℕ) (ip : String) → Call
  verifies : (token : String) (now : ℕ) (ip : String) → Call
  logs_in : (email password tenant_id : String) (now : ℕ) (ip user_agent device_id : String) → Call
  completes : (token code tenant_id : String) (now : ℕ) (ip user_agent device_id : String) → Call
  refreshes : (token : String) (now : ℕ) (ip user_agent : String) → Call
  logs_out : (token : String) (now : ℕ) (ip : String) → Call
  logs_out_everywhere : (id : String) (now : ℕ) (ip reason : String) → Call
  revokes_device : (id device_id : String) (now : ℕ) (ip : String) → Call
  authenticates : (token : String) (now : ℕ) → Call
  requests_reset : (email : String) (now : ℕ) (ip : String) → Call
  resets : (token password : String) (now : ℕ) (ip : String) → Call
  checks : (id password : String) (now : ℕ) (ip : String) → Call
  changes : (id current password keep : String) (now : ℕ) (ip : String) → Call
  requests_deletion : (id : String) (now : ℕ) (ip : String) → Call
  cancels_deletion : (id : String) (now : ℕ) (ip : String) → Call
  purges : (now : ℕ) → Call
  joins : (id tenant_id user_id role tenant_name : String) → Call
  enrols : (id label : String) (now : ℕ) (ip : String) → Call
  confirms : (id factor_id code : String) (now : ℕ) (ip : String) → Call
  disables : (id : String) (now : ℕ) (ip : String) → Call
  regenerates : (id : String) (now : ℕ) (ip : String) → Call

module _ (service : AuthService) (day : ℕ → String) where
  -- The state after a call, whether it returns or raises.
  unfoldable pub run : Call → World → World
  run (signs_up email password now ip agent) w = (sign_up service email password now ip agent w).1
  run (resends email now ip) w = (resend_verification service email now ip w).1
  run (verifies token now ip) w = (verify_email service token now ip w).1
  run (logs_in email password tenant now ip agent device) w =
      (log_in service email password tenant now ip agent device w).1
  run (completes token code tenant now ip agent device) w =
      (complete_mfa service token code tenant now ip agent device w).1
  run (refreshes token now ip agent) w = (refresh service token now ip agent w).1
  run (logs_out token now ip) w = (log_out service token now ip w).1
  run (logs_out_everywhere id now ip reason) w = (log_out_everywhere id now ip reason w).1
  run (revokes_device id device now ip) w = (revoke_device id device now ip w).1
  run (authenticates token now) w = (authenticate_live service token now w).1
  run (requests_reset email now ip) w = (request_password_reset service email now ip w).1
  run (resets token password now ip) w = (reset_password service token password now ip w).1
  run (checks id password now ip) w = (check_password service id password now ip w).1
  run (changes id current password keep now ip) w =
      (change_password service id current password keep now ip w).1
  run (requests_deletion id now ip) w = (request_deletion service day id now ip w).1
  run (cancels_deletion id now ip) w = (cancel_deletion id now ip w).1
  run (purges now) w = (purge_due now w).1
  run (joins id tenant user role name) w = (add_membership id tenant user role name w).1
  run (enrols id label now ip) w = (begin_enrolment service id label now ip w).1
  run (confirms id factor code now ip) w = (confirm_enrolment service id factor code now ip w).1
  run (disables id now ip) w = (disable_mfa service id now ip w).1
  run (regenerates id now ip) w = (regenerate_recovery_codes service id now ip w).1

  unfoldable pub run_all : List Call → World → World
  run_all [] w = w
  run_all (c ∷ cs) w = run_all cs (run c w)

  module _ (sid : String) (start : Session) where
    run-IsFollowed :
        (c : Call) (w : World)
        → IsFollowed service sid start w
        → IsFollowed service sid start (run c w)
    unfolding run
    run-IsFollowed (signs_up email password now ip agent) w h =
        (Keeps-sign_up service sid start email password now ip agent).at w h
    run-IsFollowed (resends email now ip) w h =
        (Keeps-resend_verification service sid start email now ip).at w h
    run-IsFollowed (verifies token now ip) w h =
        (Keeps-verify_email service sid start token now ip).at w h
    run-IsFollowed (logs_in email password tenant now ip agent device) w h =
        (Keeps-log_in service sid start email password tenant now ip agent device).at w h
    run-IsFollowed (completes token code tenant now ip agent device) w h =
        (Keeps-complete_mfa service sid start token code tenant now ip agent device).at w h
    run-IsFollowed (refreshes token now ip agent) w h =
        (Keeps-refresh service sid start token now ip agent).at w h
    run-IsFollowed (logs_out token now ip) w h =
        (Keeps-log_out service sid start token now ip).at w h
    run-IsFollowed (logs_out_everywhere id now ip reason) w h =
        (Keeps-log_out_everywhere service sid start id now ip reason).at w h
    run-IsFollowed (revokes_device id device now ip) w h =
        (Keeps-revoke_device service sid start id device now ip).at w h
    run-IsFollowed (authenticates token now) w h =
        (Keeps-authenticate_live service sid start token now).at w h
    run-IsFollowed (requests_reset email now ip) w h =
        (Keeps-request_password_reset service sid start email now ip).at w h
    run-IsFollowed (resets token password now ip) w h =
        (Keeps-reset_password service sid start token password now ip).at w h
    run-IsFollowed (checks id password now ip) w h =
        (Keeps-check_password service sid start id password now ip).at w h
    run-IsFollowed (changes id current password keep now ip) w h =
        (Keeps-change_password service sid start id current password keep now ip).at w h
    run-IsFollowed (requests_deletion id now ip) w h =
        (Keeps-request_deletion service sid start day id now ip).at w h
    run-IsFollowed (cancels_deletion id now ip) w h =
        (Keeps-cancel_deletion service sid start id now ip).at w h
    run-IsFollowed (purges now) w h = (Keeps-purge_due service sid start now).at w h
    run-IsFollowed (joins id tenant user role name) w h =
        (Keeps-add_membership service sid start id tenant user role name).at w h
    run-IsFollowed (enrols id label now ip) w h =
        (Keeps-begin_enrolment service sid start id label now ip).at w h
    run-IsFollowed (confirms id factor code now ip) w h =
        (Keeps-confirm_enrolment service sid start id factor code now ip).at w h
    run-IsFollowed (disables id now ip) w h = (Keeps-disable_mfa service sid start id now ip).at w h
    run-IsFollowed (regenerates id now ip) w h =
        (Keeps-regenerate service sid start id now ip).at w h

    run_all-IsFollowed :
        (cs : List Call) (w : World)
        → IsFollowed service sid start w
        → IsFollowed service sid start (run_all cs w)
    unfolding run_all
    run_all-IsFollowed [] w h = h
    run_all-IsFollowed (c ∷ cs) w h = run_all-IsFollowed cs (run c w) (run-IsFollowed c w h)

  -- A revoked session does not evolve, and the others keep their owner and their ceiling.
  Evolves-revoked : (s t : Session) → Evolves service s t → is_some s.revoked_at ≡ true → t ≡ s
  Evolves-revoked s t here r = refl
  Evolves-revoked s t (next e (rotation now token live q)) r =
      absurd (ground (arith, live, r, Evolves-revoked s _ e r))
  Evolves-revoked s t (next e (revocation now reason open_ q)) r =
      absurd (ground (arith, open_, r, Evolves-revoked s _ e r))

  -- The end of a session, where it is set, is not past its ceiling.
  abbrev pub IsBounded : Session → Type 0
  IsBounded s =
      (end top : ℕ) → s.expires_at ≡ some end → s.absolute_expires_at ≡ some top → end ≤ top

  -- The owner and the ceiling are what they were, and so is the end, unless it was set to one that
  -- is not past the ceiling.
  pub record KeepsBounds (s t : Session) : Type 0 where
    pub same_owner : t.identity_id ≡ s.identity_id
    pub same_ceiling : t.absolute_expires_at ≡ s.absolute_expires_at
    pub bounded : (t.expires_at ≡ s.expires_at) ⊎ IsBounded t
    pub rotated : s.rotations ≤ t.rotations

  ceiling_bounds :
      (x y : ℕ) (a : Option ℕ) (end top : ℕ)
      → some (min x (ceiling a y)) ≡ some end
      → a ≡ some top
      → end ≤ top
  ceiling_bounds x y none end top p r = cc
  ceiling_bounds x y (some c) end top p r = omega (arith, some_inj p, some_inj r)

  Evolves-KeepsBounds : (s t : Session) → Evolves service s t → KeepsBounds s t
  Evolves-KeepsBounds s t here = record {
    same_owner = refl;
    same_ceiling = refl;
    bounded = inl refl;
    rotated = omega arith;
  }
  Evolves-KeepsBounds s t (next {t = u} e (rotation now token live q)) =
      let k = Evolves-KeepsBounds s u e in
      subst (KeepsBounds s) (sym q) (record {
        same_owner = k.same_owner;
        same_ceiling = k.same_ceiling;
        bounded = inr (ceiling_bounds _ _ u.absolute_expires_at);
        rotated = omega (arith, k.rotated);
      })
  Evolves-KeepsBounds s t (next {t = u} e (revocation now reason open_ q)) =
      let k = Evolves-KeepsBounds s u e in
      subst (KeepsBounds s) (sym q) (record {
        same_owner = k.same_owner;
        same_ceiling = k.same_ceiling;
        bounded = k.bounded;
        rotated = k.rotated;
      })

  module _ (sid : String) (s : Session) (w : World) (keyed : IsKeyed session_key w.store.sessions)
      (held : lookup sid w.store.sessions ≡ some s)
      (unborn : (n : ℕ) → w.drawn ≤ n → (("ses_" ⧺ service.hex n) == sid) ≡ false) where
    followed : (cs : List Call) → IsFollowed service sid s (run_all cs w)
    followed cs =
        run_all-IsFollowed sid s cs w
          (record { keyed = keyed; unborn = unborn; row = s; is_row = held; evolved = here })

    -- Over every history a session is only rotated while it is live, and revoked once.
    pub run_all-Evolves :
        (cs : List Call)
        → (t : Session) × (lookup sid (run_all cs w).store.sessions ≡ some t) × Evolves service s t
    run_all-Evolves cs = let h = followed cs in (h.row, h.is_row, h.evolved)

    -- A session that is revoked stays as it is over every history.
    pub run_all-revoked :
        (cs : List Call)
        → is_some s.revoked_at ≡ true
        → lookup sid (run_all cs w).store.sessions ≡ some s
    run_all-revoked cs r =
        let h = followed cs in h.is_row ∙ ap some (Evolves-revoked s h.row h.evolved r)

    -- Over every history a session keeps its owner and its ceiling, and its end, unless the end is
    -- set to one that is not past the ceiling.
    pub run_all-KeepsBounds :
        (cs : List Call)
        → (t : Session) × (lookup sid (run_all cs w).store.sessions ≡ some t) × KeepsBounds s t
    run_all-KeepsBounds cs =
        let h = followed cs in (h.row, h.is_row, Evolves-KeepsBounds s h.row h.evolved)
