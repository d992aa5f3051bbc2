-- ===== src/Auth/History/Steps.antt =====
-- The helpers of the flows leave every session in its history.
use clipper_ai.Base.{
  ℕ, refl, arith, String, Option, none, some, modify, Keeps, Keeps-bind, Keeps-if, Keeps-raise,
  Keeps-pure,
}
use clipper_ai.Base.Dict.{lookup}
use clipper_ai.Auth.Types.{AuthError, AuthEvent, Session}
use clipper_ai.Auth.Core.{AuthService, Mail, update_with, audit, post_mail, send, limit, limit_by}
use clipper_ai.Auth.Store.{hit_rate_limit}
use clipper_ai.Auth.History.{IsFollowed, quiet, Keeps-update, Keeps-update_with}

module _ (service : AuthService) (sid : String) (start : Session) where
  pub Keeps-audit : (e : AuthEvent) → Keeps (IsFollowed service sid start) (audit e)
  Keeps-audit e = search Keeps-update

  Keeps-post :
      (m : Mail) → Keeps {E = AuthError} (IsFollowed service sid start) (modify (post_mail m))
  Keeps-post m = record { at = λ w h. quiet service sid start w _ refl (omega arith) h }

  pub Keeps-send : (now : ℕ) (m : Mail) → Keeps (IsFollowed service sid start) (send service now m)
  unfolding send
  Keeps-send now m = search (Keeps-bind, Keeps-post, Keeps-if, Keeps-pure, Keeps-audit)

  Keeps-hit :
      (key action : String) (window_s now : ℕ)
      → Keeps (IsFollowed service sid start) (update_with (hit_rate_limit key action window_s now))
  unfolding hit_rate_limit
  Keeps-hit key action window_s now = Keeps-update_with service sid start _ (λ s. refl)

  pub Keeps-limit :
      (action key : String) (now : ℕ) (ip email : String)
      → Keeps (IsFollowed service sid start) (limit service action key now ip email)
  unfolding limit
  Keeps-limit action key now ip email = by_rule (lookup action service.config.rate_limits)
    where
      by_rule :
          (o : Option (ℕ × ℕ))
          → Keeps (IsFollowed service sid start) (limit_by service o action key now ip email)
      by_rule none = Keeps-pure tt
      by_rule (some (most, window_s)) =
          search (Keeps-bind, Keeps-hit, Keeps-if, Keeps-pure, Keeps-audit, Keeps-raise)
