-- ===== src/Publish/Limits/Checks.antt =====
-- What the checks before scheduling promise.
use clipper_ai.Base.{◌≡◌, ◌↔◌, true, arith}
use clipper_ai.Publish.Types.{Account, public}
use clipper_ai.Publish.Limits.{effective_visibility, readiness}

-- An account is reported as automated exactly if it is enabled and a post that asks to be public
-- becomes public on it.
pub automated_iff_public :
    (a : Account)
    → (readiness a).automated ≡ true ↔ (a.enabled ≡ true) × (effective_visibility a public ≡ public)
unfolding readiness effective_visibility
automated_iff_public a = ground arith
