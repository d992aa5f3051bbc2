-- ===== src/Publish/Engine/Outcomes.antt =====
-- What holds of a post after any pass.
use clipper_ai.Base.{ℕ, ◌+◌, ◌≤◌, String}
use clipper_ai.Base.Dict.{Dict}
use clipper_ai.Base.Json.{Json}
use clipper_ai.Publish.Types.{ScheduledPost, attempt_count}
use clipper_ai.Publish.Retry.{Outside}
use clipper_ai.Publish.Retry.Laws.{IsHttp}
use clipper_ai.Publish.Engine.{Pass, Adapter, Reply}
use clipper_ai.Publish.Engine.Failures.{IsSettled}

module _ {Request : Type 0} (o : Outside) (http : IsHttp o) (show : Json → String)
    (now max_requests : ℕ) (adapter : Adapter Request) (send : ℕ → Request → Reply) where
  -- A pass that has run leaves the post settled, with at most one attempt more.
  abbrev pub IsPass : ScheduledPost → Pass → Type 0
  IsPass p r = IsSettled now (attempt_count r.1) r × (attempt_count r.1 ≤ attempt_count p + 1)
