-- ===== src/Auth/Core/Limits.antt =====
-- The rate limit lets through what its rule says, however often it is hit.
use clipper_ai.Base.{
  refl, inl, inr, Bool-cases, if◌then◌else◌, raised, ℕ, suc, ◌+◌, ◌-◌, ◌<◌, min, ◌≡◌, arith, String,
  true, none, some, List, [], ◌∷◌, ◌==◌, eq_refl, ltb, length, seconds, All,
}
use clipper_ai.Base.Dict.{lookup}
use clipper_ai.Auth.Core.{AuthService, World, bucket, limit}
use clipper_ai.Auth.Store.{RateLimitBucket, AuthStore, find, is_bucket, counted, hit_rate_limit}

-- An attempt within the window of a bucket is counted in it.
hit_open :
    (key action : String) (window_s now : ℕ) (s : AuthStore) (b : RateLimitBucket)
    → find (is_bucket key action) s.buckets ≡ some b
    → (b.key == key) ≡ true
    → (b.action == action) ≡ true
    → now < b.window_started_at + seconds window_s
    → ((hit_rate_limit key action window_s now s).0 ≡ b.count + 1)
      × (find (is_bucket key action) (hit_rate_limit key action window_s now s).1.buckets
          ≡ some (counted b))
unfolding hit_rate_limit
hit_open key action window_s now s b e k a l = rw e (ground (arith, k, a, l))

abbrev pub first_bucket : String → String → ℕ → RateLimitBucket
first_bucket key action first = record {
  key = key;
  action = action;
  window_started_at = first;
  count = 1;
}

hit_fresh :
    (key action : String) (window_s first : ℕ) (s : AuthStore)
    → find (is_bucket key action) s.buckets ≡ none
    → ((hit_rate_limit key action window_s first s).0 ≡ 1)
      × (find (is_bucket key action) (hit_rate_limit key action window_s first s).1.buckets
          ≡ some (first_bucket key action first))
unfolding hit_rate_limit
hit_fresh key action window_s first s e = rw e (ground (arith, eq_refl key, eq_refl action))

module _ (service : AuthService) (action key ip email : String) where
  -- How many of the attempts at the given instants are let through, one after the other.
  unfoldable pub let_through : List ℕ → World → ℕ
  let_through [] w = 0
  let_through (now ∷ nows) w =
      let (answer, after) = limit service action key now ip email w in
      let later = let_through nows after in if raised answer then later else suc later

  abbrev buckets : World → List RateLimitBucket
  buckets w = w.store.buckets

  module _ (most window_s : ℕ)
      (rule : lookup action service.config.rate_limits ≡ some (most, window_s)) where
    -- An attempt is refused exactly if it is told a count over the limit.
    limit-hit :
        (now : ℕ) (w : World)
        → let told = hit_rate_limit (bucket action key) action window_s now w.store in
          (raised (limit service action key now ip email w).0 ≡ ltb most told.0)
          × (buckets (limit service action key now ip email w).1 ≡ told.1.buckets)
    unfolding limit
    limit-hit now w =
        let count = (hit_rate_limit (bucket action key) action window_s now w.store).0 in
        elim (Bool-cases (ltb most count)) [
          | inl b ↦ rw rule (rw b (refl, refl))
          | inr b ↦ rw rule (rw b (refl, refl))
        ]

    let_through_open :
        (nows : List ℕ) (w : World) (b : RateLimitBucket)
        → find (is_bucket (bucket action key) action) (buckets w) ≡ some b
        → (b.key == bucket action key) ≡ true
        → (b.action == action) ≡ true
        → All (λ now. now < b.window_started_at + seconds window_s) nows
        → let_through nows w ≡ min (most - b.count) (length nows)
    unfolding let_through
    let_through_open [] w b e k a l = omega arith
    let_through_open (now ∷ nows) w b e k a l =
        let (told, stands) = hit_open (bucket action key) action window_s now w.store b e k a l.0 in
        let (answer, after) = limit-hit now w in
        let rest =
          let_through_open nows (limit service action key now ip email w).1 (counted b)
            (rw after stands) k a l.1 in
        ground (arith, told, answer, rest)

    -- With a rule for the action and no bucket, of the attempts within one window of the first as
    -- many are let through as the rule allows, and the others are refused.
    pub let_through-fresh :
        (first : ℕ) (nows : List ℕ) (w : World)
        → find (is_bucket (bucket action key) action) w.store.buckets ≡ none
        → All (λ now. now < first + seconds window_s) nows
        → let_through (first ∷ nows) w ≡ min most (suc (length nows))
    unfolding let_through
    let_through-fresh first nows w e l =
        let (told, stands) = hit_fresh (bucket action key) action window_s first w.store e in
        let (answer, after) = limit-hit first w in
        let rest =
          let_through_open nows (limit service action key first ip email w).1
            (first_bucket (bucket action key) action first) (rw after stands)
            (eq_refl (bucket action key)) (eq_refl action) l in
        ground (arith, told, answer, rest)
