-- ===== src/Auth/Totp/Window.antt =====
-- Which codes are accepted: the window around the present step, and no step that was spent.
use clipper_ai.Base.{
  ℕ, zero, suc, ◌+◌, ◌-◌, ◌*◌, ◌≤◌, ◌<◌, ◌≡◌, refl, ◌↔◌, inl, inr, String, Bool, true, false,
  Option, none, some, ◌==◌, ltb, eqb, arith, Bool-cases,
}
use clipper_ai.Base.Text.{characters}
use clipper_ai.Auth.Totp.{
  TotpConfig, Mac, hotp, counter_for, candidates, first_match, unless_replayed, verify_totp,
}

-- `c` passes the test, lies from `low` on among the next `n`, and is the first there to pass it.
pub record IsFirst (p : ℕ → Bool) (centre drift : ℕ) (c : ℕ) : Type 0 where
  pub passes : p c ≡ true
  pub from : centre ≤ c + drift
  pub upto : c ≤ centre + drift
  pub first : (d : ℕ) → centre ≤ d + drift → d < c → p d ≡ false

module _ (p : ℕ → Bool) (centre drift : ℕ) where
  -- The loop from the candidate `centre + k - drift` on, of `n` candidates.
  match_passes : (k n c : ℕ) → first_match p (candidates centre drift k n) ≡ some c → p c ≡ true
  match_passes k zero c e = cc
  match_passes k (suc n) c e = ground (arith, match_passes (suc k) n c)

  match_bounds :
      (k n c : ℕ)
      → first_match p (candidates centre drift k n) ≡ some c
      → (centre + k ≤ c + drift) × (c + drift < (centre + k) + n)
  match_bounds k zero c e = cc
  match_bounds k (suc n) c e = ground (arith, match_bounds (suc k) n c)

  match_first :
      (k n c d : ℕ)
      → first_match p (candidates centre drift k n) ≡ some c
      → centre + k ≤ d + drift
      → d < c
      → p d ≡ false
  match_first k zero c d e h l = cc
  match_first k (suc n) c d e h l =
      ground (arith, match_first (suc k) n c d, match_bounds (suc k) n c)

  match_complete :
      (k n c : ℕ)
      → p c ≡ true
      → centre + k ≤ c + drift
      → c + drift < (centre + k) + n
      → ((d : ℕ) → centre + k ≤ d + drift → d < c → p d ≡ false)
      → first_match p (candidates centre drift k n) ≡ some c
  match_complete k zero c t h l f = absurd (omega arith)
  match_complete k (suc n) c t h l f =
      let next = λ (h' : centre + suc k ≤ c + drift).
        match_complete (suc k) n c t h' (omega arith) (λ d g j. f d (omega arith) j) in
      elim (Bool-cases (ltb (centre + k) drift)) [
        | inl b ↦ ground (arith, next)
        | inr b ↦ elim (Bool-cases (eqb ((centre + k) - drift) c)) [
          | inl e ↦ ground (arith, t)
          | inr e ↦ ground (arith, next, f ((centre + k) - drift))
        ]
      ]

  IsFirst-of_match :
      (c : ℕ)
      → first_match p (candidates centre drift 0 (2 * drift + 1)) ≡ some c
      → IsFirst p centre drift c
  IsFirst-of_match c e =
      let (low, high) = match_bounds 0 (2 * drift + 1) c e in
      record {
        passes = match_passes 0 (2 * drift + 1) c e;
        from = omega (arith, low);
        upto = omega (arith, high);
        first = λ d h l. match_first 0 (2 * drift + 1) c d e (omega arith) l;
      }

  match-of_IsFirst :
      (c : ℕ)
      → IsFirst p centre drift c
      → first_match p (candidates centre drift 0 (2 * drift + 1)) ≡ some c
  match-of_IsFirst c h =
      match_complete 0 (2 * drift + 1) c h.passes (omega (arith, h.from)) (omega (arith, h.upto))
        (λ d g l. h.first d (omega arith) l)

module _ (mac : Mac) (normalise_code : String → String) (config : TotpConfig)
    (secret code : String) where
  -- A step is accepted exactly if its code was typed with all its digits, it is at most `drift` steps
  -- from the present one, no earlier such step has that code, and it comes after the step that was
  -- spent last.
  pub record IsAccepted (at : ℕ) (last : Option ℕ) (c : ℕ) : Type 0 where
    pub length : characters (normalise_code code) ≡ config.digits
    pub first :
        IsFirst
          (λ n. hotp mac secret n config == normalise_code code)
          (counter_for at config)
          config.drift
          c
    pub fresh : (spent : ℕ) → last ≡ some spent → spent < c

  accepted_first : (last o : Option ℕ) (c : ℕ) → unless_replayed last o ≡ some c → o ≡ some c
  accepted_first none none c e = e
  accepted_first none (some d) c e = e
  accepted_first (some l) none c e = e
  accepted_first (some l) (some d) c e = ground (arith, e)

  accepted_fresh :
      (last o : Option ℕ) (c spent : ℕ)
      → unless_replayed last o ≡ some c
      → last ≡ some spent
      → spent < c
  accepted_fresh none o c spent e f = cc
  accepted_fresh (some l) none c spent e f = cc
  accepted_fresh (some l) (some d) c spent e f = ground (arith, e, f)

  fresh_accepted :
      (last : Option ℕ) (c : ℕ)
      → ((spent : ℕ) → last ≡ some spent → spent < c)
      → unless_replayed last (some c) ≡ some c
  fresh_accepted none c f = refl
  fresh_accepted (some l) c f = ground (arith, f l refl)

  -- A code is accepted at a step exactly if the step is in the window, is the first there whose code
  -- was typed in full, and comes after the step that was spent last.
  pub verify_totp_iff :
      (at c : ℕ) (last : Option ℕ)
      → (verify_totp mac normalise_code config secret code at last ≡ some c) ↔ IsAccepted at last c
  unfolding verify_totp
  verify_totp_iff at c last = (forward, backward)
    where
      forward :
          verify_totp mac normalise_code config secret code at last ≡ some c → IsAccepted at last c
      forward e = elim (Bool-cases (eqb (characters (normalise_code code)) config.digits)) [
        | inl b ↦
            let e' : unless_replayed last (
                  first_match (λ n. hotp mac secret n config == normalise_code code)
                    (candidates (counter_for at config) config.drift 0 (2 * config.drift + 1)))
                ≡ some c =
              ground (arith, e, b) in
            record {
              length = ground (arith, b);
              first = IsFirst-of_match _ _ _ c (accepted_first last _ c e');
              fresh = λ spent f. accepted_fresh last _ c spent e' f;
            }
        | inr b ↦ absurd (ground (arith, e, b))
      ]

      backward :
          IsAccepted at last c → verify_totp mac normalise_code config secret code at last ≡ some c
      backward h =
          ground (arith, h.length, match-of_IsFirst _ _ _ c h.first, fresh_accepted last c h.fresh)
