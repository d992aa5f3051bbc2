-- ===== src/Publish/Calendar/Conflicts/Spacing.antt =====
-- What it says of the posts of an account that `conflicts` finds nothing in their spacing.
use clipper_ai.Base.{
  ℕ, ◌≤◌, ◌+◌, ◌-◌, ◌≡◌, refl, ◌↔◌, inl, inr, arith, List, [], ◌∷◌, ltb, All, Bool-cases,
}
use clipper_ai.Publish.Types.{ScheduledPost}
use clipper_ai.Publish.Calendar.{min_spacing}
use clipper_ai.Publish.Calendar.Conflicts.{Conflict, spacing_from, spacing_in}

-- Every two posts are the floor of the spacing apart.
abbrev pub IsSpaced : List ScheduledPost → Type 0
IsSpaced [] = Unit
IsSpaced (p ∷ group) = All (λ q. p.run_at + min_spacing ≤ q.run_at) group × IsSpaced group

All-le :
    (t u : ℕ) (group : List ScheduledPost)
    → t ≤ u
    → All (λ q. u ≤ q.run_at) group
    → All (λ q. t ≤ q.run_at) group
All-le t u [] l h = tt
All-le t u (q ∷ group) l h = (omega (arith, l, h.0), All-le t u group l h.1)

not_empty : (x : Conflict) (xs : List Conflict) → x ∷ xs ≡ [] → ⊥
not_empty x xs e = cc

spacing_from-IsSpaced :
    (p : ScheduledPost) (group : List ScheduledPost)
    → spacing_from p group ≡ []
    → IsSpaced (p ∷ group)
unfolding spacing_from
spacing_from-IsSpaced p [] e = (tt, tt)
spacing_from-IsSpaced p (q ∷ group) e = elim (Bool-cases (ltb (q.run_at - p.run_at) min_spacing)) [
  | inl b ↦ absurd (not_empty _ _ (rw b at e))
  | inr b ↦
      let h = spacing_from-IsSpaced q group (rw b at e) in
      let l : p.run_at + min_spacing ≤ q.run_at = ground (arith, b) in
      (
        (l, All-le (p.run_at + min_spacing) (q.run_at + min_spacing) group (omega (arith, l)) h.0),
        h,
      )
]

IsSpaced-spacing_from :
    (p : ScheduledPost) (group : List ScheduledPost)
    → IsSpaced (p ∷ group)
    → spacing_from p group ≡ []
unfolding spacing_from
IsSpaced-spacing_from p [] h = refl
IsSpaced-spacing_from p (q ∷ group) h = ground (arith, h.0.0, IsSpaced-spacing_from q group h.1)

-- A group of posts in the order in which it is given has no conflict of spacing exactly if every
-- two of its posts are the floor of the spacing apart.
pub spacing_in_iff : (group : List ScheduledPost) → (spacing_in group ≡ []) ↔ IsSpaced group
spacing_in_iff [] = (λ e. tt, λ h. refl)
spacing_in_iff (p ∷ group) = (spacing_from-IsSpaced p group, IsSpaced-spacing_from p group)
