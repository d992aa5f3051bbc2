-- ===== src/Publish/Calendar/Nearest.antt =====
-- What `nearest` finds in a sorted index.
use clipper_ai.Base.{
  ℕ, ◌≤◌, ◌<◌, ◌≡◌, refl, false, Option, none, some, List, [], ◌∷◌, arith, All, inl, inr, ltb,
  Bool-cases, ltb→lt,
}
use clipper_ai.Publish.Types.{ScheduledPost, is_terminal}
use clipper_ai.Publish.Calendar.{neighbours, nearest_in, distance, candidate, first_of}
use clipper_ai.Publish.Calendar.Index.{IsSortedIndex}

-- The post is far from the instant.
abbrev pub IsFar : ℕ → ℕ → ScheduledPost → Type 0
IsFar moment within q = within ≤ distance q.run_at moment

abbrev IsFarOption : ℕ → ℕ → Option ScheduledPost → Type 0
IsFarOption moment within none = Unit
IsFarOption moment within (some q) = IsFar moment within q

module _ (moment within : ℕ) where
  behind-IsFar :
      (t : ℕ) (index : List ScheduledPost)
      → moment ≤ t
      → within ≤ distance t moment
      → All (λ q. t ≤ q.run_at) index
      → All (IsFar moment within) index
  behind-IsFar t [] l f h = tt
  behind-IsFar t (q ∷ index) l f h = (omega (arith, l, f, h.0), behind-IsFar t index l f h.1)

  -- If the neighbours are far, then so is everything in the index.
  before-IsFar :
      (b : ScheduledPost) (index : List ScheduledPost)
      → IsSortedIndex (b ∷ index)
      → b.run_at < moment
      → IsFarOption moment within (neighbours moment (some b) index).0
      → IsFarOption moment within (neighbours moment (some b) index).1
      → All (IsFar moment within) (b ∷ index)
  unfolding neighbours
  before-IsFar b [] s l f g = (f, tt)
  before-IsFar b (q ∷ index) s l f g = elim (Bool-cases (ltb q.run_at moment)) [
    | inl e ↦
        let h = before-IsFar q index s.1 (ltb→lt q.run_at moment e) (rw e at f) (rw e at g) in
        (omega (arith, s.0.0, ltb→lt q.run_at moment e, h.0), h)
    | inr e ↦
        let near : IsFar moment within q = rw e at g in
        (rw e at f, (near, behind-IsFar q.run_at index (ground (arith, e)) near s.1.0))
  ]

  neighbours-IsFar :
      (index : List ScheduledPost)
      → IsSortedIndex index
      → IsFarOption moment within (neighbours moment none index).0
      → IsFarOption moment within (neighbours moment none index).1
      → All (IsFar moment within) index
  unfolding neighbours
  neighbours-IsFar [] s f g = tt
  neighbours-IsFar (q ∷ index) s f g = elim (Bool-cases (ltb q.run_at moment)) [
    | inl e ↦ before-IsFar q index s (ltb→lt q.run_at moment e) (rw e at f) (rw e at g)
    | inr e ↦
        let near : IsFar moment within q = rw e at g in
        (near, behind-IsFar q.run_at index (ground (arith, e)) near s.0)
  ]

  IsActive : Option ScheduledPost → Type 0
  IsActive none = Unit
  IsActive (some q) = is_terminal q ≡ false

  neighbours-IsActive :
      (before : Option ScheduledPost) (index : List ScheduledPost)
      → IsActive before
      → All (λ q. is_terminal q ≡ false) index
      → IsActive (neighbours moment before index).0 × IsActive (neighbours moment before index).1
  unfolding neighbours IsActive
  neighbours-IsActive before [] b h = (b, tt)
  neighbours-IsActive before (q ∷ index) b h = elim (Bool-cases (ltb q.run_at moment)) [
    | inl e ↦ rw e (neighbours-IsActive (some q) index h.0 h.1)
    | inr e ↦ rw e (b, h.0)
  ]

  candidate-IsFar :
      (o : Option ScheduledPost)
      → IsActive o
      → candidate moment within o ≡ none
      → IsFarOption moment within o
  unfolding IsActive
  candidate-IsFar none a e = tt
  candidate-IsFar (some q) a e = ground (arith, a, e)

  none-first_of : (a b : Option ScheduledPost) → first_of a b ≡ none → (a ≡ none) × (b ≡ none)
  none-first_of none b e = (refl, e)
  none-first_of (some q) b e = cc

  -- In a sorted index whose posts all have work left, if the search between two neighbours finds
  -- nothing, then no post of the index is within the distance.
  pub nearest_complete :
      (index : List ScheduledPost)
      → IsSortedIndex index
      → All (λ q. is_terminal q ≡ false) index
      → nearest_in index moment within ≡ none
      → All (IsFar moment within) index
  unfolding nearest_in IsActive
  nearest_complete index s a e =
      let n = neighbours moment none index in
      let act = neighbours-IsActive none index tt a in
      let (e0, e1) = none-first_of (candidate moment within n.0) (candidate moment within n.1) e in
      neighbours-IsFar index s (candidate-IsFar n.0 act.0 e0) (candidate-IsFar n.1 act.1 e1)
