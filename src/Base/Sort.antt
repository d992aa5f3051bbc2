-- ===== src/Base/Sort.antt =====
-- Python's stable sort by a key, given as the strict order of the keys.
use mathlib.Core.Path.{◌≡◌, refl}
use mathlib.Core.Bool.{Bool, true, false}
use mathlib.Core.Logic.{◌⊎◌, inl, inr}
use mathlib.Core.List.{List, [], ◌∷◌}
use Prim.Native.Nat.{ℕ, zero, suc}
use native.Mathlib.Omega.{arith}
use clipper_ai.Base.Tests.{if◌then◌else◌, Bool-cases}
use clipper_ai.Base.Lists.{All, Occurs, length, take, drop, All-of_Occurs, All-Occurs}

module _ {A : Type 0} (lt : A → A → Bool) where
  abbrev pub place : A → List A → List A
  place x [] = x ∷ []
  place x (y ∷ ys) = if lt y x then y ∷ place x ys else x ∷ y ∷ ys

  unfoldable pub sort : List A → List A
  sort [] = []
  sort (x ∷ xs) = place x (sort xs)

  -- No element is before one that stands in front of it.
  abbrev pub IsSorted : List A → Type 0
  IsSorted [] = Unit
  IsSorted (x ∷ xs) = All (λ y. lt y x ≡ false) xs × IsSorted xs

  Occurs-place : (a x : A) (ys : List A) → Occurs a (place x ys) → (a ≡ x) ⊎ Occurs a ys
  Occurs-place a x [] h = h
  Occurs-place a x (y ∷ ys) h = ground (arith, Occurs-place a x ys)

  place-Occurs : (a x : A) (ys : List A) → (a ≡ x) ⊎ Occurs a ys → Occurs a (place x ys)
  place-Occurs a x [] h = h
  place-Occurs a x (y ∷ ys) h = ground (arith, place-Occurs a x ys)

  pub Occurs-sort : (a : A) (xs : List A) → Occurs a (sort xs) → Occurs a xs
  unfolding sort
  Occurs-sort a [] h = h
  Occurs-sort a (x ∷ xs) h = ground (arith, Occurs-place a x (sort xs) h, Occurs-sort a xs)

  pub sort-Occurs : (a : A) (xs : List A) → Occurs a xs → Occurs a (sort xs)
  unfolding sort
  sort-Occurs a [] h = h
  sort-Occurs a (x ∷ xs) (inl e) = place-Occurs a x (sort xs) (inl e)
  sort-Occurs a (x ∷ xs) (inr h) = place-Occurs a x (sort xs) (inr (sort-Occurs a xs h))

  length-place : (x : A) (ys : List A) → length (place x ys) ≡ suc (length ys)
  length-place x [] = refl
  length-place x (y ∷ ys) = ground (arith, length-place x ys)

  pub length-sort : (xs : List A) → length (sort xs) ≡ length xs
  unfolding sort
  length-sort [] = refl
  length-sort (x ∷ xs) = ground (arith, length-place x (sort xs), length-sort xs)

  -- What the order of the keys has to obey.
  pub record IsOrder : Type 0 where
    pub asym : (a b : A) → lt a b ≡ true → lt b a ≡ false
    pub trans : (a b c : A) → lt b a ≡ false → lt c b ≡ false → lt c a ≡ false

  module _ (o : IsOrder) where
    place-IsSorted : (x : A) (ys : List A) → IsSorted ys → IsSorted (place x ys)
    place-IsSorted x [] s = (tt, tt)
    place-IsSorted x (y ∷ ys) s = elim (Bool-cases (lt y x)) [
      | inl e ↦
          rw e (All-of_Occurs (λ z. lt z y ≡ false) (place x ys) (front e), place-IsSorted x ys s.1)
      | inr e ↦ rw e ((e, All-of_Occurs (λ z. lt z x ≡ false) ys (behind e)), s)
    ]
      where
        front : lt y x ≡ true → (a : A) → Occurs a (place x ys) → lt a y ≡ false
        front e a m = elim (Occurs-place a x ys m) [
          | inl p ↦ rw p (o.asym y x e)
          | inr q ↦ All-Occurs (λ z. lt z y ≡ false) a ys s.0 q
        ]

        behind : lt y x ≡ false → (a : A) → Occurs a ys → lt a x ≡ false
        behind e a m = o.trans x y a e (All-Occurs (λ z. lt z y ≡ false) a ys s.0 m)

    pub sort-IsSorted : (xs : List A) → IsSorted (sort xs)
    unfolding sort
    sort-IsSorted [] = tt
    sort-IsSorted (x ∷ xs) = place-IsSorted x (sort xs) (sort-IsSorted xs)

  -- In a sorted list nothing behind the first `n` is before one of them.
  pub take-drop-IsSorted :
      (n : ℕ) (a b : A) (xs : List A)
      → IsSorted xs
      → Occurs a (take n xs)
      → Occurs b (drop n xs)
      → lt b a ≡ false
  take-drop-IsSorted zero a b xs s m k = absurd m
  take-drop-IsSorted (suc n) a b [] s m k = absurd m
  take-drop-IsSorted (suc n) a b (x ∷ xs) s (inl e) k =
      rw e (All-Occurs (λ z. lt z x ≡ false) b xs s.0 (Occurs-drop n b xs k))
    where
      Occurs-drop : (n : ℕ) (b : A) (xs : List A) → Occurs b (drop n xs) → Occurs b xs
      Occurs-drop zero b xs k = k
      Occurs-drop (suc n) b [] k = k
      Occurs-drop (suc n) b (x ∷ xs) k = inr (Occurs-drop n b xs k)
  take-drop-IsSorted (suc n) a b (x ∷ xs) s (inr m) k = take-drop-IsSorted n a b xs s.1 m k
